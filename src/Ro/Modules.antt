-- ===== src/Ro/Modules.antt =====
-- The handlers of ro/source/impl/ro_service_impl.cpp: loading and unloading NRRs and NROs, and the
-- list of a process's modules.
use nx_sysmodules.Base.{
  ℕ, zero, suc, ◌+◌, Bool, true, false, none, some, List, [], ◌∷◌, get_or, take, leb,
}
use nx_sysmodules.Base.Outcome.{◌>>=◌, ◌>>◌, pure, gets, modify, require, require_some, guarded}
use nx_sysmodules.Ro.World.{Handle, Kernel, u64}
use nx_sysmodules.Ro.State.{
  NroInfo, ProcessContext, zero_nro, zero_nrr, State, M, too_many_nro, too_many_nrr,
  invalid_address, invalid_size, not_loaded, not_registered, get_free_nro_info, get_free_nrr_info,
  get_nro_info_by_address, get_nrr_info_by_address, set_nrr_info_in_use, set_nro_info_in_use,
  write_nrr, write_nro, put_context, context_at,
}
use nx_sysmodules.Ro.Addresses.{
  is_aligned, validate_address_and_non_zero_size, validate_address_and_size,
}
use nx_sysmodules.Ro.Nro.{map_nro, set_nro_perms, unmap_nro}
use nx_sysmodules.Ro.Nrr.{map_and_validate_nrr, unmap_nrr, sub64}
use nx_sysmodules.Ro.Process.{NroLayout, get_program_id, validate_nro}
use nx_sysmodules.Ro.Contexts.{require_context, get_context_by_process_id}

-- LoaderModuleInfo
pub record LoaderModuleInfo : Type 0 where
  pub build_id : List ℕ
  pub base_address : ℕ
  pub size : ℕ

module _ {Mem : Type 0} where
  -- Writes to a context, and to an NRO slot of it.
  abbrev pub update_context : ℕ → (ProcessContext → ProcessContext) → State Mem → State Mem
  update_context id f s = put_context id (f (context_at id s)) s

  abbrev pub update_nro : ℕ → ℕ → (NroInfo → NroInfo) → State Mem → State Mem
  update_nro id i f = update_context id (λ c. write_nro i (f (get_or c.nro_infos i zero_nro)) c)

-- The arguments of LoadNro.
pub record NroRequest : Type 0 where
  pub nro_address : ℕ
  pub nro_size : ℕ
  pub bss_address : ℕ
  pub bss_size : ℕ

module _ {Mem : Type 0} (k : Kernel Mem) where
  -- `process_h` overrides the handle of the context where it is valid.
  unfoldable pub load_nrr : ℕ → Handle → ℕ → ℕ → ℕ → Bool → M Mem (Unit {0})
  unfolding put_context write_nrr set_nrr_info_in_use
  load_nrr id process_h address size expected_type enforce_type = do
    c ← require_context id
    program_id ← get_program_id k c process_h
    validate_address_and_non_zero_size k.page_size address size
    slot ← require_some (get_free_nrr_info c) too_many_nrr
    found ←
        map_and_validate_nrr k c.process_handle program_id address size expected_type enforce_type
    header ← gets (λ s. k.nrr_header s.memory found.0)
    modify (
        update_context id (λ c.
          write_nrr slot.0
            (record {
              mapped_header = found.0;
              nrr_heap_address = address;
              nrr_heap_size = size;
              mapped_code_address = found.1;
              cached_signed_area_size = header.signed_area_size;
              cached_hashes_offset = header.hashes_offset;
              cached_num_hashes = header.num_hashes;
              cached_signed_area =
                  take (sub64 header.hashes_offset k.signed_area_offset)
                    (take (sub64 k.nrr_header_size k.signed_area_offset) header.signed_area);
              signed_area_hash = found.2;
            })
            (set_nrr_info_in_use slot.0 true c)))

  unfoldable pub unload_nrr : ℕ → ℕ → M Mem (Unit {0})
  unfolding put_context write_nrr set_nrr_info_in_use
  unload_nrr id address = do
    c ← require_context id
    require (is_aligned address k.page_size) invalid_address
    slot ← require_some (get_nrr_info_by_address address c) not_registered
    modify (update_context id (λ c. write_nrr slot.0 zero_nrr (set_nrr_info_in_use slot.0 false c)))
    unmap_nrr k c.process_handle slot.1.mapped_header slot.1.nrr_heap_address slot.1.nrr_heap_size
        slot.1.mapped_code_address

  -- The end of LoadNro, in the slot i.
  unfoldable pub finish_nro : ℕ → ℕ → ℕ → NroLayout → M Mem ℕ
  unfolding put_context write_nro set_nro_info_in_use
  finish_nro id i base layout = do
    modify (update_context id (set_nro_info_in_use i true))
    modify (
        update_nro id i (λ x. record x {
          code_size = u64 (layout.rx_size + layout.ro_size);
          rw_size = layout.rw_size;
        }))
    pure base

  -- LoadNro from the permissions on.
  unfoldable pub permit_nro : ℕ → ℕ → Handle → NroRequest → ℕ → NroLayout → M Mem ℕ
  unfolding finish_nro
  permit_nro id i process r base layout = do
    guarded
        (unmap_nro k process base r.nro_address r.bss_address r.bss_size
          (u64 (layout.rx_size + layout.ro_size)) layout.rw_size)
        (set_nro_perms k process base layout.rx_size layout.ro_size
          (u64 (layout.rw_size + r.bss_size)))
    finish_nro id i base layout

  -- LoadNro from the validation on.
  unfoldable pub check_nro : ℕ → ℕ → Handle → NroRequest → ℕ → M Mem ℕ
  unfolding permit_nro put_context write_nro
  check_nro id i process r base = do
    c ← gets (context_at id)
    layout ←
        guarded (unmap_nro k process base r.nro_address r.bss_address r.bss_size r.nro_size 0)
          (validate_nro k c base r.nro_size r.bss_size)
    modify (update_nro id i (λ x. record x { module_id = layout.id }))
    permit_nro id i process r base layout

  -- LoadNro from the mapping on.
  unfoldable pub load_nro_into : ℕ → ℕ → Handle → NroRequest → M Mem ℕ
  unfolding check_nro put_context write_nro
  load_nro_into id i process r = do
    base ← map_nro k process r.nro_address r.nro_size r.bss_address r.bss_size
    modify (update_nro id i (λ x. record x { base_address = base }))
    check_nro id i process r base

  unfoldable pub load_nro : ℕ → NroRequest → M Mem ℕ
  unfolding load_nro_into put_context write_nro
  load_nro id r = do
    c ← require_context id
    validate_address_and_non_zero_size k.page_size r.nro_address r.nro_size
    validate_address_and_size k.page_size r.bss_address r.bss_size
    require (leb r.nro_size (u64 (r.nro_size + r.bss_size))) invalid_size
    require (leb r.bss_size (u64 (r.nro_size + r.bss_size))) invalid_size
    slot ← require_some (get_free_nro_info c) too_many_nro
    modify (
        update_nro id slot.0 (λ x. record x {
          nro_heap_address = r.nro_address;
          nro_heap_size = r.nro_size;
          bss_heap_address = r.bss_address;
          bss_heap_size = r.bss_size;
        }))
    load_nro_into id slot.0 c.process_handle r

  unfoldable pub unload_nro : ℕ → ℕ → M Mem (Unit {0})
  unfolding put_context write_nro set_nro_info_in_use
  unload_nro id address = do
    c ← require_context id
    require (is_aligned address k.page_size) invalid_address
    slot ← require_some (get_nro_info_by_address address c) not_loaded
    modify (update_context id (λ c. write_nro slot.0 zero_nro (set_nro_info_in_use slot.0 false c)))
    unmap_nro k c.process_handle slot.1.base_address slot.1.nro_heap_address slot.1.bss_heap_address
        slot.1.bss_heap_size slot.1.code_size slot.1.rw_size

-- The infos of the NROs in use, as many as there is room for.
unfoldable pub module_infos : ℕ → List Bool → List NroInfo → List LoaderModuleInfo
module_infos room [] infos = []
module_infos room (used ∷ bs) [] = []
module_infos zero (used ∷ bs) (x ∷ infos) = []
module_infos (suc room) (false ∷ bs) (x ∷ infos) = module_infos (suc room) bs infos
module_infos (suc room) (true ∷ bs) (x ∷ infos) =
    record {
      build_id = x.module_id;
      base_address = x.base_address;
      size = u64 (x.nro_heap_size + x.bss_heap_size);
    }
    ∷ module_infos room bs infos

unfoldable pub get_process_module_info : {Mem : Type 0} → ℕ → ℕ → State Mem → List LoaderModuleInfo
unfolding module_infos
get_process_module_info max_out_count process_id s =
    elim (get_context_by_process_id process_id s.contexts) [
      | none ↦ []
      | some i ↦ let c = context_at i s in module_infos max_out_count c.nro_in_use c.nro_infos
    ]
