-- ===== src/Ro/Process.antt =====
-- The checks of ProcessContext in ro/source/impl/ro_service_impl.cpp: of a program, and of an NRO
-- against the NRRs that are registered.
use nx_sysmodules.Base.{
  ℕ, ◌+◌, Bool, true, false, ◌&&◌, ◌||◌, none, some, List, [], ◌∷◌, take, get_elem?, leb, ◌==◌,
  if◌then◌else◌, bytes_eq,
}
use nx_sysmodules.Base.Outcome.{
  ◌>>=◌, ◌>>◌, pure, gets, modify, require, require_some, abort_unless_some, guarded,
}
use nx_sysmodules.Base.Search.{bytes_lt, lower_bound}
use nx_sysmodules.Ro.World.{Handle, Kernel, NroHeader, invalid_handle}
use nx_sysmodules.Ro.State.{
  NrrInfo, ProcessContext, M, already_loaded, invalid_nro, not_authorized, out_of_address_space,
  try_memory, get_nro_info_by_module_id,
}
use nx_sysmodules.Ro.Addresses.{is_aligned}
use nx_sysmodules.Ro.Nrr.{validate_nrr_hash_table_entry, close}

-- What ValidateNro reads off: the module id and the sizes of the three sections.
pub record NroLayout : Type 0 where
  pub id : List ℕ
  pub rx_size : ℕ
  pub ro_size : ℕ
  pub rw_size : ℕ

module _ {Mem : Type 0} (k : Kernel Mem) where
  unfoldable pub get_program_id : ProcessContext → Handle → M Mem ℕ
  get_program_id c other =
      let process = if other == invalid_handle then c.process_handle else other in
      if k.is_3_0_0
      then abort_unless_some (k.program_id_of process)
      else abort_unless_some (k.process_id_of process) >>= λ id. abort_unless_some (k.ask_pm id)

  -- Does the table of an NRR, as it is mapped and as it was registered, hold the hash?
  unfoldable pub nrr_has_hash : Mem → NrrInfo → List ℕ → Bool
  nrr_has_hash m info hash =
      let header = k.nrr_header m info.mapped_header in
      let mapped = take header.num_hashes header.hashes in
      if header.num_hashes == 0
      then false
      else elim (get_elem? mapped (lower_bound (λ h. bytes_lt h hash) mapped)) [
        | none ↦ false
        | some h ↦
            bytes_eq h hash
            && validate_nrr_hash_table_entry k info.cached_signed_area info.cached_signed_area_size
                info.cached_hashes_offset info.cached_num_hashes info.signed_area_hash header.hashes
                hash
      ]

  -- The loop over the NRRs in use.
  unfoldable pub has_hash : Mem → List Bool → List NrrInfo → List ℕ → Bool
  unfolding nrr_has_hash
  has_hash m [] infos hash = false
  has_hash m (used ∷ bs) [] hash = false
  has_hash m (used ∷ bs) (info ∷ infos) hash =
      used && nrr_has_hash m info hash || has_hash m bs infos hash

  unfoldable pub validate_has_nro_hash : ProcessContext → NroHeader → M Mem (Unit {0})
  unfolding has_hash
  validate_has_nro_hash c header = do
    m ← gets (λ s. s.memory)
    require (has_hash m c.nrr_in_use c.nrr_infos (k.sha256 header.content)) not_authorized

  abbrev pub is_valid_layout : NroHeader → ℕ → ℕ → Bool
  is_valid_layout h nro_size bss_size =
      h.magic_valid
      && h.size == nro_size
      && h.bss_size == bss_size
      && is_aligned h.text_size k.page_size
      && is_aligned h.ro_size k.page_size
      && is_aligned h.rw_size k.page_size
      && is_aligned h.bss_size k.page_size
      && leb h.text_offset h.ro_offset
      && leb h.ro_offset h.rw_offset
      && h.text_offset == 0
      && h.text_offset + h.text_size == h.ro_offset
      && h.ro_offset + h.ro_size == h.rw_offset
      && h.rw_offset + h.rw_size == h.size

  -- The checks and the patches on the mapped NRO at `address`.
  unfoldable pub validate_mapped_nro : ProcessContext → ℕ → ℕ → ℕ → M Mem NroLayout
  unfolding validate_has_nro_hash get_nro_info_by_module_id
  validate_mapped_nro c address nro_size bss_size = do
    header ← gets (λ s. k.nro_header s.memory address)
    require (is_valid_layout header nro_size bss_size) invalid_nro
    validate_has_nro_hash c header
    require (elim (get_nro_info_by_module_id header.module_id c) [ none ↦ true | some x ↦ false ])
        already_loaded
    modify
        (λ s. record s { memory = k.apply_patches s.memory header.module_id address header.size })
    pure (record {
      id = header.module_id;
      rx_size = header.text_size;
      ro_size = header.ro_size;
      rw_size = header.rw_size;
    })

  unfoldable pub validate_nro : ProcessContext → ℕ → ℕ → ℕ → M Mem NroLayout
  unfolding validate_mapped_nro
  validate_nro c base nro_size bss_size = do
    space ← gets (λ s. k.locate_mappable_space s.memory nro_size)
    address ← require_some space out_of_address_space
    try_memory (λ m. k.open_map m address c.process_handle base nro_size)
    layout ←
        guarded (close k address c.process_handle base nro_size)
          (validate_mapped_nro c address nro_size bss_size)
    close k address c.process_handle base nro_size
    pure layout
