-- ===== src/Ro/Unloading.antt =====
-- UnloadNro of ro/source/impl/ro_service_impl.cpp after LoadNro.
use mathlib.Core.Path.{subst}
use nx_sysmodules.Base.{
  ℕ, ◌^◌, ◌<◌, ◌≡◌, ◌≢◌, inl, inr, refl, ap, ◌∙◌, Bool, true, false, ◌&&◌, none, some, List, arith,
  length, set, get_elem?, get_or-set, set-set, set_get, ◌==◌, Bool-cases,
}
use nx_sysmodules.Base.Outcome.{ok, require, require_some, bind_ok}
use nx_sysmodules.Ro.World.{Kernel}
use nx_sysmodules.Ro.State.{
  NroInfo, ProcessContext, zero_nro, zero_context, State, context_at, max_sessions, with_memory,
  not_loaded, invalid_address, get_free_nro_info, get_nro_info_by_address, set_nro_info_in_use,
  put_context, write_nro, is_free,
}
use nx_sysmodules.Ro.Addresses.{is_aligned}
use nx_sysmodules.Ro.Contexts.{require_context}
use nx_sysmodules.Ro.Modules.{NroRequest, update_context, load_nro, unload_nro}
use nx_sysmodules.Ro.Nro.{unmap_nro}
use nx_sysmodules.Ro.Laws.{View, Agree, KernelLaws}
use nx_sysmodules.Ro.Mapping.{unmap_nro_ok}
use nx_sysmodules.Ro.Slots.{
  written, find_slot-lt, find_slot-none, find_slot-set, find_slot-free, set-set_get,
}
use nx_sysmodules.Ro.LoadNro.{LoadsNro, load_nro-LoadsNro, require_context-known}

module _ {Mem : Type 0} (id i : ℕ) (s : State Mem) (there : id < length s.contexts) where
  context_at-written :
      (used : List Bool) (x : NroInfo) (m : Mem)
      → context_at id (written id i used x s m) ≡ record (context_at id s) {
        nro_in_use = used;
        nro_infos = set (context_at id s).nro_infos i x;
      }
  unfolding written
  context_at-written used x m = get_or-set s.contexts id _ zero_context there

  -- The slot is cleared again.
  clear-written :
      (used : List Bool) (x : NroInfo) (m : Mem)
      → update_context id
          (λ c. write_nro i zero_nro (set_nro_info_in_use i false c))
          (written id i used x s m)
        ≡ written id i (set used i false) zero_nro s m
  unfolding written put_context write_nro set_nro_info_in_use
  clear-written used x m =
      let c = context_at id s in
      let c1 : ProcessContext = record c { nro_in_use = used; nro_infos = set c.nro_infos i x } in
      ap (λ cs. record s { contexts = cs; memory = m })
        (set-set_get s.contexts id c1 zero_context
          (λ c. record c {
            nro_infos = set c.nro_infos i zero_nro;
            nro_in_use = set c.nro_in_use i false;
          })
          there)
      ∙ ap
          (λ xs. record s {
            contexts =
                set s.contexts id (record c { nro_in_use = set used i false; nro_infos = xs });
            memory = m;
          })
          (set-set c.nro_infos i zero_nro x)

module _ {Mem : Type 0} (k : Kernel Mem) (view : Mem → View) (laws : KernelLaws k view) where
  module _ (id : ℕ) (r : NroRequest) (s : State Mem) where
    -- Every NRO in use of the context stands mapped at its address.
    abbrev pub SlotsMapped : Type 0
    SlotsMapped =
        (i : ℕ) (x : NroInfo)
        → get_elem? (context_at id s).nro_in_use i ≡ some true
        → get_elem? (context_at id s).nro_infos i ≡ some x
        → view s.memory (context_at id s).process_handle x.base_address ≢ none

    module _ (base : ℕ) (t : State Mem) (known : id < max_sessions) (there : id < length s.contexts)
        (mapped : SlotsMapped) (loads : LoadsNro k view laws id r s (ok base t)) where
      no_slot_before : get_nro_info_by_address base (context_at id s) ≡ none
      unfolding get_nro_info_by_address
      no_slot_before =
          find_slot-none _ (context_at id s).nro_in_use (context_at id s).nro_infos λ i b x e f.
            elim (Bool-cases (b && x.base_address == base)) [
              | inr q ↦ q
              | inl q ↦
                  let same : x.base_address ≡ base = ground arith in
                  absurd (
                    mapped i x (ground (arith, e)) f (
                      ap (view s.memory (context_at id s).process_handle) same
                      ∙ loads.0.both.fresh_nro base (ground (arith, loads.1))))
            ]

      pub unload_undoes :
          (u : State Mem) × (unload_nro k id base t ≡ ok tt u)
          × Agree (view u.memory) (view s.memory)
          × ((i : ℕ) × (old : NroInfo) × (get_free_nro_info (context_at id s) ≡ some (i, old))
              × (u ≡ written id i (context_at id s).nro_in_use zero_nro s u.memory))
      unfolding unload_nro get_nro_info_by_address get_free_nro_info written
      unload_undoes =
          let (placed, size, range, bss_range, (i, old, x, free, rec, w)) = loads in
          let c = context_at id s in
          let used = set c.nro_in_use i true in
          let c1 : ProcessContext = record c {
            nro_in_use = used;
            nro_infos = set c.nro_infos i x;
          } in
          let at : context_at id t ≡ c1 =
            ap (context_at id) w ∙ context_at-written id i s there used x t.memory in
          let slot = find_slot-lt is_free c.nro_in_use c.nro_infos i old free in
          let found : get_nro_info_by_address base c1 ≡ some (i, x) =
            find_slot-set _ c.nro_in_use c.nro_infos i true x no_slot_before slot.0 slot.1
              (ground (arith, rec.base_address)) in
          let back : set used i false ≡ c.nro_in_use =
            set-set c.nro_in_use i false true
            ∙ set_get c.nro_in_use i false (find_slot-free c.nro_in_use c.nro_infos i old free) in
          let s1 : State Mem = written id i c.nro_in_use zero_nro s t.memory in
          let clear = λ (t : State Mem).
            update_context id (λ c. write_nro i zero_nro (set_nro_info_in_use i false c)) t in
          let cleared : clear t ≡ s1 =
            ap clear w
            ∙ (clear-written id i s there used x t.memory
                ∙ ap (λ us. written id i us zero_nro s t.memory) back) in
          let aligned : is_aligned base k.page_size ≡ true = ground (arith, placed.aligned) in
          let (m, run, agree) =
            unmap_nro_ok k view laws c.process_handle base r.nro_address r.nro_size r.bss_address
              r.bss_size x.code_size x.rw_size (view s.memory) s1 placed.both rec.sections
              placed.room range.1 rec.code in
          let unmap : unmap_nro k c.process_handle x.base_address x.nro_heap_address
                x.bss_heap_address x.bss_heap_size x.code_size x.rw_size s1
              ≡ unmap_nro k c.process_handle base r.nro_address r.bss_address r.bss_size x.code_size
                  x.rw_size s1 =
            cc (rec.base_address, rec.nro_heap_address, rec.bss_heap_address, rec.bss_heap_size) in
          (
            with_memory s1 m,
            bind_ok (require_context id) _ t
                  (require_context-known id t known ∙ ap (λ c. ok c t) at)
                ∙ (bind_ok _ _ t (ap (λ b. require b invalid_address t) aligned)
                    ∙ (bind_ok _ _ t (ap (λ o. require_some o not_loaded t) found)
                        ∙ (bind_ok _ _ t (ap (ok tt) cleared) ∙ (unmap ∙ run)))),
            agree,
            (i, old, free, refl),
          )

    -- For a registered context all of whose NROs in use are mapped, with 64-bit addresses and sizes and
    -- under the laws of the kernel: UnloadNro at the address that LoadNro returned succeeds and restores
    -- every mapping; of the tables it leaves everything as it was before LoadNro, but that the slot is
    -- cleared.
    pub unload-load_nro :
        r.nro_address < 2 ^ 64
        → r.nro_size < 2 ^ 64
        → r.bss_address < 2 ^ 64
        → r.bss_size < 2 ^ 64
        → id < max_sessions
        → id < length s.contexts
        → SlotsMapped
        → (base : ℕ) (t : State Mem) → load_nro k id r s ≡ ok base t
        → (u : State Mem) × (unload_nro k id base t ≡ ok tt u)
          × Agree (view u.memory) (view s.memory)
          × ((i : ℕ) × (old : NroInfo) × (get_free_nro_info (context_at id s) ≡ some (i, old))
              × (u ≡ written id i (context_at id s).nro_in_use zero_nro s u.memory))
    unload-load_nro a1 a2 a3 a4 known there mapped base t e =
        unload_undoes base t known there mapped (
          subst (LoadsNro k view laws id r s) e
            (load_nro-LoadsNro k view laws id r s a1 a2 a3 a4 known there))
