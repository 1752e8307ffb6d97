-- ===== src/Ro/Validating.antt =====
-- What the checks of an NRO, and its permissions, leave of the mappings, and what passing them shows.
use nx_sysmodules.Base.{ℕ, ◌+◌, ◌<◌, ◌≡◌, refl, true, arith}
use nx_sysmodules.Base.Outcome.{◌>>=◌}
use nx_sysmodules.Ro.World.{Kernel, NroHeader, u64}
use nx_sysmodules.Ro.State.{
  ProcessContext, State, already_loaded, not_authorized, invalid_nro, out_of_address_space,
}
use nx_sysmodules.Ro.Nrr.{close}
use nx_sysmodules.Ro.Process.{
  NroLayout, is_valid_layout, has_hash, validate_has_nro_hash, validate_mapped_nro, validate_nro,
}
use nx_sysmodules.Ro.Nro.{set_nro_perms}
use nx_sysmodules.Ro.Laws.{View, KernelLaws}
use nx_sysmodules.Ro.Keeping.{
  Same-refl, Keeps, Keeps-bind, Keeps-guarded, Keeps-require, Keeps-weaken, Keeps-require_some,
  Keeps_memory, Keeps-try,
}

module _ {Mem : Type 0} (k : Kernel Mem) (view : Mem → View) (laws : KernelLaws k view) where
  -- The sections fill the NRO.
  abbrev pub Fills : ℕ → NroLayout → Type 0
  Fills nro_size l = l.rx_size + (l.ro_size + l.rw_size) ≡ nro_size

  validate_has_nro_hash-Keeps :
      (c : ProcessContext) (h : NroHeader) (s : State Mem)
      → Keeps view
          (λ _. has_hash k s.memory c.nrr_in_use c.nrr_infos (k.sha256 h.content) ≡ true)
          s
          (validate_has_nro_hash k c h s)
  unfolding validate_has_nro_hash ◌>>=◌
  validate_has_nro_hash-Keeps c h s =
      Keeps-require view (has_hash k s.memory c.nrr_in_use c.nrr_infos (k.sha256 h.content))
        not_authorized s

  validate_mapped_nro-Keeps :
      (c : ProcessContext) (address nro_size bss_size : ℕ) (s : State Mem)
      → Keeps view (Fills nro_size) s (validate_mapped_nro k c address nro_size bss_size s)
  unfolding validate_mapped_nro
  validate_mapped_nro-Keeps c address nro_size bss_size s =
      let Q = Fills nro_size in
      Keeps-bind view (λ h. Unit) Q s _ _ (tt, Same-refl view s)
        λ h t1 p1 q1.
          Keeps-bind view (λ _. is_valid_layout k h nro_size bss_size ≡ true) Q t1 _ _
            (Keeps-require view (is_valid_layout k h nro_size bss_size) invalid_nro t1)
            λ _ t2 p2 q2.
              Keeps-bind view _ Q t2 _ _ (validate_has_nro_hash-Keeps c h t2) λ _ t3 p3 q3.
                Keeps-bind view _ Q t3 _ _ (Keeps-require view _ already_loaded t3) λ _ t4 p4 q4.
                  Keeps-bind view (λ _. Unit) Q t4 _ _
                    (
                      tt,
                      record {
                        views = laws.patches_keep t4.memory h.module_id address h.size;
                        others = refl;
                      },
                    )
                    λ _ t5 p5 q5. (ground arith, Same-refl view t5)

  pub validate_nro-Keeps :
      (c : ProcessContext) (base nro_size bss_size : ℕ) (s : State Mem)
      → Keeps view (Fills nro_size) s (validate_nro k c base nro_size bss_size s)
  unfolding validate_nro
  validate_nro-Keeps c base nro_size bss_size s =
      let Q = Fills nro_size in
      Keeps-bind view (λ h. Unit) Q s _ _ (tt, Same-refl view s)
        λ space t1 p1 q1.
          Keeps-bind view _ Q t1 _ _ (Keeps-require_some view space out_of_address_space t1)
            λ own t2 p2 q2.
              Keeps-bind view (λ _. Unit) Q t2 _ _
                (Keeps-try view Unit (λ m. k.open_map m own c.process_handle base nro_size) t2
                  (λ m e. (tt, laws.open_keeps t2.memory own c.process_handle base nro_size m e)))
                λ _ t3 p3 q3.
                  let closed = λ (t : State Mem).
                    Keeps_memory view (λ m. k.close_map m own c.process_handle base nro_size) t
                      (laws.close_keeps t.memory own c.process_handle base nro_size) in
                  Keeps-bind view Q Q t3 _ _
                    (Keeps-guarded view Q t3 (close k own c.process_handle base nro_size)
                      (validate_mapped_nro k c own nro_size bss_size) closed
                      (validate_mapped_nro-Keeps c own nro_size bss_size t3))
                    λ l t4 p4 q4.
                      Keeps-bind view (λ _. Unit) Q t4 _ _ (tt, closed t4)
                        λ _ t5 p5 q5. (p4, Same-refl view t5)

  -- A section without a size has no permission set.
  pub set_nro_perms-Keeps :
      (process base rx_size ro_size rw_size : ℕ) (s : State Mem)
      → Keeps view (λ _. 0 < rx_size) s (set_nro_perms k process base rx_size ro_size rw_size s)
  unfolding set_nro_perms
  set_nro_perms-Keeps process base rx_size ro_size rw_size s =
      let Q = λ (_ : Unit {0}). 0 < rx_size in
      let step = λ (address size permission : ℕ) (t : State Mem).
        Keeps-try view (0 < size) (λ m. k.set_permission m process address size permission) t
          (λ m e. (
            laws.permission_size t.memory process address size permission m e,
            laws.permission_keeps t.memory process address size permission m e,
          )) in
      Keeps-bind view _ Q s _ _ (step _ rx_size 5 s) λ _ t1 p1 q1.
        Keeps-bind view _ Q t1 _ _ (step _ ro_size 1 t1) λ _ t2 p2 q2.
          Keeps-weaken view (λ _. 0 < rw_size) Q t2 (λ _ p. p1) _
            (step (u64 (base + rx_size + ro_size)) rw_size 3 t2)
