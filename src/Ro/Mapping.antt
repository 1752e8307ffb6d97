-- ===== src/Ro/Mapping.antt =====
-- What ro/source/impl/ro_nro_utils.cpp does to the mappings of a process.
use nx_sysmodules.Base.{ℕ, ◌+◌, ◌^◌, ◌<◌, ◌≡◌, ◌⊎◌, inl, inr, refl, ◌∙◌, arith, ltb, Bool-cases}
use nx_sysmodules.Base.Outcome.{ok, state_after, bind_ok}
use nx_sysmodules.Ro.World.{Handle, Kernel, SvcError, SvcResult, success, failure, u64}
use nx_sysmodules.Ro.State.{State, try_memory, with_memory}
use nx_sysmodules.Ro.Nro.{unmap_part, unmap_nro}
use nx_sysmodules.Ro.Laws.{
  View, clearing, Agree, Maps, KernelLaws, NroMapped, NroMapped-bss, after_bss, after_rw,
  after_code,
}

pub SvcResult-cases :
    {A : Type 0} (r : SvcResult A)
    → ((a : A) × (r ≡ success a)) ⊎ ((x : SvcError) × (r ≡ failure x))
SvcResult-cases (success a) = inl (a, refl)
SvcResult-cases (failure x) = inr (x, refl)

module _ {Mem : Type 0} (k : Kernel Mem) (view : Mem → View) (laws : KernelLaws k view)
    (process : Handle) where
  unmap_part_lem :
      (address source size : ℕ) (s : State Mem)
      → Maps (view s.memory) process address source size
      → (m : Mem) × (unmap_part k process address source size s ≡ ok tt (with_memory s m))
        × Agree (view m) (clearing (view s.memory) process address size)
  unmap_part_lem address source size s maps = elim (Bool-cases (ltb 0 size)) [
    | inr q ↦ (s.memory, rw q refl, λ g a. ground arith)
    | inl q ↦
        let (m, e) = laws.unmap_succeeds s.memory process address source size (ground arith) maps in
        (m, rw q (rw e refl), laws.unmap_clears s.memory process address source size m e)
  ]

  -- The last step of UnmapNro, on whatever size.
  unmap_code_state :
      (address source size : ℕ) (s none_left : State Mem)
      → Maps (view s.memory) process address source size
      → (m : Mem) × (state_after
            (try_memory (λ m. k.unmap m process address source size) s)
            none_left
          ≡ with_memory s m)
        × Agree (view m) (clearing (view s.memory) process address size)
  unmap_code_state address source size s none_left maps =
      elim (SvcResult-cases (k.unmap s.memory process address source size)) [
        | inl (m, e) ↦ (m, rw e refl, laws.unmap_clears s.memory process address source size m e)
        | inr (x, e) ↦ elim (Bool-cases (ltb 0 size)) [
          | inl q ↦
              let (m, e') =
                laws.unmap_succeeds s.memory process address source size (ground arith) maps in
              absurd (ground (arith, e, e'))
          | inr q ↦ (s.memory, rw e refl, λ g a. ground arith)
        ]
      ]

  module _ (base nro nro_size bss bss_size code data_size : ℕ) (v : View) (s : State Mem) where
    module _ (n : NroMapped process nro nro_size bss bss_size base v (view s.memory))
        (e : code + data_size ≡ nro_size) (b : base + nro_size < 2 ^ 64)
        (d : nro + nro_size < 2 ^ 64) where
      -- The bss and the data are unmapped; what is left is the code.
      unmap_nro_prefix :
          (m : Mem) × (unmap_nro k process base nro bss bss_size code data_size s
            ≡ try_memory (λ m. k.unmap m process base nro code) (with_memory s m))
          × Maps (view m) process base nro code
          × ((w : View) → Agree w (clearing (view m) process base code) → Agree w v)
      unfolding unmap_nro
      unmap_nro_prefix =
          let at_bss : u64 (base + code + data_size) ≡ base + nro_size = omega (arith, e, b) in
          let at_rw : u64 (base + code) ≡ base + code = omega (arith, e, b) in
          let from_rw : u64 (nro + code) ≡ nro + code = omega (arith, e, d) in
          let (m1, e1, c1) = unmap_part_lem (base + nro_size) bss bss_size s (NroMapped-bss n) in
          let (m2, e2, c2) =
            unmap_part_lem (base + code) (nro + code) data_size (with_memory s m1)
              (after_bss code data_size e n c1) in
          (
            m2,
            rw (at_bss, at_rw, from_rw) (bind_ok _ _ _ e1 ∙ bind_ok _ _ _ e2),
            after_rw code data_size e n c1 c2,
            λ w c3. after_code code data_size e n c1 c2 c3,
          )

      -- Unmapping a mapped NRO restores the view that was there before it was mapped, whatever the
      -- division of the NRO into code and data is.
      pub unmap_nro_state :
          (m : Mem) × (state_after (unmap_nro k process base nro bss bss_size code data_size s) s
            ≡ with_memory s m)
          × Agree (view m) v
      unmap_nro_state =
          let (m2, e2, maps, restores) = unmap_nro_prefix in
          let (m3, e3, c3) = unmap_code_state base nro code (with_memory s m2) s maps in
          (m3, rw e2 e3, restores (view m3) c3)

      -- It succeeds where there is code.
      pub unmap_nro_ok :
          0 < code
          → (m : Mem) × (unmap_nro k process base nro bss bss_size code data_size s
              ≡ ok tt (with_memory s m))
            × Agree (view m) v
      unmap_nro_ok p =
          let (m2, e2, maps, restores) = unmap_nro_prefix in
          let (m3, e3) = laws.unmap_succeeds m2 process base nro code p maps in
          (
            m3,
            e2 ∙ rw e3 refl,
            restores (view m3) (laws.unmap_clears m2 process base nro code m3 e3),
          )
