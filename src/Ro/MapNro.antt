-- ===== src/Ro/MapNro.antt =====
-- What MapNro of ro/source/impl/ro_nro_utils.cpp leaves of the mappings of a process.
use nx_sysmodules.Base.{
  ℕ, zero, suc, ◌+◌, ◌%◌, ◌^◌, ◌<◌, ◌≡◌, inl, inr, refl, ◌∙◌, arith, ltb, Bool-cases,
}
use nx_sysmodules.Base.Outcome.{Outcome, ok, err, abort}
use nx_sysmodules.Ro.World.{Kernel, success, invalid_current_memory, other_error, u64}
use nx_sysmodules.Ro.State.{State, RoError, svc, with_memory}
use nx_sysmodules.Ro.Nro.{
  Turn, again, mapped, failed, map_bss_turn, map_nro_turn, map_nro_loop, map_nro,
}
use nx_sysmodules.Ro.Laws.{
  View, mapping, Agree, Fresh, KernelLaws, NroMapped, NroMapped-before, mapping-Maps,
  mapping_undone, NroMapped-of, NroMapped-alone,
}
use nx_sysmodules.Ro.Mapping.{SvcResult-cases}

module _ {Mem : Type 0} (k : Kernel Mem) (view : Mem → View) (laws : KernelLaws k view) where
  module _ (process nro nro_size bss bss_size : ℕ) where
    -- An NRO that is mapped at a place with room for it, over what was there before.
    pub record Placed (base : ℕ) (v w : View) : Type 0 where
      pub both : NroMapped process nro nro_size bss bss_size base v w
      pub room : base + nro_size < 2 ^ 64
      pub aligned : base % k.page_size ≡ 0

    abbrev Turned : View → Turn Mem → Type 0
    Turned v (again m) = Agree (view m) v
    Turned v (failed e m) = Agree (view m) v
    Turned v (mapped base m) = Placed base v (view m)

    -- The mapping of the NRO alone, before the rest of the turn.
    module _ (i base : ℕ) (m m' : Mem)
        (e : k.map_anywhere i m process nro nro_size ≡ success (base, m')) where
      abbrev fresh : Fresh (view m) process base nro_size
      fresh = laws.map_anywhere_fresh i m process nro nro_size base m' e

      abbrev maps : Agree (view m') (mapping (view m) process base nro nro_size)
      maps = laws.map_anywhere_maps i m process nro nro_size base m' e

      undone : Agree (view (k.destroy m' process base nro nro_size)) (view m)
      undone = mapping_undone process base nro nro_size (view m) fresh maps (
          laws.destroy_clears m' process base nro nro_size
            (mapping-Maps process base nro nro_size (view m) maps))

      room : base + nro_size < 2 ^ 64
      room = (laws.map_anywhere_place i m process nro nro_size base m' e).0

      after : u64 (base + nro_size) ≡ base + nro_size
      after = omega (arith, room)

      -- The bss is mapped too.
      module _ (w : Mem) (e' : k.map_at m' process (base + nro_size) bss bss_size ≡ success w) where
        bss_undone : Agree (view (k.destroy w process (base + nro_size) bss bss_size)) (view m')
        bss_undone =
            let c = laws.map_at_maps m' process (base + nro_size) bss bss_size w e' in
            let f = laws.map_at_fresh m' process (base + nro_size) bss bss_size w e' in
            mapping_undone process (base + nro_size) bss bss_size (view m') f c (
              laws.destroy_clears w process (base + nro_size) bss bss_size
                (mapping-Maps process (base + nro_size) bss bss_size (view m') c))

        both_undone :
            Agree
              (view (
                k.destroy
                  (k.destroy w process (base + nro_size) bss bss_size)
                  process
                  base
                  nro
                  nro_size))
              (view m)
        both_undone =
            let c : Agree (view (k.destroy w process (base + nro_size) bss bss_size))
                (mapping (view m) process base nro nro_size) =
              λ g a. bss_undone g a ∙ maps g a in
            mapping_undone process base nro nro_size (view m) fresh c (
              laws.destroy_clears (k.destroy w process (base + nro_size) bss bss_size) process base
                nro nro_size (mapping-Maps process base nro nro_size (view m) c))

        both_Placed : Placed base (view m) (view w)
        both_Placed = record {
          both =
              NroMapped-of process base nro nro_size (view m) fresh maps refl
                (laws.map_at_fresh m' process (base + nro_size) bss bss_size w e')
                (laws.map_at_maps m' process (base + nro_size) bss bss_size w e');
          room = room;
          aligned = (laws.map_anywhere_place i m process nro nro_size base m' e).1;
        }

      map_bss_turn-Turned :
          Turned (view m) (map_bss_turn k process base nro nro_size bss bss_size m')
      unfolding map_bss_turn
      map_bss_turn-Turned =
          elim (SvcResult-cases (k.map_at m' process (base + nro_size) bss bss_size)) [
            | inl (w, r) ↦
                elim (Bool-cases
                  (k.can_add_guard_regions w process base (u64 (nro_size + bss_size)))) [
                    | inl q ↦ rw (map_bss_turn, after, r, q) (both_Placed w r)
                    | inr q ↦ rw (map_bss_turn, after, r, q, after) (both_undone w r)
                  ]
            | inr (invalid_current_memory, r) ↦ rw (map_bss_turn, after, r) undone
            | inr (other_error x, r) ↦ rw (map_bss_turn, after, r) undone
          ]

      alone_Placed : (bss_size ≡ 0) → Placed base (view m) (view m')
      alone_Placed z = record {
        both = rw z (NroMapped-alone process base nro nro_size (view m) bss fresh maps);
        room = room;
        aligned = (laws.map_anywhere_place i m process nro nro_size base m' e).1;
      }

    map_nro_turn-Turned :
        (i : ℕ) (m : Mem) → Turned (view m) (map_nro_turn k process i nro nro_size bss bss_size m)
    unfolding map_nro_turn
    map_nro_turn-Turned i m = elim (SvcResult-cases (k.map_anywhere i m process nro nro_size)) [
      | inr (x, r) ↦ rw (map_nro_turn, r) (λ g a. refl)
      | inl ((base, m'), r) ↦ elim (Bool-cases (ltb 0 bss_size)) [
        | inl p ↦ rw (map_nro_turn, r, p) (map_bss_turn-Turned i base m m' r)
        | inr p ↦ elim (Bool-cases (k.can_add_guard_regions m' process base nro_size)) [
          | inl q ↦ rw (map_nro_turn, r, p, q) (alone_Placed i base m m' r (ground arith))
          | inr q ↦ rw (map_nro_turn, r, p, q) (undone i base m m' r)
        ]
      ]
    ]

    -- What the whole of MapNro leaves of a state: an NRO that is mapped, or the mappings as they were.
    abbrev pub Mapped : View → State Mem → Outcome (State Mem) RoError ℕ → Type 0
    Mapped v s (ok base t) = Placed base v (view t.memory) × (t ≡ with_memory s t.memory)
    Mapped v s (err x t) = Agree (view t.memory) v × (t ≡ with_memory s t.memory)
    Mapped v s abort = ⊥

    -- One turn, and what is left of the loop.
    turn_then :
        (left : ℕ) (v : View) (s : State Mem)
        → Agree (view s.memory) v
        → ((m : Mem)
            → Agree (view m) v
            → Mapped v
                (with_memory s m)
                (map_nro_loop k process left nro nro_size bss bss_size (with_memory s m)))
        → (turn : Turn Mem) → Turned (view s.memory) turn
        → Mapped v s (elim turn [
          | failed e m ↦ err (svc e) (with_memory s m)
          | mapped base m ↦ ok base (with_memory s m)
          | again m ↦ map_nro_loop k process left nro nro_size bss bss_size (with_memory s m)
        ])
    turn_then left v s c rest (failed e m) p = (λ g a. p g a ∙ c g a, refl)
    turn_then left v s c rest (mapped base m) p =
        (record { both = NroMapped-before p.both c; room = p.room; aligned = p.aligned }, refl)
    turn_then left v s c rest (again m) p =
        same_rest (map_nro_loop k process left nro nro_size bss bss_size (with_memory s m))
          (rest m (λ g a. p g a ∙ c g a))
      where
        same_rest :
            (o : Outcome (State Mem) RoError ℕ) → Mapped v (with_memory s m) o → Mapped v s o
        same_rest (ok base t) h = h
        same_rest (err x t) h = h
        same_rest abort h = h

    map_nro_loop-Mapped :
        (left : ℕ) (v : View) (s : State Mem)
        → Agree (view s.memory) v
        → Mapped v s (map_nro_loop k process left nro nro_size bss bss_size s)
    unfolding map_nro_loop
    map_nro_loop-Mapped zero v s c = (c, refl)
    map_nro_loop-Mapped (suc left) v s c =
        turn_then left v s c (λ m c'. map_nro_loop-Mapped left v (with_memory s m) c')
          (map_nro_turn k process left nro nro_size bss bss_size s.memory)
          (map_nro_turn-Turned left s.memory)

    -- MapNro maps the NRO and its bss where nothing was mapped, or leaves the mappings as they were.
    pub map_nro-Mapped :
        (s : State Mem) → Mapped (view s.memory) s (map_nro k process nro nro_size bss bss_size s)
    unfolding map_nro
    map_nro-Mapped s = map_nro_loop-Mapped 0x200 (view s.memory) s (λ g a. refl)
