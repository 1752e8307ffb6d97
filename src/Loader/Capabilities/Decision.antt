-- ===== src/Loader/Capabilities/Decision.antt =====
-- ValidateCapabilities of loader/source/ldr_capabilities.cpp against what the restriction permits.
use Prim.Native.Nat.{bit_and}
use nx_sysmodules.Base.{
  ℕ, ◌≡◌, ◌↔◌, inl, inr, refl, true, false, ◌&&◌, List, [], ◌∷◌, All, arith, leb, ◌==◌, Bool-cases,
}
use nx_sysmodules.Loader.Capabilities.Ids
use nx_sysmodules.Loader.Capabilities.Classes.{
  mask, mask_index, interrupt_id_0, interrupt_id_1, table_size, get_capability_id, within_flags,
  kernel_flags_valid, syscall_mask_valid, map_range_valid, map_page_valid, interrupt_pair_valid,
  application_type_valid, kernel_version_valid, handle_table_valid, debug_flags_valid,
}
use nx_sysmodules.Loader.Capabilities.Validation.{
  Verdict, valid, invalid_capability, unknown_capability, single_verdict, and_then,
  validate_capabilities,
}
use nx_sysmodules.Loader.Capabilities.Permits.{
  single, range, cut, IdIs, requests, Permits, kernel_flags, syscall_mask, map_range, map_page,
  interrupt_pair, application_type, kernel_version, handle_table, debug_flags, empty,
  any_with-AnyOf,
}
use nx_sysmodules.Loader.Capabilities.Acceptance.{
  within_flags_iff, map_range_valid_iff, FirstIs-passes, Interrupt-iff, kernel_flags-Permits,
  syscall_mask-Permits, map_page-Permits, interrupt_pair-Permits, application_type-Permits,
  kernel_version-Permits, handle_table-Permits, debug_flags-Permits, single_verdict-cases,
}

and_then-eq-valid : (u v : Verdict) → and_then u v ≡ valid → (u ≡ valid) × (v ≡ valid)
and_then-eq-valid valid v e = (refl, e)
and_then-eq-valid (invalid_capability id) v e = cc
and_then-eq-valid unknown_capability v e = cc

module _ (ctz_of_zero : ℕ) (acid : List ℕ) where
  module _ (w : ℕ) where
    verdict-Permits :
        single_verdict ctz_of_zero acid (get_capability_id ctz_of_zero w) w ≡ valid
        → Permits ctz_of_zero acid (single w)
    verdict-Permits e =
        elim (single_verdict-cases ctz_of_zero acid w (get_capability_id ctz_of_zero w) e) [
          | inl (i, v) ↦ kernel_flags-Permits ctz_of_zero acid w i v
          | inr (inl (i, v)) ↦ syscall_mask-Permits ctz_of_zero acid w i v
          | inr (inr (inl (i, v))) ↦ map_page-Permits ctz_of_zero acid w i v
          | inr (inr (inr (inl (i, v)))) ↦ interrupt_pair-Permits ctz_of_zero acid w i v
          | inr (inr (inr (inr (inl (i, v))))) ↦ application_type-Permits ctz_of_zero acid w i v
          | inr (inr (inr (inr (inr (inl (i, v)))))) ↦ kernel_version-Permits ctz_of_zero acid w i v
          | inr (inr (inr (inr (inr (inr (inl (i, v))))))) ↦
              handle_table-Permits ctz_of_zero acid w i v
          | inr (inr (inr (inr (inr (inr (inr (inl (i, v)))))))) ↦
              debug_flags-Permits ctz_of_zero acid w i v
          | inr (inr (inr (inr (inr (inr (inr (inr i))))))) ↦ empty i
        ]

    -- The verdict of a word whose class's IsValid passed.
    module _ (id : ℕ) (i : IdIs ctz_of_zero id w) where
      verdict_at :
          single_verdict ctz_of_zero acid id w ≡ valid
          → single_verdict ctz_of_zero acid (get_capability_id ctz_of_zero w) w ≡ valid
      verdict_at e = rw i e

  Permits-verdict :
      (w : ℕ)
      → Permits ctz_of_zero acid (single w)
      → single_verdict ctz_of_zero acid (get_capability_id ctz_of_zero w) w ≡ valid
  unfolding single_verdict kernel_flags_valid syscall_mask_valid map_page_valid interrupt_pair_valid
      application_type_valid kernel_version_valid handle_table_valid debug_flags_valid
  Permits-verdict w (kernel_flags r i f a b c d g h) = verdict_at w Ids.kernel_flags i (
      rw (
        FirstIs-passes ctz_of_zero acid Ids.kernel_flags r (within_flags w) f
          ((within_flags_iff w r).1 (a, b, c, d, g, h))))
  Permits-verdict w (syscall_mask i h) = verdict_at w Ids.syscall_mask i (
      rw (
        any_with-AnyOf ctz_of_zero Ids.syscall_mask
          (λ r. mask_index w == mask_index r && mask w == mask r)
          (λ r. (mask_index w ≡ mask_index r) × (mask w ≡ mask r)) acid (λ r q. ground arith) h))
  Permits-verdict w (map_page i h) = verdict_at w Ids.map_page i (
      rw (
        any_with-AnyOf ctz_of_zero Ids.map_page (λ r. w == r) (λ r. w ≡ r) acid
          (λ r q. ground arith) h))
  Permits-verdict w (interrupt_pair i h k) = verdict_at w Ids.interrupt_pair i (
      ground (
        arith,
        (Interrupt-iff ctz_of_zero acid (interrupt_id_0 w)).1 h,
        (Interrupt-iff ctz_of_zero acid (interrupt_id_1 w)).1 k,
      ))
  Permits-verdict w (application_type i f) =
      verdict_at w Ids.application_type i
        (rw (FirstIs-passes ctz_of_zero acid Ids.application_type w (λ r. r == w) f (ground arith)))
  Permits-verdict w (kernel_version i f) =
      verdict_at w Ids.kernel_version i
        (rw (FirstIs-passes ctz_of_zero acid Ids.kernel_version w (λ r. r == w) f (ground arith)))
  Permits-verdict w (handle_table r i f l) = verdict_at w Ids.handle_table i (
      rw (
        FirstIs-passes ctz_of_zero acid Ids.handle_table r (λ r. leb (table_size w) (table_size r))
          f (ground arith)))
  Permits-verdict w (debug_flags r i f b) = verdict_at w Ids.debug_flags i (
      rw (
        FirstIs-passes ctz_of_zero acid Ids.debug_flags r (λ r. bit_and r w == w) f (ground arith)))
  Permits-verdict w (empty i) = verdict_at w Ids.empty i refl

  -- The first word of a range is no request of one word.
  not_range :
      (w : ℕ)
      → Permits ctz_of_zero acid (single w)
      → (get_capability_id ctz_of_zero w == Ids.map_range) ≡ false
  unfolding single_verdict
  not_range w h = elim (Bool-cases (get_capability_id ctz_of_zero w == Ids.map_range)) [
    | inr q ↦ q
    | inl q ↦
        let i : get_capability_id ctz_of_zero w ≡ Ids.map_range = ground arith in
        absurd (ground (arith, rw i at (Permits-verdict w h)))
  ]

  not_cut : (w : ℕ) → ¬ (Permits ctz_of_zero acid (cut w))
  not_cut w h = elim h [ ]

  range_of :
      (w next : ℕ)
      → Permits ctz_of_zero acid (range w next)
      → map_range_valid ctz_of_zero w next acid ≡ true
  range_of w next (map_range i j small h) =
      (map_range_valid_iff ctz_of_zero w next acid).1 (j, small, h)

  module _ (w : ℕ) where
    requests_last :
        (get_capability_id ctz_of_zero w == Ids.map_range) ≡ false
        → requests ctz_of_zero (w ∷ []) ≡ single w ∷ []
    unfolding requests
    requests_last q = rw q

    requests_cut :
        (get_capability_id ctz_of_zero w == Ids.map_range) ≡ true
        → requests ctz_of_zero (w ∷ []) ≡ cut w ∷ []
    unfolding requests
    requests_cut q = rw q

    module _ (next : ℕ) (aci : List ℕ) where
      requests_single :
          (get_capability_id ctz_of_zero w == Ids.map_range) ≡ false
          → requests ctz_of_zero (w ∷ next ∷ aci) ≡ single w ∷ requests ctz_of_zero (next ∷ aci)
      unfolding requests
      requests_single q = ground arith

      requests_range :
          (get_capability_id ctz_of_zero w == Ids.map_range) ≡ true
          → requests ctz_of_zero (w ∷ next ∷ aci) ≡ range w next ∷ requests ctz_of_zero aci
      unfolding requests
      requests_range q = ground arith

  -- ValidateCapabilities succeeds exactly on the lists each of whose requests is permitted: every word
  -- by its class against the restriction, a map range with the word after it.
  pub validate_capabilities_iff :
      (aci : List ℕ)
      → (validate_capabilities ctz_of_zero acid aci ≡ valid)
        ↔ All (Permits ctz_of_zero acid) (requests ctz_of_zero aci)
  unfolding validate_capabilities
  validate_capabilities_iff [] = unfold requests in (λ e. tt, λ h. refl)
  validate_capabilities_iff (w ∷ []) =
      elim (Bool-cases (get_capability_id ctz_of_zero w == Ids.map_range)) [
        | inl q ↦ rw (requests_cut w q) (λ e. absurd (ground arith), λ h. absurd (not_cut w h.0))
        | inr q ↦ rw (requests_last w q) (
          λ e. (verdict-Permits w (ground arith), tt),
          λ h. ground (arith, Permits-verdict w h.0),
        )
      ]
  validate_capabilities_iff (w ∷ next ∷ aci) =
      elim (Bool-cases (get_capability_id ctz_of_zero w == Ids.map_range)) [
        | inl q ↦ rw (requests_range w next aci q) (
            let rest = validate_capabilities_iff aci in
            let valid_range = map_range_valid_iff ctz_of_zero w next acid in
            (
              λ e.
                  let v : map_range_valid ctz_of_zero w next acid ≡ true = ground arith in
                  let (j, small, h) = valid_range.0 v in
                  (map_range (ground arith) j small h, rest.0 (ground arith)),
              λ h. ground (arith, range_of w next h.0, rest.1 h.1),
            ))
        | inr q ↦ rw (requests_single w next aci q) (
            let rest = validate_capabilities_iff (next ∷ aci) in
            (
              λ e.
                  let both =
                    and_then-eq-valid
                      (single_verdict ctz_of_zero acid (get_capability_id ctz_of_zero w) w)
                      (validate_capabilities ctz_of_zero acid (next ∷ aci)) (ground arith) in
                  (verdict-Permits w both.0, rest.0 both.1),
              λ h. ground (arith, Permits-verdict w h.0, rest.1 h.1),
            ))
      ]
