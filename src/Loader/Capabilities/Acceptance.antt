-- ===== src/Loader/Capabilities/Acceptance.antt =====
-- ValidateCapabilities of loader/source/ldr_capabilities.cpp accepts what the restriction permits.
use Prim.Native.Nat.{bit_and}
use mathlib.Core.Path.{subst}
use nx_sysmodules.Base.{
  ℕ, ◌≤◌, ◌<◌, ◌≡◌, ◌⊎◌, ◌↔◌, inl, inr, Bool, true, false, ◌&&◌, ◌||◌, List, [], ◌∷◌, arith, leb,
  ◌==◌, Bool-cases, Option-cases,
}
use nx_sysmodules.Loader.Capabilities.Ids
use nx_sysmodules.Loader.Capabilities.Classes.{
  maximum_thread_priority, minimum_thread_priority, minimum_core_id, maximum_core_id, mask,
  mask_index, address_size, size_max, interrupt_id_0, interrupt_id_1, empty_interrupt_id,
  table_size, get_capability_id, first_with, passes, within_flags, kernel_flags_valid,
  syscall_mask_valid, range_fits, any_range, map_range_valid, map_page_valid, is_single_id_valid,
  interrupt_pair_valid, application_type_valid, kernel_version_valid, handle_table_valid,
  debug_flags_valid,
}
use nx_sysmodules.Loader.Capabilities.Validation.{valid, single_verdict}
use nx_sysmodules.Loader.Capabilities.Permits.{
  AnyOf, single, Interrupt, RangeWithin, IdIs, FirstIs, leading_ranges, Permits, kernel_flags,
  syscall_mask, map_page, interrupt_pair, application_type, kernel_version, handle_table,
  debug_flags, FirstIs-first_with, first_with-FirstIs, AnyOf-any_with, any_with-AnyOf,
}

pub within_flags_iff :
    (w r : ℕ)
    → (within_flags w r ≡ true) ↔ (
        (minimum_thread_priority r ≤ minimum_thread_priority w)
        × (minimum_thread_priority w ≤ maximum_thread_priority w)
        × (maximum_thread_priority w ≤ maximum_thread_priority r)
        × (minimum_core_id r ≤ minimum_core_id w)
        × (minimum_core_id w ≤ maximum_core_id w)
        × (maximum_core_id w ≤ maximum_core_id r))
unfolding within_flags
within_flags_iff w r = ground arith

range_fits_iff : (w next r r' : ℕ) → (range_fits w next r r' ≡ true) ↔ RangeWithin w next (r, r')
unfolding range_fits
range_fits_iff w next r r' = ground arith

Interrupt-of :
    (id r : ℕ)
    → ((interrupt_id_0 r == empty_interrupt_id && interrupt_id_1 r == empty_interrupt_id)
        || (interrupt_id_0 r == id || interrupt_id_1 r == id))
      ≡ true
    → Interrupt id r
Interrupt-of id r e = elim (Bool-cases (interrupt_id_0 r == id)) [
  | inl p ↦ inr (inl (ground arith))
  | inr p ↦ elim (Bool-cases (interrupt_id_1 r == id)) [
    | inl q ↦ inr (inr (ground arith))
    | inr q ↦ inl (ground arith, ground arith)
  ]
]

module _ (ctz_of_zero : ℕ) where
  module _ (r r' : ℕ) (kac : List ℕ) where
    leading_ranges_other :
        (get_capability_id ctz_of_zero r == Ids.map_range) ≡ false
        → leading_ranges ctz_of_zero (r ∷ r' ∷ kac) ≡ leading_ranges ctz_of_zero (r' ∷ kac)
    unfolding leading_ranges
    leading_ranges_other q = ground arith

    leading_ranges_pair :
        (get_capability_id ctz_of_zero r == Ids.map_range) ≡ true
        → (get_capability_id ctz_of_zero r' == Ids.map_range) ≡ true
        → leading_ranges ctz_of_zero (r ∷ r' ∷ kac) ≡ (r, r') ∷ leading_ranges ctz_of_zero kac
    unfolding leading_ranges
    leading_ranges_pair q q' = ground arith

    leading_ranges_bad :
        (get_capability_id ctz_of_zero r == Ids.map_range) ≡ true
        → (get_capability_id ctz_of_zero r' == Ids.map_range) ≡ false
        → leading_ranges ctz_of_zero (r ∷ r' ∷ kac) ≡ []
    unfolding leading_ranges
    leading_ranges_bad q q' = ground arith

  any_range_iff :
      (w next : ℕ) (kac : List ℕ)
      → (any_range ctz_of_zero w next kac ≡ true)
        ↔ AnyOf (RangeWithin w next) (leading_ranges ctz_of_zero kac)
  unfolding any_range leading_ranges
  any_range_iff w next [] = (λ e. cc, λ h. absurd h)
  any_range_iff w next (r ∷ []) = (λ e. cc, λ h. absurd h)
  any_range_iff w next (r ∷ r' ∷ kac) =
      elim (Bool-cases (get_capability_id ctz_of_zero r == Ids.map_range)) [
        | inr q ↦ rw (leading_ranges_other r r' kac q) (
            let rest = any_range_iff w next (r' ∷ kac) in
            (λ e. rest.0 (ground arith), λ h. ground (arith, rest.1 h)))
        | inl q ↦ elim (Bool-cases (get_capability_id ctz_of_zero r' == Ids.map_range)) [
          | inr q' ↦ rw (leading_ranges_bad r r' kac q q') (λ e. ground arith, λ h. absurd h)
          | inl q' ↦ rw (leading_ranges_pair r r' kac q q') (
              let rest = any_range_iff w next kac in
              let fits = range_fits_iff w next r r' in
              elim (Bool-cases (range_fits w next r r')) [
                | inl f ↦ (λ e. inl (fits.0 f), λ h. ground arith)
                | inr f ↦ (
                  λ e. inr (rest.0 (ground arith)),
                  λ h. elim h [
                    | inl here ↦ absurd (ground (arith, fits.1 here))
                    | inr there ↦ ground (arith, rest.1 there)
                  ],
                )
              ])
        ]
      ]

  pub map_range_valid_iff :
      (w next : ℕ) (kac : List ℕ)
      → (map_range_valid ctz_of_zero w next kac ≡ true) ↔ (
          IdIs ctz_of_zero Ids.map_range next
          × (address_size next < size_max)
          × AnyOf (RangeWithin w next) (leading_ranges ctz_of_zero kac))
  unfolding map_range_valid
  map_range_valid_iff w next kac =
      let inner = any_range_iff w next kac in
      (
        λ e. (ground arith, ground arith, inner.0 (ground arith)),
        λ h. ground (arith, h.0, h.1, inner.1 h.2),
      )

  module _ (acid : List ℕ) where
    passes-FirstIs :
        (id : ℕ) (p : ℕ → Bool)
        → passes p (first_with ctz_of_zero id acid) ≡ true
        → (r : ℕ) × FirstIs ctz_of_zero id acid r × (p r ≡ true)
    passes-FirstIs id p e = elim (Option-cases (first_with ctz_of_zero id acid)) [
      | inl q ↦ absurd (ground arith)
      | inr (r, q) ↦ (r, FirstIs-first_with ctz_of_zero id r acid q, ground arith)
    ]

    pub FirstIs-passes :
        (id r : ℕ) (p : ℕ → Bool)
        → FirstIs ctz_of_zero id acid r
        → p r ≡ true
        → passes p (first_with ctz_of_zero id acid) ≡ true
    FirstIs-passes id r p h e = rw (first_with-FirstIs ctz_of_zero id r acid h) e

    pub Interrupt-iff :
        (id : ℕ)
        → (is_single_id_valid ctz_of_zero id acid ≡ true)
          ↔ AnyOf (λ r. IdIs ctz_of_zero Ids.interrupt_pair r × Interrupt id r) acid
    unfolding is_single_id_valid
    Interrupt-iff id = (
      AnyOf-any_with ctz_of_zero Ids.interrupt_pair _ (Interrupt id) acid
          (λ r e. Interrupt-of id r e),
      any_with-AnyOf ctz_of_zero Ids.interrupt_pair _ (Interrupt id) acid (λ r h. ground arith),
    )

    -- The words of one class.
    module _ (w : ℕ) where
      pub kernel_flags-Permits :
          IdIs ctz_of_zero Ids.kernel_flags w
          → kernel_flags_valid ctz_of_zero w acid ≡ true
          → Permits ctz_of_zero acid (single w)
      unfolding kernel_flags_valid
      kernel_flags-Permits i e =
          let (r, f, t) = passes-FirstIs Ids.kernel_flags (within_flags w) e in
          let (a, b, c, d, g, h) = (within_flags_iff w r).0 t in kernel_flags r i f a b c d g h

      pub syscall_mask-Permits :
          IdIs ctz_of_zero Ids.syscall_mask w
          → syscall_mask_valid ctz_of_zero w acid ≡ true
          → Permits ctz_of_zero acid (single w)
      unfolding syscall_mask_valid
      syscall_mask-Permits i e = syscall_mask i (
          AnyOf-any_with ctz_of_zero Ids.syscall_mask _
            (λ r. (mask_index w ≡ mask_index r) × (mask w ≡ mask r)) acid (λ r q. ground arith) e)

      pub map_page-Permits :
          IdIs ctz_of_zero Ids.map_page w
          → map_page_valid ctz_of_zero w acid ≡ true
          → Permits ctz_of_zero acid (single w)
      unfolding map_page_valid
      map_page-Permits i e =
          map_page i
            (AnyOf-any_with ctz_of_zero Ids.map_page _ (λ r. w ≡ r) acid (λ r q. ground arith) e)

      pub interrupt_pair-Permits :
          IdIs ctz_of_zero Ids.interrupt_pair w
          → interrupt_pair_valid ctz_of_zero w acid ≡ true
          → Permits ctz_of_zero acid (single w)
      unfolding interrupt_pair_valid
      interrupt_pair-Permits i e =
          interrupt_pair i ((Interrupt-iff (interrupt_id_0 w)).0 (ground arith))
            ((Interrupt-iff (interrupt_id_1 w)).0 (ground arith))

      pub application_type-Permits :
          IdIs ctz_of_zero Ids.application_type w
          → application_type_valid ctz_of_zero w acid ≡ true
          → Permits ctz_of_zero acid (single w)
      unfolding application_type_valid
      application_type-Permits i e =
          let (r, f, t) = passes-FirstIs Ids.application_type (λ r. r == w) e in
          let same : r ≡ w = ground arith in
          application_type i (subst (FirstIs ctz_of_zero Ids.application_type acid) same f)

      pub kernel_version-Permits :
          IdIs ctz_of_zero Ids.kernel_version w
          → kernel_version_valid ctz_of_zero w acid ≡ true
          → Permits ctz_of_zero acid (single w)
      unfolding kernel_version_valid
      kernel_version-Permits i e =
          let (r, f, t) = passes-FirstIs Ids.kernel_version (λ r. r == w) e in
          let same : r ≡ w = ground arith in
          kernel_version i (subst (FirstIs ctz_of_zero Ids.kernel_version acid) same f)

      pub handle_table-Permits :
          IdIs ctz_of_zero Ids.handle_table w
          → handle_table_valid ctz_of_zero w acid ≡ true
          → Permits ctz_of_zero acid (single w)
      unfolding handle_table_valid
      handle_table-Permits i e =
          let (r, f, t) =
            passes-FirstIs Ids.handle_table (λ r. leb (table_size w) (table_size r)) e in
          handle_table r i f (ground arith)

      pub debug_flags-Permits :
          IdIs ctz_of_zero Ids.debug_flags w
          → debug_flags_valid ctz_of_zero w acid ≡ true
          → Permits ctz_of_zero acid (single w)
      unfolding debug_flags_valid
      debug_flags-Permits i e =
          let (r, f, t) = passes-FirstIs Ids.debug_flags (λ r. bit_and r w == w) e in
          debug_flags r i f (ground arith)

      -- The class that a valid word was checked as.
      pub single_verdict-cases :
          (id : ℕ)
          → single_verdict ctz_of_zero acid id w ≡ valid
          → ((id ≡ Ids.kernel_flags) × (kernel_flags_valid ctz_of_zero w acid ≡ true))
            ⊎ (((id ≡ Ids.syscall_mask) × (syscall_mask_valid ctz_of_zero w acid ≡ true))
                ⊎ (((id ≡ Ids.map_page) × (map_page_valid ctz_of_zero w acid ≡ true))
                    ⊎ (((id ≡ Ids.interrupt_pair)
                          × (interrupt_pair_valid ctz_of_zero w acid ≡ true))
                        ⊎ (((id ≡ Ids.application_type)
                              × (application_type_valid ctz_of_zero w acid ≡ true))
                            ⊎ (((id ≡ Ids.kernel_version)
                                  × (kernel_version_valid ctz_of_zero w acid ≡ true))
                                ⊎ (((id ≡ Ids.handle_table)
                                      × (handle_table_valid ctz_of_zero w acid ≡ true))
                                    ⊎ (((id ≡ Ids.debug_flags)
                                          × (debug_flags_valid ctz_of_zero w acid ≡ true))
                                        ⊎ (id ≡ Ids.empty))))))))
      unfolding single_verdict
      single_verdict-cases id e = ground arith
