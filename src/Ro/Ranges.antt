-- ===== src/Ro/Ranges.antt =====
-- The address checks of ro/source/impl/ro_service_impl.cpp against ranges that do not wrap around.
use nx_sysmodules.Base.{
  ℕ, ◌+◌, ◌%◌, ◌^◌, ◌<◌, ◌≡◌, ◌≢◌, ◌⊎◌, inl, inr, not, ◌||◌, arith, ltb, ◌==◌, Bool-cases,
}
use nx_sysmodules.Base.Outcome.{Outcome, ok, err, ◌>>=◌}
use nx_sysmodules.Ro.World.{u64}
use nx_sysmodules.Ro.State.{RoError, State, invalid_address, invalid_size}
use nx_sysmodules.Ro.Addresses.{
  is_aligned, validate_address_and_non_zero_size, validate_address_and_size,
}

module _ (page_size : ℕ) where
  -- A size in pages of a range that ends below 2^64.
  abbrev pub Fits : ℕ → ℕ → Type 0
  Fits address size = (size % page_size ≡ 0) × (address + size < 2 ^ 64)

  -- The three ends of a check of an address and of what is asked of the size.
  abbrev pub Three :
      {Mem : Type 0} → ℕ → State Mem → Outcome (State Mem) RoError (Unit {0}) → Type 0 → Type 0
  Three address s run P =
      ((address % page_size ≡ 0) × P × (run ≡ ok tt s))
      ⊎ (((address % page_size ≢ 0) × (run ≡ err invalid_address s))
          ⊎ ((address % page_size ≡ 0) × ¬ P × (run ≡ err invalid_size s)))

  module _ {Mem : Type 0} (address size : ℕ) (a : address < 2 ^ 64) (z : size < 2 ^ 64)
      (s : State Mem) where
    -- ValidateAddressAndNonZeroSize of a 64-bit address and size succeeds where the address is aligned and
    -- the size is aligned, not zero and does not wrap around; it fails with InvalidAddress where the
    -- address is not aligned, and with InvalidSize otherwise.
    pub validate_address_and_non_zero_size-cases :
        Three address s
          (validate_address_and_non_zero_size page_size address size s)
          ((0 < size) × Fits address size)
    unfolding validate_address_and_non_zero_size ◌>>=◌
    validate_address_and_non_zero_size-cases = elim (Bool-cases (is_aligned address page_size)) [
      | inr q ↦ inr (inl (ground arith, rw q))
      | inl q ↦ elim (Bool-cases (not (size == 0))) [
        | inr n ↦ inr (inr (ground arith, λ h. ground arith, rw (q, n)))
        | inl n ↦ elim (Bool-cases (is_aligned size page_size)) [
          | inr p ↦ inr (inr (ground arith, λ h. ground arith, rw (q, n, p)))
          | inl p ↦ elim (Bool-cases (ltb address (u64 (address + size)))) [
            | inr w ↦ inr (inr (ground arith, λ h. ground arith, rw (q, n, p, w)))
            | inl w ↦
                inl (ground arith, (ground arith, (ground arith, ground arith)), rw (q, n, p, w))
          ]
        ]
      ]
    ]

    pub validate_address_and_size-cases :
        Three address s (validate_address_and_size page_size address size s) (Fits address size)
    unfolding validate_address_and_size ◌>>=◌
    validate_address_and_size-cases = elim (Bool-cases (is_aligned address page_size)) [
      | inr q ↦ inr (inl (ground arith, rw q))
      | inl q ↦ elim (Bool-cases (is_aligned size page_size)) [
        | inr p ↦ inr (inr (ground arith, λ h. ground arith, rw (q, p)))
        | inl p ↦ elim (Bool-cases (size == 0 || ltb address (u64 (address + size)))) [
          | inr w ↦ inr (inr (ground arith, λ h. ground arith, rw (q, p, w)))
          | inl w ↦ inl (ground arith, (ground arith, ground arith), rw (q, p, w))
        ]
      ]
    ]
