-- ===== src/Sm/Names.antt =====
-- ValidateServiceName of sm/source/impl/sm_service_manager.cpp.
use nx_sysmodules.Base.{
  ℕ, zero, suc, ◌+◌, ◌-◌, ◌≤◌, ◌<◌, ◌≡◌, ◌≢◌, ◌↔◌, refl, Bool, true, false, inl, inr, ◌⊎◌, arith,
  ◌==◌, if◌then◌else◌, get_or, Bool-cases,
}
use nx_sysmodules.Sm.State.{Platform, ServiceName, State, M, ok, err, require, invalid_service_name}

-- for (len = i; len < size; len++) if (name[len] == 0) break: the index at which the loop stops,
-- by the rounds left.
name_end : ServiceName → ℕ → ℕ → ℕ
name_end name zero i = i
name_end name (suc n) i =
    let rest = name_end name n (i + 1) in if get_or name i 0 == 0 then i else rest

-- while (len < size) R_UNLESS(name[len++] == 0), by the rounds left.
rest_is_zero : ServiceName → ℕ → ℕ → Bool
rest_is_zero name zero i = true
rest_is_zero name (suc n) i =
    let rest = rest_is_zero name n (i + 1) in if get_or name i 0 == 0 then rest else false

-- The two tests of ValidateServiceName.
unfoldable pub is_valid_name : Platform → ServiceName → Bool
unfolding name_end rest_is_zero
is_valid_name p name =
    if get_or name 0 0 == 0
    then false
    else let len = name_end name (p.name_size - 1) 1 in rest_is_zero name (p.name_size - len) len

unfoldable pub validate_service_name : Platform → ServiceName → M Unit
validate_service_name p name = require (is_valid_name p name) invalid_service_name

pub start_of_valid :
    (p : Platform) (name : ServiceName) → is_valid_name p name ≡ true → get_or name 0 0 ≢ 0
unfolding is_valid_name
start_of_valid p name h = ground arith

-- What a valid name is: not empty, and all zero after its first zero.
pub record IsName (size : ℕ) (name : ServiceName) : Type 0 where
  pub start : get_or name 0 0 ≢ 0
  pub padded : (i j : ℕ) → i ≤ j → j < size → get_or name i 0 ≡ 0 → get_or name j 0 ≡ 0

eq_or_ne : (k i : ℕ) → (k ≡ i) ⊎ (k ≢ i)
eq_or_ne k i = ground arith

module _ (name : ServiceName) where
  name_end_range : (n i : ℕ) → (i ≤ name_end name n i) × (name_end name n i ≤ i + n)
  unfolding name_end
  name_end_range zero i = omega arith
  name_end_range (suc n) i = ground (arith, name_end_range n (i + 1))

  name_end_before : (n i k : ℕ) → i ≤ k → k < name_end name n i → get_or name k 0 ≢ 0
  unfolding name_end
  name_end_before zero i k a b = absurd (omega arith)
  name_end_before (suc n) i k a b = elim (eq_or_ne k i) [
    | inl e ↦ rw e (ground arith)
    | inr l ↦ ground (arith, name_end_before n (i + 1) k)
  ]

  name_end_stop : (n i : ℕ) → name_end name n i < i + n → get_or name (name_end name n i) 0 ≡ 0
  unfolding name_end
  name_end_stop zero i h = absurd (omega arith)
  name_end_stop (suc n) i h = elim (Bool-cases (get_or name i 0 == 0)) [
    | inl e ↦ rw (e, name_end) (ground arith)
    | inr e ↦ rw (e, name_end) (name_end_stop n (i + 1) (ground arith))
  ]

  rest_is_zero_sound :
      (n i k : ℕ) → rest_is_zero name n i ≡ true → i ≤ k → k < i + n → get_or name k 0 ≡ 0
  unfolding rest_is_zero
  rest_is_zero_sound zero i k h a b = absurd (omega arith)
  rest_is_zero_sound (suc n) i k h a b = elim (eq_or_ne k i) [
    | inl e ↦ rw e (ground arith)
    | inr l ↦ ground (arith, rest_is_zero_sound n (i + 1) k)
  ]

  rest_is_zero_complete :
      (n i : ℕ) → ((k : ℕ) → i ≤ k → k < i + n → get_or name k 0 ≡ 0) → rest_is_zero name n i ≡ true
  unfolding rest_is_zero
  rest_is_zero_complete zero i h = refl
  rest_is_zero_complete (suc n) i h = ground (
    arith,
    h i (omega arith) (omega arith),
    rest_is_zero_complete n (i + 1) (λ k a b. h k (omega arith) (omega arith)),
  )

module _ (p : Platform) (name : ServiceName) (sized : 0 < p.name_size) where
  IsName-of_valid : is_valid_name p name ≡ true → IsName p.name_size name
  unfolding is_valid_name
  IsName-of_valid h = record { start = ground arith; padded = λ i j l b z. after i j l b z }
    where
      stop : ℕ
      stop = name_end name (p.name_size - 1) 1

      after : (i j : ℕ) → i ≤ j → j < p.name_size → get_or name i 0 ≡ 0 → get_or name j 0 ≡ 0
      after zero j l b z = absurd (ground arith)
      after (suc i) j l b z = ground (
        arith,
        name_end_range name (p.name_size - 1) 1,
        name_end_before name (p.name_size - 1) 1 (suc i),
        rest_is_zero_sound name (p.name_size - stop) stop j,
      )

  valid_of_IsName : IsName p.name_size name → is_valid_name p name ≡ true
  unfolding is_valid_name
  valid_of_IsName v = ground (arith, v.start, zeros)
    where
      stop : ℕ
      stop = name_end name (p.name_size - 1) 1

      zeros : rest_is_zero name (p.name_size - stop) stop ≡ true
      zeros = rest_is_zero_complete name (p.name_size - stop) stop λ k a b.
          v.padded stop k a (omega (arith, name_end_range name (p.name_size - 1) 1)) (
            name_end_stop name (p.name_size - 1) 1
              (omega (arith, name_end_range name (p.name_size - 1) 1)))

  -- Where a name has one byte at least: ValidateServiceName succeeds, and changes nothing, exactly on
  -- the names that are not empty and hold only zeros after their first zero; on any other it fails
  -- with InvalidServiceName.
  pub validate_service_name_iff :
      (s : State)
      → ((validate_service_name p name s ≡ ok tt s) ↔ IsName p.name_size name)
        × ((validate_service_name p name s ≡ err invalid_service_name s)
            ↔ (¬ (IsName p.name_size name)))
  unfolding validate_service_name
  validate_service_name_iff s = elim (Bool-cases (is_valid_name p name)) [
    | inl e ↦
        let v = IsName-of_valid e in
        rw e (((λ _. v), (λ _. refl)), ((λ q. cc), (λ n. absurd (n v))))
    | inr e ↦
        rw e (
          ((λ q. cc), (λ v. cc (valid_of_IsName v))),
          ((λ q v. cc (valid_of_IsName v)), (λ n. refl)),
        )
  ]
