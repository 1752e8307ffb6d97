-- ===== src/Base/Search.antt =====
-- The byte order of std::memcmp and std::lower_bound, by which sorted tables are searched.
use Prim.Native.Nat.{ℕ, zero, suc, ◌+◌, ◌-◌, ◌/◌, ◌<◌, ◌≤◌}
use mathlib.Core.Path.{◌≡◌}
use mathlib.Core.Logic.{inl, inr}
use mathlib.Core.Bool.{Bool, true, false, ◌&&◌, ◌||◌}
use mathlib.Core.List.{List, [], ◌∷◌}
use native.Mathlib.Omega.{arith}
use nx_sysmodules.Base.Tests.{ltb, ◌==◌, if◌then◌else◌, Bool-cases}
use nx_sysmodules.Base.Lists.{length}

-- memcmp(a, b, n) < 0, on arrays of one length.
unfoldable pub bytes_lt : List ℕ → List ℕ → Bool
bytes_lt [] bs = false
bytes_lt (a ∷ rest) [] = false
bytes_lt (a ∷ rest) (b ∷ bs) = ltb a b || (a == b && bytes_lt rest bs)

-- The halving of std::lower_bound over the indices [first, first + len), which are less than what is
-- looked for or not.
unfoldable pub halve : (ℕ → Bool) → ℕ → ℕ → ℕ → ℕ
halve less zero first len = first
halve less (suc fuel) first len =
    let half = len / 2 in
    let middle = first + half in
    let right = ltb 0 len && less middle in
    halve less fuel (if right then middle + 1 else first) (if right then len - half - 1 else half)

-- Is the element at the index less?
abbrev pub less_at : {A : Type 0} → (A → Bool) → List A → ℕ → Bool
less_at less [] i = false
less_at less (x ∷ xs) zero = less x
less_at less (x ∷ xs) (suc i) = less_at less xs i

unfoldable pub lower_bound : {A : Type 0} → (A → Bool) → List A → ℕ
unfolding halve
lower_bound less xs = halve (less_at less xs) (length xs) 0 (length xs)

-- Where the indices below n are less and the others are not, the halving ends at n.
pub halve_lem :
    (less : ℕ → Bool) (n fuel first len : ℕ)
    → ((i : ℕ) → i < n → less i ≡ true)
    → ((i : ℕ) → n ≤ i → i < first + len → less i ≡ false)
    → first ≤ n
    → n ≤ first + len
    → len ≤ fuel
    → halve less fuel first len ≡ n
unfolding halve
halve_lem less n zero first len below above a b l = omega arith
halve_lem less n (suc fuel) first len below above a b l =
    let half = len / 2 in
    elim (Bool-cases (ltb 0 len && less (first + half))) [
      | inl q ↦
          let p : 0 < len = ground arith in
          rw q (
            halve_lem less n fuel (first + half + 1) (len - half - 1) below
              (λ i k j. above i k (omega (arith, p))) (ground (arith, p, above (first + half)))
              (omega (arith, p)) (omega (arith, p)))
      | inr q ↦ rw q (
          halve_lem less n fuel first half below (λ i k j. above i k (omega arith)) a
            (ground (arith, below (first + half))) (omega arith))
    ]

-- A list whose elements that are less stand before the others: std::lower_bound ends at the first that
-- is not.
pub lower_bound_lem :
    {A : Type 0} (less : A → Bool) (xs : List A) (n : ℕ)
    → ((i : ℕ) → i < n → less_at less xs i ≡ true)
    → ((i : ℕ) → n ≤ i → i < length xs → less_at less xs i ≡ false)
    → n ≤ length xs
    → lower_bound less xs ≡ n
unfolding lower_bound
lower_bound_lem less xs n below above b =
    halve_lem (less_at less xs) n (length xs) 0 (length xs) below (λ i k j. above i k (omega arith))
      (omega arith) (omega arith) (omega arith)
