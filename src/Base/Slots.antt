-- ===== src/Base/Slots.antt =====
-- A fixed array of slots searched from its start for the first slot that passes a test, as the
-- sysmodules' `for (i...) if (list[i].key == key) return &list[i]` loops do. A pointer into the
-- array is the pair of the slot's index and its contents.
use nx_sysmodules.Base.Tests.{if◌then◌else◌}
use nx_sysmodules.Base.Lists.{length, get_elem?, set}
use Prim.Native.Nat.{ℕ, zero, suc, ◌+◌, ◌≤◌, ◌<◌}
use mathlib.Core.Path.{◌≡◌, refl}
use mathlib.Core.Bool.{Bool, true, false}
use mathlib.Core.List.{List, [], ◌∷◌}
use mathlib.Core.Option.{Option, none, some}
use native.Mathlib.Omega.{arith}

module _ {ℓ} {A : Type ℓ} where
  abbrev next_slot : Option (ℕ × A) → Option (ℕ × A)
  next_slot none = none
  next_slot (some (i, x)) = some (suc i, x)

  unfoldable pub find : (A → Bool) → List A → Option (ℕ × A)
  find p [] = none
  find p (x ∷ xs) = if p x then some (0, x) else next_slot (find p xs)

  -- The number of slots that pass.
  unfoldable pub count : (A → Bool) → List A → ℕ
  count p [] = 0
  count p (x ∷ xs) = (if p x then 1 else 0) + count p xs

module _ {ℓ} {A : Type ℓ} (p : A → Bool) where
  pub find-get :
      (xs : List A) (i : ℕ) (x : A)
      → find p xs ≡ some (i, x)
      → (get_elem? xs i ≡ some x) × (p x ≡ true) × (i < length xs)
  unfolding find
  find-get [] i x h = ground arith
  find-get (y ∷ ys) zero x h = ground arith
  find-get (y ∷ ys) (suc i) x h = ground (arith, find-get ys i x)

  pub find-none-count : (xs : List A) → find p xs ≡ none → count p xs ≡ 0
  unfolding find count
  find-none-count [] h = refl
  find-none-count (y ∷ ys) h = ground (arith, find-none-count ys)

  pub find-none_of_count : (xs : List A) → count p xs ≡ 0 → find p xs ≡ none
  unfolding find count
  find-none_of_count [] h = refl
  find-none_of_count (y ∷ ys) h = ground (arith, find-none_of_count ys)

  -- One more slot passes if the new contents do, and one fewer if the old ones did.
  pub count-set :
      (xs : List A) (i : ℕ) (x v : A)
      → get_elem? xs i ≡ some x
      → count p (set xs i v) + (if p x then 1 else 0) ≡ count p xs + (if p v then 1 else 0)
  unfolding count
  count-set [] i x v h = ground arith
  count-set (y ∷ ys) zero x v h = ground arith
  count-set (y ∷ ys) (suc i) x v h = ground (arith, count-set ys i x v)

  pub find-set_other :
      (xs : List A) (i : ℕ) (x v : A)
      → get_elem? xs i ≡ some x
      → p x ≡ false
      → p v ≡ false
      → find p (set xs i v) ≡ find p xs
  unfolding find
  find-set_other [] i x v h a b = refl
  find-set_other (y ∷ ys) zero x v h a b = ground arith
  find-set_other (y ∷ ys) (suc i) x v h a b = ground (arith, find-set_other ys i x v)

  pub le-count :
      (xs : List A) (i : ℕ) (x : A) → get_elem? xs i ≡ some x → (if p x then 1 else 0) ≤ count p xs
  unfolding count
  le-count [] i x h = ground arith
  le-count (y ∷ ys) zero x h = ground arith
  le-count (y ∷ ys) (suc i) x h = ground (arith, le-count ys i x)

  -- Where no other slot passes, the slot that is written decides the search.
  pub find-set_only :
      (xs : List A) (i : ℕ) (x v : A)
      → get_elem? xs i ≡ some x
      → count p xs ≤ (if p x then 1 else 0)
      → find p (set xs i v) ≡ (if p v then some (i, v) else none)
  unfolding find count
  find-set_only [] i x v h c = ground arith
  find-set_only (y ∷ ys) zero x v h c = ground (arith, find-none_of_count ys)
  find-set_only (y ∷ ys) (suc i) x v h c = ground (arith, find-set_only ys i x v, le-count ys i x)
