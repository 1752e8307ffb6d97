-- ===== src/CheatApi/FrozenLaws.antt =====
-- The map of the frozen addresses, dmnt/source/cheat/impl/dmnt_cheat_api.cpp: its order, its size, and
-- what is found after each change.
use nx_sysmodules.Base.{
  ℕ, suc, ◌+◌, ◌≤◌, ◌<◌, ◌≡◌, refl, ap, inl, inr, ltb, leb, ◌==◌, none, some, List, [], ◌∷◌,
  if◌then◌else◌, length, All, Bool-cases, arith, ltb→lt, ==_iff,
}
use nx_sysmodules.CheatApi.State.{FrozenAddressValue}
use nx_sysmodules.CheatApi.Frozen.{
  FrozenMap, find_frozen, insert_frozen, erase_frozen, u64, update_frozen,
}

-- The order of std::map, and so no address twice.
abbrev pub Ordered : FrozenMap → Type 0
Ordered [] = Unit
Ordered ((a, v) ∷ frozen) = All (λ f. a < f.0) frozen × Ordered frozen

-- The result of each change, where an address is looked up in it.
find_frozen-before :
    (a : ℕ) (frozen : FrozenMap) → All (λ f. a < f.0) frozen → find_frozen a frozen ≡ none
unfolding find_frozen
find_frozen-before a [] h = refl
find_frozen-before a ((b, w) ∷ frozen) h =
    let rest = find_frozen-before a frozen h.1 in let less = h.0 in ground (arith, rest, less)

All-insert :
    (c a : ℕ) (v : FrozenAddressValue) (frozen : FrozenMap)
    → c < a
    → All (λ f. c < f.0) frozen
    → All (λ f. c < f.0) (insert_frozen a v frozen)
unfolding insert_frozen
All-insert c a v [] l h = (l, tt)
All-insert c a v ((b, w) ∷ frozen) l h =
    let rest = All-insert c a v frozen l h.1 in
    elim (Bool-cases (ltb a b)) [
      | inl q ↦ rw q (l, h)
      | inr q ↦ elim (Bool-cases (a == b)) [
        | inl r ↦ rw (q, r) (l, h.1)
        | inr r ↦ rw (q, r) (h.0, rest)
      ]
    ]

All-below :
    (a b : ℕ) (frozen : FrozenMap) → a < b → All (λ f. b < f.0) frozen → All (λ f. a < f.0) frozen
All-below a b [] l h = tt
All-below a b (f ∷ frozen) l h =
    let here = h.0 in (omega (arith, l, here), All-below a b frozen l h.1)

All-from :
    (b a : ℕ) (frozen : FrozenMap) → a ≡ b → All (λ f. b < f.0) frozen → All (λ f. a < f.0) frozen
All-from b a frozen same h = rw same h

pub insert_frozen-Ordered :
    (a : ℕ) (v : FrozenAddressValue) (frozen : FrozenMap)
    → Ordered frozen
    → Ordered (insert_frozen a v frozen)
unfolding insert_frozen
insert_frozen-Ordered a v [] h = (tt, tt)
insert_frozen-Ordered a v ((b, w) ∷ frozen) h =
    let rest = insert_frozen-Ordered a v frozen h.1 in
    elim (Bool-cases (ltb a b)) [
      | inl q ↦ let less = ltb→lt a b q in rw q ((less, All-below a b frozen less h.0), h)
      | inr q ↦ elim (Bool-cases (a == b)) [
        | inl r ↦ rw (q, r) (All-from b a frozen ((==_iff a b).0 r) h.0, h.1)
        | inr r ↦ rw (q, r) (All-insert b a v frozen (ground arith) h.0, rest)
      ]
    ]

-- Looking up after an insertion.
pub find_frozen-insert_frozen :
    (a c : ℕ) (v : FrozenAddressValue) (frozen : FrozenMap)
    → Ordered frozen
    → find_frozen c (insert_frozen a v frozen) ≡ (if a == c then some v else find_frozen c frozen)
unfolding find_frozen insert_frozen
find_frozen-insert_frozen a c v [] h = refl
find_frozen-insert_frozen a c v ((b, w) ∷ frozen) h =
    let rest = find_frozen-insert_frozen a c v frozen h.1 in ground (arith, rest)

pub find_frozen-erase_frozen :
    (a c : ℕ) (frozen : FrozenMap)
    → Ordered frozen
    → find_frozen c (erase_frozen a frozen) ≡ (if a == c then none else find_frozen c frozen)
unfolding find_frozen erase_frozen
find_frozen-erase_frozen a c [] h = ground arith
find_frozen-erase_frozen a c ((b, w) ∷ frozen) h =
    let rest = find_frozen-erase_frozen a c frozen h.1 in
    let missing = λ (same : b ≡ c). rw same at (find_frozen-before b frozen h.0) in
    ground (arith, rest, missing)

All-erase :
    (c a : ℕ) (frozen : FrozenMap)
    → All (λ f. c < f.0) frozen
    → All (λ f. c < f.0) (erase_frozen a frozen)
unfolding erase_frozen
All-erase c a [] h = tt
All-erase c a ((b, w) ∷ frozen) h = elim (Bool-cases (b == a)) [
  | inl q ↦ rw q h.1
  | inr q ↦ rw q (h.0, All-erase c a frozen h.1)
]

pub erase_frozen-Ordered :
    (a : ℕ) (frozen : FrozenMap) → Ordered frozen → Ordered (erase_frozen a frozen)
unfolding erase_frozen
erase_frozen-Ordered a [] h = tt
erase_frozen-Ordered a ((b, w) ∷ frozen) h = elim (Bool-cases (b == a)) [
  | inl q ↦ rw q h.1
  | inr q ↦ rw q (All-erase b a frozen h.0, erase_frozen-Ordered a frozen h.1)
]

pub length-insert_frozen :
    (a : ℕ) (v : FrozenAddressValue) (frozen : FrozenMap)
    → length (insert_frozen a v frozen) ≤ suc (length frozen)
unfolding insert_frozen
length-insert_frozen a v [] = omega arith
length-insert_frozen a v ((b, w) ∷ frozen) =
    let rest = length-insert_frozen a v frozen in ground (arith, rest)

pub length-erase_frozen :
    (a : ℕ) (frozen : FrozenMap) → length (erase_frozen a frozen) ≤ length frozen
unfolding erase_frozen
length-erase_frozen a [] = omega arith
length-erase_frozen a ((b, w) ∷ frozen) =
    let rest = length-erase_frozen a frozen in ground (arith, rest)

-- A write into the memory changes values, but no address.
All-update :
    (c address : ℕ) (bytes : List ℕ) (frozen : FrozenMap)
    → All (λ f. c < f.0) frozen
    → All (λ f. c < f.0) (update_frozen address bytes frozen)
unfolding update_frozen
All-update c address bytes [] h = tt
All-update c address bytes ((b, w) ∷ frozen) h =
    elim (Bool-cases (leb (u64 (address + length bytes)) b)) [
      | inl q ↦ rw q h
      | inr q ↦ rw q (h.0, All-update c address bytes frozen h.1)
    ]

pub update_frozen-Ordered :
    (address : ℕ) (bytes : List ℕ) (frozen : FrozenMap)
    → Ordered frozen
    → Ordered (update_frozen address bytes frozen)
unfolding update_frozen
update_frozen-Ordered address bytes [] h = tt
update_frozen-Ordered address bytes ((b, w) ∷ frozen) h =
    elim (Bool-cases (leb (u64 (address + length bytes)) b)) [
      | inl q ↦ rw q h
      | inr q ↦
          rw q
            (All-update b address bytes frozen h.0, update_frozen-Ordered address bytes frozen h.1)
    ]

pub length-update_frozen :
    (address : ℕ) (bytes : List ℕ) (frozen : FrozenMap)
    → length (update_frozen address bytes frozen) ≡ length frozen
unfolding update_frozen
length-update_frozen address bytes [] = refl
length-update_frozen address bytes ((b, w) ∷ frozen) =
    elim (Bool-cases (leb (u64 (address + length bytes)) b)) [
      | inl q ↦ rw q refl
      | inr q ↦ rw q (ap suc (length-update_frozen address bytes frozen))
    ]
