-- ===== src/CheatApi/Parses.antt =====
-- ParseCheats and ParseCheatToggles of dmnt/source/cheat/impl/dmnt_cheat_api.cpp come to an end, and
-- leave slots.
use nx_sysmodules.Base.{
  ℕ, zero, suc, ◌-◌, ◌≤◌, ◌<◌, ◌≡◌, inl, inr, not, leb, ◌==◌, Option, none, some, List, [], ◌∷◌,
  length, Bool-cases, arith, if-rule, option-rule,
}
use mathlib.Core.Option.{some-injective}
use nx_sysmodules.CheatApi.State.{Entry}
use nx_sysmodules.CheatApi.Toggles.{
  is_space, Parsed, accepted, refused, overrun, exhausted, until_close, skip_space, until_space,
  toggle_size, apply_toggle, parse_toggles, parse_cheat_toggles,
}
use nx_sysmodules.CheatApi.WellFormed.{Slots, apply_toggle-Slots}

-- A parser that ends, and what it leaves.
abbrev pub Ends : (List Entry → Type 0) → Parsed (List Entry) → Type 0
Ends P (accepted entries) = P entries
Ends P (refused entries) = P entries
Ends P overrun = Unit
Ends P exhausted = ⊥

-- What is left after a part of the text is shorter than the text.
abbrev pub Shorter : {A : Type 0} → List ℕ → Option (A × List ℕ) → Type 0
Shorter text none = Unit
Shorter text (some (a, after)) = length after < length text

Shorter-more :
    {A B : Type 0} (f : A → B) (c : ℕ) (text : List ℕ) (r : Option (A × List ℕ))
    → Shorter text r
    → Shorter
        (c ∷ text)
        (elim r as (λ _. Option (B × List ℕ)) [ none ↦ none | some (a, after) ↦ some (f a, after) ])
Shorter-more f c text none h = tt
Shorter-more f c text (some (a, after)) h = omega arith

pub until_close-Shorter : (close : ℕ) (text : List ℕ) → Shorter text (until_close close text)
unfolding until_close
until_close-Shorter close [] = tt
until_close-Shorter close (c ∷ text) = elim (Bool-cases (c == close)) [
  | inl q ↦ rw q (omega arith)
  | inr q ↦ rw q (
      Shorter-more (λ name. c ∷ name) c text (until_close close text)
        (until_close-Shorter close text))
]

skip_space-length : (text : List ℕ) → length (skip_space text) ≤ length text
unfolding skip_space
skip_space-length [] = omega arith
skip_space-length (c ∷ text) = elim (Bool-cases (is_space c)) [
  | inl q ↦ let rest = skip_space-length text in rw q (omega (arith, rest))
  | inr q ↦ rw q (omega arith)
]

until_space-Shorter : (left : ℕ) (text : List ℕ) → Shorter text (until_space left text)
unfolding until_space
until_space-Shorter zero [] = tt
until_space-Shorter (suc left) [] = tt
until_space-Shorter zero (c ∷ text) = elim (Bool-cases (is_space c)) [
  | inl q ↦ rw q (omega arith)
  | inr q ↦ rw q tt
]
until_space-Shorter (suc left) (c ∷ text) = elim (Bool-cases (is_space c)) [
  | inl q ↦ rw q (omega arith)
  | inr q ↦ rw q (
      Shorter-more (λ word. c ∷ word) c text (until_space left text)
        (until_space-Shorter left text))
]

pub Shorter-some :
    {A : Type 0} (text : List ℕ) (r : Option (A × List ℕ)) {a : A × List ℕ}
    → Shorter text r
    → r ≡ some a
    → length a.1 < length text
Shorter-some text none h q = cc
Shorter-some text (some x) {a} h q = let same = some-injective x a q in rw (← same) h

module _ (size name_size : ℕ) where
  -- The toggle after a name.
  toggle-Ends :
      (fuel : ℕ) (entries : List Entry) (name after : List ℕ)
      → ((es : List Entry) (text : List ℕ)
          → length text ≤ fuel
          → Slots size es
          → Ends (Slots size) (parse_toggles name_size fuel es text))
      → length after ≤ fuel
      → Slots size entries
      → Ends (Slots size) (elim (skip_space after) as (λ _. Parsed (List Entry)) [
        | [] ↦ overrun
        | d ∷ more ↦ elim (until_space (toggle_size - 2) more) [
          | none ↦ refused entries
          | some (word, rest) ↦
              parse_toggles name_size fuel (apply_toggle name (d ∷ word) entries) rest
        ]
      ])
  toggle-Ends fuel entries name after ih l h =
      after_space (skip_space after) (skip_space-length after)
    where
      after_space :
          (text : List ℕ)
          → length text ≤ length after
          → Ends (Slots size) (elim text as (λ _. Parsed (List Entry)) [
            | [] ↦ overrun
            | d ∷ more ↦ elim (until_space (toggle_size - 2) more) [
              | none ↦ refused entries
              | some (word, rest) ↦
                  parse_toggles name_size fuel (apply_toggle name (d ∷ word) entries) rest
            ]
          ])
      after_space [] k = tt
      after_space (d ∷ more) k =
          option-rule (Ends (Slots size)) (until_space (toggle_size - 2) more) (refused entries)
            (λ (word, rest).
              parse_toggles name_size fuel (apply_toggle name (d ∷ word) entries) rest)
            h
            (λ (word, rest) q.
              let short =
                Shorter-some more (until_space (toggle_size - 2) more)
                  (until_space-Shorter (toggle_size - 2) more) q in
              ih (apply_toggle name (d ∷ word) entries) rest (omega (arith, short, k, l))
                (apply_toggle-Slots size name (d ∷ word) entries h))

  parse_toggles-Ends :
      (fuel : ℕ) (entries : List Entry) (text : List ℕ)
      → length text ≤ fuel
      → Slots size entries
      → Ends (Slots size) (parse_toggles name_size fuel entries text)
  unfolding parse_toggles
  parse_toggles-Ends zero entries [] l h = h
  parse_toggles-Ends (suc fuel) entries [] l h = h
  parse_toggles-Ends zero entries (c ∷ text) l h = absurd (omega arith)
  parse_toggles-Ends (suc fuel) entries (c ∷ text) l h =
      let E = Ends (Slots size) in
      if-rule E (is_space c) _ _ (parse_toggles-Ends fuel entries text (omega arith) h) (
        if-rule E (not (c == 0x5B)) _ _ h (
          option-rule E (until_close 0x5D text) (refused entries) _ h (λ (name, after) q.
            let short =
              Shorter-some text (until_close 0x5D text) (until_close-Shorter 0x5D text) q in
            if-rule E (leb name_size (length name)) _ _ tt (
              toggle-Ends fuel entries name after (parse_toggles-Ends fuel)
                (omega (arith, short, l)) h))))

  -- ParseCheatToggles ends, with the fuel it is given here, on every text: where it accepts or refuses,
  -- it leaves 0x80 slots, each with its index as its id and no more opcodes than its array holds.
  pub parse_cheat_toggles-Ends :
      (entries : List Entry) (text : List ℕ)
      → Slots size entries
      → Ends (Slots size) (parse_cheat_toggles name_size entries text)
  unfolding parse_cheat_toggles
  parse_cheat_toggles-Ends entries text h =
      parse_toggles-Ends (length text) entries text (omega arith) h
