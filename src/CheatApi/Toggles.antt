-- ===== src/CheatApi/Toggles.antt =====
-- ParseCheatToggles and SaveCheatToggles of dmnt/source/cheat/impl/dmnt_cheat_api.cpp. A text is the
-- bytes that are left of it; a zero stands after its end.
use nx_sysmodules.Base.{
  ℕ, zero, suc, ◌+◌, ◌-◌, Bool, true, false, not, ◌&&◌, ◌||◌, Option, none, some, List, [], ◌∷◌,
  leb, ◌==◌, if◌then◌else◌, length, set, bytes_eq, map,
}
use nx_sysmodules.CheatApi.State.{Entry}
use nx_sysmodules.CheatApi.Entries.{get_cheat_entry_by_readable_name}

-- std::isspace
abbrev pub is_space : ℕ → Bool
is_space c = c == 0x20 || (leb 9 c && leb c 13)

-- The lower case of a byte in strcasecmp, and the equality of two texts to it.
abbrev pub lower : ℕ → ℕ
lower c = if leb 0x41 c && leb c 0x5A then c + 0x20 else c

unfoldable pub same_word : List ℕ → List ℕ → Bool
same_word word text = bytes_eq (map lower word) text

-- The ends of a parser: true or false is returned with the entries it leaves, an access is out of
-- bounds, or the fuel is used up.
pub data Parsed (A : Type 0) : Type 0 where
  accepted : A → Parsed A
  refused : A → Parsed A
  overrun : Parsed A
  exhausted : Parsed A

-- The bytes up to a closing bracket, and what is after it.
unfoldable pub until_close : ℕ → List ℕ → Option (List ℕ × List ℕ)
until_close close [] = none
until_close close (c ∷ text) =
    let rest = until_close close text in
    if c == close
    then some ([], text)
    else elim rest [ none ↦ none | some (name, after) ↦ some (c ∷ name, after) ]

unfoldable pub skip_space : List ℕ → List ℕ
skip_space [] = []
skip_space (c ∷ text) = if is_space c then skip_space text else c ∷ text

-- A toggle up to the white space after it, which is passed over; `left` more bytes have room.
unfoldable pub until_space : ℕ → List ℕ → Option (List ℕ × List ℕ)
until_space left [] = none
until_space zero (c ∷ text) = if is_space c then some ([], text) else none
until_space (suc left) (c ∷ text) =
    let rest = until_space left text in
    if is_space c
    then some ([], text)
    else elim rest [ none ↦ none | some (word, after) ↦ some (c ∷ word, after) ]

abbrev pub toggle_size : ℕ
toggle_size = 8

-- What a toggle asks for.
unfoldable pub toggle_value : List ℕ → Option Bool
unfolding same_word
toggle_value word =
    if same_word word (0x31 ∷ [])
      || (same_word word (0x74 ∷ 0x72 ∷ 0x75 ∷ 0x65 ∷ []) || same_word word (0x6F ∷ 0x6E ∷ []))
    then some true
    else if same_word word (0x30 ∷ [])
        || (same_word word (0x66 ∷ 0x61 ∷ 0x6C ∷ 0x73 ∷ 0x65 ∷ [])
            || same_word word (0x6F ∷ 0x66 ∷ 0x66 ∷ []))
    then some false
    else none

-- The entry of the name takes the value, where there are both.
unfoldable pub apply_toggle : List ℕ → List ℕ → List Entry → List Entry
unfolding get_cheat_entry_by_readable_name toggle_value
apply_toggle name word entries = elim (get_cheat_entry_by_readable_name name entries) [
  | none ↦ entries
  | some (i, e) ↦ elim (toggle_value word) [
    | none ↦ entries
    | some b ↦ set entries i (record e { enabled = b })
  ]
]

module _ (name_size : ℕ) where
  -- The loop of ParseCheatToggles. A name that fills its buffer is closed one byte behind it; where the
  -- text ends after a name, the next byte that is looked at is behind the zero.
  unfoldable pub parse_toggles : ℕ → List Entry → List ℕ → Parsed (List Entry)
  unfolding until_close skip_space until_space apply_toggle
  parse_toggles fuel entries [] = accepted entries
  parse_toggles zero entries (c ∷ text) = exhausted
  parse_toggles (suc fuel) entries (c ∷ text) =
      let skipped = parse_toggles fuel entries text in
      if is_space c
      then skipped
      else if not (c == 0x5B)
      then refused entries
      else elim (until_close 0x5D text) [
        | none ↦ refused entries
        | some (name, after) ↦
            if leb name_size (length name) then overrun else elim (skip_space after) [
              | [] ↦ overrun
              | d ∷ more ↦ elim (until_space (toggle_size - 2) more) [
                | none ↦ refused entries
                | some (word, rest) ↦ parse_toggles fuel (apply_toggle name (d ∷ word) entries) rest
              ]
            ]
      ]

  -- One step takes a byte at least.
  unfoldable pub parse_cheat_toggles : List Entry → List ℕ → Parsed (List Entry)
  unfolding parse_toggles
  parse_cheat_toggles entries text = parse_toggles (length text) entries text
