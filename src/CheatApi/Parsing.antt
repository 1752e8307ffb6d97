-- ===== src/CheatApi/Parsing.antt =====
-- ParseCheats of dmnt/source/cheat/impl/dmnt_cheat_api.cpp.
use nx_sysmodules.Base.{
  ℕ, zero, suc, ◌+◌, ◌-◌, ◌*◌, Bool, true, not, ◌&&◌, ◌||◌, Option, none, some, List, [], ◌∷◌, ◌++◌,
  ltb, leb, ◌==◌, if◌then◌else◌, length, set, get_elem?, ◌⊎◌, inl, inr,
}
use nx_sysmodules.CheatApi.State.{Entry, Sizes}
use nx_sysmodules.CheatApi.Entries.{has_opcodes, get_free_cheat_entry}
use nx_sysmodules.CheatApi.Toggles.{
  is_space, Parsed, accepted, refused, overrun, exhausted, until_close,
}

-- std::isxdigit, and the digit.
abbrev pub is_xdigit : ℕ → Bool
is_xdigit c =
    (leb 0x30 c && leb c 0x39) || ((leb 0x41 c && leb c 0x46) || (leb 0x61 c && leb c 0x66))

abbrev pub xdigit : ℕ → ℕ
xdigit c = if leb c 0x39 then c - 0x30 else if leb c 0x46 then c - 0x37 else c - 0x57

-- The rest of an opcode of which `left` digits are missing, after `value`: strtoul, where all digits are
-- hexadecimal.
unfoldable pub hex_word : ℕ → ℕ → List ℕ → Option (ℕ × List ℕ)
hex_word zero value text = some (value, text)
hex_word (suc left) value [] = none
hex_word (suc left) value (c ∷ text) =
    let rest = hex_word left (value * 16 + xdigit c) text in if is_xdigit c then rest else none

-- The end of ParseCheats: the master cheat is enabled if it has opcodes, the others as by default.
unfoldable pub enable_entries : Bool → List Entry → List Entry
enable_entries b [] = []
enable_entries b (e ∷ entries) =
    (if has_opcodes e then record e { enabled = b } else e) ∷ enable_entries b entries

unfoldable pub enable_parsed : Bool → List Entry → List Entry
unfolding enable_entries
enable_parsed default [] = []
enable_parsed default (master ∷ entries) =
    (if has_opcodes master then record master { enabled = true } else master)
    ∷ enable_entries default entries

abbrev pub with_name : List ℕ → Entry → Entry
with_name name e = record e { readable_name = name }

abbrev pub with_opcode : ℕ → Entry → Entry
with_opcode word e = record e { opcodes = e.opcodes ++ word ∷ [] }

module _ (sizes : Sizes) where
  -- The entry a name is for takes it, and is the current one; the name's end is behind the buffer where
  -- the name fills it.
  unfoldable pub name_entry :
      Option (ℕ × Entry)
      → Option (List ℕ × List ℕ)
      → List Entry
      → Parsed (List Entry) ⊎ (ℕ × List Entry × List ℕ)
  name_entry none found entries = inl (refused entries)
  name_entry (some (i, e)) none entries = inl (refused entries)
  name_entry (some (i, e)) (some (name, after)) entries =
      if leb sizes.name_size (length name)
      then inl overrun
      else inr (i, set entries i (with_name name e), after)

  -- The master cheat, if it has no opcodes yet.
  abbrev pub free_master : List Entry → Option (ℕ × Entry)
  free_master [] = none
  free_master (master ∷ entries) = if has_opcodes master then none else some (0, master)

  -- The current entry, if it has room for one opcode more.
  unfoldable pub open_entry : Option ℕ → List Entry → Option (ℕ × Entry)
  open_entry none entries = none
  open_entry (some i) entries = elim (get_elem? entries i) [
    | none ↦ none
    | some e ↦ if ltb (length e.opcodes) sizes.opcodes_size then some (i, e) else none
  ]

  -- One token of the loop: the current entry, the entries and the text that are left, or an end.
  unfoldable pub parse_token :
      Option ℕ → List Entry → ℕ → List ℕ → Parsed (List Entry) ⊎ (Option ℕ × List Entry × List ℕ)
  unfolding name_entry open_entry get_free_cheat_entry until_close hex_word
  parse_token current entries c text =
      let named = λ (close : ℕ) (slot : Option (ℕ × Entry)).
        elim (name_entry slot (until_close close text) entries)
          as (λ _. Parsed (List Entry) ⊎ (Option ℕ × List Entry × List ℕ)) [
            | inl end ↦ inl end
            | inr (i, written, after) ↦ inr (some i, written, after)
          ] in
      if is_space c
      then inr (current, entries, text)
      else if c == 0x5B
      then named 0x5D (get_free_cheat_entry entries)
      else if c == 0x7B
      then named 0x7D (free_master entries)
      else if not (is_xdigit c)
      then inl (refused entries)
      else elim (open_entry current entries) [
        | none ↦ inl (refused entries)
        | some (i, e) ↦ elim (hex_word 7 (xdigit c) text) [
          | none ↦ inl (refused entries)
          | some (word, after) ↦ inr (some i, set entries i (with_opcode word e), after)
        ]
      ]

  -- The loop of ParseCheats. A refused text leaves the entries as far as they were read.
  unfoldable pub parse_tokens : ℕ → Bool → Option ℕ → List Entry → List ℕ → Parsed (List Entry)
  unfolding parse_token enable_parsed
  parse_tokens fuel default current entries [] = accepted (enable_parsed default entries)
  parse_tokens zero default current entries (c ∷ text) = exhausted
  parse_tokens (suc fuel) default current entries (c ∷ text) =
      elim (parse_token current entries c text) [
        | inl end ↦ end
        | inr (now, written, after) ↦ parse_tokens fuel default now written after
      ]

  -- Each token takes a byte at least.
  unfoldable pub parse_cheats : Bool → List Entry → List ℕ → Parsed (List Entry)
  unfolding parse_tokens
  parse_cheats default entries text = parse_tokens (length text) default none entries text
