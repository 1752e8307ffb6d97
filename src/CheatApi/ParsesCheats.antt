-- ===== src/CheatApi/ParsesCheats.antt =====
-- ParseCheats of dmnt/source/cheat/impl/dmnt_cheat_api.cpp comes to an end, and leaves slots.
use nx_sysmodules.Base.{
  ℕ, zero, suc, ◌+◌, ◌*◌, ◌≤◌, ◌<◌, ◌≡◌, refl, ap, ◌∙◌, ◌⊎◌, inl, inr, Bool, true, not, ltb, leb,
  ◌==◌, Option, none, some, List, [], ◌∷◌, if◌then◌else◌, length, set, get_elem?, length-append,
  Bool-cases, arith, ltb→lt,
}
use nx_sysmodules.CheatApi.State.{Entry, Sizes}
use nx_sysmodules.CheatApi.Entries.{has_opcodes, get_free_cheat_entry}
use nx_sysmodules.CheatApi.Toggles.{is_space, Parsed, refused, until_close}
use nx_sysmodules.CheatApi.Parsing.{
  is_xdigit, xdigit, hex_word, enable_entries, enable_parsed, with_name, with_opcode, name_entry,
  free_master, open_entry, parse_token, parse_tokens, parse_cheats,
}
use nx_sysmodules.CheatApi.WellFormed.{
  IsSlot, AreSlots, Slots, FoundIn, get_free_cheat_entry-FoundIn, Slots-set, Slots-change,
}
use nx_sysmodules.CheatApi.Parses.{Ends, Shorter, until_close-Shorter}
use nx_sysmodules.Base.{if-rule, option-rule}

Shorter-weaken :
    {A : Type 0} (c : ℕ) (text : List ℕ) (r : Option (A × List ℕ))
    → Shorter text r
    → Shorter (c ∷ text) r
Shorter-weaken c text none h = tt
Shorter-weaken c text (some a) h = omega (arith, h)

hex_word-Shorter :
    (left value c : ℕ) (text : List ℕ) → Shorter (c ∷ text) (hex_word left value text)
unfolding hex_word
hex_word-Shorter zero value c text = omega arith
hex_word-Shorter (suc left) value c [] = tt
hex_word-Shorter (suc left) value c (d ∷ text) =
    let rest = hex_word-Shorter left (value * 16 + xdigit d) d text in
    if-rule (Shorter (c ∷ d ∷ text)) (is_xdigit d) _ _
      (Shorter-weaken c (d ∷ text) (hex_word left (value * 16 + xdigit d) text) rest) tt

-- What enabling leaves.
IsSlot-enabled :
    (size i : ℕ) (b : Bool) (e : Entry)
    → IsSlot size i e
    → IsSlot size i (if has_opcodes e then record e { enabled = b } else e)
IsSlot-enabled size i b e h =
    if-rule (IsSlot size i) (has_opcodes e) _ _
      (record { numbered = h.numbered; bounded = h.bounded }) h

enable_entries-AreSlots :
    (size i : ℕ) (b : Bool) (entries : List Entry)
    → AreSlots size i entries
    → AreSlots size i (enable_entries b entries)
unfolding enable_entries
enable_entries-AreSlots size i b [] h = h
enable_entries-AreSlots size i b (e ∷ entries) h =
    (IsSlot-enabled size i b e h.0, enable_entries-AreSlots size (suc i) b entries h.1)

length-enable_entries :
    (b : Bool) (entries : List Entry) → length (enable_entries b entries) ≡ length entries
unfolding enable_entries
length-enable_entries b [] = refl
length-enable_entries b (e ∷ entries) = ap suc (length-enable_entries b entries)

enable_parsed-Slots :
    (size : ℕ) (b : Bool) (entries : List Entry)
    → Slots size entries
    → Slots size (enable_parsed b entries)
unfolding enable_parsed
enable_parsed-Slots size b [] h = h
enable_parsed-Slots size b (e ∷ entries) h = record {
  all = (IsSlot-enabled size 0 true e h.all.0, enable_entries-AreSlots size 1 b entries h.all.1);
  count = ap suc (length-enable_entries b entries) ∙ h.count;
}

module _ (sizes : Sizes) where
  -- What a token leaves.
  abbrev Steps : List ℕ → Parsed (List Entry) ⊎ (Option ℕ × List Entry × List ℕ) → Type 0
  Steps text (inl end) = Ends (Slots sizes.opcodes_size) end
  Steps text (inr (now, written, after)) =
      Slots sizes.opcodes_size written × (length after ≤ length text)

  abbrev RoomIn : List Entry → Option (ℕ × Entry) → Type 0
  RoomIn entries none = Unit
  RoomIn entries (some (i, e)) =
      (get_elem? entries i ≡ some e) × (length e.opcodes < sizes.opcodes_size)

  open_entry-RoomIn :
      (current : Option ℕ) (entries : List Entry)
      → RoomIn entries (open_entry sizes current entries)
  unfolding open_entry
  open_entry-RoomIn none entries = tt
  open_entry-RoomIn (some i) entries =
      option-rule (RoomIn entries) (get_elem? entries i) none
        (λ e. if ltb (length e.opcodes) sizes.opcodes_size then some (i, e) else none) tt
        (λ e q. elim (Bool-cases (ltb (length e.opcodes) sizes.opcodes_size)) [
          | inl b ↦ rw b (q, ltb→lt (length e.opcodes) sizes.opcodes_size b)
          | inr b ↦ rw b tt
        ])

  free_master-FoundIn : (entries : List Entry) → FoundIn entries (free_master sizes entries)
  free_master-FoundIn [] = tt
  free_master-FoundIn (master ∷ entries) =
      if-rule (FoundIn (master ∷ entries)) (has_opcodes master) none (some (0, master)) tt refl

  -- The slot that takes a name.
  name_entry-Steps :
      (slot : Option (ℕ × Entry)) (found : Option (List ℕ × List ℕ)) (entries : List Entry)
      (text : List ℕ)
      → FoundIn entries slot
      → Shorter text found
      → Slots sizes.opcodes_size entries
      → Steps text
          (elim (name_entry sizes slot found entries)
            as (λ _. Parsed (List Entry) ⊎ (Option ℕ × List Entry × List ℕ)) [
              | inl end ↦ inl end
              | inr (i, written, after) ↦ inr (some i, written, after)
            ])
  unfolding name_entry
  name_entry-Steps none found entries text f l h = h
  name_entry-Steps (some (i, e)) none entries text f l h = h
  name_entry-Steps (some (i, e)) (some (name, after)) entries text f l h =
      elim (Bool-cases (leb sizes.name_size (length name))) [
        | inl q ↦ rw q tt
        | inr q ↦ rw q (
          Slots-change sizes.opcodes_size entries i e (with_name name e) h f refl refl,
          omega (arith, l),
        )
      ]

  -- The slot that takes an opcode.
  opcode-Steps :
      (slot : Option (ℕ × Entry)) (found : Option (ℕ × List ℕ)) (entries : List Entry) (c : ℕ)
      (text : List ℕ)
      → RoomIn entries slot
      → Shorter (c ∷ text) found
      → Slots sizes.opcodes_size entries
      → Steps text (elim slot as (λ _. Parsed (List Entry) ⊎ (Option ℕ × List Entry × List ℕ)) [
        | none ↦ inl (refused entries)
        | some (i, e) ↦ elim found [
          | none ↦ inl (refused entries)
          | some (word, after) ↦ inr (some i, set entries i (with_opcode word e), after)
        ]
      ])
  opcode-Steps none found entries c text r l h = h
  opcode-Steps (some (i, e)) none entries c text r l h = h
  opcode-Steps (some (i, e)) (some (word, after)) entries c text r l h =
      let longer = length-append e.opcodes (word ∷ []) in
      let room = r.1 in
      (
        Slots-set sizes.opcodes_size entries i e (with_opcode word e) h r.0 refl
            (omega (arith, longer, room)),
        omega (arith, l),
      )

  parse_token-Steps :
      (current : Option ℕ) (entries : List Entry) (c : ℕ) (text : List ℕ)
      → Slots sizes.opcodes_size entries
      → Steps text (parse_token sizes current entries c text)
  unfolding parse_token
  parse_token-Steps current entries c text h =
      let S = Steps text in
      if-rule S (is_space c) _ _ (h, omega arith)
        (if-rule S (c == 0x5B) _ _
          (name_entry-Steps (get_free_cheat_entry entries) (until_close 0x5D text) entries text
            (get_free_cheat_entry-FoundIn entries) (until_close-Shorter 0x5D text) h)
          (if-rule S (c == 0x7B) _ _
            (name_entry-Steps (free_master sizes entries) (until_close 0x7D text) entries text
              (free_master-FoundIn entries) (until_close-Shorter 0x7D text) h)
            (if-rule S (not (is_xdigit c)) _ _ h (
              opcode-Steps (open_entry sizes current entries) (hex_word 7 (xdigit c) text) entries c
                text (open_entry-RoomIn current entries) (hex_word-Shorter 7 (xdigit c) c text)
                h))))

  next_token :
      (fuel : ℕ) (default : Bool) (text : List ℕ)
      → ((now : Option ℕ) (written : List Entry) (after : List ℕ)
          → length after ≤ length text
          → Slots sizes.opcodes_size written
          → Ends (Slots sizes.opcodes_size) (parse_tokens sizes fuel default now written after))
      → (r : Parsed (List Entry) ⊎ (Option ℕ × List Entry × List ℕ)) → Steps text r
      → Ends (Slots sizes.opcodes_size) (elim r as (λ _. Parsed (List Entry)) [
        | inl end ↦ end
        | inr (now, written, after) ↦ parse_tokens sizes fuel default now written after
      ])
  next_token fuel default text rest (inl end) k = k
  next_token fuel default text rest (inr (now, written, after)) k = rest now written after k.1 k.0

  parse_tokens-Ends :
      (fuel : ℕ) (default : Bool) (current : Option ℕ) (entries : List Entry) (text : List ℕ)
      → length text ≤ fuel
      → Slots sizes.opcodes_size entries
      → Ends (Slots sizes.opcodes_size) (parse_tokens sizes fuel default current entries text)
  unfolding parse_tokens
  parse_tokens-Ends zero default current entries [] l h =
      enable_parsed-Slots sizes.opcodes_size default entries h
  parse_tokens-Ends (suc fuel) default current entries [] l h =
      enable_parsed-Slots sizes.opcodes_size default entries h
  parse_tokens-Ends zero default current entries (c ∷ text) l h = absurd (omega arith)
  parse_tokens-Ends (suc fuel) default current entries (c ∷ text) l h =
      next_token fuel default text
        (λ now written after k.
          parse_tokens-Ends fuel default now written after (omega (arith, k, l)))
        (parse_token sizes current entries c text) (parse_token-Steps current entries c text h)

  -- ParseCheats ends, with the fuel it is given here, on every text: where it accepts or refuses, it
  -- leaves 0x80 slots, each with its index as its id and no more opcodes than its array holds.
  pub parse_cheats-Ends :
      (default : Bool) (entries : List Entry) (text : List ℕ)
      → Slots sizes.opcodes_size entries
      → Ends (Slots sizes.opcodes_size) (parse_cheats sizes default entries text)
  unfolding parse_cheats
  parse_cheats-Ends default entries text h =
      parse_tokens-Ends (length text) default none entries text (omega arith) h
