-- ===== src/CheatApi/WellFormed.antt =====
-- The invariant of CheatProcessManager, dmnt/source/cheat/impl/dmnt_cheat_api.cpp, on its slots: how each
-- function on the slots keeps it.
use nx_sysmodules.Base.{
  ℕ, zero, suc, ◌+◌, ◌≤◌, ◌≡◌, refl, ◌∙◌, inl, inr, Bool, not, ltb, Option, none, some, List, [],
  ◌∷◌, length, set, get_elem?, length-set, Bool-cases, Option-cases, arith, bytes_eq,
}
use mathlib.Core.Option.{some-injective}
use nx_sysmodules.CheatApi.State.{max_cheat_count, Entry, State}
use nx_sysmodules.CheatApi.Entries.{
  reset_cheat_entry, reset_entries, reset_all_cheat_entries, empty_entry, has_opcodes, next_entry,
  find_entry, find_non_master, get_cheat_entry_by_readable_name, get_free_cheat_entry,
}
use nx_sysmodules.CheatApi.Toggles.{toggle_value, apply_toggle}

-- A slot has its index as its id, and no more opcodes than its array holds.
pub record IsSlot (size i : ℕ) (e : Entry) : Type 0 where
  pub numbered : e.cheat_id ≡ i
  pub bounded : length e.opcodes ≤ size

abbrev pub AreSlots : ℕ → ℕ → List Entry → Type 0
AreSlots size i [] = Unit
AreSlots size i (e ∷ entries) = IsSlot size i e × AreSlots size (suc i) entries

-- The slots of the manager.
pub record Slots (size : ℕ) (entries : List Entry) : Type 0 where
  pub all : AreSlots size 0 entries
  pub count : length entries ≡ max_cheat_count

IsSlot-at : {size i j : ℕ} {e : Entry} → i ≡ j → IsSlot size i e → IsSlot size j e
IsSlot-at same h = record { numbered = h.numbered ∙ same; bounded = h.bounded }

AreSlots-set :
    (size i j : ℕ) (entries : List Entry) (e : Entry)
    → AreSlots size i entries
    → IsSlot size (i + j) e
    → AreSlots size i (set entries j e)
AreSlots-set size i j [] e a h = a
AreSlots-set size i zero (x ∷ entries) e a h = (IsSlot-at (omega arith) h, a.1)
AreSlots-set size i (suc j) (x ∷ entries) e a h =
    (a.0, AreSlots-set size (suc i) j entries e a.1 (IsSlot-at (omega arith) h))

AreSlots-get :
    (size i j : ℕ) (entries : List Entry) {e : Entry}
    → AreSlots size i entries
    → get_elem? entries j ≡ some e
    → IsSlot size (i + j) e
AreSlots-get size i j [] a h = cc
AreSlots-get size i zero (x ∷ entries) {e} a h =
    let same = some-injective x e h in rw (← same) (IsSlot-at (omega arith) a.0)
AreSlots-get size i (suc j) (x ∷ entries) a h =
    IsSlot-at (omega arith) (AreSlots-get size (suc i) j entries a.1 h)

-- A search answers what stands at the index it answers.
abbrev pub FoundIn : List Entry → Option (ℕ × Entry) → Type 0
FoundIn entries none = Unit
FoundIn entries (some (i, e)) = get_elem? entries i ≡ some e

FoundIn-next :
    (x : Entry) (entries : List Entry) (found : Option (ℕ × Entry))
    → FoundIn entries found
    → FoundIn (x ∷ entries) (next_entry found)
FoundIn-next x entries none h = tt
FoundIn-next x entries (some (i, e)) h = h

find_entry-FoundIn :
    (p : Entry → Bool) (entries : List Entry) → FoundIn entries (find_entry p entries)
unfolding find_entry
find_entry-FoundIn p [] = tt
find_entry-FoundIn p (x ∷ entries) = elim (Bool-cases (p x)) [
  | inl q ↦ rw q refl
  | inr q ↦ rw q (FoundIn-next x entries (find_entry p entries) (find_entry-FoundIn p entries))
]

pub find_non_master-FoundIn :
    (p : Entry → Bool) (entries : List Entry) → FoundIn entries (find_non_master p entries)
unfolding find_non_master
find_non_master-FoundIn p [] = tt
find_non_master-FoundIn p (x ∷ entries) =
    FoundIn-next x entries (find_entry p entries) (find_entry-FoundIn p entries)

pub get_cheat_entry_by_readable_name-FoundIn :
    (name : List ℕ) (entries : List Entry)
    → FoundIn entries (get_cheat_entry_by_readable_name name entries)
unfolding get_cheat_entry_by_readable_name
get_cheat_entry_by_readable_name-FoundIn name entries =
    find_non_master-FoundIn (λ e. bytes_eq e.readable_name name) entries

pub get_free_cheat_entry-FoundIn :
    (entries : List Entry) → FoundIn entries (get_free_cheat_entry entries)
unfolding get_free_cheat_entry
get_free_cheat_entry-FoundIn entries = find_non_master-FoundIn (λ e. not (has_opcodes e)) entries

module _ (size : ℕ) where
  -- A slot that was found can be written.
  pub Slots-set :
      (entries : List Entry) (i : ℕ) (e d : Entry)
      → Slots size entries
      → get_elem? entries i ≡ some e
      → d.cheat_id ≡ e.cheat_id
      → length d.opcodes ≤ size
      → Slots size (set entries i d)
  Slots-set entries i e d s found same bounded =
      let slot = AreSlots-get size 0 i entries s.all found in
      record {
        all =
            AreSlots-set size 0 i entries d s.all
              (record { numbered = same ∙ slot.numbered; bounded = bounded });
        count = length-set entries i d ∙ s.count;
      }

  -- The same with a change of the slot that keeps its id and its opcodes.
  pub Slots-change :
      (entries : List Entry) (i : ℕ) (e d : Entry)
      → Slots size entries
      → get_elem? entries i ≡ some e
      → d.cheat_id ≡ e.cheat_id
      → d.opcodes ≡ e.opcodes
      → Slots size (set entries i d)
  Slots-change entries i e d s found same ops =
      let slot = AreSlots-get size 0 i entries s.all found in
      Slots-set entries i e d s found same (rw ops slot.bounded)

  pub Slots-put :
      (entries : List Entry) (i : ℕ) (e d : Entry)
      → Slots size entries
      → get_elem? entries i ≡ some e
      → d.cheat_id ≡ e.cheat_id
      → (length e.opcodes ≤ size → length d.opcodes ≤ size)
      → Slots size (set entries i d)
  Slots-put entries i e d s found same bounded =
      Slots-set entries i e d s found same
        (bounded (AreSlots-get size 0 i entries s.all found).bounded)

  pub reset_cheat_entry-Slots :
      (i : ℕ) (s : State) → Slots size s.entries → Slots size (reset_cheat_entry i s).entries
  unfolding reset_cheat_entry
  reset_cheat_entry-Slots i s h = elim (Bool-cases (ltb i max_cheat_count)) [
    | inl q ↦ rw q (record {
      all =
          AreSlots-set size 0 i s.entries (empty_entry i) h.all
            (record { numbered = omega arith; bounded = omega arith });
      count = length-set s.entries i (empty_entry i) ∙ h.count;
    })
    | inr q ↦ rw q h
  ]

  reset_entries-Slots :
      (left i : ℕ) (s : State) → Slots size s.entries → Slots size (reset_entries i left s).entries
  unfolding reset_entries
  reset_entries-Slots zero i s h = h
  reset_entries-Slots (suc left) i s h =
      reset_entries-Slots left (suc i) (reset_cheat_entry i s) (reset_cheat_entry-Slots i s h)

  pub reset_all_cheat_entries-Slots :
      (s : State) → Slots size s.entries → Slots size (reset_all_cheat_entries s).entries
  unfolding reset_all_cheat_entries
  reset_all_cheat_entries-Slots s h = reset_entries-Slots max_cheat_count 0 s h

  pub apply_toggle-Slots :
      (name word : List ℕ) (entries : List Entry)
      → Slots size entries
      → Slots size (apply_toggle name word entries)
  unfolding apply_toggle
  apply_toggle-Slots name word entries h =
      elim (Option-cases (get_cheat_entry_by_readable_name name entries)) [
        | inl q ↦ rw (apply_toggle, q) h
        | inr ((i, e), q) ↦ elim (Option-cases (toggle_value word)) [
          | inl v ↦ rw (apply_toggle, q, v) h
          | inr (b, v) ↦
              let found = get_cheat_entry_by_readable_name-FoundIn name entries in
              let there = rw q at found in
              rw (apply_toggle, q, v)
                (Slots-change entries i e (record e { enabled = b }) h there refl refl)
        ]
      ]
