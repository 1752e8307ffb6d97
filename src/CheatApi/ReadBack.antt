-- ===== src/CheatApi/ReadBack.antt =====
-- Reading what SaveCheatToggles of dmnt/source/cheat/impl/dmnt_cheat_api.cpp writes, piece by piece.
use nx_sysmodules.Base.{
  ℕ, ◌<◌, ◌≡◌, refl, ap, ◌∙◌, inl, inr, Bool, false, Option, none, some, List, [], ◌∷◌, ◌++◌, leb,
  ◌==◌, if◌then◌else◌, length, set, bytes_eq, bytes_eq_refl, arith, All, Bool-cases, Option-cases,
}
use nx_sysmodules.CheatApi.State.{Entry}
use nx_sysmodules.CheatApi.Entries.{next_entry, find_entry}
use nx_sysmodules.CheatApi.Toggles.{until_close, toggle_value, apply_toggle}
use nx_sysmodules.CheatApi.Saving.{names, IsNew}

-- Reading the pieces.
pub until_close-name :
    (name after : List ℕ)
    → All (λ c. (c == 0x5D) ≡ false) name
    → until_close 0x5D (name ++ 0x5D ∷ after) ≡ some (name, after)
unfolding until_close
until_close-name [] after h = refl
until_close-name (c ∷ name) after h = rw (h.0, until_close-name name after h.1)

-- The first entry of the name takes the value.
pub update_first : (Entry → Bool) → Bool → List Entry → List Entry
update_first p b [] = []
update_first p b (e ∷ entries) =
    if p e then record e { enabled = b } ∷ entries else e ∷ update_first p b entries

pub put_found : Bool → List Entry → Option (ℕ × Entry) → List Entry
put_found b entries none = entries
put_found b entries (some (i, e)) = set entries i (record e { enabled = b })

pub put_found-find_entry :
    (p : Entry → Bool) (b : Bool) (entries : List Entry)
    → put_found b entries (find_entry p entries) ≡ update_first p b entries
unfolding put_found find_entry update_first
put_found-find_entry p b [] = refl
put_found-find_entry p b (e ∷ entries) = elim (Bool-cases (p e)) [
  | inl q ↦ rw q
  | inr q ↦ elim (Option-cases (find_entry p entries)) [
    | inl n ↦ let rest = put_found-find_entry p b entries in ground (arith, rest)
    | inr ((i, x), f) ↦ let rest = put_found-find_entry p b entries in ground (arith, rest)
  ]
]

pub put_found-next :
    (b : Bool) (master : Entry) (entries : List Entry) (found : Option (ℕ × Entry))
    → put_found b (master ∷ entries) (next_entry found) ≡ master ∷ put_found b entries found
unfolding put_found
put_found-next b master entries none = refl
put_found-next b master entries (some (i, e)) = refl

pub put_found-toggled :
    (word : List ℕ) (b : Bool) (entries : List Entry) (found : Option (ℕ × Entry))
    → toggle_value word ≡ some b
    → elim found as (λ _. List Entry) [
      | none ↦ entries
      | some (i, e) ↦ elim (toggle_value word) [
        | none ↦ entries
        | some b ↦ set entries i (record e { enabled = b })
      ]
    ]
      ≡ put_found b entries found
unfolding put_found
put_found-toggled word b entries none v = refl
put_found-toggled word b entries (some (i, e)) v = rw v

pub apply_toggle_lem :
    (name word : List ℕ) (b : Bool) (master : Entry) (entries : List Entry)
    → toggle_value word ≡ some b
    → apply_toggle name word (master ∷ entries)
      ≡ master ∷ update_first (λ e. bytes_eq e.readable_name name) b entries
unfolding apply_toggle
apply_toggle_lem name word b master entries v =
    let p = λ (e : Entry). bytes_eq e.readable_name name in
    put_found-toggled word b (master ∷ entries) (next_entry (find_entry p entries)) v
    ∙ (put_found-next b master entries (find_entry p entries)
        ∙ ap (λ es. master ∷ es) (put_found-find_entry p b entries))

pub update_first-new :
    (name : List ℕ) (b : Bool) (before : List Entry) (e : Entry) (entries : List Entry)
    → IsNew name (names before)
    → e.readable_name ≡ name
    → update_first (λ e. bytes_eq e.readable_name name) b (before ++ e ∷ entries)
      ≡ before ++ record e { enabled = b } ∷ entries
unfolding update_first
update_first-new name b [] e entries n same = ground (arith, bytes_eq_refl name, same)
update_first-new name b (x ∷ before) e entries n same =
    rw (n.0, update_first-new name b before e entries n.1 same)

abbrev pub true_word : List ℕ
true_word = 0x74 ∷ 0x72 ∷ 0x75 ∷ 0x65 ∷ []

abbrev pub false_word : List ℕ
false_word = 0x66 ∷ 0x61 ∷ 0x6C ∷ 0x73 ∷ 0x65 ∷ []

pub short :
    (name_size : ℕ) (name : List ℕ) → length name < name_size → leb name_size (length name) ≡ false
short name_size name l = ground arith
