-- ===== src/CheatApi/Saving.antt =====
-- SaveCheatToggles of dmnt/source/cheat/impl/dmnt_cheat_api.cpp, and ParseCheatToggles of what it writes.
use nx_sysmodules.Base.{
  ℕ, suc, ◌<◌, ◌≡◌, Bool, true, false, List, [], ◌∷◌, ◌++◌, ◌==◌, if◌then◌else◌, length, bytes_eq,
  map, All,
}
use nx_sysmodules.CheatApi.State.{Entry}
use nx_sysmodules.CheatApi.Entries.{has_opcodes}

abbrev pub value_text : Bool → List ℕ
value_text b =
    if b
    then 0x74 ∷ 0x72 ∷ 0x75 ∷ 0x65 ∷ 0x0A ∷ []
    else 0x66 ∷ 0x61 ∷ 0x6C ∷ 0x73 ∷ 0x65 ∷ 0x0A ∷ []

abbrev pub name_text : List ℕ → List ℕ
name_text name = 0x5B ∷ (name ++ 0x5D ∷ 0x0A ∷ [])

-- The texts of the calls of WriteFile, over the entries after the master cheat. A name is shorter than
-- the buffer that snprintf writes to.
unfoldable pub toggle_writes : List Entry → List (List ℕ)
toggle_writes [] = []
toggle_writes (e ∷ entries) =
    let rest = toggle_writes entries in
    if has_opcodes e then name_text e.readable_name ∷ value_text e.enabled ∷ rest else rest

-- What the file holds, where the n-th write succeeds or not.
unfoldable pub written_text : (ℕ → Bool) → ℕ → List (List ℕ) → List ℕ
written_text can_write n [] = []
written_text can_write n (text ∷ texts) =
    let rest = written_text can_write (suc n) texts in if can_write n then text ++ rest else rest

unfoldable pub save_cheat_toggles : (ℕ → Bool) → List Entry → List ℕ
unfolding toggle_writes written_text
save_cheat_toggles can_write [] = []
save_cheat_toggles can_write (master ∷ entries) = written_text can_write 0 (toggle_writes entries)

-- A name that can be read back: no closing bracket, and shorter than its buffer.
abbrev pub IsToggleName : ℕ → List ℕ → Type 0
IsToggleName name_size name = All (λ c. (c == 0x5D) ≡ false) name × (length name < name_size)

abbrev pub names : List Entry → List (List ℕ)
names = map (λ e. e.readable_name)

-- No name before it is the same.
abbrev pub IsNew : List ℕ → List (List ℕ) → Type 0
IsNew name = All (λ n. bytes_eq n name ≡ false)

-- Every cheat with opcodes has a name that can be read back and that no cheat before it has.
abbrev pub AreNamed : ℕ → List (List ℕ) → List Entry → Type 0
AreNamed name_size before [] = Unit
AreNamed name_size before (e ∷ entries) =
    (has_opcodes e ≡ true → IsToggleName name_size e.readable_name × IsNew e.readable_name before)
    × AreNamed name_size (before ++ e.readable_name ∷ []) entries

-- The same cheats, whichever are enabled.
abbrev pub SameCheats : List Entry → List Entry → Type 0
SameCheats [] [] = Unit
SameCheats [] (e ∷ entries) = ⊥
SameCheats (m ∷ ms) [] = ⊥
SameCheats (m ∷ ms) (e ∷ entries) =
    (e.readable_name ≡ m.readable_name) × (e.opcodes ≡ m.opcodes) × SameCheats ms entries

-- The second entries with the flags of the first, where a cheat has opcodes.
unfoldable pub with_flags : List Entry → List Entry → List Entry
with_flags [] entries = entries
with_flags (m ∷ ms) [] = []
with_flags (m ∷ ms) (e ∷ entries) =
    (if has_opcodes m then record e { enabled = m.enabled } else e) ∷ with_flags ms entries
