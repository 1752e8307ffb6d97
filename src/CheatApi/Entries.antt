-- ===== src/CheatApi/Entries.antt =====
-- The cheat slots of CheatProcessManager, dmnt/source/cheat/impl/dmnt_cheat_api.cpp.
use nx_sysmodules.Base.{
  ℕ, zero, suc, Bool, true, false, not, Option, none, some, List, [], ◌∷◌, ltb, ◌==◌, if◌then◌else◌,
  set, get_elem?, length, bytes_eq,
}
use nx_sysmodules.CheatApi.State.{Entry, State, max_cheat_count}

-- An entry after memset, with its id.
abbrev pub empty_entry : ℕ → Entry
empty_entry i = record { enabled = false; cheat_id = i; readable_name = []; opcodes = [] }

abbrev pub has_opcodes : Entry → Bool
has_opcodes e = not (length e.opcodes == 0)

abbrev pub set_needs_reload_vm : Bool → State → State
set_needs_reload_vm b s = record s { needs_reload_vm = b }

abbrev pub put_entry : ℕ → Entry → State → State
put_entry i e s = record s { entries = set s.entries i e }

unfoldable pub reset_cheat_entry : ℕ → State → State
reset_cheat_entry i s =
    if ltb i max_cheat_count then set_needs_reload_vm true (put_entry i (empty_entry i) s) else s

-- The loop of ResetAllCheatEntries over the indices that are left.
unfoldable pub reset_entries : ℕ → ℕ → State → State
unfolding reset_cheat_entry
reset_entries i zero s = s
reset_entries i (suc left) s = reset_entries (suc i) left (reset_cheat_entry i s)

unfoldable pub reset_all_cheat_entries : State → State
unfolding reset_entries
reset_all_cheat_entries = reset_entries 0 max_cheat_count

unfoldable pub get_cheat_entry_by_id : ℕ → List Entry → Option Entry
get_cheat_entry_by_id i entries = if ltb i max_cheat_count then get_elem? entries i else none

abbrev pub next_entry : Option (ℕ × Entry) → Option (ℕ × Entry)
next_entry none = none
next_entry (some (i, e)) = some (suc i, e)

-- The first entry that passes, with its index.
unfoldable pub find_entry : (Entry → Bool) → List Entry → Option (ℕ × Entry)
find_entry p [] = none
find_entry p (e ∷ entries) = if p e then some (0, e) else next_entry (find_entry p entries)

-- The loops over all entries but the master cheat.
unfoldable pub find_non_master : (Entry → Bool) → List Entry → Option (ℕ × Entry)
unfolding find_entry
find_non_master p [] = none
find_non_master p (master ∷ entries) = next_entry (find_entry p entries)

unfoldable pub get_cheat_entry_by_readable_name : List ℕ → List Entry → Option (ℕ × Entry)
unfolding find_non_master
get_cheat_entry_by_readable_name name = find_non_master (λ e. bytes_eq e.readable_name name)

unfoldable pub get_free_cheat_entry : List Entry → Option (ℕ × Entry)
unfolding find_non_master
get_free_cheat_entry = find_non_master (λ e. not (has_opcodes e))
