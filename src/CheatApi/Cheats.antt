-- ===== src/CheatApi/Cheats.antt =====
-- The handlers of the cheats of CheatProcessManager, dmnt/source/cheat/impl/dmnt_cheat_api.cpp.
use nx_sysmodules.Base.{
  ℕ, zero, suc, Bool, true, not, List, [], ◌∷◌, ltb, leb, ◌==◌, if◌then◌else◌, take,
}
use nx_sysmodules.Base.Outcome.{◌>>=◌, ◌>>◌, pure, gets, modify, require, require_some}
use nx_sysmodules.Base.Slots.{count}
use nx_sysmodules.CheatApi.State.{
  max_cheat_count, Entry, State, cheat_unknown_id, cheat_cannot_disable, cheat_invalid,
  cheat_out_of_resource, M, Sizes, System,
}
use nx_sysmodules.CheatApi.Entries.{
  has_opcodes, set_needs_reload_vm, put_entry, reset_cheat_entry, get_cheat_entry_by_id,
  get_free_cheat_entry,
}
use nx_sysmodules.CheatApi.Process.{with_process}

-- CheatDefinition as a client sends it: the count need not fit the array.
pub record Definition : Type 0 where
  pub readable_name : List ℕ
  pub num_opcodes : ℕ
  pub opcodes : List ℕ

-- The loop of GetCheats over the entries that are left, with the room that is left and the cheats that
-- are still to be passed over.
unfoldable pub collect_cheats : ℕ → ℕ → List Entry → List Entry
collect_cheats room offset [] = []
collect_cheats zero offset (e ∷ entries) = []
collect_cheats (suc room) zero (e ∷ entries) =
    if has_opcodes e
    then e ∷ collect_cheats room zero entries
    else collect_cheats (suc room) zero entries
collect_cheats (suc room) (suc offset) (e ∷ entries) =
    if has_opcodes e
    then collect_cheats (suc room) offset entries
    else collect_cheats (suc room) (suc offset) entries

-- The entry of an id that has opcodes.
unfoldable pub known_entry : ℕ → M Entry
unfolding ◌>>=◌ get_cheat_entry_by_id
known_entry id = do
  s ← gets (λ s. s)
  e ← require_some (get_cheat_entry_by_id id s.entries) cheat_unknown_id
  require (has_opcodes e) cheat_unknown_id
  pure e

-- The entry with the other flag, and the members with it.
abbrev pub toggled : Entry → Entry
toggled e = record e { enabled = not e.enabled }

abbrev pub put_and_reload : ℕ → Entry → State → State
put_and_reload i e s = set_needs_reload_vm true (put_entry i e s)

abbrev pub defined : Entry → Definition → Bool → Entry
defined e d enabled = record e {
  enabled = enabled;
  readable_name = d.readable_name;
  opcodes = take d.num_opcodes d.opcodes;
}

module _ (sizes : Sizes) (sys : System) where
  unfoldable pub get_cheat_count : M ℕ
  unfolding with_process count
  get_cheat_count = with_process sys (gets (λ s. count has_opcodes s.entries))

  unfoldable pub get_cheats : ℕ → ℕ → M (List Entry)
  unfolding with_process collect_cheats
  get_cheats max_count offset =
      with_process sys (gets (λ s. collect_cheats max_count offset s.entries))

  unfoldable pub get_cheat_by_id : ℕ → M Entry
  unfolding with_process known_entry
  get_cheat_by_id id = with_process sys (known_entry id)

  unfoldable pub toggle_cheat : ℕ → M (Unit {0})
  unfolding ◌>>=◌ with_process known_entry
  toggle_cheat id = with_process sys (do
    e ← known_entry id
    require (not (id == 0)) cheat_cannot_disable
    modify (put_and_reload id (toggled e)))

  -- The id of the new cheat is never written to its out parameter.
  unfoldable pub add_cheat : Definition → Bool → M (Unit {0})
  unfolding ◌>>=◌ with_process get_free_cheat_entry
  add_cheat d enabled = with_process sys (do
    require (not (d.num_opcodes == 0)) cheat_invalid
    require (leb d.num_opcodes sizes.opcodes_size) cheat_invalid
    s ← gets (λ s. s)
    (i, e) ← require_some (get_free_cheat_entry s.entries) cheat_out_of_resource
    modify (put_and_reload i (defined e d enabled)))

  unfoldable pub remove_cheat : ℕ → M (Unit {0})
  unfolding ◌>>=◌ with_process reset_cheat_entry
  remove_cheat id = with_process sys (do
    require (ltb id max_cheat_count) cheat_unknown_id
    modify (reset_cheat_entry id)
    modify (set_needs_reload_vm true))
