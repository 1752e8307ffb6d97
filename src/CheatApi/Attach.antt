-- ===== src/CheatApi/Attach.antt =====
-- LoadCheats, LoadCheatToggles and AttachToApplicationProcess of
-- dmnt/source/cheat/impl/dmnt_cheat_api.cpp.
use nx_sysmodules.Base.{
  ℕ, suc, Bool, true, false, not, ◌&&◌, ◌||◌, ◌⊎◌, inl, inr, none, some, List, [], ◌∷◌, ◌==◌,
  if◌then◌else◌,
}
use nx_sysmodules.Base.Outcome.{
  ok, err, abort, ◌>>=◌, ◌>>◌, pure, fail, gets, modify, require, abort_unless,
}
use nx_sysmodules.CheatApi.State.{Entry, State, cheat_not_attached, svc, M, Sizes, System, Launch}
use nx_sysmodules.CheatApi.Entries.{reset_all_cheat_entries, set_needs_reload_vm}
use nx_sysmodules.CheatApi.Toggles.{
  Parsed, accepted, refused, overrun, exhausted, parse_cheat_toggles,
}
use nx_sysmodules.CheatApi.Parsing.{parse_cheats}
use nx_sysmodules.CheatApi.Process.{close_active_cheat_process, has_active_cheat_process}

-- The text up to its first zero, whose length strlen is.
unfoldable pub until_zero : List ℕ → List ℕ
until_zero [] = []
until_zero (c ∷ text) = let rest = until_zero text in if c == 0 then [] else c ∷ rest

abbrev pub put_entries : List Entry → State → State
put_entries entries s = record s { entries = entries }

-- The end of a parser on the members. What an access out of bounds does is not said: it counts as an
-- abort.
unfoldable pub finish_parse : Parsed (List Entry) → M Bool
finish_parse (accepted entries) s = ok true (put_entries entries s)
finish_parse (refused entries) s = ok false (put_entries entries s)
finish_parse overrun s = abort
finish_parse exhausted s = abort

abbrev pub set_should_save : Bool → State → State
set_should_save b s = record s { should_save_cheat_toggles = b }

abbrev pub set_process_id : ℕ → State → State
set_process_id p s = record s { metadata = record s.metadata { process_id = p } }

abbrev pub set_program_id : ℕ → State → State
set_program_id p s = record s { metadata = record s.metadata { program_id = p } }

-- The rest of a handler behind a guard, which is run where it fails.
unfoldable pub on_failure : M (Unit {0}) → M (Unit {0}) → M (Unit {0})
unfolding ◌>>=◌
on_failure undo m s = elim (m s) [ ok a t ↦ ok a t | err e t ↦ (undo >> fail e) t | abort ↦ abort ]

-- ON_SCOPE_EXIT { R_ABORT_UNLESS(svcCloseHandle(proc_h)) } around a part of a handler.
unfoldable pub closing : Bool → M (Unit {0}) → M (Unit {0})
unfolding ◌>>=◌
closing can_close m s = elim (m s) [
  | ok a t ↦ abort_unless can_close t
  | err e t ↦ (abort_unless can_close >> fail e) t
  | abort ↦ abort
]

module _ (sizes : Sizes) (sys : System) (launch : Launch) where
  unfoldable pub load_cheats : ℕ → M Bool
  unfolding ◌>>=◌ reset_all_cheat_entries until_zero parse_cheats finish_parse
  load_cheats program_id = do
    modify reset_all_cheat_entries
    elim (launch.cheats_text program_id) [
      | none ↦ pure false
      | some text ↦ do
        modify (set_needs_reload_vm true)
        s ← gets (λ s. s)
        finish_parse (parse_cheats sizes s.enable_cheats_by_default s.entries (until_zero text))
    ]

  unfoldable pub load_cheat_toggles : ℕ → M Bool
  unfolding ◌>>=◌ until_zero parse_cheat_toggles finish_parse
  load_cheat_toggles program_id = do
    modify (set_should_save false)
    elim (launch.toggles_text program_id) [
      | none ↦ pure true
      | some none ↦ pure false
      | some (some text) ↦ do
        s ← gets (λ s. s)
        parsed ← finish_parse (parse_cheat_toggles sizes.name_size s.entries (until_zero text))
        modify (set_should_save parsed)
        pure parsed
    ]

  unfoldable pub start_process : ℕ → M (Unit {0})
  unfolding ◌>>=◌
  start_process p = do
    abort_unless (launch.can_start p)
    modify (λ s. record s { started = p ∷ s.started })

  -- R_ABORT_UNLESS_IF_NEW_PROCESS
  unfoldable pub abort_unless_if_new_process : {A : Type 0} → Bool → ℕ ⊎ A → M A
  abort_unless_if_new_process on_process_launch (inr a) s = ok a s
  abort_unless_if_new_process true (inl e) s = abort
  abort_unless_if_new_process false (inl e) s = err (svc e) s

  unfoldable pub start_if_launch : Bool → M (Unit {0})
  unfolding ◌>>=◌ start_process
  start_if_launch on_process_launch s =
      if on_process_launch then start_process s.metadata.process_id s else pure tt s

  -- proc_guard
  unfoldable pub undo_attach : Bool → M (Unit {0})
  unfolding ◌>>=◌ start_if_launch
  undo_attach on_process_launch = start_if_launch on_process_launch >> modify (set_process_id 0)

  -- Only two modules, or one where the process is not new.
  abbrev pub has_modules : Bool → ℕ → Bool
  has_modules on_process_launch n = n == 2 || (n == 1 && not on_process_launch)

  -- LoadCheats and, if it succeeds, LoadCheatToggles.
  unfoldable pub load_all : ℕ → M Bool
  unfolding ◌>>=◌ load_cheats load_cheat_toggles
  load_all program_id = load_cheats program_id >>= λ loaded.
      if loaded then load_cheat_toggles program_id else pure false

  -- The part of AttachToApplicationProcess that the guard watches.
  unfoldable pub open_process : Bool → ℕ → M (Unit {0})
  unfolding ◌>>=◌ abort_unless_if_new_process closing load_all
  open_process on_process_launch p = do
    (program_id, is_cheat_enabled) ←
        abort_unless_if_new_process on_process_launch (launch.process_info p)
    modify (set_program_id program_id)
    closing (launch.can_close_process p) (
        abort_unless (launch.has_address_space p)
        >> require (not on_process_launch || is_cheat_enabled) cheat_not_attached)
    n ← abort_unless_if_new_process on_process_launch (launch.module_count p)
    require (has_modules on_process_launch n) cheat_not_attached
    loaded ← load_all program_id
    require (loaded || not on_process_launch) cheat_not_attached
    h ← abort_unless_if_new_process on_process_launch (launch.debug_active_process p)
    modify (λ s. record s { debug_handle = some h })

  -- AttachToApplicationProcess once no process is attached.
  unfoldable pub attach_new : Bool → M (Unit {0})
  unfolding ◌>>=◌ abort_unless_if_new_process on_failure undo_attach open_process start_if_launch
  attach_new on_process_launch = do
    p ← abort_unless_if_new_process on_process_launch sys.application_process_id
    modify (set_process_id p)
    on_failure (undo_attach on_process_launch) (open_process on_process_launch p)
    start_if_launch on_process_launch
    modify (λ s. record s { signals = suc s.signals })

  unfoldable pub attach_to_application_process : Bool → M (Unit {0})
  unfolding ◌>>=◌ has_active_cheat_process close_active_cheat_process attach_new
  attach_to_application_process on_process_launch = has_active_cheat_process sys >>= λ active.
      if active && not on_process_launch
      then pure tt
      else (close_active_cheat_process sys >> attach_new on_process_launch)
