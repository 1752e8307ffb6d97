-- ===== src/CheatApi/Process.antt =====
-- The cheat process of CheatProcessManager, dmnt/source/cheat/impl/dmnt_cheat_api.cpp: whether it lives,
-- and what is given up with it.
use nx_sysmodules.Base.{
  ℕ, suc, ◌⊎◌, inl, inr, Bool, true, false, ◌&&◌, ◌||◌, none, some, [], ◌∷◌, ◌==◌, if◌then◌else◌,
}
use nx_sysmodules.Base.Outcome.{◌>>=◌, ◌>>◌, pure, modify, require, abort_unless}
use nx_sysmodules.CheatApi.State.{no_metadata, State, cheat_not_attached, M, System}
use nx_sysmodules.CheatApi.Entries.{reset_all_cheat_entries}
use nx_sysmodules.CheatApi.Saving.{save_cheat_toggles}

module _ (sys : System) where
  -- SaveCheatToggles on the members.
  unfoldable pub write_toggles : State → State
  unfolding save_cheat_toggles
  write_toggles s =
      if sys.can_open_toggles s.metadata.program_id
      then record s {
        saved = (s.metadata.program_id, save_cheat_toggles sys.can_write s.entries) ∷ s.saved;
      }
      else s

  -- The toggles are saved where a member asks for it.
  unfoldable pub keep_toggles : State → State
  unfolding write_toggles
  keep_toggles s =
      if s.always_save_cheat_toggles || s.should_save_cheat_toggles
      then record (write_toggles s) { should_save_cheat_toggles = false }
      else s

  -- What CloseActiveCheatProcess does to the members once the handle is closed.
  unfoldable pub give_up : State → State
  unfolding keep_toggles reset_all_cheat_entries
  give_up s =
      let kept = keep_toggles (record s { debug_handle = none }) in
      let cleared = reset_all_cheat_entries (record kept { metadata = no_metadata }) in
      record cleared { frozen_addresses = []; signals = suc cleared.signals }

  unfoldable pub close_active_cheat_process : M (Unit {0})
  unfolding ◌>>=◌ give_up
  close_active_cheat_process s = elim s.debug_handle [
    | none ↦ pure tt s
    | some h ↦ (abort_unless (sys.can_close h) >> modify give_up) s
  ]

  abbrev pub is_process : ℕ ⊎ ℕ → ℕ → Bool
  is_process (inl e) p = false
  is_process (inr q) p = q == p

  -- The handle is that of the application that runs.
  unfoldable pub is_attached : State → Bool
  is_attached s = elim s.debug_handle [
    | none ↦ false
    | some h ↦ sys.has_process_id h && is_process sys.application_process_id s.metadata.process_id
  ]

  unfoldable pub has_active_cheat_process : M Bool
  unfolding ◌>>=◌ is_attached close_active_cheat_process
  has_active_cheat_process s =
      if is_attached s then pure true s else (close_active_cheat_process >> pure false) s

  unfoldable pub ensure_cheat_process : M (Unit {0})
  unfolding ◌>>=◌ has_active_cheat_process
  ensure_cheat_process = has_active_cheat_process >>= λ b. require b cheat_not_attached

  -- A handler that needs the cheat process.
  unfoldable pub with_process : {A : Type 0} → M A → M A
  unfolding ◌>>=◌ ensure_cheat_process
  with_process m = ensure_cheat_process >> m
