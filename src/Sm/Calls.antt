-- ===== src/Sm/Calls.antt =====
-- A request to the service manager, and what serving it leaves of the state.
use nx_sysmodules.Base.{ℕ, ◌≡◌, Bool, Option, none, some, List}
use nx_sysmodules.Sm.State.{
  Platform, Kernel, State, ServiceName, Outcome, ok, err, abort, initial_state,
}
use nx_sysmodules.Sm.Processes.{register_process, unregister_process}
use nx_sysmodules.Sm.Services.{
  register_service, register_service_for_self, unregister_service, has_service, wait_service,
}
use nx_sysmodules.Sm.Services.Sessions.{get_service_handle}
use nx_sysmodules.Sm.Mitm.{
  has_mitm, wait_mitm, install_mitm, uninstall_mitm, declare_future_mitm, acknowledge_mitm_session,
}
use nx_sysmodules.Sm.Records.{get_service_record, list_service_records, end_initial_defers}

-- The functions of sm_service_manager.hpp with their arguments.
pub data Call : Type 0 where
  registers_process : ℕ → ℕ → ℕ → List ℕ → List ℕ → Call
  unregisters_process : ℕ → Call
  asks_service waits_service : ServiceName → Call
  gets_handle : ℕ → ServiceName → Call
  registers_service : ℕ → ServiceName → ℕ → Bool → Call
  registers_for_self : ServiceName → ℕ → Call
  unregisters_service : ℕ → ServiceName → Call
  asks_mitm waits_mitm : ServiceName → Call
  installs_mitm uninstalls_mitm declares_mitm acknowledges : ℕ → ServiceName → Call
  reads_record : ServiceName → Call
  lists_records : ℕ → ℕ → Call
  ends_defers : Call

-- A call that fails keeps what it wrote; `none` is an abort, which ends the process.
abbrev pub after : {A : Type 0} → Outcome A → Option State
after (ok a s) = some s
after (err e s) = some s
after abort = none

module _ (p : Platform) where
  unfoldable pub serve : Kernel → Call → State → Option State
  serve k (registers_process id program status acid aci) s =
      after (register_process p id program status acid aci s)
  serve k (unregisters_process id) s = after (unregister_process p id s)
  serve k (asks_service name) s = after (has_service p name s)
  serve k (waits_service name) s = after (wait_service p name s)
  serve k (gets_handle id name) s = after (get_service_handle p k id name s)
  serve k (registers_service id name max light) s = after (register_service p k id name max light s)
  serve k (registers_for_self name max) s = after (register_service_for_self p k name max s)
  serve k (unregisters_service id name) s = after (unregister_service p id name s)
  serve k (asks_mitm name) s = after (has_mitm p name s)
  serve k (waits_mitm name) s = after (wait_mitm p name s)
  serve k (installs_mitm id name) s = after (install_mitm p k id name s)
  serve k (uninstalls_mitm id name) s = after (uninstall_mitm p id name s)
  serve k (declares_mitm id name) s = after (declare_future_mitm p id name s)
  serve k (acknowledges id name) s = after (acknowledge_mitm_session p id name s)
  serve k (reads_record name) s = after (get_service_record p name s)
  serve k (lists_records offset max) s = after (list_service_records p offset max s)
  serve k ends_defers s = after (end_initial_defers s)

  -- The states that some sequence of calls leads to, whatever the kernel answers.
  pub data Reach : State → Type 0 where
    start : {s : State} → s ≡ initial_state p → Reach s
    next : {s t : State} → Reach s → (k : Kernel) (c : Call) → serve k c s ≡ some t → Reach t
