-- ===== src/Sm/Processes.antt =====
-- RegisterProcess and UnregisterProcess of sm/source/impl/sm_service_manager.cpp.
use nx_sysmodules.Base.{ℕ, not, List, leb, ◌==◌, length}
use nx_sysmodules.Sm.State.{
  Platform, M, ◌>>=◌, ◌>>◌, gets, modify, require, require_some, free_process,
  access_control_size_max, too_large_access_control, out_of_processes, not_allowed, invalid_client,
}
use nx_sysmodules.Sm.Access.{validate_access_control}
use nx_sysmodules.Sm.Tables.{get_process_info, get_free_process_info, put_process}

module _ (p : Platform) where
  unfoldable pub register_process : ℕ → ℕ → ℕ → List ℕ → List ℕ → M Unit
  unfolding get_free_process_info put_process
  register_process process_id program_id override_status acid_sac aci_sac = do
    require (leb (length aci_sac) access_control_size_max) too_large_access_control
    slot ← gets (get_free_process_info p)
    (i, proc) ← require_some slot out_of_processes
    require (not (length aci_sac == 0)) not_allowed
    validate_access_control p acid_sac aci_sac
    modify (
        put_process i (record {
          process_id = process_id;
          program_id = program_id;
          override_status = override_status;
          access_control = aci_sac;
        }))

  unfoldable pub unregister_process : ℕ → M Unit
  unfolding get_process_info put_process free_process
  unregister_process process_id = do
    found ← gets (get_process_info process_id)
    (i, proc) ← require_some found invalid_client
    modify (put_process i (free_process p))
