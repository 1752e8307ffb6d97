-- ===== src/Sm/Mitm.antt =====
-- The mitm handlers of sm/source/impl/sm_service_manager.cpp.
use nx_sysmodules.Base.{ℕ, Bool, false, true, not, some, none, ◌==◌, replicate}
use nx_sysmodules.Sm.State.{
  Platform, Kernel, ServiceName, MitmProcessInfo, ManagedHandle, Handle, M, ◌>>=◌, ◌>>◌, pure, gets,
  modify, require, require_some, try_svc, free_mitm, already_registered, not_allowed,
  not_registered, request_deferred_by_user,
}
use nx_sysmodules.Sm.Names.{validate_service_name}
use nx_sysmodules.Sm.Tables.{
  get_service_info, has_mitm_info, put_service, check_client, check_access, is_valid_process_id,
  clear_future_mitm_declaration, has_future_mitm_declaration, add_future_mitm_declaration,
  get_mitm_process_info,
}

module _ (p : Platform) where
  unfoldable pub has_mitm : ServiceName → M Bool
  has_mitm service = do validate_service_name p service; gets (has_mitm_info p service)

  unfoldable pub wait_mitm : ServiceName → M Unit
  unfolding has_mitm
  wait_mitm service = do there ← has_mitm service; require there request_deferred_by_user

  -- The port's name is the eight zero bytes of `x`.
  unfoldable pub install_mitm : Kernel → ℕ → ServiceName → M (Handle × Handle)
  install_mitm k process_id service = do
    validate_service_name p service
    check_access p process_id service true
    found ← gets (get_service_info service)
    (i, v) ← require_some found request_deferred_by_user
    require (not (is_valid_process_id p v.mitm_process_id)) already_registered
    (hnd, port_hnd) ← try_svc (k.create_port v.max_sessions v.is_light (replicate 8 0))
    (qry_hnd, mitm_qry_hnd) ← try_svc k.create_session
    modify (
        put_service i (record v {
          mitm_process_id = process_id;
          mitm_port_h = some port_hnd;
          mitm_query_h = some mitm_qry_hnd;
        }))
    modify (clear_future_mitm_declaration p service)
    pure (hnd, qry_hnd)

  unfoldable pub uninstall_mitm : ℕ → ServiceName → M Unit
  uninstall_mitm process_id service = do
    validate_service_name p service
    check_client p process_id
    found ← gets (get_service_info service)
    (i, v) ← require_some found not_registered
    require (v.mitm_process_id == process_id) not_allowed
    modify (put_service i (free_mitm p v))

  unfoldable pub declare_future_mitm : ℕ → ServiceName → M Unit
  declare_future_mitm process_id service = do
    validate_service_name p service
    check_access p process_id service true
    there ← gets (has_mitm_info p service)
    require (not there) already_registered
    declared ← gets (has_future_mitm_declaration service)
    require (not declared) already_registered
    add_future_mitm_declaration p service

  -- AcknowledgeMitmSession, with the method of ServiceInfo that it calls at its end.
  unfoldable pub acknowledge_mitm_session : ℕ → ServiceName → M (MitmProcessInfo × ManagedHandle)
  acknowledge_mitm_session process_id service = do
    validate_service_name p service
    check_client p process_id
    found ← gets (get_service_info service)
    (i, v) ← require_some found not_registered
    require (v.mitm_process_id == process_id) not_allowed
    require v.mitm_waiting_ack not_allowed
    out_info ← get_mitm_process_info v.mitm_waiting_ack_process_id
    modify (
        put_service i (record v {
          mitm_fwd_sess_h = none;
          mitm_waiting_ack = false;
          mitm_waiting_ack_process_id = p.invalid_process_id;
        }))
    pure (out_info, v.mitm_fwd_sess_h)
