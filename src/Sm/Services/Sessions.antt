-- ===== src/Sm/Services/Sessions.antt =====
-- GetServiceHandle of sm/source/impl/sm_service_manager.cpp and the functions below it.
use nx_sysmodules.Base.{
  ℕ, Bool, false, true, not, ◌&&◌, ◌||◌, some, [], ◌∷◌, ◌==◌, if◌then◌else◌, bytes_eq,
}
use nx_sysmodules.Sm.State.{
  Platform, Kernel, State, ServiceName, ServiceInfo, MitmProcessInfo, Handle, Outcome, ok, err,
  abort, svc, svc_out_of_sessions, M, ◌>>=◌, ◌>>◌, pure, gets, modify, require, require_some,
  try_svc, not_allowed, out_of_sessions, request_deferred_by_user,
}
use nx_sysmodules.Sm.Names.{validate_service_name}
use nx_sysmodules.Sm.Tables.{
  get_service_info, put_service, check_access, is_valid_process_id, get_mitm_process_info,
  is_mitm_disallowed, should_defer_for_init, has_future_mitm_declaration,
}

-- GetMitmServiceHandleImpl, for the service that stands in slot `i`.
unfoldable pub get_mitm_service_handle_impl : Kernel → ℕ → ServiceInfo → MitmProcessInfo → M Handle
get_mitm_service_handle_impl k i v client_info = do
  should_mitm ← try_svc (k.query_mitm v.mitm_query_h client_info)
  if should_mitm
      then (do
        fwd ← try_svc (k.connect_to_port v.port_h)
        hnd ← try_svc (k.connect_to_port v.mitm_port_h)
        modify (
            put_service i (record v {
              mitm_fwd_sess_h = some fwd;
              mitm_waiting_ack_process_id = client_info.process_id;
              mitm_waiting_ack = true;
            }))
        pure hnd)
      else try_svc (k.connect_to_port v.port_h)

-- R_ABORT_UNLESS
unfoldable pub abort_on_error : {A : Type 0} → Outcome A → Outcome A
abort_on_error (ok a s) = ok a s
abort_on_error (err e s) = abort
abort_on_error abort = abort

-- R_CONVERT(svc::ResultOutOfSessions, sm::ResultOutOfSessions())
unfoldable pub convert : {A : Type 0} → Outcome A → Outcome A
convert (ok a s) = ok a s
convert (err (svc svc_out_of_sessions) s) = err out_of_sessions s
convert (err e s) = err e s
convert abort = abort

module _ (p : Platform) where
  unfoldable pub get_service_handle_impl : Kernel → ℕ → ServiceInfo → ℕ → M Handle
  unfolding is_valid_process_id abort_on_error get_mitm_service_handle_impl
  get_service_handle_impl k i v process_id =
      if is_valid_process_id p v.mitm_process_id && not (v.mitm_process_id == process_id)
      then (do
        client_info ← get_mitm_process_info process_id
        if is_mitm_disallowed p client_info.program_id
            then try_svc (k.connect_to_port v.port_h)
            else λ s. abort_on_error (get_mitm_service_handle_impl k i v client_info s))
      else try_svc (k.connect_to_port v.port_h)

  -- The four reasons for which GetServiceHandle defers a request.
  unfoldable pub should_defer : ServiceName → ServiceInfo → State → Bool
  unfolding should_defer_for_init
  should_defer service v s =
      should_defer_for_init p service s
      || (has_future_mitm_declaration service s || v.mitm_waiting_ack)

  unfoldable pub get_service_handle : Kernel → ℕ → ServiceName → M Handle
  unfolding convert
  get_service_handle k process_id service = do
    validate_service_name p service
    require
        (p.is_before_8_0_0
          || not (bytes_eq service (p.encode (b'a' ∷ b'p' ∷ b'm' ∷ b':' ∷ b'p' ∷ []))))
        not_allowed
    check_access p process_id service false
    found ← gets (get_service_info service)
    (i, v) ← require_some found request_deferred_by_user
    deferred ← gets (should_defer service v)
    require (not deferred) request_deferred_by_user
    λ s. convert (get_service_handle_impl k i v process_id s)
