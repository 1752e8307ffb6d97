-- ===== src/Sm/Services.antt =====
-- The service handlers of sm/source/impl/sm_service_manager.cpp.
pub mod Sessions
use nx_sysmodules.Base.{ℕ, Bool, false, true, not, some, none, ◌==◌, if◌then◌else◌}
use nx_sysmodules.Sm.State.{
  Platform, Kernel, State, ServiceName, ServiceInfo, Handle, M, ◌>>=◌, ◌>>◌, pure, gets, modify,
  require, require_some, try_svc, free_service, already_registered, out_of_services, not_allowed,
  invalid_client, not_registered, request_deferred_by_user,
}
use nx_sysmodules.Sm.Names.{validate_service_name}
use nx_sysmodules.Sm.Tables.{
  get_service_info, get_free_service_info, has_service_info, put_service, check_client,
  check_access,
}

module _ (p : Platform) where
  -- RegisterServiceImpl. `create_port` writes the port through `port_h.GetPointerAndClear()`.
  unfoldable pub register_service_impl : Kernel → ℕ → ServiceName → ℕ → Bool → M Handle
  register_service_impl k process_id service max_sessions is_light = do
    validate_service_name p service
    taken ← gets (has_service_info service)
    require (not taken) already_registered
    slot ← gets (get_free_service_info p)
    (i, v) ← require_some slot out_of_services
    modify (put_service i (record v { port_h = none }))
    (out, port) ← try_svc (k.create_port max_sessions is_light v.name)
    modify (
        put_service i (record v {
          port_h = some port;
          name = service;
          owner_process_id = process_id;
          max_sessions = max_sessions;
          is_light = is_light;
        }))
    pure out

  unfoldable pub register_service : Kernel → ℕ → ServiceName → ℕ → Bool → M Handle
  unfolding register_service_impl
  register_service k process_id service max_sessions is_light = do
    validate_service_name p service
    check_access p process_id service true
    taken ← gets (has_service_info service)
    require (not taken) already_registered
    register_service_impl k process_id service max_sessions is_light

  unfoldable pub register_service_for_self : Kernel → ServiceName → ℕ → M Handle
  unfolding register_service_impl
  register_service_for_self k service max_sessions =
      register_service_impl k p.current_process_id service max_sessions false

  unfoldable pub unregister_service : ℕ → ServiceName → M Unit
  unregister_service process_id service = do
    validate_service_name p service
    check_client p process_id
    found ← gets (get_service_info service)
    (i, v) ← require_some found not_registered
    require (v.owner_process_id == process_id) not_allowed
    modify (put_service i (free_service p))

  unfoldable pub has_service : ServiceName → M Bool
  has_service service = do validate_service_name p service; gets (has_service_info service)

  unfoldable pub wait_service : ServiceName → M Unit
  unfolding has_service
  wait_service service = do there ← has_service service; require there request_deferred_by_user
