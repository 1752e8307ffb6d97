-- ===== src/Sm/Records.antt =====
-- The dmnt record handlers and EndInitialDefers of sm/source/impl/sm_service_manager.cpp.
use nx_sysmodules.Base.{ℕ, ◌-◌, Bool, true, List, [], ◌∷◌, ◌==◌, if◌then◌else◌, bytes_eq}
use nx_sysmodules.Sm.State.{
  Platform, ServiceName, ServiceInfo, M, ◌>>=◌, ◌>>◌, pure, gets, modify, require_some,
  not_registered,
}
use nx_sysmodules.Sm.Names.{validate_service_name}
use nx_sysmodules.Sm.Tables.{get_service_info}

pub record ServiceRecord : Type 0 where
  pub service : ServiceName
  pub owner_process_id : ℕ
  pub max_sessions : ℕ
  pub mitm_process_id : ℕ
  pub mitm_waiting_ack_process_id : ℕ
  pub is_light : Bool
  pub mitm_waiting_ack : Bool

-- GetServiceInfoRecord
unfoldable pub get_service_info_record : ServiceInfo → ServiceRecord
get_service_info_record v = record {
  service = v.name;
  owner_process_id = v.owner_process_id;
  max_sessions = v.max_sessions;
  mitm_process_id = v.mitm_process_id;
  mitm_waiting_ack_process_id = v.mitm_waiting_ack_process_id;
  is_light = v.is_light;
  mitm_waiting_ack = v.mitm_waiting_ack;
}

module _ (p : Platform) where
  unfoldable pub get_service_record : ServiceName → M ServiceRecord
  get_service_record service = do
    validate_service_name p service
    found ← gets (get_service_info service)
    (i, v) ← require_some found not_registered
    pure (get_service_info_record v)

  -- The loop of ListServiceRecords: what it writes from here on, where `room` is
  -- `max_count - count`.
  unfoldable pub list_records : List ServiceInfo → ℕ → ℕ → List ServiceRecord
  list_records [] offset room = []
  list_records (v ∷ vs) offset room =
      let skip_free = list_records vs offset room in
      let written = get_service_info_record v ∷ list_records vs offset (room - 1) in
      let skip_offset = list_records vs (offset - 1) room in
      if room == 0
      then []
      else if bytes_eq v.name p.invalid_service_name
      then skip_free
      else if offset == 0
      then written
      else skip_offset

  -- The records written, and `*out_count`, which the code sets to 0.
  unfoldable pub list_service_records : ℕ → ℕ → M (List ServiceRecord × ℕ)
  list_service_records offset max_count s =
      gets (λ s. (list_records s.service_list offset max_count, 0)) s

unfoldable pub end_initial_defers : M Unit
end_initial_defers s = modify (λ s. record s { ended_initial_defers = true }) s
