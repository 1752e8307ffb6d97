-- ===== src/Sm/Tests.antt =====
-- Runs of the service manager, and the theorems about it at concrete inputs.
use nx_sysmodules.Sm.Declarations.{declare_future_mitm_defers, install_mitm-service_of}
use nx_sysmodules.Sm.Invariant.Mitm.{installed}
use nx_sysmodules.Base.{
  bytes_eq, ℕ, ◌+◌, ◌≡◌, ◌≢◌, ◌⊎◌, refl, true, false, Option, none, some, List, [], ◌∷◌, ◌++◌,
  arith, map, take, replicate, All, get_or, ap, ◌↔◌,
}
use nx_sysmodules.Base.Slots.{find}
use nx_sysmodules.Sm.State.{
  Platform, Kernel, State, ServiceName, ServiceInfo, MitmProcessInfo, ok, err, abort, success,
  failure, svc_out_of_sessions, not_allowed, ManagedHandle, free_mitm, initial_state, free_service,
  invalid_service_name,
}
use nx_sysmodules.Sm.Names.{IsName, is_valid_name, validate_service_name, validate_service_name_iff}
use nx_sysmodules.Sm.Access.{
  get_service_name, is_host, is_wildcard, entries, allows, any_allows, validate_request,
  all_allowed, validate_access_control,
}
use nx_sysmodules.Sm.Tables.{
  get_service_info, get_process_info, get_free_process_info, get_free_service_info, put_process,
  put_service, has_service_info, is_initial_process, is_valid_process_id, check_access,
  clear_future_mitm_declaration, has_future_mitm_declaration, get_mitm_process_info,
  is_mitm_disallowed, check_client, has_mitm_info, add_future_mitm_declaration,
}
use nx_sysmodules.Sm.Processes.{register_process}
use nx_sysmodules.Sm.Services.{unregister_service, register_service, register_service_impl}
use nx_sysmodules.Sm.Services.Sessions.{get_service_handle, get_service_handle_impl, should_defer}
use nx_sysmodules.Sm.Mitm.{
  install_mitm, uninstall_mitm, acknowledge_mitm_session, declare_future_mitm,
}
use nx_sysmodules.Sm.Records.{list_service_records, get_service_info_record}
use nx_sysmodules.Sm.Registration.{
  service_of, register_service-service_of, unregister_service-service_of,
}
use nx_sysmodules.Sm.MitmFailures.{LetsThrough, FailsMitm, get_service_handle-aborts_iff}
use nx_sysmodules.Sm.Acknowledgement.{session_round_trip, uninstall_mitm_stuck}
use nx_sysmodules.Sm.Authorization.{registered_client_confined}
use nx_sysmodules.Sm.Listing.{registered, list_service_records-registered}
use nx_sysmodules.Sm.Access.Printing.{
  Grant, IsGrant, print, read_entry, meaning, map-read_entry-entries-print,
}
use nx_sysmodules.Sm.Access.Laws.{
  IsAllowed, validate_access_control_iff, access_confined, wildcard_bypass,
}
use nx_sysmodules.Sm.Invariant.Register.{claimed}
use nx_sysmodules.Sm.Calls.{
  Call, registers_process, registers_service, installs_mitm, gets_handle, serve, Reach, start, next,
  declares_mitm,
}
use nx_sysmodules.Sm.Invariant.{Inv}
use nx_sysmodules.Sm.Invariant.Handlers.{Reach-Inv}

-- Names are padded to eight bytes; the processes 1 to 80 are initial ones.
pad : List ℕ → ServiceName
pad bytes = take 8 (bytes ++ replicate 8 0)

abbrev platform : Platform
unfolding pad
platform = record {
  name_size = 8;
  encode = pad;
  invalid_service_name = replicate 8 0;
  invalid_process_id = 0;
  invalid_program_id = 0;
  default_override_status = 0;
  initial_min = 1;
  initial_max = 80;
  current_process_id = 3;
  is_before_8_0_0 = false;
  loader = 11;
  pm = 12;
  spl = 13;
  boot = 14;
  ncm = 15;
  mitm = 16;
  creport = 17;
}

-- A port `c` of a new port pair (c, c + 1); a connection to a port has the port's number plus 100.
abbrev connect : Option ℕ → ℕ
connect none = 0
connect (some h) = h + 100

abbrev kernel : Kernel
kernel = record {
  create_port = λ max light name. success (max, max + 1);
  create_session = success (60, 61);
  connect_to_port = λ h. success (connect h);
  query_mitm = λ h info. success true;
}

-- "lr" and "pl:u"
abbrev lr : ServiceName
lr = b'l' ∷ b'r' ∷ 0 ∷ 0 ∷ 0 ∷ 0 ∷ 0 ∷ 0 ∷ []

abbrev pl_u : ServiceName
pl_u = b'p' ∷ b'l' ∷ b':' ∷ b'u' ∷ 0 ∷ 0 ∷ 0 ∷ 0 ∷ []

-- One entry of an access control: a client of "lr".
abbrev lr_client : List ℕ
lr_client = 1 ∷ b'l' ∷ b'r' ∷ []

abbrev state_or : Option State → State → State
state_or none s = s
state_or (some t) s = t

advance : Call → State → State
unfolding serve platform validate_service_name is_valid_name register_process get_free_process_info
    put_process validate_access_control all_allowed validate_request any_allows allows
    get_service_name is_host is_wildcard entries check_access is_initial_process get_process_info
    register_service register_service_impl has_service_info get_free_service_info get_service_info
    put_service install_mitm is_valid_process_id clear_future_mitm_declaration get_service_handle
    should_defer has_future_mitm_declaration get_service_handle_impl get_mitm_process_info
    is_mitm_disallowed bytes_eq find initial_state
advance c s = state_or (serve platform kernel c s) s

-- Process 100 registers, 5 registers "lr", 6 installs its mitm, and 100 asks for a handle.
s0 : State
unfolding initial_state platform
s0 = initial_state platform

s1 : State
unfolding advance s0
s1 = advance (registers_process 100 500 0 lr_client lr_client) s0

s2 : State
unfolding advance s1
s2 = advance (registers_service 5 lr 20 false) s1

s3 : State
unfolding advance s2
s3 = advance (installs_mitm 6 lr) s2

s4 : State
unfolding advance s3
s4 = advance (gets_handle 100 lr) s3

runs : serve platform kernel (registers_service 5 lr 20 false) s1 ≡ some s2
unfolding s2
runs = refl

r1 : Reach platform s1
unfolding s1
r1 = next (start {s = s0} refl) kernel (registers_process 100 500 0 lr_client lr_client) refl

r2 : Reach platform s2
unfolding s2
r2 = next r1 kernel (registers_service 5 lr 20 false) refl

r3 : Reach platform s3
unfolding s3
r3 = next r2 kernel (installs_mitm 6 lr) refl

r4 : Reach platform s4
unfolding s4
r4 = next r3 kernel (gets_handle 100 lr) refl

Reach-Inv_example : Inv platform s3
unfolding platform
Reach-Inv_example = Reach-Inv platform refl r3

inv1 : Inv platform s1
unfolding platform
inv1 = Reach-Inv platform refl r1

inv2 : Inv platform s2
unfolding platform
inv2 = Reach-Inv platform refl r2

inv3 : Inv platform s3
unfolding platform
inv3 = Reach-Inv platform refl r3

inv4 : Inv platform s4
unfolding platform
inv4 = Reach-Inv platform refl r4

register_service-service_of_example :
    (is_valid_name platform lr ≡ true)
    × (has_service_info lr s1 ≡ false)
    × (check_access platform 5 lr true s1 ≡ ok tt s1)
    × (port : ℕ) × (kernel.create_port 20 false platform.invalid_service_name ≡ success (20, port))
    × (service_of lr s2 ≡ some (claimed (free_service platform) port 5 lr 20 false))
unfolding s2
register_service-service_of_example =
    register_service-service_of platform refl kernel 5 lr 20 false s1 s2 20 lr inv1 refl refl

unregister_service-service_of_example :
    (v : ServiceInfo) × (service_of lr s2 ≡ some v)
    × (v.owner_process_id ≡ 5)
    × (service_of pl_u s1 ≡ service_of pl_u s2)
unfolding s2 free_service unregister_service check_client
unregister_service-service_of_example =
    unregister_service-service_of platform 5 lr s2 s1 pl_u inv2 refl refl

abbrev slot_of : State → ServiceInfo
slot_of s = get_or s.service_list 0 (free_service platform)

session_round_trip_example :
    (info : MitmProcessInfo) × (fwd : ℕ) × (get_mitm_process_info 100 s3 ≡ ok info s3)
    × (kernel.connect_to_port (slot_of s3).port_h ≡ success fwd)
    × (kernel.connect_to_port (slot_of s3).mitm_port_h ≡ success 121)
    × (acknowledge_mitm_session platform 6 lr s4 ≡ ok (info, some fwd) s3)
unfolding s4 check_client
session_round_trip_example =
    session_round_trip platform kernel 100 lr s3 s4 0 (slot_of s3) 121 refl inv3 refl refl
      (λ q. cc (ap (λ s. (slot_of s).mitm_waiting_ack) q)) refl

abbrev uninstalled : State
uninstalled = put_service 0 (free_mitm platform (slot_of s4)) s4

uninstall_mitm_stuck_example :
    ((k : Kernel) (client : ℕ) (out : ℕ) (u : State)
      → get_service_handle platform k client lr uninstalled ≢ ok out u)
    × ((client : ℕ) (r : MitmProcessInfo × ManagedHandle) (u : State)
        → acknowledge_mitm_session platform client lr uninstalled ≢ ok r u)
unfolding s4 uninstall_mitm check_client
uninstall_mitm_stuck_example =
    uninstall_mitm_stuck platform 6 lr s4 uninstalled 0 (slot_of s4) refl inv4 refl refl refl

-- A kernel whose ports have no sessions left.
abbrev full_kernel : Kernel
full_kernel = record kernel { connect_to_port = λ h. failure svc_out_of_sessions }

get_service_handle-aborts_iff_example :
    (get_service_handle platform full_kernel 100 lr s3 ≡ abort) ↔ (
      LetsThrough platform 100 lr s3 (slot_of s3)
      × FailsMitm platform full_kernel 100 s3 (slot_of s3))
unfolding s3
get_service_handle-aborts_iff_example =
    get_service_handle-aborts_iff platform full_kernel 100 lr s3 0 (slot_of s3) (omega arith) refl

validate_service_name_iff_example :
    ((validate_service_name platform lr s0 ≡ ok tt s0) ↔ IsName 8 lr)
    × ((validate_service_name platform lr s0 ≡ err invalid_service_name s0) ↔ (¬ (IsName 8 lr)))
unfolding platform
validate_service_name_iff_example = validate_service_name_iff platform lr (omega arith) s0

validate_access_control_iff_example :
    ((validate_access_control platform lr_client lr_client s0 ≡ ok tt s0)
      ↔ All (IsAllowed platform lr_client) (entries lr_client))
    × ((validate_access_control platform lr_client lr_client s0 ≡ ok tt s0)
        ⊎ (validate_access_control platform lr_client lr_client s0 ≡ err not_allowed s0))
validate_access_control_iff_example = validate_access_control_iff platform lr_client lr_client s0

-- A host of "lr" and a client of every name.
abbrev grants : List Grant
grants =
    record { host = true; service = b'l' ∷ b'r' ∷ [] }
    ∷ record { host = false; service = b'*' ∷ [] }
    ∷ []

map-read_entry-entries-print_example :
    map (read_entry platform) (entries (print grants)) ≡ map (meaning platform) grants
unfolding IsGrant
map-read_entry-entries-print_example =
    map-read_entry-entries-print platform grants
      ((omega arith, omega arith), ((omega arith, omega arith), tt))

access_confined_example : validate_request platform lr_client lr false false s0 ≡ ok tt s0
unfolding advance
access_confined_example =
    access_confined platform lr_client lr_client lr false s0 s0 (refl, tt) refl refl

-- A restriction to "lr" lets an access control for "*" pass.
abbrev any_client : List ℕ
any_client = 0 ∷ b'*' ∷ []

wildcard_bypass_example : validate_access_control platform lr_client any_client s0 ≡ ok tt s0
unfolding advance
wildcard_bypass_example =
    wildcard_bypass platform lr_client any_client 0 lr_client s0 refl refl ((refl, refl), tt)

-- Process 5 registers "lr", then 100 registers and asks for it.
t1 : State
unfolding advance s0
t1 = advance (registers_service 5 lr 20 false) s0

t2 : State
unfolding t1
t2 = advance (registers_process 100 500 0 lr_client lr_client) t1

registered_client_confined_example :
    validate_request platform lr_client lr false false t2 ≡ ok tt t2
unfolding t2
registered_client_confined_example =
    registered_client_confined platform 100 500 0 lr_client lr_client t1 t2 t2 kernel lr 121 refl
      (refl, tt) refl (λ h. omega arith) refl

list_service_records-registered_example :
    list_service_records platform 0 5 s3 ≡ ok (get_service_info_record (slot_of s3) ∷ [], 0) s3
unfolding s3 registered
list_service_records-registered_example = list_service_records-registered platform 0 5 s3

-- Process 6 declares its mitm of "lr" before it installs it.
declared : State
unfolding advance s2
declared = advance (declares_mitm 6 lr) s2

declare_future_mitm_defers_example :
    get_service_handle platform kernel 100 lr declared ≢ ok 120 declared
unfolding declared declare_future_mitm has_mitm_info add_future_mitm_declaration
declare_future_mitm_defers_example =
    declare_future_mitm_defers platform 6 100 lr s2 declared declared kernel 120 refl

install_mitm-service_of_example :
    (v : ServiceInfo) × (port : ℕ) × (session : ℕ) × (service_of lr s2 ≡ some v)
    × (v.mitm_process_id ≡ 0)
    × (check_access platform 6 lr true s2 ≡ ok tt s2)
    × (kernel.create_port v.max_sessions v.is_light (replicate 8 0) ≡ success (20, port))
    × (kernel.create_session ≡ success (60, session))
    × (service_of lr s3 ≡ some (installed platform v 6 port session))
    × (has_future_mitm_declaration lr s3 ≡ false)
unfolding s3
install_mitm-service_of_example =
    install_mitm-service_of platform kernel 6 lr s2 s3 20 60 lr inv2 refl refl
