-- ===== src/Sm/State.antt =====
-- The types and the global state of sm/source/impl/sm_service_manager.cpp, what it takes from
-- libstratosphere and the kernel, and the monad of its handlers.
use nx_sysmodules.Base.{
  ℕ, Bool, true, false, Option, none, some, List, [], replicate, ◌≡◌, refl, ◌⊎◌, inl, inr,
}

-- The bytes of a `ServiceName`.
abbrev pub ServiceName : Type 0
ServiceName = List ℕ

abbrev pub Handle : Type 0
Handle = ℕ

-- An `os::ManagedHandle`: `none` is `INVALID_HANDLE`.
abbrev pub ManagedHandle : Type 0
ManagedHandle = Option ℕ

-- What the file takes from libstratosphere: constants, `ServiceName::Encode`, the answers of
-- `cfg::GetInitialProcessRange`, `os::GetCurrentProcessId` and `hos::GetVersion`.
pub record Platform : Type 0 where
  pub name_size : ℕ
  pub encode : List ℕ → ServiceName
  pub invalid_service_name : ServiceName
  pub invalid_process_id : ℕ
  pub invalid_program_id : ℕ
  pub default_override_status : ℕ
  pub initial_min : ℕ
  pub initial_max : ℕ
  pub current_process_id : ℕ
  pub is_before_8_0_0 : Bool
  pub loader : ℕ
  pub pm : ℕ
  pub spl : ℕ
  pub boot : ℕ
  pub ncm : ℕ
  pub mitm : ℕ
  pub creport : ℕ

pub data SvcError : Type 0 where
  svc_out_of_sessions : SvcError
  svc_other : ℕ → SvcError

-- The results that the handlers return beside success.
pub data SmError : Type 0 where
  invalid_service_name already_registered out_of_services out_of_processes : SmError
  not_allowed invalid_client not_registered too_large_access_control : SmError
  out_of_sessions request_deferred_by_user : SmError
  svc : SvcError → SmError

pub data SvcResult (A : Type 0) : Type 0 where
  success : A → SvcResult A
  failure : SvcError → SvcResult A

pub SvcResult-cases :
    {A : Type 0} (r : SvcResult A)
    → ((a : A) × (r ≡ success a)) ⊎ ((e : SvcError) × (r ≡ failure e))
SvcResult-cases (success a) = inl (a, refl)
SvcResult-cases (failure e) = inr (e, refl)

pub record MitmProcessInfo : Type 0 where
  pub process_id : ℕ
  pub program_id : ℕ
  pub override_status : ℕ

-- What the system calls of one request answer.
pub record Kernel : Type 0 where
  pub create_port : ℕ → Bool → List ℕ → SvcResult (Handle × Handle)
  pub create_session : SvcResult (Handle × Handle)
  pub connect_to_port : ManagedHandle → SvcResult Handle
  pub query_mitm : ManagedHandle → MitmProcessInfo → SvcResult Bool

abbrev pub process_count_max : ℕ
process_count_max = 0x40

abbrev pub service_count_max : ℕ
service_count_max = 0x100

abbrev pub future_mitm_count_max : ℕ
future_mitm_count_max = 0x20

abbrev pub access_control_size_max : ℕ
access_control_size_max = 0x200

-- `access_control` holds the first `access_control_size` bytes of the array, the only ones read.
pub record ProcessInfo : Type 0 where
  pub process_id : ℕ
  pub program_id : ℕ
  pub override_status : ℕ
  pub access_control : List ℕ

pub record ServiceInfo : Type 0 where
  pub name : ServiceName
  pub owner_process_id : ℕ
  pub port_h : ManagedHandle
  pub max_sessions : ℕ
  pub is_light : Bool
  pub mitm_process_id : ℕ
  pub mitm_port_h : ManagedHandle
  pub mitm_query_h : ManagedHandle
  pub mitm_waiting_ack : Bool
  pub mitm_waiting_ack_process_id : ℕ
  pub mitm_fwd_sess_h : ManagedHandle

-- The globals of the file.
pub record State : Type 0 where
  pub process_list : List ProcessInfo
  pub service_list : List ServiceInfo
  pub future_mitm_list : List ServiceName
  pub ended_initial_defers : Bool

module _ (p : Platform) where
  -- ProcessInfo::Free, which writes every member, so that it is a value.
  unfoldable pub free_process : ProcessInfo
  free_process = record {
    process_id = p.invalid_process_id;
    program_id = p.invalid_program_id;
    override_status = p.default_override_status;
    access_control = [];
  }

  -- ServiceInfo::Free, which writes every member too.
  unfoldable pub free_service : ServiceInfo
  free_service = record {
    name = p.invalid_service_name;
    owner_process_id = p.invalid_process_id;
    port_h = none;
    max_sessions = 0;
    is_light = false;
    mitm_process_id = p.invalid_process_id;
    mitm_port_h = none;
    mitm_query_h = none;
    mitm_waiting_ack = false;
    mitm_waiting_ack_process_id = p.invalid_process_id;
    mitm_fwd_sess_h = none;
  }

  -- ServiceInfo::FreeMitm
  unfoldable pub free_mitm : ServiceInfo → ServiceInfo
  free_mitm s = record s {
    mitm_port_h = none;
    mitm_query_h = none;
    mitm_process_id = p.invalid_process_id;
  }

  -- The static members after their constructors; an empty entry of the future list is the invalid
  -- name.
  unfoldable pub initial_state : State
  unfolding free_process free_service
  initial_state = record {
    process_list = replicate process_count_max free_process;
    service_list = replicate service_count_max free_service;
    future_mitm_list = replicate future_mitm_count_max p.invalid_service_name;
    ended_initial_defers = false;
  }

-- A handler returns with a new state, fails with a state, or aborts the process.
pub data Outcome (A : Type 0) : Type 0 where
  ok : A → State → Outcome A
  err : SmError → State → Outcome A
  abort : Outcome A

abbrev pub M : Type 0 → Type 0
M A = State → Outcome A

infixl 5 ◌>>=◌ ◌>>◌
abbrev pub ◌>>=◌ : {A B : Type 0} → M A → (A → M B) → M B
◌>>=◌ m f s = elim (m s) [ ok a t ↦ f a t | err e t ↦ err e t | abort ↦ abort ]

abbrev pub ◌>>◌ : {B : Type 0} → M (Unit {0}) → M B → M B
m >> k = m >>= λ _. k

abbrev pub pure : {A : Type 0} → A → M A
pure a s = ok a s

abbrev pub fail : {A : Type 0} → SmError → M A
fail e s = err e s

abbrev pub gets : {A : Type 0} → (State → A) → M A
gets f s = ok (f s) s

abbrev pub modify : (State → State) → M (Unit {0})
modify f s = ok tt (f s)

-- R_UNLESS(b, e)
abbrev pub require : Bool → SmError → M (Unit {0})
require true e s = ok tt s
require false e s = err e s

-- AMS_ABORT_UNLESS(b)
abbrev pub abort_unless : Bool → M (Unit {0})
abort_unless true s = ok tt s
abort_unless false s = abort

-- R_UNLESS(pointer != nullptr, e)
abbrev pub require_some : {A : Type 0} → Option A → SmError → M A
require_some none e s = err e s
require_some (some a) e s = ok a s

-- R_TRY of a system call.
abbrev pub try_svc : {A : Type 0} → SvcResult A → M A
try_svc (success a) s = ok a s
try_svc (failure e) s = err (svc e) s
