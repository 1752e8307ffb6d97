-- ===== src/Sm/Tables.antt =====
-- The helper functions of sm/source/impl/sm_service_manager.cpp over the process table, the
-- service table and the list of future mitm declarations.
use nx_sysmodules.Base.{
  ℕ, Bool, true, false, not, ◌&&◌, ◌||◌, Option, none, some, List, [], ◌∷◌, ◌==◌, leb,
  if◌then◌else◌, set, bytes_eq,
}
use nx_sysmodules.Base.Slots.{find}
use nx_sysmodules.Sm.State.{
  Platform, ServiceName, ProcessInfo, ServiceInfo, MitmProcessInfo, State, M, ok, abort, ◌>>=◌,
  ◌>>◌, pure, gets, modify, require_some, abort_unless, out_of_services, invalid_client,
}
use nx_sysmodules.Sm.Access.{validate_request}

-- The tests of the two search loops.
abbrev pub has_id : ℕ → ProcessInfo → Bool
has_id id q = q.process_id == id

abbrev pub has_name : ServiceName → ServiceInfo → Bool
has_name name i = bytes_eq i.name name

-- A pointer into a table is the index of its slot and what stands there.
unfoldable pub get_process_info : ℕ → State → Option (ℕ × ProcessInfo)
get_process_info id s = find (has_id id) s.process_list

unfoldable pub get_service_info : ServiceName → State → Option (ℕ × ServiceInfo)
get_service_info name s = find (has_name name) s.service_list

unfoldable pub is_some {ℓ} : {A : Type ℓ} → Option A → Bool
is_some none = false
is_some (some a) = true

unfoldable pub has_process_info : ℕ → State → Bool
unfolding get_process_info is_some
has_process_info id s = is_some (get_process_info id s)

unfoldable pub has_service_info : ServiceName → State → Bool
unfolding get_service_info is_some
has_service_info name s = is_some (get_service_info name s)

-- Writes through a pointer.
unfoldable pub put_process : ℕ → ProcessInfo → State → State
put_process i q s = record s { process_list = set s.process_list i q }

unfoldable pub put_service : ℕ → ServiceInfo → State → State
put_service i v s = record s { service_list = set s.service_list i v }

module _ (p : Platform) where
  unfoldable pub get_free_process_info : State → Option (ℕ × ProcessInfo)
  unfolding get_process_info
  get_free_process_info = get_process_info p.invalid_process_id

  unfoldable pub get_free_service_info : State → Option (ℕ × ServiceInfo)
  unfolding get_service_info
  get_free_service_info = get_service_info p.invalid_service_name

  unfoldable pub is_valid_process_id : ℕ → Bool
  is_valid_process_id id = not (id == p.invalid_process_id)

  -- InitialProcessIdLimits::IsInitialProcess
  unfoldable pub is_initial_process : ℕ → M Bool
  unfolding is_valid_process_id
  is_initial_process id = do
    abort_unless (is_valid_process_id id)
    pure (leb p.initial_min id && leb id p.initial_max)

  unfoldable pub mitm_of : Option (ℕ × ServiceInfo) → Bool
  unfolding is_valid_process_id
  mitm_of none = false
  mitm_of (some (i, v)) = is_valid_process_id v.mitm_process_id

  -- HasMitm(service)
  unfoldable pub has_mitm_info : ServiceName → State → Bool
  unfolding mitm_of get_service_info
  has_mitm_info name s = mitm_of (get_service_info name s)

  unfoldable pub is_mitm_disallowed : ℕ → Bool
  is_mitm_disallowed id =
      id == p.loader
      || (id == p.pm
          || (id == p.spl || (id == p.boot || (id == p.ncm || (id == p.mitm || id == p.creport)))))

  -- g_future_mitm_list[i] = service at the first free entry.
  unfoldable pub add_first_free : ServiceName → List ServiceName → Option (List ServiceName)
  add_first_free name [] = none
  add_first_free name (x ∷ xs) =
      if bytes_eq x p.invalid_service_name
      then some (name ∷ xs)
      else elim (add_first_free name xs) [ none ↦ none | some ys ↦ some (x ∷ ys) ]

  unfoldable pub add_future_mitm_declaration : ServiceName → M Unit
  unfolding add_first_free
  add_future_mitm_declaration name = do
    list ← gets (λ s. add_first_free name s.future_mitm_list)
    list' ← require_some list out_of_services
    modify (λ s. record s { future_mitm_list = list' })

  unfoldable pub clear_entries : ServiceName → List ServiceName → List ServiceName
  clear_entries name [] = []
  clear_entries name (x ∷ xs) =
      (if bytes_eq x name then p.invalid_service_name else x) ∷ clear_entries name xs

  unfoldable pub clear_future_mitm_declaration : ServiceName → State → State
  unfolding clear_entries
  clear_future_mitm_declaration name s = record s {
    future_mitm_list = clear_entries name s.future_mitm_list;
  }

  -- ShouldDeferForInit
  unfoldable pub should_defer_for_init : ServiceName → State → Bool
  should_defer_for_init name s =
      if s.ended_initial_defers
      then false
      else bytes_eq name (p.encode (b'f' ∷ b's' ∷ b'p' ∷ b'-' ∷ b's' ∷ b'r' ∷ b'v' ∷ []))

unfoldable pub has_entry : ServiceName → List ServiceName → Bool
has_entry name [] = false
has_entry name (x ∷ xs) = if bytes_eq x name then true else has_entry name xs

unfoldable pub has_future_mitm_declaration : ServiceName → State → Bool
unfolding has_entry
has_future_mitm_declaration name s = has_entry name s.future_mitm_list

-- GetMitmProcessInfo, which aborts where the process is not registered.
unfoldable pub get_mitm_process_info : ℕ → M MitmProcessInfo
unfolding get_process_info
get_mitm_process_info id s = elim (get_process_info id s) [
  | none ↦ abort
  | some (i, q) ↦
      ok
        (record { process_id = id; program_id = q.program_id; override_status = q.override_status })
        s
]

module _ (p : Platform) where
  -- if (!IsInitialProcess(process_id)) R_UNLESS(HasProcessInfo(process_id), ResultInvalidClient()).
  unfoldable pub check_client : ℕ → M Unit
  unfolding is_initial_process get_process_info
  check_client id = do
    initial ← is_initial_process p id
    if initial
        then pure tt
        else do found ← gets (get_process_info id); _ ← require_some found invalid_client; pure tt

  -- The same, with the validation of the client's access control.
  unfoldable pub check_access : ℕ → ServiceName → Bool → M Unit
  unfolding is_initial_process get_process_info validate_request
  check_access id service host = do
    initial ← is_initial_process p id
    if initial then pure tt else do
      found ← gets (get_process_info id)
      (i, q) ← require_some found invalid_client
      validate_request p q.access_control service host false
