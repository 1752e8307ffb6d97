-- ===== src/Sm/Authorization.antt =====
-- Who may use a service of sm/source/impl/sm_service_manager.cpp: the checks of the handlers, and
-- what RegisterProcess lets into the process table.
use nx_sysmodules.Base.{
  ℕ, ◌≤◌, ◌<◌, ◌≡◌, ◌⊎◌, inl, inr, refl, Bool, false, none, some, List, ◌&&◌, leb, arith, length,
  All, Option-cases, Bool-cases,
}
use nx_sysmodules.Base.Slots.{find-get, find-set_only, find-none-count}
use nx_sysmodules.Sm.State.{
  Platform, Kernel, State, ServiceName, ProcessInfo, Handle, ok, access_control_size_max,
}
use nx_sysmodules.Sm.Names.{validate_service_name}
use nx_sysmodules.Sm.Access.{validate_access_control, validate_request, is_wildcard, entries}
use nx_sysmodules.Sm.Access.Laws.{validate_access_control_iff, access_confined}
use nx_sysmodules.Sm.Tables.{
  has_id, get_process_info, get_free_process_info, put_process, check_access,
}
use nx_sysmodules.Sm.Processes.{register_process}
use nx_sysmodules.Sm.Services.Sessions.{get_service_handle}
use nx_sysmodules.Sm.Invariant.Services.{check_access-Reads}

module _ (p : Platform) where
  -- A client that is not an initial process passes the access check only if it is registered and
  -- its access control allows the request.
  check_access-eq-ok :
      (id : ℕ) (name : ServiceName) (host : Bool) (s t : State)
      → check_access p id name host s ≡ ok tt t
      → ((p.initial_min ≤ id) × (id ≤ p.initial_max))
        ⊎ ((i : ℕ) × (q : ProcessInfo) × (get_process_info id s ≡ some (i, q))
            × (validate_request p q.access_control name host false s ≡ ok tt s))
  unfolding check_access
  check_access-eq-ok id name host s t e = elim (Option-cases (get_process_info id s)) [
    | inl f ↦ inl (ground arith)
    | inr ((i, q), f) ↦ elim (Bool-cases (leb p.initial_min id && leb id p.initial_max)) [
      | inl b ↦ inl (ground arith)
      | inr b ↦ inr (i, q, f, ground arith)
    ]
  ]

  -- GetServiceHandle returns a handle only to an initial process, or to a registered process whose
  -- access control allows that service to a client.
  pub get_service_handle_authorized :
      (k : Kernel) (id : ℕ) (name : ServiceName) (s t : State) (out : Handle)
      → get_service_handle p k id name s ≡ ok out t
      → ((p.initial_min ≤ id) × (id ≤ p.initial_max))
        ⊎ ((i : ℕ) × (q : ProcessInfo) × (get_process_info id s ≡ some (i, q))
            × (validate_request p q.access_control name false false s ≡ ok tt s))
  unfolding get_service_handle validate_service_name
  get_service_handle_authorized k id name s t out e =
      check_access-eq-ok id name false s s (ground (arith, check_access-Reads p id name false s))

  abbrev process : ℕ → ℕ → ℕ → List ℕ → ProcessInfo
  process id program status aci = record {
    process_id = id;
    program_id = program;
    override_status = status;
    access_control = aci;
  }

  put_process-found :
      (id : ℕ) (s : State) (i : ℕ) (q q' : ProcessInfo)
      → get_process_info id s ≡ none
      → get_free_process_info p s ≡ some (i, q)
      → q'.process_id ≡ id
      → get_process_info id (put_process i q' s) ≡ some (i, q')
  unfolding get_process_info get_free_process_info put_process
  put_process-found id s i q q' new f same = ground (
    arith,
    find-set_only (has_id id) s.process_list i q q'
        (find-get (has_id p.invalid_process_id) s.process_list i q f).0,
    find-none-count (has_id id) s.process_list new,
    same,
  )

  -- A successful RegisterProcess of a process id that was not there: the access control fits and is
  -- not empty, the restriction allowed it, and the process is then found with it.
  pub register_process-get_process_info :
      (id program status : ℕ) (acid aci : List ℕ) (s t : State)
      → get_process_info id s ≡ none
      → register_process p id program status acid aci s ≡ ok tt t
      → (0 < length aci)
        × (length aci ≤ access_control_size_max)
        × (validate_access_control p acid aci s ≡ ok tt s)
        × (i : ℕ) × (get_process_info id t ≡ some (i, process id program status aci))
  unfolding register_process
  register_process-get_process_info id program status acid aci s t new e =
      elim (Option-cases (get_free_process_info p s)) [
        | inl f ↦ absurd (ground arith)
        | inr ((i, q), f) ↦
            let v = (validate_access_control_iff p acid aci s).1 in
            let found = put_process-found id s i q (process id program status aci) new f refl in
            (ground (arith, v), ground (arith, v), ground (arith, v), i, ground (arith, v, found))
      ]

  -- A process that was not registered, is not an initial one, and then registered under a restriction
  -- with an access control without wildcard entries: where GetServiceHandle in the state after it
  -- returns a handle, the restriction itself allows that service to a client.
  pub registered_client_confined :
      (id program status : ℕ) (acid aci : List ℕ) (s t u : State) (k : Kernel) (name : ServiceName)
      (out : Handle)
      → get_process_info id s ≡ none
      → All (λ e. is_wildcard e ≡ false) (entries aci)
      → register_process p id program status acid aci s ≡ ok tt t
      → ¬ ((p.initial_min ≤ id) × (id ≤ p.initial_max))
      → get_service_handle p k id name t ≡ ok out u
      → validate_request p acid name false false t ≡ ok tt t
  registered_client_confined id program status acid aci s t u k name out new plain e outside g =
      go (get_service_handle_authorized k id name t u out g)
    where
      reg :
          (0 < length aci)
          × (length aci ≤ access_control_size_max)
          × (validate_access_control p acid aci s ≡ ok tt s)
          × (i : ℕ) × (get_process_info id t ≡ some (i, process id program status aci))
      reg = register_process-get_process_info id program status acid aci s t new e

      go :
          ((p.initial_min ≤ id) × (id ≤ p.initial_max))
            ⊎ ((i : ℕ) × (q : ProcessInfo) × (get_process_info id t ≡ some (i, q))
                × (validate_request p q.access_control name false false t ≡ ok tt t))
          → validate_request p acid name false false t ≡ ok tt t
      go (inl initial) = absurd (outside initial)
      go (inr (i, q, f, allowed)) =
          access_confined p acid aci name false s t plain reg.2 (ground (arith, f, reg.4, allowed))
