-- ===== src/Sm/MitmFailures.antt =====
-- When GetServiceHandle of sm/source/impl/sm_service_manager.cpp aborts the service manager: the
-- R_ABORT_UNLESS on GetMitmServiceHandleImpl, and GetMitmProcessInfo.
use nx_sysmodules.Base.{
  ℕ, ◌≡◌, ◌≢◌, ◌↔◌, ◌⊎◌, inl, inr, refl, true, false, not, ◌&&◌, ◌||◌, ◌==◌, none, some, [], ◌∷◌,
  arith, bytes_eq, Bool-cases, Option-cases,
}
use nx_sysmodules.Sm.State.{
  Platform, Kernel, State, ServiceName, ServiceInfo, MitmProcessInfo, Handle, SvcError, Outcome, ok,
  err, abort, success, failure, SvcResult-cases,
}
use nx_sysmodules.Sm.Names.{validate_service_name, is_valid_name}
use nx_sysmodules.Sm.Tables.{
  get_process_info, get_service_info, check_access, is_initial_process, is_valid_process_id,
  get_mitm_process_info, is_mitm_disallowed,
}
use nx_sysmodules.Sm.Access.{validate_request}
use nx_sysmodules.Sm.Services.Sessions.{
  get_mitm_service_handle_impl, get_service_handle_impl, get_service_handle, should_defer,
  abort_on_error, convert,
}
use nx_sysmodules.Sm.Invariant.Services.{check_access-Reads}
use nx_sysmodules.Sm.Handshake.{info_of}

-- What goes wrong with a mitm that is asked about a client: its query, the connection to the service
-- for the mitm or that to the mitm itself where it wants the session, and the client's own connection
-- to the service where it does not.
pub data Fails (k : Kernel) (v : ServiceInfo) (info : MitmProcessInfo) : Type 0 where
  query_fails : (e : SvcError) → k.query_mitm v.mitm_query_h info ≡ failure e → Fails k v info
  forward_fails :
      (e : SvcError)
      → k.query_mitm v.mitm_query_h info ≡ success true
      → k.connect_to_port v.port_h ≡ failure e
      → Fails k v info
  mitm_fails :
      (e : SvcError) (fwd : Handle)
      → k.query_mitm v.mitm_query_h info ≡ success true
      → k.connect_to_port v.port_h ≡ success fwd
      → k.connect_to_port v.mitm_port_h ≡ failure e
      → Fails k v info
  unwanted_fails :
      (e : SvcError)
      → k.query_mitm v.mitm_query_h info ≡ success false
      → k.connect_to_port v.port_h ≡ failure e
      → Fails k v info

Fails-of-abort :
    (k : Kernel) (i : ℕ) (v : ServiceInfo) (info : MitmProcessInfo) (s : State)
    → abort_on_error (get_mitm_service_handle_impl k i v info s) ≡ abort
    → Fails k v info
unfolding get_mitm_service_handle_impl abort_on_error
Fails-of-abort k i v info s h = elim (SvcResult-cases (k.query_mitm v.mitm_query_h info)) [
  | inr (e, q) ↦ query_fails e q
  | inl (want, q) ↦ elim (SvcResult-cases (k.connect_to_port v.port_h)) [
    | inr (e, c) ↦ elim (Bool-cases want) [
      | inl w ↦ forward_fails e (rw w at q) c
      | inr w ↦ unwanted_fails e (rw w at q) c
    ]
    | inl (fwd, c) ↦ elim (Bool-cases want) [
      | inl w ↦ elim (SvcResult-cases (k.connect_to_port v.mitm_port_h)) [
        | inr (e, m) ↦ mitm_fails e fwd (rw w at q) c m
        | inl (out, m) ↦ absurd (ground arith)
      ]
      | inr w ↦ absurd (ground arith)
    ]
  ]
]

abort_of_Fails :
    (k : Kernel) (i : ℕ) (v : ServiceInfo) (info : MitmProcessInfo) (s : State)
    → Fails k v info
    → abort_on_error (get_mitm_service_handle_impl k i v info s) ≡ abort
unfolding get_mitm_service_handle_impl abort_on_error
abort_of_Fails k i v info s (query_fails e q) = rw q refl
abort_of_Fails k i v info s (forward_fails e q c) = rw (q, c) refl
abort_of_Fails k i v info s (mitm_fails e fwd q c m) = rw (q, c, m) refl
abort_of_Fails k i v info s (unwanted_fails e q c) = rw (q, c) refl

module _ (p : Platform) where
  -- The service has a mitm other than the client, and the client is not registered, or its program may
  -- be mitm'd and something goes wrong with the mitm.
  pub record FailsMitm (k : Kernel) (id : ℕ) (s : State) (v : ServiceInfo) : Type 0 where
    pub has_mitm : v.mitm_process_id ≢ p.invalid_process_id
    pub is_other : v.mitm_process_id ≢ id
    pub reason :
        (get_process_info id s ≡ none)
        ⊎ ((info : MitmProcessInfo) × (get_mitm_process_info id s ≡ ok info s)
            × (is_mitm_disallowed p info.program_id ≡ false)
            × Fails k v info)

  get_service_handle_impl-eq-abort :
      (k : Kernel) (i : ℕ) (v : ServiceInfo) (id : ℕ) (s : State)
      → get_service_handle_impl p k i v id s ≡ abort
      → FailsMitm k id s v
  unfolding get_service_handle_impl get_mitm_process_info is_valid_process_id
  get_service_handle_impl-eq-abort k i v id s h =
      elim (Bool-cases (is_valid_process_id p v.mitm_process_id && not (v.mitm_process_id == id))) [
        | inl m ↦ record {
          has_mitm = ground arith;
          is_other = ground arith;
          reason = elim (Option-cases (get_process_info id s)) [
            | inl q ↦ inl q
            | inr ((j, c), q) ↦ inr (
              info_of id c,
              ground arith,
              ground arith,
              Fails-of-abort k i v (info_of id c) s (ground arith),
            )
          ];
        }
        | inr m ↦ absurd (elim (SvcResult-cases (k.connect_to_port v.port_h)) [
          | inl (out, c) ↦ ground arith
          | inr (e, c) ↦ ground arith
        ])
      ]

  get_service_handle_impl-abort :
      (k : Kernel) (i : ℕ) (v : ServiceInfo) (id : ℕ) (s : State)
      → FailsMitm k id s v
      → get_service_handle_impl p k i v id s ≡ abort
  unfolding get_service_handle_impl get_mitm_process_info is_valid_process_id
  get_service_handle_impl-abort k i v id s f = elim f.reason [
    | inl q ↦ ground (arith, f.has_mitm, f.is_other)
    | inr (info, q, d, x) ↦ ground (arith, f.has_mitm, f.is_other, abort_of_Fails k i v info s x)
  ]

  -- What GetServiceHandle asks of a request before it connects.
  pub record LetsThrough (id : ℕ) (name : ServiceName) (s : State) (v : ServiceInfo) : Type 0 where
    pub has_name : is_valid_name p name ≡ true
    pub is_open :
        p.is_before_8_0_0 || not (bytes_eq name (p.encode (b'a' ∷ b'p' ∷ b'm' ∷ b':' ∷ b'p' ∷ [])))
        ≡ true
    pub has_access : check_access p id name false s ≡ ok tt s
    pub is_ready : should_defer p name v s ≡ false

  check_access-returns :
      (id : ℕ) (name : ServiceName) (s : State)
      → id ≢ p.invalid_process_id
      → check_access p id name false s ≢ abort
  unfolding check_access is_initial_process validate_request
  check_access-returns id name s h = ground arith

  convert-eq-abort : {A : Type 0} (r : Outcome A) → convert r ≡ abort → r ≡ abort
  unfolding convert
  convert-eq-abort (ok a s) h = h
  convert-eq-abort (err e s) h = ground arith
  convert-eq-abort abort h = refl

  -- A request of a valid client for a registered service aborts the service manager exactly where the
  -- request is let through and, for a mitm other than the client, the client is not registered, or its
  -- program may be mitm'd and the mitm's query, the connection to the service or, for a mitm that wants
  -- the session, that to the mitm's port fails, OutOfSessions included.
  pub get_service_handle-aborts_iff :
      (k : Kernel) (id : ℕ) (name : ServiceName) (s : State) (i : ℕ) (v : ServiceInfo)
      → id ≢ p.invalid_process_id
      → get_service_info name s ≡ some (i, v)
      → (get_service_handle p k id name s ≡ abort) ↔ (LetsThrough id name s v × FailsMitm k id s v)
  unfolding get_service_handle validate_service_name convert
  get_service_handle-aborts_iff k id name s i v valid e = (
    λ h. (
      record {
        has_name = ground (arith, check_access-Reads p id name false s);
        is_open = ground (arith, check_access-Reads p id name false s);
        has_access =
            ground (arith, check_access-Reads p id name false s, check_access-returns id name s);
        is_ready =
            ground (arith, check_access-Reads p id name false s, check_access-returns id name s);
      },
      get_service_handle_impl-eq-abort k i v id s (
          ground (
            arith,
            check_access-Reads p id name false s,
            check_access-returns id name s,
            convert-eq-abort (get_service_handle_impl p k i v id s),
          )),
    ),
    λ (l, f). ground (
      arith,
      l.has_name,
      l.is_open,
      l.has_access,
      l.is_ready,
      get_service_handle_impl-abort k i v id s f,
    ),
  )
