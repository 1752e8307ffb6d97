-- ===== src/Sm/Declarations.antt =====
-- DeclareFutureMitm and InstallMitm of sm/source/impl/sm_service_manager.cpp: how a declaration holds
-- clients back until the mitm is there.
use nx_sysmodules.Base.{
  ℕ, ◌≡◌, ◌≢◌, inl, inr, refl, ◌∙◌, ap, true, false, some, List, [], ◌∷◌, arith, if◌then◌else◌,
  bytes_eq, bytes_eq_refl, bytes_eq_comm, eq_of_bytes_eq, Bool-cases, Option-cases, replicate,
}
use nx_sysmodules.Sm.State.{
  Platform, Kernel, State, Handle, ServiceName, ServiceInfo, ok, success, SvcResult-cases,
}
use nx_sysmodules.Sm.Names.{validate_service_name}
use nx_sysmodules.Sm.Tables.{
  get_service_info, put_service, check_access, is_valid_process_id, clear_entries, add_first_free,
  has_entry, clear_future_mitm_declaration, has_future_mitm_declaration,
  add_future_mitm_declaration,
}
use nx_sysmodules.Sm.Services.Sessions.{get_service_handle, should_defer}
use nx_sysmodules.Sm.Mitm.{install_mitm, declare_future_mitm}
use nx_sysmodules.Sm.Invariant.{Inv, found-IsSlot}
use nx_sysmodules.Sm.Invariant.Services.{check_access-Reads}
use nx_sysmodules.Sm.Invariant.Mitm.{installed}
use nx_sysmodules.Sm.Registration.{get_service_info-put_service, service_of}

module _ (p : Platform) where
  has_entry-add_first_free :
      (name : ServiceName) (xs ys : List ServiceName)
      → add_first_free p name xs ≡ some ys
      → has_entry name ys ≡ true
  unfolding add_first_free has_entry
  has_entry-add_first_free name [] ys e = cc
  has_entry-add_first_free name (x ∷ xs) ys e = elim (Option-cases (add_first_free p name xs)) [
    | inl f ↦ ground (arith, bytes_eq_refl name)
    | inr (zs, f) ↦ ground (arith, bytes_eq_refl name, has_entry-add_first_free name xs zs f)
  ]

  -- After a successful DeclareFutureMitm, GetServiceHandle gives no handle to that service to any
  -- client, whatever the kernel answers.
  pub declare_future_mitm_defers :
      (id client : ℕ) (name : ServiceName) (s t u : State) (k : Kernel) (out : Handle)
      → declare_future_mitm p id name s ≡ ok tt t
      → get_service_handle p k client name t ≢ ok out u
  unfolding declare_future_mitm add_future_mitm_declaration get_service_handle validate_service_name
      should_defer has_future_mitm_declaration
  declare_future_mitm_defers id client name s t u k out d g =
      elim (Option-cases (add_first_free p name s.future_mitm_list)) [
        | inl f ↦ ground (arith, check_access-Reads p id name true s)
        | inr (ys, f) ↦
            let there = has_entry-add_first_free name s.future_mitm_list ys f in
            let left : t ≡ record s { future_mitm_list = ys } =
              ground (arith, check_access-Reads p id name true s) in
            let declared : has_entry name t.future_mitm_list ≡ true = rw left there in
            ground (arith, check_access-Reads p client name false t, declared)
      ]

  has_entry-clear_entries :
      (name n : ServiceName) (xs : List ServiceName)
      → bytes_eq n p.invalid_service_name ≡ false
      → has_entry n (clear_entries p name xs) ≡ (if bytes_eq name n then false else has_entry n xs)
  unfolding clear_entries has_entry
  has_entry-clear_entries name n [] real = ground arith
  has_entry-clear_entries name n (x ∷ xs) real = elim (Bool-cases (bytes_eq x name)) [
    | inl e ↦
        let same : x ≡ name = eq_of_bytes_eq x name e in
        ground (
          arith,
          same,
          e,
          has_entry-clear_entries name n xs real,
          bytes_eq_comm n p.invalid_service_name,
        )
    | inr e ↦ elim (Bool-cases (bytes_eq x n)) [
      | inl f ↦
          let same : x ≡ n = eq_of_bytes_eq x n f in
          let other : bytes_eq name n ≡ false = rw (← same) (rw (bytes_eq_comm name x) e) in
          ground (arith, other, f)
      | inr f ↦ ground (arith, f, has_entry-clear_entries name n xs real)
    ]
  ]

  cleared-service_of :
      (name n : ServiceName) (s : State)
      → service_of n (clear_future_mitm_declaration p name s) ≡ service_of n s
  unfolding service_of clear_future_mitm_declaration get_service_info
  cleared-service_of name n s = refl

  -- What a successful InstallMitm did.
  install_mitm-eq-ok :
      (k : Kernel) (id : ℕ) (name : ServiceName) (s t : State) (out query : Handle)
      → install_mitm p k id name s ≡ ok (out, query) t
      → (i : ℕ) × (v : ServiceInfo) × (port : Handle) × (session : Handle) × (get_service_info name
            s
          ≡ some (i, v))
        × (v.mitm_process_id ≡ p.invalid_process_id)
        × (check_access p id name true s ≡ ok tt s)
        × (k.create_port v.max_sessions v.is_light (replicate 8 0) ≡ success (out, port))
        × (k.create_session ≡ success (query, session))
        × (t
            ≡ clear_future_mitm_declaration p name
                (put_service i (installed p v id port session) s))
  unfolding install_mitm validate_service_name is_valid_process_id
  install_mitm-eq-ok k id name s t out query e = elim (Option-cases (get_service_info name s)) [
    | inl f ↦ absurd (ground (arith, check_access-Reads p id name true s))
    | inr ((i, v), f) ↦
        elim (SvcResult-cases (k.create_port v.max_sessions v.is_light (replicate 8 0))) [
          | inr (x, r) ↦ absurd (ground (arith, check_access-Reads p id name true s))
          | inl ((hnd, port), r) ↦ elim (SvcResult-cases k.create_session) [
            | inr (x, q) ↦ absurd (ground (arith, check_access-Reads p id name true s))
            | inl ((qry, session), q) ↦ (
              i,
              v,
              port,
              session,
              f,
              ground (arith, check_access-Reads p id name true s),
              ground (arith, check_access-Reads p id name true s),
              ground (arith, check_access-Reads p id name true s),
              ground (arith, check_access-Reads p id name true s),
              ground (arith, check_access-Reads p id name true s),
            )
          ]
        ]
  ]

  -- A successful InstallMitm, from a state that satisfies the invariant: the service was there and
  -- had no mitm, the caller passed the access check, and the kernel created a port and a session.
  -- The service then has the caller as its mitm with those handles and its future declaration is
  -- gone; every other name but the invalid one has the service and the declaration that it had.
  pub install_mitm-service_of :
      (k : Kernel) (id : ℕ) (name : ServiceName) (s t : State) (out query : Handle)
      (n : ServiceName)
      → Inv p s
      → install_mitm p k id name s ≡ ok (out, query) t
      → bytes_eq n p.invalid_service_name ≡ false
      → (v : ServiceInfo) × (port : Handle) × (session : Handle) × (service_of name s ≡ some v)
        × (v.mitm_process_id ≡ p.invalid_process_id)
        × (check_access p id name true s ≡ ok tt s)
        × (k.create_port v.max_sessions v.is_light (replicate 8 0) ≡ success (out, port))
        × (k.create_session ≡ success (query, session))
        × (service_of n t
            ≡ (if bytes_eq name n then some (installed p v id port session) else service_of n s))
        × (has_future_mitm_declaration n t
            ≡ (if bytes_eq name n then false else has_future_mitm_declaration n s))
  unfolding service_of has_future_mitm_declaration clear_future_mitm_declaration put_service
  install_mitm-service_of k id name s t out query n h e real =
      let (i, v, port, session, f, free, access, created, paired, eq) =
        install_mitm-eq-ok k id name s t out query e in
      let found = found-IsSlot p name s i v h f in
      let put =
        get_service_info-put_service p s i v (installed p v id port session) n h found.1 real
          (λ q. inl q) in
      (
        v,
        port,
        session,
        ground (arith, f),
        free,
        access,
        created,
        paired,
        ap (service_of n) eq
            ∙ (cleared-service_of name n (put_service i (installed p v id port session) s)
                ∙ ground (arith, put, found.2)),
        ap (has_future_mitm_declaration n) eq
            ∙ has_entry-clear_entries name n s.future_mitm_list real,
      )
