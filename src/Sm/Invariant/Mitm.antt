-- ===== src/Sm/Invariant/Mitm.antt =====
-- The mitm handlers and GetServiceHandle keep the invariant.
use nx_sysmodules.Base.{
  ℕ, ◌≡◌, ◌≢◌, ◌∙◌, inl, inr, refl, ap, true, false, none, some, List, arith, length, bytes_eq,
  Option-cases, [], ◌∷◌, suc, get_or, replicate,
}
use nx_sysmodules.Sm.State.{
  Platform, Kernel, State, ServiceName, ServiceInfo, Handle, free_mitm, free_service,
  SvcResult-cases,
}
use nx_sysmodules.Sm.Names.{validate_service_name, is_valid_name}
use nx_sysmodules.Sm.Tables.{
  is_some, get_service_info, put_service, get_mitm_process_info, clear_entries,
  clear_future_mitm_declaration,
}
use nx_sysmodules.Sm.Services.Sessions.{get_service_handle_impl, get_service_handle}
use nx_sysmodules.Sm.Mitm.{install_mitm, uninstall_mitm, acknowledge_mitm_session}
use nx_sysmodules.Sm.Invariant.{IsSlot, Inv, Holds, put_service-Inv, found-IsSlot}
use nx_sysmodules.Sm.Invariant.Register.{valid-ne-invalid}
use nx_sysmodules.Sm.Invariant.Services.{check_client-Reads, check_access-Reads, check_access_valid}

module _ (p : Platform) where
  -- A write to a slot that keeps its name.
  update-Inv :
      (name : ServiceName) (s : State) (i : ℕ) (v v' : ServiceInfo)
      → Inv p s
      → get_service_info name s ≡ some (i, v)
      → v'.name ≡ v.name
      → (IsSlot p v → IsSlot p v')
      → Inv p (put_service i v' s)
  update-Inv name s i v v' h e same keep =
      let f = found-IsSlot p name s i v h e in
      put_service-Inv p s i v v' h f.1 (keep f.0) λ n _ q. inl (ground (arith, same))

  free_mitm-IsSlot : (v : ServiceInfo) → IsSlot p v → IsSlot p (free_mitm p v)
  unfolding free_mitm free_service
  free_mitm-IsSlot v f = record {
    free = λ b. ground (arith, f.free b);
    port = f.port;
    mitm_on = λ n. absurd (n refl);
    query_on = λ n. absurd (n refl);
    mitm_off = λ _. refl;
    query_off = λ _. refl;
    ack_on = f.ack_on;
    ack_off = f.ack_off;
    nobody = f.nobody;
  }

  pub uninstall_mitm-Inv :
      (id : ℕ) (name : ServiceName) (s : State) → Inv p s → Holds p (uninstall_mitm p id name s)
  unfolding uninstall_mitm validate_service_name free_mitm
  uninstall_mitm-Inv id name s h = elim (Option-cases (get_service_info name s)) [
    | inl e ↦ ground (arith, check_client-Reads p id s)
    | inr ((i, v), e) ↦ ground (
      arith,
      check_client-Reads p id s,
      update-Inv name s i v (free_mitm p v) h e refl (free_mitm-IsSlot v),
    )
  ]

  -- What InstallMitm writes into the slot.
  abbrev pub installed : ServiceInfo → ℕ → Handle → Handle → ServiceInfo
  installed v id port query = record v {
    mitm_process_id = id;
    mitm_port_h = some port;
    mitm_query_h = some query;
  }

  -- A slot that a valid service name finds is not free.
  found_registered :
      (name : ServiceName) (s : State) (i : ℕ) (v : ServiceInfo)
      → get_or p.invalid_service_name 0 0 ≡ 0
      → Inv p s
      → is_valid_name p name ≡ true
      → get_service_info name s ≡ some (i, v)
      → bytes_eq v.name p.invalid_service_name ≡ false
  found_registered name s i v nameless h valid e =
      rw (found-IsSlot p name s i v h e).2 (valid-ne-invalid p nameless name valid)

  installed-IsSlot :
      (v : ServiceInfo) (id : ℕ) (port query : Handle)
      → id ≢ p.invalid_process_id
      → bytes_eq v.name p.invalid_service_name ≡ false
      → IsSlot p v
      → IsSlot p (installed v id port query)
  unfolding is_some
  installed-IsSlot v id port query there named f = record {
    free = λ b. cc;
    port = f.port;
    mitm_on = λ _. refl;
    query_on = λ _. refl;
    mitm_off = λ e. absurd (there e);
    query_off = λ e. absurd (there e);
    ack_on = f.ack_on;
    ack_off = f.ack_off;
    nobody = f.nobody;
  }

  length-clear_entries :
      (name : ServiceName) (xs : List ServiceName) → length (clear_entries p name xs) ≡ length xs
  unfolding clear_entries
  length-clear_entries name [] = refl
  length-clear_entries name (x ∷ xs) = ap suc (length-clear_entries name xs)

  clear-Inv :
      (name : ServiceName) (s : State) → Inv p s → Inv p (clear_future_mitm_declaration p name s)
  unfolding clear_future_mitm_declaration
  clear-Inv name s h = record {
    processes = h.processes;
    services = h.services;
    futures = length-clear_entries name s.future_mitm_list ∙ h.futures;
    slots = h.slots;
    unique = h.unique;
  }

  -- What GetMitmServiceHandleImpl writes into the slot.
  abbrev pub waiting : ServiceInfo → Handle → ℕ → ServiceInfo
  waiting v fwd id = record v {
    mitm_fwd_sess_h = some fwd;
    mitm_waiting_ack_process_id = id;
    mitm_waiting_ack = true;
  }

  -- What AcknowledgeMitmSession writes into the slot.
  abbrev pub acknowledged : ServiceInfo → ServiceInfo
  acknowledged v = record v {
    mitm_fwd_sess_h = none;
    mitm_waiting_ack = false;
    mitm_waiting_ack_process_id = p.invalid_process_id;
  }

  waiting-IsSlot :
      (v : ServiceInfo) (fwd : Handle) (id : ℕ)
      → bytes_eq v.name p.invalid_service_name ≡ false
      → IsSlot p v
      → IsSlot p (waiting v fwd id)
  unfolding is_some
  waiting-IsSlot v fwd id named f = record {
    free = λ b. cc;
    port = f.port;
    mitm_on = f.mitm_on;
    query_on = f.query_on;
    mitm_off = f.mitm_off;
    query_off = f.query_off;
    ack_on = λ _. refl;
    ack_off = λ b. cc;
    nobody = λ b. cc;
  }

  acknowledged-IsSlot : (v : ServiceInfo) → IsSlot p v → IsSlot p (acknowledged v)
  unfolding free_service
  acknowledged-IsSlot v f = record {
    free = λ b. ground (arith, f.free b);
    port = f.port;
    mitm_on = f.mitm_on;
    query_on = f.query_on;
    mitm_off = f.mitm_off;
    query_off = f.query_off;
    ack_on = λ b. cc;
    ack_off = λ _. refl;
    nobody = λ _. refl;
  }

  pub acknowledge_mitm_session-Inv :
      (id : ℕ) (name : ServiceName) (s : State)
      → Inv p s
      → Holds p (acknowledge_mitm_session p id name s)
  unfolding acknowledge_mitm_session validate_service_name get_mitm_process_info
  acknowledge_mitm_session-Inv id name s h = elim (Option-cases (get_service_info name s)) [
    | inl e ↦ ground (arith, check_client-Reads p id s)
    | inr ((i, v), e) ↦ ground (
      arith,
      check_client-Reads p id s,
      update-Inv name s i v (acknowledged v) h e refl (acknowledged-IsSlot v),
    )
  ]

  module _ (nameless : get_or p.invalid_service_name 0 0 ≡ 0) where
    install-Inv :
        (id : ℕ) (name : ServiceName) (s : State) (i : ℕ) (v : ServiceInfo) (port query : Handle)
        → Inv p s
        → is_valid_name p name ≡ true
        → id ≢ p.invalid_process_id
        → get_service_info name s ≡ some (i, v)
        → Inv p (clear_future_mitm_declaration p name (put_service i (installed v id port query) s))
    install-Inv id name s i v port query h valid there e = clear-Inv name _ (
        update-Inv name s i v (installed v id port query) h e refl
          (installed-IsSlot v id port query there (found_registered name s i v nameless h valid e)))

    pub install_mitm-Inv :
        (k : Kernel) (id : ℕ) (name : ServiceName) (s : State)
        → Inv p s
        → Holds p (install_mitm p k id name s)
    unfolding install_mitm validate_service_name
    install_mitm-Inv k id name s h = elim (Option-cases (get_service_info name s)) [
      | inl e ↦ ground (arith, check_access-Reads p id name true s)
      | inr ((i, v), e) ↦ elim (SvcResult-cases k.create_session) [
        | inl ((query, mitm_query), q) ↦
            elim (SvcResult-cases (k.create_port v.max_sessions v.is_light (replicate 8 0))) [
              | inl ((out, port), r) ↦ ground (
                arith,
                check_access-Reads p id name true s,
                check_access_valid p id name true s s,
                install-Inv id name s i v port mitm_query h,
              )
              | inr (f, r) ↦ ground (arith, check_access-Reads p id name true s)
            ]
        | inr (f, q) ↦ ground (arith, check_access-Reads p id name true s)
      ]
    ]

    waiting-Inv :
        (name : ServiceName) (s : State) (i : ℕ) (v : ServiceInfo) (fwd : Handle) (id : ℕ)
        → Inv p s
        → is_valid_name p name ≡ true
        → get_service_info name s ≡ some (i, v)
        → Inv p (put_service i (waiting v fwd id) s)
    waiting-Inv name s i v fwd id h valid e =
        update-Inv name s i v (waiting v fwd id) h e refl
          (waiting-IsSlot v fwd id (found_registered name s i v nameless h valid e))

    pub get_service_handle-Inv :
        (k : Kernel) (id : ℕ) (name : ServiceName) (s : State)
        → Inv p s
        → Holds p (get_service_handle p k id name s)
    unfolding get_service_handle validate_service_name get_service_handle_impl get_mitm_process_info
    get_service_handle-Inv k id name s h = elim (Option-cases (get_service_info name s)) [
      | inl e ↦ ground (arith, check_access-Reads p id name false s)
      | inr ((i, v), e) ↦ elim (SvcResult-cases (k.connect_to_port v.port_h)) [
        | inl (fwd, q) ↦
            ground (arith, check_access-Reads p id name false s, waiting-Inv name s i v fwd id h)
        | inr (f, q) ↦ ground (arith, check_access-Reads p id name false s)
      ]
    ]
