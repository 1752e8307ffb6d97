-- ===== src/Sm/Acknowledgement.antt =====
-- AcknowledgeMitmSession and UninstallMitm of sm/source/impl/sm_service_manager.cpp after a
-- session was handed to the mitm.
use nx_sysmodules.Base.{
  ℕ, ◌≡◌, ◌≢◌, ◌∙◌, inl, inr, refl, ap, true, false, some, arith, get_elem?, Option-cases, get_or,
}
use mathlib.Core.Path.{subst}
use nx_sysmodules.Sm.State.{
  Platform, Kernel, State, ServiceName, ServiceInfo, MitmProcessInfo, ManagedHandle, Handle, ok,
  free_mitm, success,
}
use nx_sysmodules.Sm.Names.{validate_service_name, is_valid_name}
use nx_sysmodules.Sm.Tables.{
  get_process_info, get_service_info, put_service, check_client, get_mitm_process_info,
}
use nx_sysmodules.Sm.Services.Sessions.{get_service_handle_impl, get_service_handle}
use nx_sysmodules.Sm.Mitm.{uninstall_mitm, acknowledge_mitm_session}
use nx_sysmodules.Sm.Invariant.{IsSlot, Inv, found-IsSlot}
use nx_sysmodules.Sm.Invariant.Services.{check_client-Reads}
use nx_sysmodules.Sm.Invariant.Mitm.{waiting, acknowledged}
use nx_sysmodules.Sm.Registration.{service_of, contents}
use nx_sysmodules.Sm.Handshake.{
  Connection, direct, through_mitm, get_service_handle-eq-ok, get_service_handle_impl-Connection,
  updated-found, put_service_back, acknowledged-waiting, get_service_handle_pending,
}

module _ (p : Platform) where
  -- The process table is the same after a write to a service.
  get_mitm_process_info-put_service :
      (id : ℕ) (s : State) (i : ℕ) (w : ServiceInfo) (info : MitmProcessInfo)
      → get_mitm_process_info id s ≡ ok info s
      → get_mitm_process_info id (put_service i w s) ≡ ok info (put_service i w s)
  unfolding get_mitm_process_info get_process_info put_service
  get_mitm_process_info-put_service id s i w info e = elim (Option-cases (get_process_info id s)) [
    | inl q ↦ absurd (ground arith)
    | inr ((j, c), q) ↦ ground arith
  ]

  acknowledge_waiting :
      (name : ServiceName) (id : ℕ) (s : State) (i : ℕ) (v : ServiceInfo) (fwd : Handle)
      (info : MitmProcessInfo)
      → is_valid_name p name ≡ true
      → get_service_info name (put_service i (waiting p v fwd id) s) ≡ some (i, waiting p v fwd id)
      → get_mitm_process_info id (put_service i (waiting p v fwd id) s)
        ≡ ok info (put_service i (waiting p v fwd id) s)
      → check_client p v.mitm_process_id (put_service i (waiting p v fwd id) s)
        ≡ ok tt (put_service i (waiting p v fwd id) s)
      → acknowledge_mitm_session p v.mitm_process_id name (put_service i (waiting p v fwd id) s)
        ≡ ok
            (info, some fwd)
            (put_service i
              (acknowledged p (waiting p v fwd id))
              (put_service i (waiting p v fwd id) s))
  unfolding acknowledge_mitm_session validate_service_name
  acknowledge_waiting name id s i v fwd info valid f q c = ground arith

  -- From a state that satisfies the invariant, where the invalid name is empty: if GetServiceHandle
  -- returned a handle and changed the state, then the handle is a session with the mitm's port, and
  -- AcknowledgeMitmSession by the mitm's process, if it is still a client, returns who asked and a
  -- session with the service's own port, and leads back to the very state before the request.
  pub session_round_trip :
      (k : Kernel) (id : ℕ) (name : ServiceName) (s t : State) (i : ℕ) (v : ServiceInfo)
      (out : Handle)
      → get_or p.invalid_service_name 0 0 ≡ 0
      → Inv p s
      → get_service_info name s ≡ some (i, v)
      → get_service_handle p k id name s ≡ ok out t
      → t ≢ s
      → check_client p v.mitm_process_id t ≡ ok tt t
      → (info : MitmProcessInfo) × (fwd : Handle) × (get_mitm_process_info id s ≡ ok info s)
        × (k.connect_to_port v.port_h ≡ success fwd)
        × (k.connect_to_port v.mitm_port_h ≡ success out)
        × (acknowledge_mitm_session p v.mitm_process_id name t ≡ ok (info, some fwd) s)
  session_round_trip k id name s t i v out nameless h e g changed client =
      go (get_service_handle_impl-Connection p k id s t i v out checks.2)
    where
      checks :
          (is_valid_name p name ≡ true)
          × (v.mitm_waiting_ack ≡ false)
          × (get_service_handle_impl p k i v id s ≡ ok out t)
      checks = get_service_handle-eq-ok p k id name s t i v out e g

      go :
          Connection p k id s t i v out
          → (info : MitmProcessInfo) × (fwd : Handle) × (get_mitm_process_info id s ≡ ok info s)
            × (k.connect_to_port v.port_h ≡ success fwd)
            × (k.connect_to_port v.mitm_port_h ≡ success out)
            × (acknowledge_mitm_session p v.mitm_process_id name t ≡ ok (info, some fwd) s)
      go (direct same _) = absurd (changed same)
      go (through_mitm info fwd _ _ q _ a b eq) =
          (info, fwd, q, a, b, rw eq (there ∙ ap (ok (info, some fwd)) back))
        where
          w : ServiceInfo
          w = waiting p v fwd id

          slot : IsSlot p v × (get_elem? s.service_list i ≡ some v) × (v.name ≡ name)
          slot = found-IsSlot p name s i v h e

          there :
              acknowledge_mitm_session p v.mitm_process_id name (put_service i w s)
              ≡ ok (info, some fwd) (put_service i (acknowledged p w) (put_service i w s))
          there =
              acknowledge_waiting name id s i v fwd info checks.0
                (updated-found p name s i v w nameless h checks.0 e refl)
                (get_mitm_process_info-put_service id s i w info q)
                (subst (λ u. check_client p v.mitm_process_id u ≡ ok tt u) eq client)

          back : put_service i (acknowledged p w) (put_service i w s) ≡ s
          back =
              ap (λ x. put_service i x (put_service i w s))
                (acknowledged-waiting p v fwd id slot.0 checks.1)
              ∙ put_service_back p s i v w slot.1

  check_client_valid :
      (id : ℕ) (s t : State) → check_client p id s ≡ ok tt t → id ≢ p.invalid_process_id
  unfolding check_client
  check_client_valid id s t h = ground arith

  acknowledge_without_mitm :
      (client : ℕ) (name : ServiceName) (t : State) (i : ℕ) (w : ServiceInfo)
      (r : MitmProcessInfo × ManagedHandle) (u : State)
      → get_service_info name t ≡ some (i, w)
      → w.mitm_process_id ≡ p.invalid_process_id
      → acknowledge_mitm_session p client name t ≢ ok r u
  unfolding acknowledge_mitm_session validate_service_name
  acknowledge_without_mitm client name t i w r u f m g =
      ground (arith, check_client-Reads p client t, check_client_valid client t t)

  -- From a state that satisfies the invariant, where the invalid name is empty: if UninstallMitm
  -- succeeds while a session waits for its acknowledgement, then that service is stuck: in the
  -- state after it GetServiceHandle returns no handle to any client, whatever the kernel answers,
  -- and AcknowledgeMitmSession succeeds for no process.
  pub uninstall_mitm_stuck :
      (id : ℕ) (name : ServiceName) (s t : State) (i : ℕ) (v : ServiceInfo)
      → get_or p.invalid_service_name 0 0 ≡ 0
      → Inv p s
      → get_service_info name s ≡ some (i, v)
      → v.mitm_waiting_ack ≡ true
      → uninstall_mitm p id name s ≡ ok tt t
      → ((k : Kernel) (client : ℕ) (out : Handle) (u : State)
          → get_service_handle p k client name t ≢ ok out u)
        × ((client : ℕ) (r : MitmProcessInfo × ManagedHandle) (u : State)
            → acknowledge_mitm_session p client name t ≢ ok r u)
  unfolding uninstall_mitm validate_service_name free_mitm
  uninstall_mitm_stuck id name s t i v nameless h e w g = (
    λ k client out u.
        get_service_handle_pending p k client name t u (free_mitm p v) out
          (unfold service_of in ap contents found) w,
    λ client r u. acknowledge_without_mitm client name t i (free_mitm p v) r u found refl,
  )
    where
      eq : t ≡ put_service i (free_mitm p v) s
      eq = ground (arith, check_client-Reads p id s)

      found : get_service_info name t ≡ some (i, free_mitm p v)
      found = rw eq (
          updated-found p name s i v (free_mitm p v) nameless h
            (ground (arith, check_client-Reads p id s)) e refl)
