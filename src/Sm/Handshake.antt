-- ===== src/Sm/Handshake.antt =====
-- The mitm session handshake of sm/source/impl/sm_service_manager.cpp: GetServiceHandle hands a
-- session to the mitm and AcknowledgeMitmSession collects it.
use nx_sysmodules.Base.{
  ℕ, ◌≡◌, ◌≢◌, inl, inr, refl, true, false, not, ◌&&◌, some, arith, ◌==◌, get_elem?, bytes_eq_refl,
  Bool-cases, Option-cases, get_or, set_get, set-set,
}
use nx_sysmodules.Sm.State.{
  Platform, Kernel, State, ServiceName, ServiceInfo, ProcessInfo, MitmProcessInfo, Handle, ok,
  success, SvcResult-cases,
}
use nx_sysmodules.Sm.Names.{validate_service_name, is_valid_name}
use nx_sysmodules.Sm.Tables.{
  get_process_info, get_service_info, put_service, is_valid_process_id, get_mitm_process_info,
  is_mitm_disallowed,
}
use nx_sysmodules.Sm.Services.Sessions.{
  get_mitm_service_handle_impl, get_service_handle_impl, get_service_handle, should_defer,
  abort_on_error,
}
use nx_sysmodules.Sm.Invariant.{IsSlot, Inv, found-IsSlot}
use nx_sysmodules.Sm.Invariant.Services.{check_access-Reads}
use nx_sysmodules.Sm.Invariant.Register.{valid-ne-invalid}
use nx_sysmodules.Sm.Invariant.Mitm.{waiting, acknowledged}
use nx_sysmodules.Sm.Registration.{get_service_info-put_service, service_of}

-- What GetMitmProcessInfo reports of a registered process.
abbrev pub info_of : ℕ → ProcessInfo → MitmProcessInfo
info_of id q = record {
  process_id = id;
  program_id = q.program_id;
  override_status = q.override_status;
}

module _ (p : Platform) where
  -- While a session waits for its acknowledgement, GetServiceHandle gives no handle to that
  -- service to any client, whatever the kernel answers.
  pub get_service_handle_pending :
      (k : Kernel) (id : ℕ) (name : ServiceName) (s t : State) (v : ServiceInfo) (out : Handle)
      → service_of name s ≡ some v
      → v.mitm_waiting_ack ≡ true
      → get_service_handle p k id name s ≢ ok out t
  unfolding get_service_handle validate_service_name should_defer service_of
  get_service_handle_pending k id name s t v out e w g =
      elim (Option-cases (get_service_info name s)) [
        | inl f ↦ ground arith
        | inr ((i, v'), f) ↦ ground (arith, check_access-Reads p id name false s)
      ]

  -- The slots that the handshake writes are found again under the same name.
  pub updated-found :
      (name : ServiceName) (s : State) (i : ℕ) (v v' : ServiceInfo)
      → get_or p.invalid_service_name 0 0 ≡ 0
      → Inv p s
      → is_valid_name p name ≡ true
      → get_service_info name s ≡ some (i, v)
      → v'.name ≡ v.name
      → get_service_info name (put_service i v' s) ≡ some (i, v')
  updated-found name s i v v' nameless h valid e same =
      let f = found-IsSlot p name s i v h e in
      ground (
        arith,
        get_service_info-put_service p s i v v' name h f.1 (valid-ne-invalid p nameless name valid)
            (λ _. inl (rw f.2 (bytes_eq_refl name))),
        same,
        f.2,
        bytes_eq_refl name,
      )

  pub put_service_back :
      (s : State) (i : ℕ) (v v' : ServiceInfo)
      → get_elem? s.service_list i ≡ some v
      → put_service i v (put_service i v' s) ≡ s
  unfolding put_service
  put_service_back s i v v' g =
      ground (arith, set-set s.service_list i v v', set_get s.service_list i v g)

  -- Acknowledging a slot that did not wait before it was made to wait restores it.
  pub acknowledged-waiting :
      (v : ServiceInfo) (fwd : Handle) (id : ℕ)
      → IsSlot p v
      → v.mitm_waiting_ack ≡ false
      → acknowledged p (waiting p v fwd id) ≡ v
  acknowledged-waiting v fwd id f w = ground (arith, f.ack_off w, f.nobody w)

  -- A handle that GetServiceHandle returns: a session with the service's own port, and nothing
  -- changes; or one with the mitm's port, and the slot waits with a second session for the mitm.
  pub data Connection (k : Kernel) (id : ℕ) (s t : State) (i : ℕ) (v : ServiceInfo) (out : Handle)
      : Type 0 where
    direct : t ≡ s → k.connect_to_port v.port_h ≡ success out → Connection k id s t i v out
    through_mitm :
        (info : MitmProcessInfo) (fwd : Handle)
        → v.mitm_process_id ≢ p.invalid_process_id
        → v.mitm_process_id ≢ id
        → get_mitm_process_info id s ≡ ok info s
        → k.query_mitm v.mitm_query_h info ≡ success true
        → k.connect_to_port v.port_h ≡ success fwd
        → k.connect_to_port v.mitm_port_h ≡ success out
        → t ≡ put_service i (waiting p v fwd id) s
        → Connection k id s t i v out

  pub get_service_handle-eq-ok :
      (k : Kernel) (id : ℕ) (name : ServiceName) (s t : State) (i : ℕ) (v : ServiceInfo)
      (out : Handle)
      → get_service_info name s ≡ some (i, v)
      → get_service_handle p k id name s ≡ ok out t
      → (is_valid_name p name ≡ true)
        × (v.mitm_waiting_ack ≡ false)
        × (get_service_handle_impl p k i v id s ≡ ok out t)
  unfolding get_service_handle validate_service_name should_defer
  get_service_handle-eq-ok k id name s t i v out e g =
      ground (arith, check_access-Reads p id name false s)

  mitm-Connection :
      (k : Kernel) (id : ℕ) (s t : State) (i : ℕ) (v : ServiceInfo) (info : MitmProcessInfo)
      (out : Handle)
      → is_valid_process_id p v.mitm_process_id && not (v.mitm_process_id == id) ≡ true
      → get_mitm_process_info id s ≡ ok info s
      → info.process_id ≡ id
      → abort_on_error (get_mitm_service_handle_impl k i v info s) ≡ ok out t
      → Connection k id s t i v out
  unfolding get_mitm_service_handle_impl abort_on_error is_valid_process_id
  mitm-Connection k id s t i v info out m r same g =
      elim (SvcResult-cases (k.query_mitm v.mitm_query_h info)) [
        | inl (true, y) ↦ elim (SvcResult-cases (k.connect_to_port v.port_h)) [
          | inl (fwd, f) ↦
              through_mitm info fwd (ground arith) (ground arith) r y f (ground arith)
                (ground arith)
          | inr (x, f) ↦ absurd (ground arith)
        ]
        | inl (false, y) ↦ direct (ground arith) (ground arith)
        | inr (x, y) ↦ absurd (ground arith)
      ]

  pub get_service_handle_impl-Connection :
      (k : Kernel) (id : ℕ) (s t : State) (i : ℕ) (v : ServiceInfo) (out : Handle)
      → get_service_handle_impl p k i v id s ≡ ok out t
      → Connection k id s t i v out
  unfolding get_service_handle_impl get_mitm_process_info
  get_service_handle_impl-Connection k id s t i v out g =
      elim (Bool-cases (is_valid_process_id p v.mitm_process_id && not (v.mitm_process_id == id))) [
        | inl m ↦ elim (Option-cases (get_process_info id s)) [
          | inl q ↦ absurd (ground arith)
          | inr ((j, c), q) ↦ elim (Bool-cases (is_mitm_disallowed p c.program_id)) [
            | inl d ↦ direct (ground arith) (ground arith)
            | inr d ↦
                mitm-Connection k id s t i v (info_of id c) out m (ground arith) refl (ground arith)
          ]
        ]
        | inr m ↦ direct (ground arith) (ground arith)
      ]
