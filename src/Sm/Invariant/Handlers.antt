-- ===== src/Sm/Invariant/Handlers.antt =====
-- Every handler keeps the invariant, and so does any sequence of calls from the initial state.
use nx_sysmodules.Base.{
  ℕ, ◌≡◌, ◌∙◌, inl, inr, zero, suc, refl, true, false, some, List, arith, length, length-set,
  length-replicate, All-replicate, bytes_eq, bytes_eq_comm, Option-cases, [], ◌∷◌, get_or,
  replicate,
}
use mathlib.Core.Path.{sym, subst}
use nx_sysmodules.Base.Slots.{count}
use nx_sysmodules.Sm.State.{
  Platform, Kernel, State, ServiceName, ProcessInfo, Outcome, ok, err, abort, initial_state,
  free_service, free_process, service_count_max, process_count_max, future_mitm_count_max,
}
use nx_sysmodules.Sm.Names.{validate_service_name}
use nx_sysmodules.Sm.Access.Laws.{validate_access_control_iff}
use nx_sysmodules.Sm.Tables.{
  has_name, get_process_info, get_free_process_info, put_process, add_first_free,
  add_future_mitm_declaration,
}
use nx_sysmodules.Sm.Processes.{register_process, unregister_process}
use nx_sysmodules.Sm.Services.{has_service, wait_service, register_service_for_self}
use nx_sysmodules.Sm.Mitm.{has_mitm, wait_mitm, declare_future_mitm}
use nx_sysmodules.Sm.Records.{get_service_record, list_service_records, end_initial_defers}
use nx_sysmodules.Sm.Calls.{
  Call, registers_process, unregisters_process, asks_service, waits_service, gets_handle,
  registers_service, registers_for_self, unregisters_service, asks_mitm, waits_mitm, installs_mitm,
  uninstalls_mitm, declares_mitm, acknowledges, reads_record, lists_records, ends_defers, after,
  serve, Reach, start, next,
}
use nx_sysmodules.Sm.Invariant.{IsSlot, Inv, Holds}
use nx_sysmodules.Sm.Invariant.Services.{
  check_access-Reads, unregister_service-Inv, free_service-IsSlot,
}
use nx_sysmodules.Sm.Invariant.Register.{register_service-Inv, register_service_impl-Inv}
use nx_sysmodules.Sm.Invariant.Mitm.{
  uninstall_mitm-Inv, install_mitm-Inv, acknowledge_mitm_session-Inv, get_service_handle-Inv,
}

module _ (p : Platform) where
  put_process-Inv : (i : ℕ) (q : ProcessInfo) (s : State) → Inv p s → Inv p (put_process i q s)
  unfolding put_process
  put_process-Inv i q s h = record {
    processes = length-set s.process_list i q ∙ h.processes;
    services = h.services;
    futures = h.futures;
    slots = h.slots;
    unique = h.unique;
  }

  unregister_process-Inv : (id : ℕ) (s : State) → Inv p s → Holds p (unregister_process p id s)
  unfolding unregister_process
  unregister_process-Inv id s h = elim (Option-cases (get_process_info id s)) [
    | inl e ↦ ground arith
    | inr ((i, q), e) ↦ ground (arith, put_process-Inv i (free_process p) s h)
  ]

  register_process-Inv :
      (id program status : ℕ) (acid aci : List ℕ) (s : State)
      → Inv p s
      → Holds p (register_process p id program status acid aci s)
  unfolding register_process
  register_process-Inv id program status acid aci s h =
      elim (Option-cases (get_free_process_info p s)) [
        | inl e ↦ ground arith
        | inr ((i, q), e) ↦
            let q' : ProcessInfo = record {
              process_id = id;
              program_id = program;
              override_status = status;
              access_control = aci;
            } in
            ground (arith, (validate_access_control_iff p acid aci s).1, put_process-Inv i q' s h)
      ]

  length-add_first_free :
      (name : ServiceName) (xs ys : List ServiceName)
      → add_first_free p name xs ≡ some ys
      → length ys ≡ length xs
  unfolding add_first_free
  length-add_first_free name [] ys h = cc
  length-add_first_free name (x ∷ xs) ys h = elim (Option-cases (add_first_free p name xs)) [
    | inl e ↦ ground arith
    | inr (zs, e) ↦ ground (arith, length-add_first_free name xs zs)
  ]

  future-Inv :
      (name : ServiceName) (list : List ServiceName) (s : State)
      → Inv p s
      → add_first_free p name s.future_mitm_list ≡ some list
      → Inv p (record s { future_mitm_list = list })
  future-Inv name list s h e = record {
    processes = h.processes;
    services = h.services;
    futures = length-add_first_free name s.future_mitm_list list e ∙ h.futures;
    slots = h.slots;
    unique = h.unique;
  }

  declare_future_mitm-Inv :
      (id : ℕ) (name : ServiceName) (s : State)
      → Inv p s
      → Holds p (declare_future_mitm p id name s)
  unfolding declare_future_mitm validate_service_name add_future_mitm_declaration
  declare_future_mitm-Inv id name s h =
      elim (Option-cases (add_first_free p name s.future_mitm_list)) [
        | inl e ↦ ground (arith, check_access-Reads p id name true s)
        | inr (list, e) ↦
            ground (arith, check_access-Reads p id name true s, future-Inv name list s h e)
      ]

  end_initial_defers-Inv : (s : State) → Inv p s → Holds p (end_initial_defers s)
  unfolding end_initial_defers
  end_initial_defers-Inv s h = record {
    processes = h.processes;
    services = h.services;
    futures = h.futures;
    slots = h.slots;
    unique = h.unique;
  }

  count-replicate :
      (name : ServiceName) (n : ℕ)
      → bytes_eq name p.invalid_service_name ≡ false
      → count (has_name name) (replicate n (free_service p)) ≡ 0
  unfolding count free_service
  count-replicate name zero h = refl
  count-replicate name (suc n) h =
      ground (arith, bytes_eq_comm name p.invalid_service_name, count-replicate name n)

  initial_state-Inv : Inv p (initial_state p)
  unfolding initial_state
  initial_state-Inv = record {
    processes = length-replicate process_count_max (free_process p);
    services = length-replicate service_count_max (free_service p);
    futures = length-replicate future_mitm_count_max p.invalid_service_name;
    slots = All-replicate (IsSlot p) service_count_max (free_service p) (free_service-IsSlot p);
    unique = λ name e. omega (arith, count-replicate name service_count_max e);
  }

  same : (s t : State) → some s ≡ some t → s ≡ t
  same s t e = cc

  held : {A : Type 0} (o : Outcome A) (t : State) → Holds p o → after o ≡ some t → Inv p t
  held (ok a s) t h e = subst (Inv p) (same s t e) h
  held (err f s) t h e = subst (Inv p) (same s t e) h
  held abort t h e = cc

  module _ (nameless : get_or p.invalid_service_name 0 0 ≡ 0) where
    -- From a state that satisfies the invariant, every call of every handler that does not abort,
    -- whether it succeeds or fails and whatever the kernel answers, leads to such a state: tables of
    -- their sizes, clean free slots, at most one slot for a name, mitm handles exactly with a mitm
    -- process, and a forward session exactly with a pending acknowledgement.
    pub serve-Inv :
        (k : Kernel) (c : Call) (s t : State) → Inv p s → serve p k c s ≡ some t → Inv p t
    unfolding serve
    serve-Inv k (registers_process id program status acid aci) s t h =
        held _ t (register_process-Inv id program status acid aci s h)
    serve-Inv k (unregisters_process id) s t h = held _ t (unregister_process-Inv id s h)
    serve-Inv k (asks_service name) s t h =
        held (has_service p name s) t (unfold has_service validate_service_name in ground arith)
    serve-Inv k (waits_service name) s t h =
        held (wait_service p name s) t (unfold wait_service validate_service_name in ground arith)
    serve-Inv k (gets_handle id name) s t h =
        held _ t (get_service_handle-Inv p nameless k id name s h)
    serve-Inv k (registers_service id name max light) s t h =
        held _ t (register_service-Inv p nameless k id name max light s h)
    serve-Inv k (registers_for_self name max) s t h =
        held (register_service_for_self p k name max s) t (
          unfold register_service_for_self in
          register_service_impl-Inv p nameless k p.current_process_id name max false s h)
    serve-Inv k (unregisters_service id name) s t h =
        held _ t (unregister_service-Inv p id name s h)
    serve-Inv k (asks_mitm name) s t h =
        held (has_mitm p name s) t (unfold has_mitm validate_service_name in ground arith)
    serve-Inv k (waits_mitm name) s t h =
        held (wait_mitm p name s) t (unfold wait_mitm validate_service_name in ground arith)
    serve-Inv k (installs_mitm id name) s t h = held _ t (install_mitm-Inv p nameless k id name s h)
    serve-Inv k (uninstalls_mitm id name) s t h = held _ t (uninstall_mitm-Inv p id name s h)
    serve-Inv k (declares_mitm id name) s t h = held _ t (declare_future_mitm-Inv id name s h)
    serve-Inv k (acknowledges id name) s t h = held _ t (acknowledge_mitm_session-Inv p id name s h)
    serve-Inv k (reads_record name) s t h =
        held (get_service_record p name s) t
          (unfold get_service_record validate_service_name in ground arith)
    serve-Inv k (lists_records offset max) s t h =
        held (list_service_records p offset max s) t (unfold list_service_records in h)
    serve-Inv k ends_defers s t h = held _ t (end_initial_defers-Inv s h)

    -- Where the invalid name is empty: every state that a sequence of calls of any of the handlers,
    -- with whatever kernel answers, reaches from the initial state without an abort satisfies `Inv`.
    -- The tables keep their sizes; a free slot is clean and a registered one has its port; the mitm's
    -- handles are there exactly with a mitm process, and the forward session exactly with a pending
    -- acknowledgement; no two slots hold one service.
    pub Reach-Inv : {s : State} → Reach p s → Inv p s
    Reach-Inv (start e) = subst (Inv p) (sym e) initial_state-Inv
    Reach-Inv (next {s = s} {t = t} r k c e) = serve-Inv k c s t (Reach-Inv r) e
