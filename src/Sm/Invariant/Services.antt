-- ===== src/Sm/Invariant/Services.antt =====
-- The service handlers keep the invariant.
use nx_sysmodules.Base.{
  ℕ, ◌≡◌, ◌≢◌, inl, inr, refl, Bool, some, arith, get_elem?, bytes_eq_comm, bytes_eq_refl,
  Option-cases,
}
use nx_sysmodules.Sm.State.{
  Platform, State, ServiceName, ServiceInfo, Outcome, ok, err, abort, free_service,
}
use nx_sysmodules.Sm.Names.{validate_service_name}
use nx_sysmodules.Sm.Tables.{get_service_info, put_service, check_client, check_access}
use nx_sysmodules.Sm.Services.{unregister_service}
use nx_sysmodules.Sm.Invariant.{IsSlot, Inv, Holds, put_service-Inv, found-IsSlot}

module _ (p : Platform) where
  -- The checks of a client change nothing.
  abbrev pub Reads : {A : Type 0} → State → Outcome A → Type 0
  Reads s (ok a t) = t ≡ s
  Reads s (err e t) = t ≡ s
  Reads s abort = Unit

  pub check_client-Reads : (id : ℕ) (s : State) → Reads s (check_client p id s)
  unfolding check_client
  check_client-Reads id s = ground arith

  pub check_access-Reads :
      (id : ℕ) (name : ServiceName) (host : Bool) (s : State)
      → Reads s (check_access p id name host s)
  unfolding check_access
  check_access-Reads id name host s = ground arith

  -- IsInitialProcess aborts on the invalid process id.
  pub check_access_valid :
      (id : ℕ) (name : ServiceName) (host : Bool) (s t : State)
      → check_access p id name host s ≡ ok tt t
      → id ≢ p.invalid_process_id
  unfolding check_access
  check_access_valid id name host s t h = ground arith

  pub free_service-IsSlot : IsSlot p (free_service p)
  unfolding free_service
  free_service-IsSlot = record {
    free = λ _. refl;
    port = λ e. cc (bytes_eq_refl p.invalid_service_name);
    mitm_on = λ n. absurd (n refl);
    query_on = λ n. absurd (n refl);
    mitm_off = λ _. refl;
    query_off = λ _. refl;
    ack_on = λ e. cc;
    ack_off = λ _. refl;
    nobody = λ _. refl;
  }

  put_free-Inv :
      (s : State) (i : ℕ) (v : ServiceInfo)
      → Inv p s
      → get_elem? s.service_list i ≡ some v
      → Inv p (put_service i (free_service p) s)
  unfolding free_service
  put_free-Inv s i v h g =
      put_service-Inv p s i v (free_service p) h g free_service-IsSlot
        λ n e q. cc (bytes_eq_comm n p.invalid_service_name)

  pub unregister_service-Inv :
      (id : ℕ) (name : ServiceName) (s : State) → Inv p s → Holds p (unregister_service p id name s)
  unfolding unregister_service validate_service_name
  unregister_service-Inv id name s h = elim (Option-cases (get_service_info name s)) [
    | inl e ↦ ground (arith, check_client-Reads id s)
    | inr ((i, v), e) ↦
        let f = found-IsSlot p name s i v h e in
        ground (arith, check_client-Reads id s, put_free-Inv s i v h f.1)
  ]
