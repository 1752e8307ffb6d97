-- ===== src/Sm/Registration.antt =====
-- The service table of sm/source/impl/sm_service_manager.cpp as a map from names to services: what
-- registering and unregistering do to it.
use nx_sysmodules.Base.{
  ℕ, ◌≡◌, ◌∙◌, ◌⊎◌, inl, inr, ap, Bool, true, false, Option, none, some, arith, if◌then◌else◌,
  get_elem?, bytes_eq, eq_of_bytes_eq, bytes_eq_comm, Option-cases, get_or,
}
use nx_sysmodules.Base.Slots.{count, find-set_other, find-set_only, find-none-count}
use nx_sysmodules.Sm.State.{
  Platform, Kernel, State, ServiceName, ServiceInfo, Handle, ok, free_service, success,
  SvcResult-cases,
}
use nx_sysmodules.Sm.Names.{validate_service_name, is_valid_name}
use nx_sysmodules.Sm.Tables.{
  has_name, get_service_info, get_free_service_info, has_service_info, put_service, check_access,
}
use nx_sysmodules.Sm.Services.{register_service_impl, register_service, unregister_service}
use nx_sysmodules.Sm.Invariant.{Inv, found-IsSlot}
use nx_sysmodules.Sm.Invariant.Services.{check_access-Reads, check_client-Reads}
use nx_sysmodules.Sm.Invariant.Register.{claimed, free_slot}

abbrev pub contents : Option (ℕ × ServiceInfo) → Option ServiceInfo
contents none = none
contents (some (i, v)) = some v

-- The service that is registered under a name.
unfoldable pub service_of : ServiceName → State → Option ServiceInfo
service_of name s = contents (get_service_info name s)

module _ (p : Platform) where
  -- A search after a write to the slot that holds `v`.
  pub get_service_info-put_service :
      (s : State) (i : ℕ) (v v' : ServiceInfo) (n : ServiceName)
      → Inv p s
      → get_elem? s.service_list i ≡ some v
      → bytes_eq n p.invalid_service_name ≡ false
      → (has_name n v' ≡ true → (has_name n v ≡ true) ⊎ (count (has_name n) s.service_list ≡ 0))
      → get_service_info n (put_service i v' s) ≡ (
          if has_name n v'
          then some (i, v')
          else if has_name n v
          then none
          else get_service_info n s)
  unfolding get_service_info put_service
  get_service_info-put_service s i v v' n h g real new = ground (
    arith,
    h.unique n real,
    find-set_other (has_name n) s.service_list i v v' g,
    find-set_only (has_name n) s.service_list i v v' g,
  )

  module _ (nameless : get_or p.invalid_service_name 0 0 ≡ 0) where
    -- What a successful RegisterServiceImpl did.
    pub register_service_impl-eq-ok :
        (k : Kernel) (id : ℕ) (name : ServiceName) (max : ℕ) (light : Bool) (s t : State)
        (out : Handle)
        → Inv p s
        → register_service_impl p k id name max light s ≡ ok out t
        → (i : ℕ) × (v : ServiceInfo) × (port : Handle) × (get_free_service_info p s ≡ some (i, v))
          × (k.create_port max light p.invalid_service_name ≡ success (out, port))
          × (is_valid_name p name ≡ true)
          × (has_service_info name s ≡ false)
          × (t ≡ put_service i (claimed v port id name max light) s)
    unfolding register_service_impl validate_service_name free_service
    register_service_impl-eq-ok k id name max light s t out h e =
        elim (Option-cases (get_free_service_info p s)) [
          | inl f ↦ absurd (ground arith)
          | inr ((i, v), f) ↦ elim (SvcResult-cases (k.create_port max light v.name)) [
            | inl ((out', port), r) ↦
                let slot = free_slot p nameless s i v h f in
                (
                  i,
                  v,
                  port,
                  f,
                  ground (arith, slot),
                  ground arith,
                  ground arith,
                  ground (arith, slot),
                )
            | inr (g, r) ↦ absurd (ground arith)
          ]
        ]

    claimed-service_of :
        (s : State) (i : ℕ) (v : ServiceInfo) (port : Handle) (id : ℕ) (name : ServiceName)
        (max : ℕ) (light : Bool) (n : ServiceName)
        → Inv p s
        → has_service_info name s ≡ false
        → get_free_service_info p s ≡ some (i, v)
        → bytes_eq n p.invalid_service_name ≡ false
        → service_of n (put_service i (claimed v port id name max light) s) ≡ (
            if bytes_eq name n
            then some (claimed (free_service p) port id name max light)
            else service_of n s)
    unfolding service_of has_service_info free_service
    claimed-service_of s i v port id name max light n h fresh f real =
        let slot = free_slot p nameless s i v h f in
        ground (
          arith,
          slot,
          bytes_eq_comm n p.invalid_service_name,
          get_service_info-put_service s i v (claimed v port id name max light) n h slot.1 real
              (λ q. inr (absent n q)),
        )
      where
        absent : (n : ServiceName) → bytes_eq name n ≡ true → count (has_name n) s.service_list ≡ 0
        absent n q =
            rw (← eq_of_bytes_eq name n q)
              (find-none-count (has_name name) s.service_list (ground (arith, fresh)))

    -- A successful RegisterService, from a state that satisfies the invariant, where the invalid name
    -- is empty: the name is valid and was free, the caller passed the access check, and the kernel
    -- created the port. The name then has a fresh service with that port, the caller as its owner,
    -- its limits, and no mitm and no pending session; every other name but the invalid one has what
    -- it had.
    pub register_service-service_of :
        (k : Kernel) (id : ℕ) (name : ServiceName) (max : ℕ) (light : Bool) (s t : State)
        (out : Handle) (n : ServiceName)
        → Inv p s
        → register_service p k id name max light s ≡ ok out t
        → bytes_eq n p.invalid_service_name ≡ false
        → (is_valid_name p name ≡ true)
          × (has_service_info name s ≡ false)
          × (check_access p id name true s ≡ ok tt s)
          × (port : Handle) × (k.create_port max light p.invalid_service_name ≡ success (out, port))
          × (service_of n t ≡ (
              if bytes_eq name n
              then some (claimed (free_service p) port id name max light)
              else service_of n s))
    unfolding register_service validate_service_name
    register_service-service_of k id name max light s t out n h e real =
        let (i, v, port, f, r, valid, fresh, eq) =
          register_service_impl-eq-ok k id name max light s t out h
            (ground (arith, check_access-Reads p id name true s)) in
        (
          valid,
          fresh,
          ground (arith, check_access-Reads p id name true s),
          port,
          r,
          ap (service_of n) eq ∙ claimed-service_of s i v port id name max light n h fresh f real,
        )

  freed-service_of :
      (s : State) (i : ℕ) (v : ServiceInfo) (n : ServiceName)
      → Inv p s
      → get_elem? s.service_list i ≡ some v
      → bytes_eq n p.invalid_service_name ≡ false
      → service_of n (put_service i (free_service p) s)
        ≡ (if bytes_eq v.name n then none else service_of n s)
  unfolding service_of free_service
  freed-service_of s i v n h g real = ground (
    arith,
    bytes_eq_comm n p.invalid_service_name,
    get_service_info-put_service s i v (free_service p) n h g real
        (λ q. cc (bytes_eq_comm n p.invalid_service_name)),
  )

  -- A successful UnregisterService, from a state that satisfies the invariant: the service was
  -- there with the caller as its owner; the name then has no service, and every other name but the
  -- invalid one has what it had.
  pub unregister_service-service_of :
      (id : ℕ) (name : ServiceName) (s t : State) (n : ServiceName)
      → Inv p s
      → unregister_service p id name s ≡ ok tt t
      → bytes_eq n p.invalid_service_name ≡ false
      → (v : ServiceInfo) × (service_of name s ≡ some v)
        × (v.owner_process_id ≡ id)
        × (service_of n t ≡ (if bytes_eq name n then none else service_of n s))
  unfolding unregister_service validate_service_name service_of
  unregister_service-service_of id name s t n h e real =
      elim (Option-cases (get_service_info name s)) [
        | inl f ↦ absurd (ground (arith, check_client-Reads p id s))
        | inr ((i, v), f) ↦
            let slot = found-IsSlot p name s i v h f in
            (
              v,
              ground arith,
              ground (arith, check_client-Reads p id s),
              ground (
                arith,
                check_client-Reads p id s,
                slot.2,
                freed-service_of s i v n h slot.1 real,
              ),
            )
      ]
