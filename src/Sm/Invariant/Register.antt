-- ===== src/Sm/Invariant/Register.antt =====
-- Registration of a service keeps the invariant.
use nx_sysmodules.Base.{
  ℕ, ◌≡◌, ◌∙◌, inl, inr, refl, ap, Bool, true, false, none, some, arith, get_elem?, bytes_eq,
  eq_of_bytes_eq, bytes_eq_refl, Bool-cases, Option-cases, get_or, set_get,
}
use nx_sysmodules.Base.Slots.{count, find-none-count}
use nx_sysmodules.Sm.State.{
  Platform, Kernel, State, ServiceName, ServiceInfo, Handle, free_service, SvcResult-cases,
}
use nx_sysmodules.Sm.Names.{validate_service_name, is_valid_name, start_of_valid}
use nx_sysmodules.Sm.Tables.{has_name, get_free_service_info, has_service_info, put_service}
use nx_sysmodules.Sm.Services.{register_service_impl, register_service}
use nx_sysmodules.Sm.Invariant.{IsSlot, Inv, Holds, put_service-Inv, found-IsSlot}
use nx_sysmodules.Sm.Invariant.Services.{check_access-Reads}

-- The slot that RegisterServiceImpl fills, once the port is there.
abbrev pub claimed : ServiceInfo → Handle → ℕ → ServiceName → ℕ → Bool → ServiceInfo
claimed v port id name max light = record v {
  port_h = some port;
  name = name;
  owner_process_id = id;
  max_sessions = max;
  is_light = light;
}

-- The invalid name is the empty one.
module _ (p : Platform) (nameless : get_or p.invalid_service_name 0 0 ≡ 0) where
  pub valid-ne-invalid :
      (name : ServiceName)
      → is_valid_name p name ≡ true
      → bytes_eq name p.invalid_service_name ≡ false
  valid-ne-invalid name h = elim (Bool-cases (bytes_eq name p.invalid_service_name)) [
    | inl e ↦ absurd (
        start_of_valid p name h
          (ap (λ n. get_or n 0 0) (eq_of_bytes_eq name p.invalid_service_name e) ∙ nameless))
    | inr e ↦ e
  ]

  -- A free slot is clean, so that clearing its port again changes nothing.
  pub free_slot :
      (s : State) (i : ℕ) (v : ServiceInfo)
      → Inv p s
      → get_free_service_info p s ≡ some (i, v)
      → (v ≡ free_service p)
        × (get_elem? s.service_list i ≡ some v)
        × (put_service i (record v { port_h = none }) s ≡ s)
  unfolding get_free_service_info put_service free_service
  free_slot s i v h e = (clean, f.1, same)
    where
      f : IsSlot p v × (get_elem? s.service_list i ≡ some v) × (v.name ≡ p.invalid_service_name)
      f = found-IsSlot p p.invalid_service_name s i v h e

      clean : v ≡ free_service p
      clean = f.0.free (rw f.2 (bytes_eq_refl p.invalid_service_name))

      cleared : record v { port_h = none } ≡ v
      cleared = ground (arith, clean)

      same : put_service i (record v { port_h = none }) s ≡ s
      same = rw cleared (ground (arith, set_get s.service_list i v f.1))

  claimed-Inv :
      (s : State) (i : ℕ) (v : ServiceInfo) (port : Handle) (id : ℕ) (name : ServiceName) (max : ℕ)
      (light : Bool)
      → Inv p s
      → is_valid_name p name ≡ true
      → has_service_info name s ≡ false
      → get_free_service_info p s ≡ some (i, v)
      → Inv p (put_service i (claimed v port id name max light) s)
  unfolding has_service_info free_service
  claimed-Inv s i v port id name max light h valid fresh e =
      put_service-Inv p s i v (claimed v port id name max light) h f.1 slot
        λ n _ q. inr (rw (← eq_of_bytes_eq name n q) absent)
    where
      f :
          (v ≡ free_service p)
          × (get_elem? s.service_list i ≡ some v)
          × (put_service i (record v { port_h = none }) s ≡ s)
      f = free_slot s i v h e

      absent : count (has_name name) s.service_list ≡ 0
      absent = find-none-count (has_name name) s.service_list (ground (arith, fresh))

      slot : IsSlot p (claimed v port id name max light)
      slot = rw f.0 (record {
        free = λ b. cc (valid-ne-invalid name valid);
        port = λ _. refl;
        mitm_on = λ n. absurd (n refl);
        query_on = λ n. absurd (n refl);
        mitm_off = λ _. refl;
        query_off = λ _. refl;
        ack_on = λ b. cc;
        ack_off = λ _. refl;
        nobody = λ _. refl;
      })

  pub register_service_impl-Inv :
      (k : Kernel) (id : ℕ) (name : ServiceName) (max : ℕ) (light : Bool) (s : State)
      → Inv p s
      → Holds p (register_service_impl p k id name max light s)
  unfolding register_service_impl validate_service_name
  register_service_impl-Inv k id name max light s h =
      elim (Option-cases (get_free_service_info p s)) [
        | inl e ↦ ground arith
        | inr ((i, v), e) ↦ elim (SvcResult-cases (k.create_port max light v.name)) [
          | inl ((out, port), r) ↦
              ground (arith, free_slot s i v h e, claimed-Inv s i v port id name max light h)
          | inr (f, r) ↦ ground (arith, free_slot s i v h e)
        ]
      ]

  pub register_service-Inv :
      (k : Kernel) (id : ℕ) (name : ServiceName) (max : ℕ) (light : Bool) (s : State)
      → Inv p s
      → Holds p (register_service p k id name max light s)
  unfolding register_service validate_service_name
  register_service-Inv k id name max light s h = ground (
    arith,
    check_access-Reads p id name true s,
    register_service_impl-Inv k id name max light s h,
  )
