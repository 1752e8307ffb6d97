-- ===== src/Sm/Invariant.antt =====
-- The invariant of the tables of sm/source/impl/sm_service_manager.cpp, and that every handler
-- keeps it.
pub mod Services
pub mod Register
pub mod Mitm
pub mod Handlers
use nx_sysmodules.Base.{
  ℕ, ◌+◌, ◌≤◌, ◌≡◌, ◌≢◌, ◌∙◌, ◌⊎◌, inl, inr, refl, Bool, true, false, Option, none, some, List,
  arith, ◌==◌, if◌then◌else◌, length, get_elem?, set, length-set, All, All-set, All-get, bytes_eq,
  eq_of_bytes_eq, bytes_eq_comm,
}
use nx_sysmodules.Base.Slots.{find, count, find-get, find-none-count, count-set, le-count}
use nx_sysmodules.Sm.State.{
  Platform, Kernel, State, ServiceName, ServiceInfo, ProcessInfo, Outcome, ok, err, abort, M,
  free_service, process_count_max, service_count_max, future_mitm_count_max,
}
use nx_sysmodules.Sm.Tables.{is_some, has_name, get_service_info, put_service}

module _ (p : Platform) where
  -- A free slot is clean; a registered one has its port; the mitm's handles are there with its
  -- process, and the forward session with a pending acknowledgement.
  pub record IsSlot (v : ServiceInfo) : Type 0 where
    pub free : bytes_eq v.name p.invalid_service_name ≡ true → v ≡ free_service p
    pub port : bytes_eq v.name p.invalid_service_name ≡ false → is_some v.port_h ≡ true
    pub mitm_on : v.mitm_process_id ≢ p.invalid_process_id → is_some v.mitm_port_h ≡ true
    pub query_on : v.mitm_process_id ≢ p.invalid_process_id → is_some v.mitm_query_h ≡ true
    pub mitm_off : v.mitm_process_id ≡ p.invalid_process_id → v.mitm_port_h ≡ none
    pub query_off : v.mitm_process_id ≡ p.invalid_process_id → v.mitm_query_h ≡ none
    pub ack_on : v.mitm_waiting_ack ≡ true → is_some v.mitm_fwd_sess_h ≡ true
    pub ack_off : v.mitm_waiting_ack ≡ false → v.mitm_fwd_sess_h ≡ none
    pub nobody : v.mitm_waiting_ack ≡ false → v.mitm_waiting_ack_process_id ≡ p.invalid_process_id

  -- The tables keep their sizes, every slot is well formed, and no two slots hold one service.
  pub record Inv (s : State) : Type 0 where
    pub processes : length s.process_list ≡ process_count_max
    pub services : length s.service_list ≡ service_count_max
    pub futures : length s.future_mitm_list ≡ future_mitm_count_max
    pub slots : All IsSlot s.service_list
    pub unique :
        (name : ServiceName)
        → bytes_eq name p.invalid_service_name ≡ false
        → count (has_name name) s.service_list ≤ 1

  unique-set :
      (vs : List ServiceInfo) (i : ℕ) (v v' : ServiceInfo) (n : ServiceName)
      → get_elem? vs i ≡ some v
      → count (has_name n) vs ≤ 1
      → (has_name n v' ≡ true → (has_name n v ≡ true) ⊎ (count (has_name n) vs ≡ 0))
      → count (has_name n) (set vs i v') ≤ 1
  unique-set vs i v v' n g u new =
      ground (arith, count-set (has_name n) vs i v v' g, le-count (has_name n) vs i v g, new)

  -- A write to a slot keeps the invariant where the new contents are a well-formed slot, under a
  -- name that no other slot has.
  put_service-Inv :
      (s : State) (i : ℕ) (v v' : ServiceInfo)
      → Inv s
      → get_elem? s.service_list i ≡ some v
      → IsSlot v'
      → ((n : ServiceName)
          → bytes_eq n p.invalid_service_name ≡ false
          → has_name n v' ≡ true
          → (has_name n v ≡ true) ⊎ (count (has_name n) s.service_list ≡ 0))
      → Inv (put_service i v' s)
  unfolding put_service
  put_service-Inv s i v v' h g slot new = record {
    processes = h.processes;
    services = length-set s.service_list i v' ∙ h.services;
    futures = h.futures;
    slots = All-set IsSlot s.service_list i v' h.slots slot;
    unique = λ n e. unique-set s.service_list i v v' n g (h.unique n e) (new n e);
  }

  -- What a search of the services finds is well formed and has the name.
  pub found-IsSlot :
      (name : ServiceName) (s : State) (i : ℕ) (v : ServiceInfo)
      → Inv s
      → get_service_info name s ≡ some (i, v)
      → IsSlot v × (get_elem? s.service_list i ≡ some v) × (v.name ≡ name)
  unfolding get_service_info
  found-IsSlot name s i v h e =
      let f = find-get (has_name name) s.service_list i v e in
      (All-get IsSlot s.service_list i v h.slots f.0, f.0, eq_of_bytes_eq v.name name f.1)

  -- The state that a handler leaves satisfies the invariant; an abort leaves none.
  abbrev pub Holds : {A : Type 0} → Outcome A → Type 0
  Holds (ok a s) = Inv s
  Holds (err e s) = Inv s
  Holds abort = Unit
