-- ===== src/Ro/Authorization.antt =====
-- What ValidateNro of ro/source/impl/ro_service_impl.cpp shows of the NRO that it accepts.
use nx_sysmodules.Base.{
  ℕ, suc, ◌≡◌, inl, inr, refl, ap, sym, ◌∙◌, Bool, true, ◌&&◌, none, some, List, [], ◌∷◌, ◌++◌, ◌*◌,
  arith, get_elem?, take, replicate, bytes_eq, eq_of_bytes_eq, ◌==◌, Bool-cases, Option-cases,
}
use nx_sysmodules.Base.Search.{bytes_lt, lower_bound}
use nx_sysmodules.Base.Outcome.{
  Outcome, ok, bind_ok_inv, gets_inv, require_inv, require_ok, require_some_inv, modify_inv,
  guarded_inv,
}
use nx_sysmodules.Ro.World.{Kernel, NroHeader, SvcResult, success}
use nx_sysmodules.Ro.State.{
  RoError, with_memory, try_memory, NrrInfo, ProcessContext, State, get_nro_info_by_module_id,
}
use nx_sysmodules.Ro.Nrr.{close, sub64, any_hash, concat, validate_nrr_hash_table_entry}
use nx_sysmodules.Ro.Mapping.{SvcResult-cases}
use nx_sysmodules.Ro.Process.{
  NroLayout, nrr_has_hash, has_hash, is_valid_layout, validate_has_nro_hash, validate_mapped_nro,
  validate_nro,
}

try_memory_ok :
    {Mem : Type 0} (f : Mem → SvcResult Mem) (s : State Mem) {a : Unit {0}} {t : State Mem}
    → try_memory f s ≡ ok a t
    → f s.memory ≡ success t.memory
try_memory_ok {Mem} f s {a} {t} e = elim (SvcResult-cases (f s.memory)) [
  | inl (m, q) ↦
      let o : Outcome (State Mem) RoError (Unit {0}) = ok tt (with_memory s m) in
      let r : o ≡ ok a t = rw (try_memory, q) at e in
      let u : with_memory s m ≡ t = cc in q ∙ ap (λ (t : State Mem). success t.memory) u
  | inr (x, q) ↦ let r = rw (try_memory, q) at e in cc
]

module _ {Mem : Type 0} (k : Kernel Mem) where
  -- The hash is an entry of the table that is mapped now, and the signed area with that table hashes to
  -- what was verified when the NRR was registered.
  pub record Authorizes (m : Mem) (info : NrrInfo) (hash : List ℕ) : Type 0 where
    pub entry :
        (n : ℕ) × (get_elem?
            (take info.cached_num_hashes (k.nrr_header m info.mapped_header).hashes)
            n
          ≡ some hash)
    pub signed :
        k.sha256 (
          take (sub64 info.cached_hashes_offset k.signed_area_offset) info.cached_signed_area
          ++ (concat k (take info.cached_num_hashes (k.nrr_header m info.mapped_header).hashes)
              ++ replicate
                  (sub64
                    (sub64 info.cached_signed_area_size
                      (sub64 info.cached_hashes_offset k.signed_area_offset))
                    (32 * info.cached_num_hashes))
                  0))
        ≡ info.signed_area_hash

  any_hash-get :
      (hash : List ℕ) (table : List (List ℕ))
      → any_hash k hash table ≡ true
      → (n : ℕ) × (get_elem? table n ≡ some hash)
  any_hash-get hash [] e = cc
  any_hash-get hash (h ∷ table) e = elim (Bool-cases (bytes_eq h hash)) [
    | inl q ↦ (0, ap some (eq_of_bytes_eq h hash q))
    | inr q ↦ let (n, f) = any_hash-get hash table (ground arith) in (suc n, f)
  ]

  nrr_has_hash-Authorizes :
      (m : Mem) (info : NrrInfo) (hash : List ℕ)
      → nrr_has_hash k m info hash ≡ true
      → Authorizes m info hash
  unfolding nrr_has_hash validate_nrr_hash_table_entry
  nrr_has_hash-Authorizes m info hash e =
      let header = k.nrr_header m info.mapped_header in
      let mapped = take header.num_hashes header.hashes in
      elim (Bool-cases (header.num_hashes == 0)) [
        | inl q ↦ absurd (ground arith)
        | inr q ↦
            elim (Option-cases (get_elem? mapped (lower_bound (λ h. bytes_lt h hash) mapped))) [
              | inl n ↦ absurd (ground arith)
              | inr (h, f) ↦ record {
                entry = any_hash-get hash _ (ground arith);
                signed = eq_of_bytes_eq _ _ (ground arith);
              }
            ]
      ]

  has_hash-Authorizes :
      (m : Mem) (bs : List Bool) (infos : List NrrInfo) (hash : List ℕ)
      → has_hash k m bs infos hash ≡ true
      → (i : ℕ) × (info : NrrInfo) × (get_elem? bs i ≡ some true)
        × (get_elem? infos i ≡ some info)
        × Authorizes m info hash
  unfolding has_hash
  has_hash-Authorizes m [] infos hash e = cc
  has_hash-Authorizes m (b ∷ bs) [] hash e = cc
  has_hash-Authorizes m (b ∷ bs) (info ∷ infos) hash e =
      elim (Bool-cases (b && nrr_has_hash k m info hash)) [
        | inl q ↦ (0, info, ground arith, refl, nrr_has_hash-Authorizes m info hash (ground arith))
        | inr q ↦
            let (i, x, used, at, h) = has_hash-Authorizes m bs infos hash (ground arith) in
            (suc i, x, used, at, h)
      ]

  -- What a mapped NRO that passes shows: its sections tile it, in order, in whole pages; a registered
  -- NRR authorizes its hash; and no NRO of its module id is in use.
  pub record Accepted (c : ProcessContext) (header : NroHeader) (m : Mem) (nro_size bss_size : ℕ)
      : Type 0 where
    pub layout : is_valid_layout k header nro_size bss_size ≡ true
    pub authorized :
        (i : ℕ) × (info : NrrInfo) × (get_elem? c.nrr_in_use i ≡ some true)
        × (get_elem? c.nrr_infos i ≡ some info)
        × Authorizes m info (k.sha256 header.content)
    pub unloaded : get_nro_info_by_module_id header.module_id c ≡ none

  validate_mapped_nro-Accepted :
      (c : ProcessContext) (address nro_size bss_size : ℕ) (s t : State Mem) (l : NroLayout)
      → validate_mapped_nro k c address nro_size bss_size s ≡ ok l t
      → Accepted c (k.nro_header s.memory address) s.memory nro_size bss_size
        × (l.id ≡ (k.nro_header s.memory address).module_id)
  unfolding validate_mapped_nro validate_has_nro_hash
  validate_mapped_nro-Accepted c address nro_size bss_size s t l e =
      let (q, e2) = require_inv _ _ _ (gets_inv _ _ e) in
      let (hash, s3, e3, e4) = bind_ok_inv _ _ s e2 in
      let (p, same) = require_ok _ _ s (gets_inv _ _ e3) in
      let (n, e5) = require_inv _ _ _ e4 in
      let e6 = modify_inv _ _ e5 in
      let free : get_nro_info_by_module_id (k.nro_header s.memory address).module_id c ≡ none =
        elim (Option-cases
          (get_nro_info_by_module_id (k.nro_header s.memory address).module_id c)) [
            | inl f ↦ f
            | inr (x, f) ↦ absurd (let r = rw f at n in cc)
          ] in
      (
        record {
          layout = q;
          authorized = has_hash-Authorizes s.memory c.nrr_in_use c.nrr_infos _ p;
          unloaded = free;
        },
        cc,
      )

  -- An NRO that ValidateNro accepts was mapped into ro at some address, its header there has a valid
  -- layout of the sizes given, its hash is in a registered NRR whose signed area hashes to what was
  -- verified, and no loaded NRO has its module id, which is the one that is returned.
  pub validate_nro-Accepted :
      (c : ProcessContext) (base nro_size bss_size : ℕ) (s t : State Mem) (l : NroLayout)
      → validate_nro k c base nro_size bss_size s ≡ ok l t
      → (own : ℕ) × (m : Mem) × (k.open_map s.memory own c.process_handle base nro_size ≡ success m)
        × Accepted c (k.nro_header m own) m nro_size bss_size
        × (l.id ≡ (k.nro_header m own).module_id)
  unfolding validate_nro
  validate_nro-Accepted c base nro_size bss_size s t l e =
      let (own, o, e2) = require_some_inv _ _ _ (gets_inv _ _ e) in
      let (u, s3, e3, e4) = bind_ok_inv _ _ s e2 in
      let (l', s5, e5, e6) = bind_ok_inv _ _ s3 e4 in
      let (accepted, id) = validate_mapped_nro-Accepted c own nro_size bss_size s3 s5 l' (
        guarded_inv (close k own c.process_handle base nro_size)
          (validate_mapped_nro k c own nro_size bss_size) s3 e5) in
      let last = modify_inv _ _ e6 in
      let same : l' ≡ l = cc in
      (
        own,
        s3.memory,
        try_memory_ok (λ m. k.open_map m own c.process_handle base nro_size) s e3,
        accepted,
        ap (λ (x : NroLayout). x.id) (sym same) ∙ id,
      )
