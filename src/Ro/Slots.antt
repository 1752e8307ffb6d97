-- ===== src/Ro/Slots.antt =====
-- How the writes of ro/source/impl/ro_service_impl.cpp to one NRO slot of one context add up.
use nx_sysmodules.Base.{
  ℕ, zero, suc, ◌<◌, ◌≡◌, refl, ap, ◌∙◌, Bool, true, false, none, some, List, [], ◌∷◌, inl, inr,
  arith, length, set, get_or, get_elem?, set-set, get_or-set, Bool-cases, Option-cases,
}
use nx_sysmodules.Ro.State.{
  NroInfo, ProcessContext, zero_nro, zero_context, State, find_slot, is_free, put_context,
  context_at, write_nro, set_nro_info_in_use,
}
use nx_sysmodules.Ro.Modules.{update_context, update_nro}

-- A slot that is found is a slot.
pub find_slot-lt :
    {A : Type 0} (p : Bool → A → Bool) (bs : List Bool) (xs : List A) (i : ℕ) (x : A)
    → find_slot p bs xs ≡ some (i, x)
    → (i < length bs) × (i < length xs)
unfolding find_slot
find_slot-lt p [] xs i x e = cc
find_slot-lt p (b ∷ bs) [] i x e = cc
find_slot-lt p (b ∷ bs) (y ∷ xs) i x e = elim (Bool-cases (p b y)) [
  | inl q ↦ ground arith
  | inr q ↦ elim (Option-cases (find_slot p bs xs)) [
    | inl n ↦ ground arith
    | inr ((j, z), f) ↦ let (l, l') = find_slot-lt p bs xs j z f in ground arith
  ]
]

-- A write of what stands at an index that was just written.
pub set-set_get {ℓ} :
    {A : Type ℓ} (xs : List A) (i : ℕ) (x d : A) (f : A → A)
    → i < length xs
    → set (set xs i x) i (f (get_or (set xs i x) i d)) ≡ set xs i (f x)
set-set_get xs i x d f l =
    ap (λ y. set (set xs i x) i (f y)) (get_or-set xs i x d l) ∙ set-set xs i (f x) x

module _ {Mem : Type 0} (id i : ℕ) where
  -- The state with the flags and the slot written in the context, and with that memory.
  unfoldable pub written : List Bool → NroInfo → State Mem → Mem → State Mem
  written used x s m =
      let c = context_at id s in
      record s {
        contexts =
            set s.contexts id (record c { nro_in_use = used; nro_infos = set c.nro_infos i x });
        memory = m;
      }

  module _ (s : State Mem) (a : id < length s.contexts) (b : i < length (context_at id s).nro_infos)
      (used : List Bool) (x : NroInfo) (m : Mem) where
    pub update_nro-written :
        (f : NroInfo → NroInfo) → update_nro id i f (written used x s m) ≡ written used (f x) s m
    unfolding put_context write_nro written
    update_nro-written f =
        let c = context_at id s in
        let c1 : ProcessContext = record c { nro_in_use = used; nro_infos = set c.nro_infos i x } in
        ap (λ cs. record s { contexts = cs; memory = m })
          (set-set_get s.contexts id c1 zero_context
            (λ c. record c { nro_infos = set c.nro_infos i (f (get_or c.nro_infos i zero_nro)) }) a)
        ∙ ap
            (λ xs. record s {
              contexts = set s.contexts id (record c { nro_in_use = used; nro_infos = xs });
              memory = m;
            })
            (set-set_get c.nro_infos i x zero_nro f b)

    pub set_used-written :
        (y : Bool)
        → update_context id (set_nro_info_in_use i y) (written used x s m)
          ≡ written (set used i y) x s m
    unfolding put_context set_nro_info_in_use written
    set_used-written y =
        let c = context_at id s in
        let c1 : ProcessContext = record c { nro_in_use = used; nro_infos = set c.nro_infos i x } in
        ap (λ cs. record s { contexts = cs; memory = m })
          (set-set_get s.contexts id c1 zero_context
            (λ c. record c { nro_in_use = set c.nro_in_use i y }) a)

  -- The first write to the slot.
  pub update_nro-as_written :
      (s : State Mem) (f : NroInfo → NroInfo)
      → update_nro id i f s
        ≡ written
            (context_at id s).nro_in_use
            (f (get_or (context_at id s).nro_infos i zero_nro))
            s
            s.memory
  unfolding put_context write_nro written
  update_nro-as_written s f = refl

-- A free slot is marked so.
pub find_slot-free :
    {A : Type 0} (bs : List Bool) (xs : List A) (i : ℕ) (x : A)
    → find_slot is_free bs xs ≡ some (i, x)
    → get_elem? bs i ≡ some false
unfolding find_slot
find_slot-free [] xs i x e = cc
find_slot-free (b ∷ bs) [] i x e = cc
find_slot-free (false ∷ bs) (y ∷ xs) i x e = ground arith
find_slot-free (true ∷ bs) (y ∷ xs) i x e = elim (Option-cases (find_slot is_free bs xs)) [
  | inl n ↦ ground arith
  | inr ((j, z), f) ↦ let g = find_slot-free bs xs j z f in ground arith
]

-- Nothing passes where no slot passes.
pub find_slot-none :
    {A : Type 0} (p : Bool → A → Bool) (bs : List Bool) (xs : List A)
    → ((i : ℕ) (b : Bool) (x : A)
        → get_elem? bs i ≡ some b
        → get_elem? xs i ≡ some x
        → p b x ≡ false)
    → find_slot p bs xs ≡ none
unfolding find_slot
find_slot-none p [] xs h = refl
find_slot-none p (b ∷ bs) [] h = refl
find_slot-none p (b ∷ bs) (x ∷ xs) h =
    let rest = find_slot-none p bs xs (λ i c y. h (suc i) c y) in
    ground (arith, h 0 b x refl refl, rest)

-- A slot that passes among slots that do not.
pub find_slot-set :
    {A : Type 0} (p : Bool → A → Bool) (bs : List Bool) (xs : List A) (i : ℕ) (b : Bool) (x : A)
    → find_slot p bs xs ≡ none
    → i < length bs
    → i < length xs
    → p b x ≡ true
    → find_slot p (set bs i b) (set xs i x) ≡ some (i, x)
unfolding find_slot
find_slot-set p [] xs i b x e l l' t = absurd (omega arith)
find_slot-set p (c ∷ bs) [] i b x e l l' t = absurd (omega arith)
find_slot-set p (c ∷ bs) (y ∷ xs) zero b x e l l' t = rw t
find_slot-set p (c ∷ bs) (y ∷ xs) (suc i) b x e l l' t = elim (Bool-cases (p c y)) [
  | inl q ↦ absurd (ground arith)
  | inr q ↦ elim (Option-cases (find_slot p bs xs)) [
    | inl n ↦
        let rest = find_slot-set p bs xs i b x n (omega arith) (omega arith) t in
        ground (arith, rest)
    | inr (z, f) ↦ absurd (ground arith)
  ]
]
