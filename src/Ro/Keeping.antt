-- ===== src/Ro/Keeping.antt =====
-- Steps of ro that change a process's memory at most where no mapping is: what they leave, rule by
-- rule.
use nx_sysmodules.Base.{◌≡◌, ◌⊎◌, inl, inr, refl, ap, ◌∙◌, Bool, true, false, Option, none, some}
use nx_sysmodules.Base.Outcome.{
  Outcome, ok, err, abort, ◌>>=◌, gets, require, require_some, state_after, guarded,
}
use nx_sysmodules.Ro.World.{SvcResult, success}
use nx_sysmodules.Ro.State.{State, M, RoError, try_memory, with_memory}
use nx_sysmodules.Ro.Laws.{View, Agree}
use nx_sysmodules.Ro.Mapping.{SvcResult-cases}

module _ {Mem : Type 0} (view : Mem → View) where
  -- The mappings stand as they were, and so does everything but the memory.
  pub record Same (s t : State Mem) : Type 0 where
    pub views : Agree (view t.memory) (view s.memory)
    pub others : t ≡ with_memory s t.memory

  -- A step that returns a value with the property P, or fails, and keeps the mappings.
  abbrev pub Keeps :
      {A : Type 0} → (A → Type 0) → State Mem → Outcome (State Mem) RoError A → Type 0
  Keeps P s (ok a t) = P a × Same s t
  Keeps P s (err x t) = Same s t
  Keeps P s abort = ⊥

  pub Same-refl : (s : State Mem) → Same s s
  Same-refl s = record { views = λ g a. refl; others = refl }

  pub Same-trans : {s t u : State Mem} → Same s t → Same t u → Same s u
  Same-trans {u = u} p q = record {
    views = λ g a. q.views g a ∙ p.views g a;
    others = q.others ∙ ap (λ x. with_memory x u.memory) p.others;
  }

  module _ {A : Type 0} (P : A → Type 0) (s : State Mem) where
    Keeps-before :
        {t : State Mem} (o : Outcome (State Mem) RoError A) → Same s t → Keeps P t o → Keeps P s o
    Keeps-before (ok a u) p (q, r) = (q, Same-trans p r)
    Keeps-before (err x u) p r = Same-trans p r
    Keeps-before abort p r = r

  pub Keeps-weaken :
      {A : Type 0} (P Q : A → Type 0) (s : State Mem)
      → ((a : A) → P a → Q a)
      → (o : Outcome (State Mem) RoError A) → Keeps P s o
      → Keeps Q s o
  Keeps-weaken P Q s f (ok a t) (p, q) = (f a p, q)
  Keeps-weaken P Q s f (err x t) q = q
  Keeps-weaken P Q s f abort q = q

  pub Keeps-bind :
      {A B : Type 0} (P : A → Type 0) (Q : B → Type 0) (s : State Mem) (m : M Mem A)
      (f : A → M Mem B)
      → Keeps P s (m s)
      → ((a : A) (t : State Mem) → P a → Same s t → Keeps Q t (f a t))
      → Keeps Q s ((m >>= f) s)
  unfolding ◌>>=◌
  Keeps-bind {A = A} P Q s m f h g = go (m s) h
    where
      go :
          (o : Outcome (State Mem) RoError A)
          → Keeps P s o
          → Keeps Q s (elim o [ ok a t ↦ f a t | err e t ↦ err e t | abort ↦ abort ])
      go (ok a t) (p, q) = Keeps-before Q s (f a t) q (g a t p q)
      go (err x t) q = q
      go abort q = q

  pub Keeps-guarded :
      {A : Type 0} (P : A → Type 0) (s : State Mem) (undo : M Mem (Unit {0})) (m : M Mem A)
      → ((t : State Mem) → Same t (state_after (undo t) t))
      → Keeps P s (m s)
      → Keeps P s (guarded undo m s)
  Keeps-guarded {A = A} P s undo m u h = go (m s) h
    where
      go :
          (o : Outcome (State Mem) RoError A)
          → Keeps P s o
          → Keeps P s (elim o [
            | ok a t ↦ ok a t
            | err e t ↦ err e (state_after (undo t) t)
            | abort ↦ abort
          ])
      go (ok a t) q = q
      go (err x t) q = Same-trans q (u t)
      go abort q = q

  pub Keeps-require :
      (b : Bool) (x : RoError) (s : State Mem) → Keeps (λ _. b ≡ true) s (require b x s)
  Keeps-require true x s = (refl, Same-refl s)
  Keeps-require false x s = Same-refl s

  pub Keeps-require_some :
      {A : Type 0} (o : Option A) (x : RoError) (s : State Mem)
      → Keeps (λ a. o ≡ some a) s (require_some o x s)
  Keeps-require_some none x s = Same-refl s
  Keeps-require_some (some a) x s = (refl, Same-refl s)

  pub Keeps-gets :
      {A : Type 0} (f : State Mem → A) (s : State Mem) → Keeps (λ a. a ≡ f s) s (gets f s)
  Keeps-gets f s = (refl, Same-refl s)

  pub Keeps_memory :
      (f : Mem → Mem) (s : State Mem)
      → Agree (view (f s.memory)) (view s.memory)
      → Same s (with_memory s (f s.memory))
  Keeps_memory f s h = record { views = h; others = refl }

  pub Keeps-try :
      (P : Type 0) (f : Mem → SvcResult Mem) (s : State Mem)
      → ((m : Mem) → f s.memory ≡ success m → P × Agree (view m) (view s.memory))
      → Keeps (λ _. P) s (try_memory f s)
  Keeps-try P f s h = elim (SvcResult-cases (f s.memory)) [
    | inl (m, e) ↦ rw (Keeps, e) ((h m e).0, record { views = (h m e).1; others = refl })
    | inr (x, e) ↦ rw (Keeps, e) (Same-refl s)
  ]

  -- A step that keeps the mappings ends in one of two ways.
  pub Keeps-cases :
      {A : Type 0} (P : A → Type 0) (s : State Mem) (o : Outcome (State Mem) RoError A)
      → Keeps P s o
      → ((a : A) × (m : Mem) × (o ≡ ok a (with_memory s m)) × P a × Agree (view m) (view s.memory))
        ⊎ ((x : RoError) × (m : Mem) × (o ≡ err x (with_memory s m))
            × Agree (view m) (view s.memory))
  Keeps-cases P s (ok a t) (p, q) = inl (a, t.memory, ap (ok a) q.others, p, q.views)
  Keeps-cases P s (err x t) q = inr (x, t.memory, ap (err x) q.others, q.views)
  Keeps-cases P s abort h = absurd h
