-- ===== src/Base/Outcome.antt =====
-- A handler over a state: it returns with a new state, fails with a result and the state it leaves, or
-- aborts the process. R_TRY, R_UNLESS and AMS_ABORT_UNLESS of the sysmodules.
use mathlib.Core.Bool.{Bool, true, false}
use mathlib.Core.Path.{◌≡◌, refl, sym, ◌∙◌}
use mathlib.Core.Logic.{◌⊎◌, inl, inr}
use mathlib.Core.Option.{Option, none, some}

pub data Outcome (S E A : Type 0) : Type 0 where
  ok : A → S → Outcome S E A
  err : E → S → Outcome S E A
  abort : Outcome S E A

module _ {S E : Type 0} where
  infixl 5 ◌>>=◌ ◌>>◌
  unfoldable pub ◌>>=◌ :
      {A B : Type 0} → (S → Outcome S E A) → (A → S → Outcome S E B) → S → Outcome S E B
  ◌>>=◌ m f s = elim (m s) [ ok a t ↦ f a t | err e t ↦ err e t | abort ↦ abort ]

  abbrev pub ◌>>◌ :
      {B : Type 0} → (S → Outcome S E (Unit {0})) → (S → Outcome S E B) → S → Outcome S E B
  m >> k = m >>= λ _. k

  abbrev pub pure : {A : Type 0} → A → S → Outcome S E A
  pure a s = ok a s

  abbrev pub fail : {A : Type 0} → E → S → Outcome S E A
  fail e s = err e s

  abbrev pub gets : {A : Type 0} → (S → A) → S → Outcome S E A
  gets f s = ok (f s) s

  abbrev pub modify : (S → S) → S → Outcome S E (Unit {0})
  modify f s = ok tt (f s)

  -- R_UNLESS(b, e)
  abbrev pub require : Bool → E → S → Outcome S E (Unit {0})
  require true e s = ok tt s
  require false e s = err e s

  -- AMS_ABORT_UNLESS(b)
  abbrev pub abort_unless : Bool → S → Outcome S E (Unit {0})
  abort_unless true s = ok tt s
  abort_unless false s = abort

  abbrev pub require_some : {A : Type 0} → Option A → E → S → Outcome S E A
  require_some none e s = err e s
  require_some (some a) e s = ok a s

  -- A pointer that must not be null, or a call that must succeed.
  abbrev pub abort_unless_some : {A : Type 0} → Option A → S → Outcome S E A
  abort_unless_some none s = abort
  abort_unless_some (some a) s = ok a s

  -- The state that is left, where one is.
  abbrev pub LeftBy : {A : Type 0} → (S → Type 0) → Outcome S E A → Type 0
  LeftBy P (ok a s) = P s
  LeftBy P (err e s) = P s
  LeftBy P abort = Unit

  -- The same state as a value; the one given where the process aborted.
  abbrev pub state_after : {A : Type 0} → Outcome S E A → S → S
  state_after (ok a t) s = t
  state_after (err e t) s = t
  state_after abort s = s

  -- SCOPE_GUARD { undo } that is cancelled where `m` succeeds.
  abbrev pub guarded :
      {A : Type 0} → (S → Outcome S E (Unit {0})) → (S → Outcome S E A) → S → Outcome S E A
  guarded undo m s = elim (m s) [
    | ok a t ↦ ok a t
    | err e t ↦ err e (state_after (undo t) t)
    | abort ↦ abort
  ]

  pub Outcome-cases :
      {A : Type 0} (o : Outcome S E A)
      → ((a : A) × (t : S) × (o ≡ ok a t)) ⊎ (((x : E) × (t : S) × (o ≡ err x t)) ⊎ (o ≡ abort))
  Outcome-cases (ok a t) = inl (a, t, refl)
  Outcome-cases (err x t) = inr (inl (x, t, refl))
  Outcome-cases abort = inr (inr refl)

  -- How a result of a sequence comes about.
  module _ {A B : Type 0} (m : S → Outcome S E A) (f : A → S → Outcome S E B) (s : S) where
    pub bind_ok : {a : A} {t : S} → m s ≡ ok a t → (m >>= f) s ≡ f a t
    unfolding ◌>>=◌
    bind_ok e = rw (e, ◌>>=◌)

    pub bind_err : {x : E} {t : S} → m s ≡ err x t → (m >>= f) s ≡ err x t
    unfolding ◌>>=◌
    bind_err e = rw (e, ◌>>=◌)

    pub bind_abort : m s ≡ abort → (m >>= f) s ≡ abort
    unfolding ◌>>=◌
    bind_abort e = rw (e, ◌>>=◌)

    pub bind_ok_inv :
        {b : B} {u : S}
        → (m >>= f) s ≡ ok b u
        → (a : A) × (t : S) × (m s ≡ ok a t) × (f a t ≡ ok b u)
    bind_ok_inv e = elim (Outcome-cases (m s)) [
      | inl (a, t, q) ↦ (a, t, q, sym (bind_ok q) ∙ e)
      | inr (inl (x, t, q)) ↦ let r = sym (bind_err q) ∙ e in cc
      | inr (inr q) ↦ let r = sym (bind_abort q) ∙ e in cc
    ]

    pub bind_err_inv :
        {y : E} {u : S}
        → (m >>= f) s ≡ err y u
        → (m s ≡ err y u) ⊎ ((a : A) × (t : S) × (m s ≡ ok a t) × (f a t ≡ err y u))
    bind_err_inv e = elim (Outcome-cases (m s)) [
      | inl (a, t, q) ↦ inr (a, t, q, sym (bind_ok q) ∙ e)
      | inr (inl (x, t, q)) ↦ let same = sym (bind_err q) ∙ e in inl cc
      | inr (inr q) ↦ let r = sym (bind_abort q) ∙ e in cc
    ]

  -- A property of every result of a sequence, from those of its first part.
  module _ {A B : Type 0} (R : Outcome S E A → Type 0) (Q : Outcome S E B → Type 0)
      (m : S → Outcome S E A) (f : A → S → Outcome S E B) (s : S) where
    pub bind_rule :
        R (m s)
        → ((a : A) (t : S) → R (ok a t) → Q (f a t))
        → ((x : E) (t : S) → R (err x t) → Q (err x t))
        → (R abort → Q abort)
        → Q ((m >>= f) s)
    bind_rule r g h l = elim (Outcome-cases (m s)) [
      | inl (a, t, q) ↦ rw (bind_ok m f s q) (g a t (rw (← q) r))
      | inr (inl (x, t, q)) ↦ rw (bind_err m f s q) (h x t (rw (← q) r))
      | inr (inr q) ↦ rw (bind_abort m f s q) (l (rw (← q) r))
    ]

  -- What a successful sequence passed, step by step.
  module _ {A B : Type 0} {s u : S} {b : B} where
    pub gets_inv :
        (f : S → A) (g : A → S → Outcome S E B) → (gets f >>= g) s ≡ ok b u → g (f s) s ≡ ok b u
    gets_inv f g e = sym (bind_ok (gets f) g s refl) ∙ e

    pub require_some_inv :
        (o : Option A) (x : E) (g : A → S → Outcome S E B)
        → (require_some o x >>= g) s ≡ ok b u
        → (a : A) × (o ≡ some a) × (g a s ≡ ok b u)
    require_some_inv none x g e = let r = sym (bind_err (require_some none x) g s refl) ∙ e in cc
    require_some_inv (some a) x g e =
        (a, refl, sym (bind_ok (require_some (some a) x) g s refl) ∙ e)

  module _ {B : Type 0} {s u : S} {b : B} where
    pub require_inv :
        (p : Bool) (x : E) (g : S → Outcome S E B)
        → (require p x >> g) s ≡ ok b u
        → (p ≡ true) × (g s ≡ ok b u)
    require_inv true x g e = (refl, sym (bind_ok (require true x) (λ _. g) s refl) ∙ e)
    require_inv false x g e = let r = sym (bind_err (require false x) (λ _. g) s refl) ∙ e in cc

    pub modify_inv :
        (f : S → S) (g : S → Outcome S E B) → (modify f >> g) s ≡ ok b u → g (f s) ≡ ok b u
    modify_inv f g e = sym (bind_ok (modify f) (λ _. g) s refl) ∙ e

  -- A last check that passed.
  pub require_ok :
      (p : Bool) (x : E) (s : S) {a : Unit {0}} {t : S}
      → require p x s ≡ ok a t
      → (p ≡ true) × (s ≡ t)
  require_ok true x s e = (refl, cc)
  require_ok false x s e = cc

  pub guarded_inv :
      {A : Type 0} (undo : S → Outcome S E (Unit {0})) (m : S → Outcome S E A) (s : S) {b : A}
      {u : S}
      → guarded undo m s ≡ ok b u
      → m s ≡ ok b u
  guarded_inv undo m s {b} {u} e = elim (Outcome-cases (m s)) [
    | inl (a, t, q) ↦ q ∙ (rw (guarded, q) at e)
    | inr (inl (x, t, q)) ↦ let r = rw (guarded, q) at e in cc
    | inr (inr q) ↦ let r = rw (guarded, q) at e in cc
  ]
