-- ===== src/CheatApi/Steps.antt =====
-- The steps of the handlers of dmnt/source/cheat/impl/dmnt_cheat_api.cpp, as far as they keep the invariant.
use nx_sysmodules.Base.{
  ℕ, ◌≤◌, ◌≡◌, refl, inl, inr, Bool, true, false, ltb, Option, none, some, length, get_elem?,
  Bool-cases,
}
use nx_sysmodules.Base.Outcome.{
  Outcome, ok, err, abort, ◌>>=◌, ◌>>◌, pure, require, require_some, LeftBy, bind_rule,
}
use nx_sysmodules.CheatApi.State.{max_cheat_count, Entry, State, ApiError, M, cheat_unknown_id}
use nx_sysmodules.CheatApi.Entries.{
  has_opcodes, get_cheat_entry_by_id, reset_cheat_entry, set_needs_reload_vm,
}
use nx_sysmodules.CheatApi.Cheats.{known_entry, put_and_reload}
use nx_sysmodules.CheatApi.WellFormed.{Slots-put, reset_cheat_entry-Slots}
use nx_sysmodules.Base.{if-rule}
use nx_sysmodules.CheatApi.Keeping.{WellFormed, WellFormed-entries}

-- A step that only reads, and what it answers.
abbrev pub Reads : {A : Type 0} → State → (A → Type 0) → Outcome State ApiError A → Type 0
Reads s P (ok a t) = (t ≡ s) × P a
Reads s P (err x t) = t ≡ s
Reads s P abort = Unit

pub reset_cheat_entry-frozen :
    (i : ℕ) (s : State) → s.frozen_addresses ≡ (reset_cheat_entry i s).frozen_addresses
unfolding reset_cheat_entry
reset_cheat_entry-frozen i s =
    if-rule (λ (t : State). s.frozen_addresses ≡ t.frozen_addresses) (ltb i max_cheat_count) _ _
      refl refl

module _ (size : ℕ) where
  pub Reads-bind :
      {A B : Type 0} (P : A → Type 0) (m : M A) (f : A → M B) (s : State)
      → Reads s P (m s)
      → ((a : A) → P a → LeftBy (WellFormed size) (f a s))
      → WellFormed size s
      → LeftBy (WellFormed size) ((m >>= f) s)
  Reads-bind P m f s r step h =
      bind_rule (Reads s P) (LeftBy (WellFormed size)) m f s r (λ a t (same, p). rw same (step a p))
        (λ x t same. rw same h) (λ u. u)

  pub Reads-LeftBy :
      {A : Type 0} (P : A → Type 0) (s : State) (o : Outcome State ApiError A)
      → Reads s P o
      → WellFormed size s
      → LeftBy (WellFormed size) o
  Reads-LeftBy P s (ok a t) (same, p) h = rw same h
  Reads-LeftBy P s (err x t) same h = rw same h
  Reads-LeftBy P s abort r h = tt

  pub require_then :
      {B : Type 0} (b : Bool) (x : ApiError) (k : M B) (s : State)
      → WellFormed size s
      → LeftBy (WellFormed size) (k s)
      → LeftBy (WellFormed size) ((require b x >> k) s)
  unfolding ◌>>=◌
  require_then true x k s h l = l
  require_then false x k s h l = h

  pub require_some_then :
      {A B : Type 0} (o : Option A) (x : ApiError) (f : A → M B) (s : State)
      → WellFormed size s
      → ((a : A) → o ≡ some a → LeftBy (WellFormed size) (f a s))
      → LeftBy (WellFormed size) ((require_some o x >>= f) s)
  unfolding ◌>>=◌
  require_some_then none x f s h l = h
  require_some_then (some a) x f s h l = l a refl

  -- A slot that was changed, without more opcodes than it may have.
  pub put_entry-WellFormed :
      (i : ℕ) (e d : Entry) (s : State)
      → WellFormed size s
      → get_elem? s.entries i ≡ some e
      → d.cheat_id ≡ e.cheat_id
      → (length e.opcodes ≤ size → length d.opcodes ≤ size)
      → WellFormed size (put_and_reload i d s)
  put_entry-WellFormed i e d s h found same bounded = record {
    slots = Slots-put size s.entries i e d h.slots found same bounded;
    ordered = h.ordered;
    few = h.few;
  }

  pub reset_cheat_entry-WellFormed :
      (i : ℕ) (s : State)
      → WellFormed size s
      → WellFormed size (set_needs_reload_vm true (reset_cheat_entry i s))
  reset_cheat_entry-WellFormed i s h =
      WellFormed-entries size s (set_needs_reload_vm true (reset_cheat_entry i s))
        (reset_cheat_entry-Slots size i s h.slots) (reset_cheat_entry-frozen i s) h

  pub known_entry-Reads :
      (id : ℕ) (s : State) → Reads s (λ e. get_elem? s.entries id ≡ some e) (known_entry id s)
  unfolding known_entry get_cheat_entry_by_id
  known_entry-Reads id s = elim (Bool-cases (ltb id max_cheat_count)) [
    | inl q ↦ rw q (known-Reads (get_elem? s.entries id))
    | inr q ↦ rw q refl
  ]
    where
      known-Reads :
          (o : Option Entry)
          → Reads s
              (λ e. o ≡ some e)
              ((require_some o cheat_unknown_id >>= λ e.
                  require (has_opcodes e) cheat_unknown_id >> pure e)
                s)
      known-Reads none = refl
      known-Reads (some e) = elim (Bool-cases (has_opcodes e)) [
        | inl q ↦ rw q (refl, refl)
        | inr q ↦ rw q refl
      ]
