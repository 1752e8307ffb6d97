-- ===== src/CheatApi/Closing.antt =====
-- What closing and checking the process, dmnt/source/cheat/impl/dmnt_cheat_api.cpp, leave of the processes that were
-- started.
use nx_sysmodules.Base.{
  ℕ, zero, suc, ◌≡◌, refl, ◌∙◌, inl, inr, false, ◌||◌, ltb, none, List, Bool-cases, Option-cases,
}
use nx_sysmodules.Base.Outcome.{Outcome, ok, err, abort, ◌>>=◌, pure, LeftBy, bind_rule}
use nx_sysmodules.CheatApi.State.{max_cheat_count, State, ApiError, M, System}
use nx_sysmodules.CheatApi.Entries.{reset_cheat_entry, reset_entries, reset_all_cheat_entries}
use nx_sysmodules.CheatApi.Process.{
  write_toggles, keep_toggles, give_up, close_active_cheat_process, is_attached,
  has_active_cheat_process,
}

-- A sequence leaves what its parts leave.
module _ {A B : Type 0} (P Q : State → Type 0) (m : M A) (f : A → M B) (s : State) where
  pub LeftBy-bind :
      LeftBy P (m s)
      → ((a : A) (t : State) → P t → LeftBy Q (f a t))
      → ((t : State) → P t → Q t)
      → LeftBy Q ((m >>= f) s)
  LeftBy-bind l step weaken =
      bind_rule (LeftBy P) (LeftBy Q) m f s l step (λ x t p. weaken t p) (λ u. u)

-- A handler that does not fail, and what it leaves.
abbrev pub Returns : {A : Type 0} → (State → Type 0) → Outcome State ApiError A → Type 0
Returns P (ok a t) = P t
Returns P (err x t) = ⊥
Returns P abort = Unit

pub Returns-bind :
    {A B : Type 0} (P : State → Type 0) (Q : Outcome State ApiError B → Type 0) (m : M A)
    (f : A → M B) (s : State)
    → Returns P (m s)
    → ((a : A) (t : State) → P t → Q (f a t))
    → Q abort
    → Q ((m >>= f) s)
Returns-bind P Q m f s l step stop =
    bind_rule (Returns P) Q m f s l step (λ x t r. absurd r) (λ u. stop)

-- The processes that were started before, and the process that is watched.
abbrev pub Watches : List ℕ → ℕ → State → Type 0
Watches l p s = (s.started ≡ l) × (s.metadata.process_id ≡ p)

abbrev pub HasStarted : List ℕ → State → Type 0
HasStarted l s = s.started ≡ l

-- Emptying the slots changes neither.
pub reset_cheat_entry-others :
    (i : ℕ) (s : State)
    → ((reset_cheat_entry i s).started ≡ s.started)
      × ((reset_cheat_entry i s).metadata.process_id ≡ s.metadata.process_id)
unfolding reset_cheat_entry
reset_cheat_entry-others i s = elim (Bool-cases (ltb i max_cheat_count)) [
  | inl q ↦ (rw q, rw q)
  | inr q ↦ (rw q, rw q)
]

pub reset_entries-others :
    (left i : ℕ) (s : State)
    → ((reset_entries i left s).started ≡ s.started)
      × ((reset_entries i left s).metadata.process_id ≡ s.metadata.process_id)
unfolding reset_entries
reset_entries-others zero i s = (refl, refl)
reset_entries-others (suc left) i s =
    let here = reset_cheat_entry-others i s in
    let rest = reset_entries-others left (suc i) (reset_cheat_entry i s) in
    (rest.0 ∙ here.0, rest.1 ∙ here.1)

module _ (sys : System) where
  pub write_toggles-started : (s : State) → (write_toggles sys s).started ≡ s.started
  unfolding write_toggles
  write_toggles-started s = elim (Bool-cases (sys.can_open_toggles s.metadata.program_id)) [
    | inl q ↦ rw q
    | inr q ↦ rw q
  ]

  pub keep_toggles-started : (s : State) → (keep_toggles sys s).started ≡ s.started
  unfolding keep_toggles
  keep_toggles-started s =
      elim (Bool-cases (s.always_save_cheat_toggles || s.should_save_cheat_toggles)) [
        | inl q ↦ rw q (write_toggles-started s)
        | inr q ↦ rw q refl
      ]

  pub give_up-started : (s : State) → (give_up sys s).started ≡ s.started
  unfolding give_up reset_all_cheat_entries
  give_up-started s = keep_toggles-started (record s { debug_handle = none })

  pub close_active_cheat_process-started :
      (l : List ℕ) (s : State)
      → HasStarted l s
      → Returns (HasStarted l) (close_active_cheat_process sys s)
  unfolding close_active_cheat_process ◌>>=◌
  close_active_cheat_process-started l s h = elim (Option-cases s.debug_handle) [
    | inl q ↦ rw q h
    | inr (handle, q) ↦ elim (Bool-cases (sys.can_close handle)) [
      | inl c ↦ rw (q, c) (give_up-started s ∙ h)
      | inr c ↦ rw (q, c) tt
    ]
  ]

  pub has_active_cheat_process-started :
      (l : List ℕ) (s : State)
      → HasStarted l s
      → Returns (HasStarted l) (has_active_cheat_process sys s)
  unfolding has_active_cheat_process
  has_active_cheat_process-started l s h = elim (Bool-cases (is_attached sys s)) [
    | inl q ↦ rw q h
    | inr q ↦ rw q (
        Returns-bind (HasStarted l) (Returns (HasStarted l)) (close_active_cheat_process sys)
          (λ _. pure false) s (close_active_cheat_process-started l s h) (λ a t k. k) tt)
  ]
