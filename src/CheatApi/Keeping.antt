-- ===== src/CheatApi/Keeping.antt =====
-- The invariant of CheatProcessManager, dmnt/source/cheat/impl/dmnt_cheat_api.cpp, and that closing and checking the
-- process keep it.
use nx_sysmodules.Base.{
  ℕ, ◌≤◌, ◌≡◌, refl, inl, inr, Bool, true, false, ◌||◌, Option, none, some, length, Bool-cases,
  arith,
}
use nx_sysmodules.Base.Outcome.{
  ◌>>=◌, ◌>>◌, pure, modify, require, require_some, abort_unless, LeftBy,
}
use nx_sysmodules.CheatApi.State.{
  max_frozen_address_count, State, ApiError, M, System, cheat_not_attached, no_metadata,
}
use nx_sysmodules.CheatApi.Process.{
  write_toggles, keep_toggles, give_up, close_active_cheat_process, is_attached,
  has_active_cheat_process, ensure_cheat_process, with_process,
}
use nx_sysmodules.CheatApi.FrozenLaws.{Ordered}
use nx_sysmodules.CheatApi.WellFormed.{Slots, reset_all_cheat_entries-Slots}
use nx_sysmodules.CheatApi.Closing.{LeftBy-bind}
use nx_sysmodules.Base.{if-rule, option-rule}

-- The slots are slots, and there are at most 0x80 frozen addresses, in order.
pub record WellFormed (size : ℕ) (s : State) : Type 0 where
  pub slots : Slots size s.entries
  pub ordered : Ordered s.frozen_addresses
  pub few : length s.frozen_addresses ≤ max_frozen_address_count

module _ (size : ℕ) where
  -- A step that keeps the invariant.
  abbrev pub Keeping : {A : Type 0} → M A → Type 0
  Keeping m = (s : State) → WellFormed size s → LeftBy (WellFormed size) (m s)

  pub Keeping-bind :
      {A B : Type 0} (m : M A) (f : A → M B)
      → Keeping m
      → ((a : A) → Keeping (f a))
      → Keeping (m >>= f)
  Keeping-bind m f q r s h =
      LeftBy-bind (WellFormed size) (WellFormed size) m f s (q s h) (λ a t k. r a t k) (λ t k. k)

  pub require-Keeping : (b : Bool) (x : ApiError) → Keeping (require b x)
  require-Keeping true x s h = h
  require-Keeping false x s h = h

  pub abort_unless-Keeping : (b : Bool) → Keeping (abort_unless b)
  abort_unless-Keeping true s h = h
  abort_unless-Keeping false s h = tt

  pub require_some-Keeping : {A : Type 0} (o : Option A) (x : ApiError) → Keeping (require_some o x)
  require_some-Keeping none x s h = h
  require_some-Keeping (some a) x s h = h

  pub WellFormed-entries :
      (s t : State)
      → Slots size t.entries
      → s.frozen_addresses ≡ t.frozen_addresses
      → WellFormed size s
      → WellFormed size t
  WellFormed-entries s t q same h = record {
    slots = q;
    ordered = rw (← same) h.ordered;
    few = rw (← same) h.few;
  }

  module _ (sys : System) where
    pub keep_toggles-others : (s : State) → ((keep_toggles sys s).entries ≡ s.entries)
    unfolding keep_toggles write_toggles
    keep_toggles-others s =
        elim (Bool-cases (s.always_save_cheat_toggles || s.should_save_cheat_toggles)) [
          | inl q ↦ elim (Bool-cases (sys.can_open_toggles s.metadata.program_id)) [
            | inl r ↦ rw (q, r) refl
            | inr r ↦ rw (q, r) refl
          ]
          | inr q ↦ rw q refl
        ]

    pub give_up-Keeping : (s : State) → WellFormed size s → WellFormed size (give_up sys s)
    unfolding give_up
    give_up-Keeping s h =
        let kept = keep_toggles sys (record s { debug_handle = none }) in
        record {
          slots =
              reset_all_cheat_entries-Slots size (record kept { metadata = no_metadata })
                (rw (keep_toggles-others (record s { debug_handle = none })) h.slots);
          ordered = tt;
          few = omega arith;
        }

    pub close_active_cheat_process-Keeping : Keeping (close_active_cheat_process sys)
    unfolding close_active_cheat_process
    close_active_cheat_process-Keeping s h =
        option-rule (LeftBy (WellFormed size)) s.debug_handle (pure tt s)
          (λ handle. (abort_unless (sys.can_close handle) >> modify (give_up sys)) s) h
          (λ handle q.
            Keeping-bind (abort_unless (sys.can_close handle)) (λ _. modify (give_up sys))
              (abort_unless-Keeping (sys.can_close handle)) (λ _ t k. give_up-Keeping t k) s h)

    pub has_active_cheat_process-Keeping : Keeping (has_active_cheat_process sys)
    unfolding has_active_cheat_process
    has_active_cheat_process-Keeping s h =
        if-rule (LeftBy (WellFormed size)) (is_attached sys s) (pure true s)
          ((close_active_cheat_process sys >> pure false) s) h
          (Keeping-bind (close_active_cheat_process sys) (λ _. pure false)
            close_active_cheat_process-Keeping (λ _ t k. k) s h)

    pub with_process-Keeping : {A : Type 0} (m : M A) → Keeping m → Keeping (with_process sys m)
    unfolding with_process ensure_cheat_process
    with_process-Keeping m k =
        Keeping-bind (ensure_cheat_process sys) (λ _. m)
          (Keeping-bind (has_active_cheat_process sys) (λ b. require b cheat_not_attached)
            has_active_cheat_process-Keeping (λ b. require-Keeping b cheat_not_attached))
          (λ _. k)
