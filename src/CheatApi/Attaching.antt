-- ===== src/CheatApi/Attaching.antt =====
-- What the guarded part of AttachToApplicationProcess, dmnt/source/cheat/impl/dmnt_cheat_api.cpp, keeps of
-- the members.
use nx_sysmodules.Base.{
  ℕ, ◌≡◌, refl, ◌⊎◌, inl, inr, Bool, true, false, not, ◌||◌, none, some, List, if◌then◌else◌,
  Option-cases,
}
use nx_sysmodules.Base.Outcome.{
  ◌>>=◌, ◌>>◌, pure, fail, modify, require, abort_unless, LeftBy, Outcome-cases,
}
use nx_sysmodules.CheatApi.State.{State, ApiError, cheat_not_attached, M, Sizes, System, Launch}
use nx_sysmodules.CheatApi.Toggles.{parse_cheat_toggles}
use nx_sysmodules.CheatApi.Attach.{
  until_zero, finish_parse, set_should_save, has_modules, set_program_id, closing, load_cheats,
  load_cheat_toggles, abort_unless_if_new_process, load_all, open_process,
}
use nx_sysmodules.CheatApi.Parsing.{parse_cheats}
use nx_sysmodules.CheatApi.Entries.{reset_all_cheat_entries, set_needs_reload_vm}
use nx_sysmodules.CheatApi.Closing.{LeftBy-bind}

-- What is asked of a property of the members: the parsers and the emptying of the slots keep it, and it
-- is about the slots, the frozen addresses, the processes that were started and the process id only.
pub record AttachRules (sizes : Sizes) (P : State → Type 0) : Type 0 where
  pub cheats :
      (default : Bool) (text : List ℕ) (s : State)
      → P s
      → LeftBy P (finish_parse (parse_cheats sizes default s.entries text) s)
  pub toggles :
      (text : List ℕ) (s : State)
      → P s
      → LeftBy P (finish_parse (parse_cheat_toggles sizes.name_size s.entries text) s)
  pub reset : (s : State) → P s → P (reset_all_cheat_entries s)
  pub others :
      (s t : State)
      → t.entries ≡ s.entries
      → t.frozen_addresses ≡ s.frozen_addresses
      → t.started ≡ s.started
      → t.metadata.process_id ≡ s.metadata.process_id
      → P s
      → P t

module _ (sizes : Sizes) (sys : System) (launch : Launch) (P : State → Type 0)
    (rules : AttachRules sizes P) where
  -- A step that keeps the property.
  abbrev pub Quiet : {A : Type 0} → M A → Type 0
  Quiet m = (s : State) → P s → LeftBy P (m s)

  pub Quiet-bind :
      {A B : Type 0} (m : M A) (f : A → M B) → Quiet m → ((a : A) → Quiet (f a)) → Quiet (m >>= f)
  Quiet-bind m f q r s h = LeftBy-bind P P m f s (q s h) (λ a t k. r a t k) (λ t k. k)

  pub abort_unless_if_new_process-Quiet :
      {A : Type 0} (b : Bool) (a : ℕ ⊎ A) → Quiet (abort_unless_if_new_process sizes sys launch b a)
  unfolding abort_unless_if_new_process
  abort_unless_if_new_process-Quiet b (inr a) s h = h
  abort_unless_if_new_process-Quiet true (inl e) s h = tt
  abort_unless_if_new_process-Quiet false (inl e) s h = h

  load_cheats-Quiet : (id : ℕ) → Quiet (load_cheats sizes sys launch id)
  unfolding load_cheats
  load_cheats-Quiet id s h =
      let reset = rules.reset s h in
      elim (Option-cases (launch.cheats_text id)) [
        | inl q ↦ rw q reset
        | inr (text, q) ↦ rw q (
            rules.cheats s.enable_cheats_by_default (until_zero text)
              (set_needs_reload_vm true (reset_all_cheat_entries s))
              (rules.others (reset_all_cheat_entries s)
                (set_needs_reload_vm true (reset_all_cheat_entries s)) refl refl refl refl reset))
      ]

  load_cheat_toggles-Quiet : (id : ℕ) → Quiet (load_cheat_toggles sizes sys launch id)
  unfolding load_cheat_toggles
  load_cheat_toggles-Quiet id s h =
      let unsaved = rules.others s (set_should_save false s) refl refl refl refl h in
      elim (Option-cases (launch.toggles_text id)) [
        | inl q ↦ rw q unsaved
        | inr (none, q) ↦ rw q unsaved
        | inr (some text, q) ↦ rw q (
            LeftBy-bind P P
              (finish_parse (parse_cheat_toggles sizes.name_size s.entries (until_zero text)))
              (λ parsed. modify (set_should_save parsed) >> pure parsed) (set_should_save false s)
              (rules.toggles (until_zero text) (set_should_save false s) unsaved)
              (λ parsed t k. rules.others t (set_should_save parsed t) refl refl refl refl k)
              (λ t k. k))
      ]

  load_all-Quiet : (id : ℕ) → Quiet (load_all sizes sys launch id)
  unfolding load_all
  load_all-Quiet id =
      Quiet-bind (load_cheats sizes sys launch id)
        (λ loaded. if loaded then load_cheat_toggles sizes sys launch id else pure false)
        (load_cheats-Quiet id) toggles-Quiet
    where
      toggles-Quiet :
          (loaded : Bool)
          → Quiet (if loaded then load_cheat_toggles sizes sys launch id else pure false)
      toggles-Quiet true = load_cheat_toggles-Quiet id
      toggles-Quiet false = λ s h. h

  require-Quiet : (b : Bool) (x : ApiError) → Quiet (require b x)
  require-Quiet true x s h = h
  require-Quiet false x s h = h

  pub abort_unless-Quiet : (b : Bool) → Quiet (abort_unless b)
  abort_unless-Quiet true s h = h
  abort_unless-Quiet false s h = tt

  closing-Quiet : (b : Bool) (m : M (Unit {0})) → Quiet m → Quiet (closing b m)
  unfolding closing
  closing-Quiet b m q s h = elim (Outcome-cases (m s)) [
    | inl (a, t, r) ↦ rw (closing, r) (abort_unless-Quiet b t (rw r at (q s h)))
    | inr (inl (e, t, r)) ↦
        rw (closing, r)
          (Quiet-bind (abort_unless b) (λ _. fail e) (abort_unless-Quiet b) (λ _ u k. k) t
            (rw r at (q s h)))
    | inr (inr r) ↦ rw (closing, r) tt
  ]

  pub open_process-Quiet :
      (on_process_launch : Bool) (q : ℕ) → Quiet (open_process sizes sys launch on_process_launch q)
  unfolding open_process
  open_process-Quiet new q =
      Quiet-bind _ _ (abort_unless_if_new_process-Quiet new (launch.process_info q))
        (λ (id, enabled).
          Quiet-bind (modify (set_program_id id)) _
            (λ s h. rules.others s (set_program_id id s) refl refl refl refl h)
            (λ _.
              Quiet-bind _ _
                (closing-Quiet (launch.can_close_process q)
                  (abort_unless (launch.has_address_space q)
                    >> require (not new || enabled) cheat_not_attached)
                  (Quiet-bind (abort_unless (launch.has_address_space q)) _
                    (abort_unless-Quiet (launch.has_address_space q))
                    (λ _. require-Quiet (not new || enabled) cheat_not_attached)))
                (λ _.
                  Quiet-bind _ _ (abort_unless_if_new_process-Quiet new (launch.module_count q))
                    (λ n.
                      Quiet-bind _ _
                        (require-Quiet (has_modules sizes sys launch new n) cheat_not_attached)
                        (λ _. Quiet-bind _ _ (load_all-Quiet id) (λ loaded.
                          Quiet-bind _ _ (require-Quiet (loaded || not new) cheat_not_attached)
                            (λ _.
                              Quiet-bind _
                                (λ handle. modify (λ s. record s { debug_handle = some handle }))
                                (abort_unless_if_new_process-Quiet new
                                  (launch.debug_active_process q))
                                (λ handle s k.
                                  rules.others s (record s { debug_handle = some handle }) refl refl
                                    refl refl k))))))))
