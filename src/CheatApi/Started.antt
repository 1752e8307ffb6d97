-- ===== src/CheatApi/Started.antt =====
-- On a launch, AttachToApplicationProcess of dmnt/source/cheat/impl/dmnt_cheat_api.cpp starts the process.
use nx_sysmodules.Base.{
  ℕ, suc, ◌≡◌, refl, ◌∙◌, inl, inr, true, false, not, ◌&&◌, List, ◌∷◌, if◌then◌else◌, Bool-cases,
}
use nx_sysmodules.Base.Outcome.{
  Outcome, ok, err, abort, ◌>>=◌, ◌>>◌, pure, fail, modify, LeftBy, Outcome-cases, bind_ok,
  bind_err, bind_abort,
}
use nx_sysmodules.CheatApi.State.{max_cheat_count, Entry, State, ApiError, M, Sizes, System, Launch}
use nx_sysmodules.CheatApi.Toggles.{
  Parsed, accepted, refused, overrun, exhausted, parse_cheat_toggles,
}
use nx_sysmodules.CheatApi.Process.{close_active_cheat_process, has_active_cheat_process}
use nx_sysmodules.CheatApi.Attach.{
  finish_parse, set_process_id, on_failure, start_process, abort_unless_if_new_process,
  start_if_launch, undo_attach, open_process, attach_new, attach_to_application_process,
}
use nx_sysmodules.CheatApi.Attaching.{AttachRules, Quiet, open_process-Quiet}
use nx_sysmodules.CheatApi.Parsing.{parse_cheats}
use nx_sysmodules.CheatApi.Entries.{reset_all_cheat_entries}
use nx_sysmodules.CheatApi.Closing.{
  reset_entries-others, LeftBy-bind, Returns-bind, Watches, HasStarted,
  close_active_cheat_process-started, has_active_cheat_process-started,
}

finish_parse-watched :
    (l : List ℕ) (p : ℕ) (r : Parsed (List Entry)) (s : State)
    → Watches l p s
    → LeftBy (Watches l p) (finish_parse r s)
unfolding finish_parse
finish_parse-watched l p (accepted es) s h = h
finish_parse-watched l p (refused es) s h = h
finish_parse-watched l p overrun s h = tt
finish_parse-watched l p exhausted s h = tt

-- What a guard answers.
module _ (undo m : M (Unit {0})) (s : State) where
  on_failure-ok : {a : Unit {0}} {t : State} → m s ≡ ok a t → on_failure undo m s ≡ ok a t
  unfolding on_failure
  on_failure-ok q = rw (on_failure, q)

  on_failure-err :
      {e : ApiError} {t : State} → m s ≡ err e t → on_failure undo m s ≡ (undo >> fail e) t
  unfolding on_failure
  on_failure-err q = rw (on_failure, q)

  on_failure-abort : m s ≡ abort → on_failure undo m s ≡ abort
  unfolding on_failure
  on_failure-abort q = rw (on_failure, q)

module _ (sizes : Sizes) (sys : System) (launch : Launch) (l : List ℕ) (p : ℕ) where
  watching : AttachRules sizes (Watches l p)
  unfolding reset_all_cheat_entries
  watching = record {
    cheats = λ default text s h.
        finish_parse-watched l p (parse_cheats sizes default s.entries text) s h;
    toggles = λ text s h.
        finish_parse-watched l p (parse_cheat_toggles sizes.name_size s.entries text) s h;
    reset =
        λ s h. let same = reset_entries-others max_cheat_count 0 s in (same.0 ∙ h.0, same.1 ∙ h.1);
    others = λ s t entries frozen started id h. (started ∙ h.0, id ∙ h.1);
  }

  start_if_launch-started :
      (s : State)
      → Watches l p s
      → LeftBy (HasStarted (p ∷ l)) (start_if_launch sizes sys launch true s)
  unfolding start_if_launch start_process
  start_if_launch-started s (q, r) = elim (Bool-cases (launch.can_start s.metadata.process_id)) [
    | inl c ↦ rw c (rw (q, r))
    | inr c ↦ rw c tt
  ]

  undo_attach-started :
      (s : State)
      → Watches l p s
      → LeftBy (HasStarted (p ∷ l)) (undo_attach sizes sys launch true s)
  unfolding undo_attach
  undo_attach-started s h =
      LeftBy-bind (HasStarted (p ∷ l)) (HasStarted (p ∷ l)) (start_if_launch sizes sys launch true)
        (λ _. modify (set_process_id 0)) s (start_if_launch-started s h) (λ a t k. k) (λ t k. k)

  -- The process is started behind a guard, whether the steps succeed or fail.
  abbrev guarded_steps : M (Unit {0}) → M (Unit {0})
  guarded_steps m =
      on_failure (undo_attach sizes sys launch true) m
      >> (start_if_launch sizes sys launch true
          >> modify (λ s. record s { signals = suc s.signals }))

  guarded_steps-started :
      (m : M (Unit {0})) (s : State)
      → Quiet sizes sys launch (Watches l p) watching m
      → Watches l p s
      → LeftBy (HasStarted (p ∷ l)) (guarded_steps m s)
  guarded_steps-started m s quiet h =
      let left = quiet s h in
      let undo = undo_attach sizes sys launch true in
      let start = start_if_launch sizes sys launch true in
      let signal = modify {E = ApiError} (λ (s : State). record s { signals = suc s.signals }) in
      let rest = start >> signal in
      elim (Outcome-cases (m s)) [
        | inl (a, t, q) ↦
            rw (bind_ok (on_failure undo m) (λ _. rest) s (on_failure-ok undo m s q)) (
              LeftBy-bind (HasStarted (p ∷ l)) (HasStarted (p ∷ l)) start (λ _. signal) t
                (start_if_launch-started t (rw q at left)) (λ a t k. k) (λ t k. k))
        | inr (inl (e, t, q)) ↦
            let undone = undo_attach-started t (rw q at left) in
            elim (Outcome-cases (undo t)) [
              | inl (x, u, r) ↦
                  rw
                    (bind_err (on_failure undo m) (λ _. rest) s
                      (on_failure-err undo m s q ∙ bind_ok undo (λ _. fail e) t r))
                    (rw r at undone)
              | inr (inl (y, u, r)) ↦
                  rw
                    (bind_err (on_failure undo m) (λ _. rest) s
                      (on_failure-err undo m s q ∙ bind_err undo (λ _. fail e) t r))
                    (rw r at undone)
              | inr (inr r) ↦
                  rw
                    (bind_abort (on_failure undo m) (λ _. rest) s
                      (on_failure-err undo m s q ∙ bind_abort undo (λ _. fail e) t r))
                    tt
            ]
        | inr (inr q) ↦
            rw (bind_abort (on_failure undo m) (λ _. rest) s (on_failure-abort undo m s q)) tt
      ]

  attach_new-started :
      (s : State)
      → sys.application_process_id ≡ inr p
      → HasStarted l s
      → LeftBy (HasStarted (p ∷ l)) (attach_new sizes sys launch true s)
  unfolding attach_new abort_unless_if_new_process ◌>>=◌
  attach_new-started s q h = rw q (
      guarded_steps-started (open_process sizes sys launch true p) (set_process_id p s)
        (open_process-Quiet sizes sys launch (Watches l p) watching true p) (h, refl))

-- On the launch of an application, AttachToApplicationProcess starts it exactly once, whether it
-- attaches or fails, unless dmnt aborts.
pub attach_to_application_process-started :
    (sizes : Sizes) (sys : System) (launch : Launch) (p : ℕ) (s : State)
    → sys.application_process_id ≡ inr p
    → LeftBy
        (λ t. t.started ≡ p ∷ s.started)
        (attach_to_application_process sizes sys launch true s)
unfolding attach_to_application_process
attach_to_application_process-started sizes sys launch p s q =
    let l = s.started in
    let Goal = λ (o : Outcome State ApiError (Unit {0})). LeftBy (HasStarted (p ∷ l)) o in
    let new = λ (t : State) (h : HasStarted l t).
      Returns-bind (HasStarted l) Goal (close_active_cheat_process sys)
        (λ _. attach_new sizes sys launch true) t (close_active_cheat_process-started sys l t h)
        (λ a u k. attach_new-started sizes sys launch l p u q k) tt in
    Returns-bind (HasStarted l) Goal (has_active_cheat_process sys)
      (λ active.
        if active && not true
        then pure tt
        else (close_active_cheat_process sys >> attach_new sizes sys launch true))
      s (has_active_cheat_process-started sys l s refl)
      (λ active t k.
        elim active
          as (λ b. Goal (
            (if b && not true
                then pure tt
                else (close_active_cheat_process sys >> attach_new sizes sys launch true))
              t)) [ true ↦ new t k | false ↦ new t k ])
      tt
