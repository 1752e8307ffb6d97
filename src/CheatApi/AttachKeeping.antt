-- ===== src/CheatApi/AttachKeeping.antt =====
-- AttachToApplicationProcess of dmnt/source/cheat/impl/dmnt_cheat_api.cpp keeps the invariant.
use nx_sysmodules.Base.{ℕ, suc, ◌≡◌, refl, inl, inr, Bool, true, false, not, List, ◌∷◌}
use nx_sysmodules.Base.Outcome.{◌>>◌, pure, fail, modify, abort_unless, LeftBy, Outcome-cases}
use nx_sysmodules.CheatApi.State.{Entry, State, M, Sizes, System}
use nx_sysmodules.CheatApi.Process.{has_active_cheat_process}
use nx_sysmodules.CheatApi.Keeping.{
  WellFormed, Keeping, Keeping-bind, has_active_cheat_process-Keeping,
}
use nx_sysmodules.CheatApi.Process.{close_active_cheat_process}
use nx_sysmodules.CheatApi.State.{Launch}
use nx_sysmodules.CheatApi.Parses.{Ends, parse_cheat_toggles-Ends}
use nx_sysmodules.CheatApi.ParsesCheats.{parse_cheats-Ends}
use nx_sysmodules.CheatApi.WellFormed.{Slots, reset_all_cheat_entries-Slots}
use nx_sysmodules.CheatApi.Toggles.{
  Parsed, accepted, refused, overrun, exhausted, parse_cheat_toggles,
}
use nx_sysmodules.CheatApi.Parsing.{parse_cheats}
use nx_sysmodules.CheatApi.Entries.{reset_all_cheat_entries}
use nx_sysmodules.CheatApi.Attach.{
  finish_parse, on_failure, set_process_id, abort_unless_if_new_process, start_process,
  start_if_launch, undo_attach, open_process, attach_new, attach_to_application_process,
}
use nx_sysmodules.CheatApi.Attaching.{
  AttachRules, open_process-Quiet, abort_unless_if_new_process-Quiet,
}
use nx_sysmodules.CheatApi.Keeping.{close_active_cheat_process-Keeping, abort_unless-Keeping}
use nx_sysmodules.Base.{◌&&◌, if◌then◌else◌, if-rule}

-- Writing the result of a parser down.
finish_parse-WellFormed :
    (size : ℕ) (r : Parsed (List Entry)) (s : State)
    → Ends (Slots size) r
    → WellFormed size s
    → LeftBy (WellFormed size) (finish_parse r s)
unfolding finish_parse
finish_parse-WellFormed size (accepted entries) s e h = record {
  slots = e;
  ordered = h.ordered;
  few = h.few;
}
finish_parse-WellFormed size (refused entries) s e h = record {
  slots = e;
  ordered = h.ordered;
  few = h.few;
}
finish_parse-WellFormed size overrun s e h = tt
finish_parse-WellFormed size exhausted s e h = tt

reset_all-frozen : (s : State) → (reset_all_cheat_entries s).frozen_addresses ≡ s.frozen_addresses
unfolding reset_all_cheat_entries
reset_all-frozen s = refl

module _ (sizes : Sizes) (sys : System) (launch : Launch) where
  abbrev Holds : State → Type 0
  Holds = WellFormed sizes.opcodes_size

  holding : AttachRules sizes Holds
  holding = record {
    cheats = λ default text s h.
        finish_parse-WellFormed sizes.opcodes_size (parse_cheats sizes default s.entries text) s
          (parse_cheats-Ends sizes default s.entries text h.slots) h;
    toggles = λ text s h.
        finish_parse-WellFormed sizes.opcodes_size
          (parse_cheat_toggles sizes.name_size s.entries text) s
          (parse_cheat_toggles-Ends sizes.opcodes_size sizes.name_size s.entries text h.slots) h;
    reset = λ s h. record {
      slots = reset_all_cheat_entries-Slots sizes.opcodes_size s h.slots;
      ordered = rw (reset_all-frozen s) h.ordered;
      few = rw (reset_all-frozen s) h.few;
    };
    others = λ s t entries frozen started id h. record {
      slots = rw entries h.slots;
      ordered = rw frozen h.ordered;
      few = rw frozen h.few;
    };
  }

  start_if_launch-Keeping :
      (b : Bool) → Keeping sizes.opcodes_size (start_if_launch sizes sys launch b)
  unfolding start_if_launch start_process
  start_if_launch-Keeping true s h =
      Keeping-bind sizes.opcodes_size (abort_unless (launch.can_start s.metadata.process_id))
        (λ _. modify (λ t. record t { started = s.metadata.process_id ∷ t.started }))
        (abort_unless-Keeping sizes.opcodes_size (launch.can_start s.metadata.process_id))
        (λ _ t k. record { slots = k.slots; ordered = k.ordered; few = k.few }) s h
  start_if_launch-Keeping false s h = h

  -- The process id is no part of the invariant.
  set_process_id-Keeping : (p : ℕ) → Keeping sizes.opcodes_size (modify (set_process_id p))
  set_process_id-Keeping p s h = record { slots = h.slots; ordered = h.ordered; few = h.few }

  undo_attach-Keeping : (b : Bool) → Keeping sizes.opcodes_size (undo_attach sizes sys launch b)
  unfolding undo_attach
  undo_attach-Keeping b =
      Keeping-bind sizes.opcodes_size (start_if_launch sizes sys launch b)
        (λ _. modify (set_process_id 0)) (start_if_launch-Keeping b) (λ _. set_process_id-Keeping 0)

  on_failure-Keeping :
      (undo m : M (Unit {0}))
      → Keeping sizes.opcodes_size undo
      → Keeping sizes.opcodes_size m
      → Keeping sizes.opcodes_size (on_failure undo m)
  unfolding on_failure
  on_failure-Keeping undo m u k s h =
      let left = k s h in
      elim (Outcome-cases (m s)) [
        | inl (a, t, q) ↦ rw (on_failure, q) (rw q at left)
        | inr (inl (e, t, q)) ↦
            rw (on_failure, q)
              (Keeping-bind sizes.opcodes_size undo (λ _. fail e) u (λ _ v l. l) t (rw q at left))
        | inr (inr q) ↦ rw (on_failure, q) tt
      ]

  attach_new-Keeping : (b : Bool) → Keeping sizes.opcodes_size (attach_new sizes sys launch b)
  unfolding attach_new
  attach_new-Keeping b =
      let size = sizes.opcodes_size in
      Keeping-bind size (abort_unless_if_new_process sizes sys launch b sys.application_process_id)
        _
        (abort_unless_if_new_process-Quiet sizes sys launch Holds holding b
          sys.application_process_id)
        (λ p. Keeping-bind size (modify (set_process_id p)) _ (set_process_id-Keeping p) (λ _.
          Keeping-bind size
            (on_failure (undo_attach sizes sys launch b) (open_process sizes sys launch b p)) _
            (on_failure-Keeping (undo_attach sizes sys launch b) (open_process sizes sys launch b p)
              (undo_attach-Keeping b) (open_process-Quiet sizes sys launch Holds holding b p))
            (λ _.
              Keeping-bind size (start_if_launch sizes sys launch b)
                (λ _. modify (λ s. record s { signals = suc s.signals }))
                (start_if_launch-Keeping b)
                (λ _ t k. record { slots = k.slots; ordered = k.ordered; few = k.few }))))

  pub attach_to_application_process-Keeping :
      (b : Bool) → Keeping sizes.opcodes_size (attach_to_application_process sizes sys launch b)
  unfolding attach_to_application_process
  attach_to_application_process-Keeping b =
      let size = sizes.opcodes_size in
      Keeping-bind size (has_active_cheat_process sys)
        (λ active.
          if active && not b
          then pure tt
          else (close_active_cheat_process sys >> attach_new sizes sys launch b))
        (has_active_cheat_process-Keeping size sys)
        (λ active.
          if-rule (Keeping size) (active && not b) (pure tt)
            (close_active_cheat_process sys >> attach_new sizes sys launch b) (λ s h. h)
            (Keeping-bind size (close_active_cheat_process sys) (λ _. attach_new sizes sys launch b)
              (close_active_cheat_process-Keeping size sys) (λ _. attach_new-Keeping b)))
