-- ===== src/CheatApi/SavedToggles.antt =====
-- ParseCheatToggles of what SaveCheatToggles writes, dmnt/source/cheat/impl/dmnt_cheat_api.cpp.
use nx_sysmodules.Base.{
  ℕ, zero, suc, ◌≤◌, ◌<◌, ◌≡◌, refl, ap, inl, inr, Bool, true, false, some, List, [], ◌∷◌, ◌++◌,
  if◌then◌else◌, length, length-append, bytes_eq, arith, Bool-cases,
}
use mathlib.Core.List.{append_assoc, map-append}
use nx_sysmodules.CheatApi.State.{Entry}
use nx_sysmodules.CheatApi.Entries.{has_opcodes}
use nx_sysmodules.CheatApi.Toggles.{
  same_word, accepted, toggle_value, apply_toggle, parse_toggles, parse_cheat_toggles,
}
use nx_sysmodules.CheatApi.Saving.{
  value_text, name_text, toggle_writes, written_text, save_cheat_toggles, IsToggleName, names,
  IsNew, AreNamed, SameCheats, with_flags,
}
use nx_sysmodules.CheatApi.ReadBack.{
  until_close-name, apply_toggle_lem, update_first-new, true_word, false_word, short,
}

module _ (name_size : ℕ) where
  -- One saved cheat is read back.
  parse_toggles-line :
      (fuel : ℕ) (entries : List Entry) (name rest : List ℕ) (b : Bool)
      → IsToggleName name_size name
      → parse_toggles name_size (suc fuel) entries (name_text name ++ (value_text b ++ rest))
        ≡ parse_toggles name_size fuel
            (apply_toggle name (if b then true_word else false_word) entries)
            rest
  unfolding parse_toggles
  parse_toggles-line fuel entries name rest true ok = rw (
    append_assoc name (0x5D ∷ 0x0A ∷ []) (value_text true ++ rest),
    until_close-name name (0x0A ∷ (value_text true ++ rest)) ok.0,
    short name_size name ok.1,
  )
  parse_toggles-line fuel entries name rest false ok = rw (
    append_assoc name (0x5D ∷ 0x0A ∷ []) (value_text false ++ rest),
    until_close-name name (0x0A ∷ (value_text false ++ rest)) ok.0,
    short name_size name ok.1,
  )

  written_text-line :
      (n : ℕ) (m : Entry) (ms : List Entry)
      → has_opcodes m ≡ true
      → written_text (λ _. true) n (toggle_writes (m ∷ ms))
        ≡ name_text m.readable_name
          ++ (value_text m.enabled ++ written_text (λ _. true) (suc (suc n)) (toggle_writes ms))
  unfolding toggle_writes written_text
  written_text-line n m ms q = rw q

  written_text-none :
      (n : ℕ) (m : Entry) (ms : List Entry)
      → has_opcodes m ≡ false
      → written_text (λ _. true) n (toggle_writes (m ∷ ms))
        ≡ written_text (λ _. true) n (toggle_writes ms)
  unfolding toggle_writes
  written_text-none n m ms q = rw q

  names-snoc :
      (before : List Entry) (e : Entry) (name : List ℕ)
      → e.readable_name ≡ name
      → names (before ++ e ∷ []) ≡ names before ++ name ∷ []
  names-snoc before e name same = rw (map-append, same)

  parse_toggles-nil :
      (fuel : ℕ) (entries : List Entry) → parse_toggles name_size fuel entries [] ≡ accepted entries
  unfolding parse_toggles
  parse_toggles-nil zero entries = refl
  parse_toggles-nil (suc fuel) entries = refl

  value_words : (b : Bool) → toggle_value (if b then true_word else false_word) ≡ some b
  unfolding toggle_value same_word bytes_eq
  value_words true = refl
  value_words false = refl

  line_length :
      (name rest : List ℕ) (b : Bool)
      → length rest < length (name_text name ++ (value_text b ++ rest))
  line_length name rest b =
      let outer = length-append (name_text name) (value_text b ++ rest) in
      let inner = length-append (value_text b) rest in ground arith

  suc_of : (n fuel : ℕ) → n < fuel → (left : ℕ) × (fuel ≡ suc left) × (n ≤ left)
  suc_of n zero l = absurd (ground arith)
  suc_of n (suc left) l = (left, refl, ground arith)

  -- A cheat that is saved takes fuel, and leaves enough of it.
  enough_fuel :
      (fuel n : ℕ) (m : Entry) (ms : List Entry)
      → has_opcodes m ≡ true
      → length (written_text (λ _. true) n (toggle_writes (m ∷ ms))) ≤ fuel
      → (left : ℕ) × (fuel ≡ suc left)
        × (length (written_text (λ _. true) (suc (suc n)) (toggle_writes ms)) ≤ left)
  enough_fuel fuel n m ms q l =
      let rest = written_text (λ _. true) (suc (suc n)) (toggle_writes ms) in
      let same = ap length (written_text-line n m ms q) in
      let more = line_length m.readable_name rest m.enabled in
      suc_of (length rest) fuel (ground (arith, same, more, l))

  with_flags-of :
      (m e : Entry) (ms entries : List Entry)
      → has_opcodes m ≡ true
      → with_flags (m ∷ ms) (e ∷ entries) ≡ record e { enabled = m.enabled } ∷ with_flags ms entries
  unfolding with_flags
  with_flags-of m e ms entries q = rw q

  with_flags-none :
      (m e : Entry) (ms entries : List Entry)
      → has_opcodes m ≡ false
      → with_flags (m ∷ ms) (e ∷ entries) ≡ e ∷ with_flags ms entries
  unfolding with_flags
  with_flags-none m e ms entries q = rw q

  -- One saved cheat takes its flag.
  parse_toggles-cheat :
      (fuel : ℕ) (master : Entry) (before entries : List Entry) (m e : Entry) (rest : List ℕ)
      → e.readable_name ≡ m.readable_name
      → IsToggleName name_size m.readable_name
      → IsNew m.readable_name (names before)
      → parse_toggles name_size
          (suc fuel)
          (master ∷ (before ++ e ∷ entries))
          (name_text m.readable_name ++ (value_text m.enabled ++ rest))
        ≡ parse_toggles name_size fuel
            (master ∷ (before ++ record e { enabled = m.enabled } ∷ entries))
            rest
  parse_toggles-cheat fuel master before entries m e rest same ok new = rw (
    parse_toggles-line fuel (master ∷ (before ++ e ∷ entries)) m.readable_name rest m.enabled ok,
    apply_toggle_lem m.readable_name (if m.enabled then true_word else false_word) m.enabled master
        (before ++ e ∷ entries) (value_words m.enabled),
    update_first-new m.readable_name m.enabled before e entries new same,
  )

  parse_toggles-done :
      (fuel n : ℕ) (entries : List Entry) (rest : List Entry)
      → parse_toggles name_size fuel
          (entries ++ rest)
          (written_text (λ _. true) n (toggle_writes []))
        ≡ accepted (entries ++ with_flags [] rest)
  unfolding toggle_writes written_text with_flags
  parse_toggles-done fuel n entries rest = parse_toggles-nil fuel (entries ++ rest)

  -- What is read of the text of `ms`, after the entries `before`, whose cheats are done.
  parse_toggles-written :
      (fuel n : ℕ) (master : Entry) (before ms entries : List Entry)
      → length (written_text (λ _. true) n (toggle_writes ms)) ≤ fuel
      → SameCheats ms entries
      → AreNamed name_size (names before) ms
      → parse_toggles name_size fuel
          (master ∷ (before ++ entries))
          (written_text (λ _. true) n (toggle_writes ms))
        ≡ accepted (master ∷ (before ++ with_flags ms entries))
  parse_toggles-written fuel n master before [] [] l same named =
      parse_toggles-done fuel n (master ∷ before) []
  parse_toggles-written fuel n master before [] (e ∷ entries) l same named = absurd same
  parse_toggles-written fuel n master before (m ∷ ms) [] l same named = absurd same
  parse_toggles-written fuel n master before (m ∷ ms) (e ∷ entries) l same named =
      let go =
        λ (left k : ℕ) (x : Entry) (x_named : x.readable_name ≡ m.readable_name)
            (enough : length (written_text (λ _. true) k (toggle_writes ms)) ≤ left).
          let ih =
            parse_toggles-written left k master (before ++ x ∷ []) ms entries enough same.2
              (rw (← names-snoc before x m.readable_name x_named) at named.1) in
          rw
            (
              append_assoc before (x ∷ []) entries,
              append_assoc before (x ∷ []) (with_flags ms entries),
            )
            at ih in
      elim (Bool-cases (has_opcodes m)) [
        | inl q ↦
            let (left, f, enough) = enough_fuel fuel n m ms q l in
            let rest = written_text (λ _. true) (suc (suc n)) (toggle_writes ms) in
            rw
              (
                f,
                written_text-line n m ms q,
                with_flags-of m e ms entries q,
                parse_toggles-cheat left master before entries m e rest same.0 (named.0 q).0
                    (named.0 q).1,
              )
              (go left (suc (suc n)) (record e { enabled = m.enabled }) same.0 enough)
        | inr q ↦
            rw (written_text-none n m ms q, with_flags-none m e ms entries q)
              (go fuel n e same.0 (rw (written_text-none n m ms q) at l))
      ]

  -- The file that SaveCheatToggles writes, where every write succeeds, is read back: if each saved cheat
  -- has a name without closing bracket that fits its buffer, and no two have the same one,
  -- ParseCheatToggles accepts it over the same cheats with any flags, and leaves every cheat with
  -- opcodes with the flag that was saved, and the master cheat and the cheats without as they were.
  pub parse_cheat_toggles-save_cheat_toggles :
      (saved_master master : Entry) (saved entries : List Entry)
      → SameCheats saved entries
      → AreNamed name_size [] saved
      → parse_cheat_toggles name_size
          (master ∷ entries)
          (save_cheat_toggles (λ _. true) (saved_master ∷ saved))
        ≡ accepted (master ∷ with_flags saved entries)
  unfolding parse_cheat_toggles save_cheat_toggles
  parse_cheat_toggles-save_cheat_toggles saved_master master saved entries same named =
      parse_toggles-written (length (written_text (λ _. true) 0 (toggle_writes saved))) 0 master []
        saved entries (ground arith) same named
