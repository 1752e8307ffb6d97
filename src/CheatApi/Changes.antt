-- ===== src/CheatApi/Changes.antt =====
-- The handlers of dmnt/source/cheat/impl/dmnt_cheat_api.cpp that change cheats or frozen addresses keep the
-- invariant.
use nx_sysmodules.Base.{
  ℕ, zero, suc, ◌≤◌, ◌≡◌, refl, ◌⊎◌, inl, inr, Bool, true, false, not, ltb, leb, ◌==◌, none, some,
  List, [], ◌∷◌, length, take, get_elem?, Bool-cases, arith, ltb→lt, leb→le,
}
use nx_sysmodules.Base.Outcome.{◌>>=◌, ◌>>◌, pure, fail, modify, require, abort_unless, LeftBy}
use nx_sysmodules.CheatApi.State.{
  max_cheat_count, max_frozen_address_count, FrozenAddressValue, Entry, State, M, Sizes, System,
  cheat_unknown_id, cheat_cannot_disable, cheat_invalid, cheat_out_of_resource,
  frozen_address_not_found, frozen_address_already_exists, svc,
}
use nx_sysmodules.CheatApi.Entries.{get_free_cheat_entry}
use nx_sysmodules.CheatApi.Cheats.{
  Definition, known_entry, toggled, put_and_reload, defined, toggle_cheat, add_cheat, remove_cheat,
}
use nx_sysmodules.CheatApi.Frozen.{
  find_frozen, insert_frozen, erase_frozen, update_frozen, le_value, set_frozen,
  write_cheat_process_memory, write_cheat_process_memory_unsafe, read_cheat_process_memory_unsafe,
  enable_frozen_address, disable_frozen_address,
}
use nx_sysmodules.CheatApi.FrozenLaws.{
  insert_frozen-Ordered, erase_frozen-Ordered, update_frozen-Ordered, length-insert_frozen,
  length-erase_frozen, length-update_frozen,
}
use nx_sysmodules.CheatApi.WellFormed.{get_free_cheat_entry-FoundIn}
use nx_sysmodules.Base.{option-rule}
use nx_sysmodules.CheatApi.Keeping.{WellFormed, Keeping, with_process-Keeping}
use nx_sysmodules.CheatApi.Steps.{
  Reads-bind, require_then, require_some_then, put_entry-WellFormed, reset_cheat_entry-WellFormed,
  known_entry-Reads,
}

length-take : (n : ℕ) (xs : List ℕ) → length (take n xs) ≤ n
length-take zero xs = omega arith
length-take (suc n) [] = omega arith
length-take (suc n) (x ∷ xs) = let rest = length-take n xs in omega (arith, rest)

module _ (sizes : Sizes) (sys : System) where
  abbrev Holds : State → Type 0
  Holds = WellFormed sizes.opcodes_size

  pub toggle_cheat-Keeping : (id : ℕ) → Keeping sizes.opcodes_size (toggle_cheat sizes sys id)
  unfolding toggle_cheat
  toggle_cheat-Keeping id =
      let size = sizes.opcodes_size in
      let flip = λ (e : Entry).
        require (not (id == 0)) cheat_cannot_disable >> modify (put_and_reload id (toggled e)) in
      with_process-Keeping size sys (known_entry id >>= flip) (λ s h.
        Reads-bind size (λ e. get_elem? s.entries id ≡ some e) (known_entry id) flip s
          (known_entry-Reads size id s)
          (λ e q.
            require_then size (not (id == 0)) cheat_cannot_disable
              (modify (put_and_reload id (toggled e))) s h
              (put_entry-WellFormed size id e (toggled e) s h q refl (λ b. b)))
          h)

  pub add_cheat-Keeping :
      (d : Definition) (enabled : Bool) → Keeping sizes.opcodes_size (add_cheat sizes sys d enabled)
  unfolding add_cheat
  add_cheat-Keeping d enabled =
      let size = sizes.opcodes_size in
      with_process-Keeping size sys _ (λ s h.
        require_then size (not (d.num_opcodes == 0)) cheat_invalid _ s h
          (elim (Bool-cases (leb d.num_opcodes size)) [
            | inl q ↦ rw q (
                require_some_then size (get_free_cheat_entry s.entries) cheat_out_of_resource
                  (λ (i, e). modify (put_and_reload i (defined e d enabled))) s h
                  (λ (i, e) r.
                    let found = get_free_cheat_entry-FoundIn s.entries in
                    let fits = leb→le d.num_opcodes size q in
                    let taken = length-take d.num_opcodes d.opcodes in
                    put_entry-WellFormed size i e (defined e d enabled) s h (rw r at found) refl
                      (λ _. omega (arith, fits, taken))))
            | inr q ↦ rw q h
          ]))

  pub remove_cheat-Keeping : (id : ℕ) → Keeping sizes.opcodes_size (remove_cheat sizes sys id)
  unfolding remove_cheat
  remove_cheat-Keeping id =
      let size = sizes.opcodes_size in
      with_process-Keeping size sys _ (λ s h.
        require_then size (ltb id max_cheat_count) cheat_unknown_id _ s h
          (reset_cheat_entry-WellFormed size id s h))

  pub write_cheat_process_memory-Keeping :
      (address : ℕ) (bytes : List ℕ)
      → Keeping sizes.opcodes_size (write_cheat_process_memory sys address bytes)
  unfolding write_cheat_process_memory write_cheat_process_memory_unsafe
  write_cheat_process_memory-Keeping address bytes =
      let size = sizes.opcodes_size in
      with_process-Keeping size sys (write_cheat_process_memory_unsafe sys address bytes) (λ s h.
        let same = length-update_frozen address bytes s.frozen_addresses in
        let few = h.few in
        let written : Holds (set_frozen (update_frozen address bytes s.frozen_addresses) s) =
          record {
            slots = h.slots;
            ordered = update_frozen-Ordered address bytes s.frozen_addresses h.ordered;
            few = omega (arith, same, few);
          } in
        option-rule {B = M (Unit {0})} (λ m. LeftBy Holds (m s)) (sys.write address bytes)
          (modify (λ s. set_frozen (update_frozen address bytes s.frozen_addresses) s))
          (λ e. fail (svc e)) written (λ e q. h))

  pub disable_frozen_address-Keeping :
      (address : ℕ) → Keeping sizes.opcodes_size (disable_frozen_address sys address)
  unfolding disable_frozen_address
  disable_frozen_address-Keeping address =
      let size = sizes.opcodes_size in
      with_process-Keeping size sys _ (λ s h.
        require_some_then size (find_frozen address s.frozen_addresses) frozen_address_not_found
          (λ v. modify (set_frozen (erase_frozen address s.frozen_addresses))) s h
          (λ v q.
            let less = length-erase_frozen address s.frozen_addresses in
            let few = h.few in
            record {
              slots = h.slots;
              ordered = erase_frozen-Ordered address s.frozen_addresses h.ordered;
              few = omega (arith, less, few);
            }))

  -- The end of EnableFrozenAddress, where there is room.
  enable_frozen-WellFormed :
      (address : ℕ) (v : FrozenAddressValue) (s : State)
      → Holds s
      → ltb (length s.frozen_addresses) max_frozen_address_count ≡ true
      → Holds (set_frozen (insert_frozen address v s.frozen_addresses) s)
  enable_frozen-WellFormed address v s h q =
      let more = length-insert_frozen address v s.frozen_addresses in
      let room = ltb→lt (length s.frozen_addresses) max_frozen_address_count q in
      record {
        slots = h.slots;
        ordered = insert_frozen-Ordered address v s.frozen_addresses h.ordered;
        few = omega (arith, more, room);
      }

  abort_unless_then :
      {A : Type 0} (b : Bool) (k : M A) (s : State)
      → LeftBy Holds (k s)
      → LeftBy Holds ((abort_unless b >> k) s)
  unfolding ◌>>=◌
  abort_unless_then true k s h = h
  abort_unless_then false k s h = tt

  pub enable_frozen_address-Keeping :
      (address width : ℕ) → Keeping sizes.opcodes_size (enable_frozen_address sys address width)
  unfolding enable_frozen_address read_cheat_process_memory_unsafe
  enable_frozen_address-Keeping address width =
      let size = sizes.opcodes_size in
      with_process-Keeping size sys _ (λ s h.
        elim (Bool-cases (ltb (length s.frozen_addresses) max_frozen_address_count)) [
          | inl q ↦ rw q (
              require_then size
                (elim (find_frozen address s.frozen_addresses) [ none ↦ true | some v ↦ false ])
                frozen_address_already_exists _ s h
                (abort_unless_then (leb width 8) _ s (read_then (sys.read address width) s h q)))
          | inr q ↦ rw q h
        ])
    where
      read_then :
          (r : ℕ ⊎ List ℕ) (s : State)
          → Holds s
          → ltb (length s.frozen_addresses) max_frozen_address_count ≡ true
          → LeftBy Holds (
              (elim r as (λ _. M (List ℕ)) [ inl e ↦ fail (svc e) | inr bytes ↦ pure bytes ]
                  >>= λ bytes.
                      modify (
                        set_frozen (
                          insert_frozen address
                            (record { value = le_value bytes; width = width })
                            s.frozen_addresses))
                      >> pure (le_value bytes))
                s)
      read_then (inl e) s h q = h
      read_then (inr bytes) s h q =
          enable_frozen-WellFormed address (record { value = le_value bytes; width = width }) s h q
