-- ===== src/CheatApi/Freezing.antt =====
-- EnableFrozenAddress of dmnt/source/cheat/dmnt_cheat_service.cpp and DisableFrozenAddress of
-- dmnt/source/cheat/impl/dmnt_cheat_api.cpp after each other.
use nx_sysmodules.Base.{
  ℕ, ◌≡◌, ◌<◌, ◌^◌, ◌⊎◌, All, leb, refl, ◌∙◌, inl, inr, true, ltb, ◌==◌, none, some, List, [], ◌∷◌,
  if◌then◌else◌, length, Bool-cases, arith,
}
use nx_sysmodules.Base.Outcome.{ok, ◌>>=◌, ◌>>◌, pure, modify, require_some, bind_ok}
use nx_sysmodules.CheatApi.State.{
  max_frozen_address_count, FrozenAddressValue, State, frozen_address_not_found, System,
}
use nx_sysmodules.CheatApi.Process.{is_attached}
use nx_sysmodules.CheatApi.Frozen.{
  FrozenMap, find_frozen, insert_frozen, erase_frozen, le_value, set_frozen,
  read_cheat_process_memory_unsafe, enable_frozen_address, disable_frozen_address,
}
use nx_sysmodules.CheatApi.Service.{enable_frozen_address_command}
use nx_sysmodules.CheatApi.FrozenLaws.{Ordered, find_frozen-insert_frozen}
use nx_sysmodules.CheatApi.Paging.{with_process-attached}

erase_frozen-insert_frozen :
    (a : ℕ) (v : FrozenAddressValue) (frozen : FrozenMap)
    → find_frozen a frozen ≡ none
    → erase_frozen a (insert_frozen a v frozen) ≡ frozen
unfolding find_frozen insert_frozen erase_frozen
erase_frozen-insert_frozen a v [] h = ground arith
erase_frozen-insert_frozen a v ((b, w) ∷ frozen) h = elim (Bool-cases (b == a)) [
  | inl q ↦ let r = rw q at h in cc
  | inr q ↦ let rest = erase_frozen-insert_frozen a v frozen (rw q at h) in ground (arith, rest, q)
]

le_value-bound : (bytes : List ℕ) → All (λ b. b < 256) bytes → le_value bytes < 256 ^ length bytes
unfolding le_value
le_value-bound [] h = ground arith
le_value-bound (b ∷ bytes) h = grind (arith, h.0, le_value-bound bytes h.1)

-- A width in bytes that a value can be frozen with.
unfoldable pub IsWidth : ℕ → Type 0
IsWidth width = (width ≡ 1) ⊎ ((width ≡ 2) ⊎ ((width ≡ 4) ⊎ (width ≡ 8)))

module _ (sys : System) where
  still_attached :
      (s : State) (frozen : FrozenMap)
      → is_attached sys s ≡ true
      → is_attached sys (set_frozen frozen s) ≡ true
  unfolding is_attached
  still_attached s frozen h = h

  read_cheat_process_memory_unsafe_lem :
      (a width : ℕ) (bytes : List ℕ) (s : State)
      → sys.read a width ≡ inr bytes
      → read_cheat_process_memory_unsafe sys a width s ≡ ok bytes s
  unfolding read_cheat_process_memory_unsafe
  read_cheat_process_memory_unsafe_lem a width bytes s q =
      rw (read_cheat_process_memory_unsafe, q) refl

  -- The end of DisableFrozenAddress on the address that was just frozen.
  disabled :
      (a : ℕ) (v : FrozenAddressValue) (s : State)
      → find_frozen a s.frozen_addresses ≡ none
      → Ordered s.frozen_addresses
      → (require_some
              (find_frozen a (insert_frozen a v s.frozen_addresses))
              frozen_address_not_found
            >>= λ w. modify (set_frozen (erase_frozen a (insert_frozen a v s.frozen_addresses))))
          (set_frozen (insert_frozen a v s.frozen_addresses) s)
        ≡ ok tt s
  unfolding ◌>>=◌
  disabled a v s new order =
      let found = find_frozen-insert_frozen a a v s.frozen_addresses order in
      let same : find_frozen a (insert_frozen a v s.frozen_addresses) ≡ some v =
        ground (arith, found) in
      rw (same, erase_frozen-insert_frozen a v s.frozen_addresses new) refl

  -- EnableFrozenAddress with a width that its value has room for.
  enable_frozen_address_lem :
      (address width : ℕ) (bytes : List ℕ) (s : State)
      → is_attached sys s ≡ true
      → ltb (length s.frozen_addresses) max_frozen_address_count ≡ true
      → find_frozen address s.frozen_addresses ≡ none
      → leb width 8 ≡ true
      → sys.read address width ≡ inr bytes
      → enable_frozen_address sys address width s
        ≡ ok (le_value bytes) (
            set_frozen
              (insert_frozen address
                (record { value = le_value bytes; width = width })
                s.frozen_addresses)
              s)
  unfolding enable_frozen_address
  enable_frozen_address_lem address width bytes s attached room new fits read =
      with_process-attached sys _ s attached
      ∙ rw (room, new, fits)
          (bind_ok (read_cheat_process_memory_unsafe sys address width)
            (λ bytes.
              modify (
                set_frozen (
                  insert_frozen address (record { value = le_value bytes; width = width })
                    s.frozen_addresses))
              >> pure (le_value bytes))
            s (read_cheat_process_memory_unsafe_lem address width bytes s read))

  -- The widths of the service are those that are a power of two and have room in the value.
  enable_frozen_address_command_lem :
      (address width : ℕ) (s : State)
      → IsWidth width
      → (enable_frozen_address_command sys address width s
          ≡ enable_frozen_address sys address width s)
        × (leb width 8 ≡ true)
  unfolding enable_frozen_address_command ◌>>=◌ IsWidth
  enable_frozen_address_command_lem address width s (inl q) = rw q (refl, refl)
  enable_frozen_address_command_lem address width s (inr (inl q)) = rw q (refl, refl)
  enable_frozen_address_command_lem address width s (inr (inr (inl q))) = rw q (refl, refl)
  enable_frozen_address_command_lem address width s (inr (inr (inr q))) = rw q (refl, refl)

  -- While the process is attached, the service's command on a width of 1, 2, 4 or 8 bytes and an
  -- address that is not frozen and can be read, where the kernel reads as many bytes as are asked for,
  -- freezes it, where there is room, with the value that is read, which has no more than the width's
  -- bytes; it is then found with that value and its width, any other address as before, and disabling
  -- it leaves the members as they were.
  pub enable_frozen_address_command-disable_frozen_address :
      (address width : ℕ) (bytes : List ℕ) (s : State)
      → IsWidth width
      → is_attached sys s ≡ true
      → ltb (length s.frozen_addresses) max_frozen_address_count ≡ true
      → find_frozen address s.frozen_addresses ≡ none
      → Ordered s.frozen_addresses
      → sys.read address width ≡ inr bytes
      → length bytes ≡ width
      → All (λ b. b < 256) bytes
      → (t : State) × (enable_frozen_address_command sys address width s ≡ ok (le_value bytes) t)
        × (le_value bytes < 256 ^ width)
        × ((c : ℕ)
            → find_frozen c t.frozen_addresses ≡ (
                if address == c
                then some (record { value = le_value bytes; width = width })
                else find_frozen c s.frozen_addresses))
        × (disable_frozen_address sys address t ≡ ok tt s)
  unfolding disable_frozen_address
  enable_frozen_address_command-disable_frozen_address address width bytes s w attached room new
        order read enough small =
      let v : FrozenAddressValue = record { value = le_value bytes; width = width } in
      let t : State = set_frozen (insert_frozen address v s.frozen_addresses) s in
      let command = enable_frozen_address_command_lem address width s w in
      (
        t,
        command.0
            ∙ enable_frozen_address_lem address width bytes s attached room new command.1 read,
        rw (← enough) (le_value-bound bytes small),
        (λ c. find_frozen-insert_frozen address c v s.frozen_addresses order),
        with_process-attached sys _ t
              (still_attached s (insert_frozen address v s.frozen_addresses) attached)
            ∙ disabled address v s new order,
      )
