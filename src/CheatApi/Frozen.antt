-- ===== src/CheatApi/Frozen.antt =====
-- The frozen addresses of CheatProcessManager, dmnt/source/cheat/impl/dmnt_cheat_api.cpp: the map, as a
-- list in the order of the addresses, the handlers on it, and the writes that reach into it.
use nx_sysmodules.Base.{
  ℕ, zero, suc, ◌+◌, ◌-◌, ◌*◌, ◌/◌, ◌%◌, ◌^◌, inl, inr, true, false, ◌&&◌, Option, none, some, List,
  [], ◌∷◌, ltb, leb, ◌==◌, if◌then◌else◌, length, take, drop,
}
use nx_sysmodules.Base.Outcome.{
  ◌>>=◌, ◌>>◌, pure, fail, gets, modify, require, require_some, abort_unless,
}
use nx_sysmodules.CheatApi.State.{
  max_frozen_address_count, FrozenAddressValue, State, frozen_address_not_found,
  frozen_address_already_exists, frozen_address_out_of_resource, svc, M, System,
}
use nx_sysmodules.CheatApi.Process.{with_process}

abbrev pub FrozenMap : Type 0
FrozenMap = List (ℕ × FrozenAddressValue)

unfoldable pub find_frozen : ℕ → FrozenMap → Option FrozenAddressValue
find_frozen a [] = none
find_frozen a ((b, v) ∷ frozen) = let rest = find_frozen a frozen in if b == a then some v else rest

unfoldable pub insert_frozen : ℕ → FrozenAddressValue → FrozenMap → FrozenMap
insert_frozen a v [] = (a, v) ∷ []
insert_frozen a v ((b, w) ∷ frozen) =
    let rest = insert_frozen a v frozen in
    if ltb a b then (a, v) ∷ (b, w) ∷ frozen else if a == b then (a, v) ∷ frozen else (b, w) ∷ rest

unfoldable pub erase_frozen : ℕ → FrozenMap → FrozenMap
erase_frozen a [] = []
erase_frozen a ((b, w) ∷ frozen) =
    let rest = erase_frozen a frozen in if b == a then frozen else (b, w) ∷ rest

-- The loop of GetFrozenAddresses over the addresses that are left, with the room that is left and the
-- addresses that are still to be passed over.
unfoldable pub collect_frozen : ℕ → ℕ → FrozenMap → FrozenMap
collect_frozen room offset [] = []
collect_frozen zero offset (f ∷ frozen) = []
collect_frozen (suc room) zero (f ∷ frozen) = f ∷ collect_frozen room zero frozen
collect_frozen (suc room) (suc offset) (f ∷ frozen) = collect_frozen (suc room) offset frozen

-- The value of bytes in the order of memory.
unfoldable pub le_value : List ℕ → ℕ
le_value [] = 0
le_value (b ∷ bytes) = b + 256 * le_value bytes

-- The low bytes of a value are overwritten.
unfoldable pub overlay : List ℕ → ℕ → ℕ
unfolding le_value
overlay bytes value = le_value bytes + value / 256 ^ length bytes * 256 ^ length bytes

abbrev pub u64 : ℕ → ℕ
u64 n = n % 2 ^ 64

-- The loop of WriteCheatProcessMemoryUnsafe.
unfoldable pub update_frozen : ℕ → List ℕ → FrozenMap → FrozenMap
unfolding overlay
update_frozen address bytes [] = []
update_frozen address bytes ((a, v) ∷ frozen) =
    let last = u64 (address + length bytes) in
    let rest = update_frozen address bytes frozen in
    let value = record v { value = overlay (take 8 (drop (a - address) bytes)) v.value } in
    if leb last a
    then (a, v) ∷ frozen
    else (a, if leb address a && ltb a last then value else v) ∷ rest

abbrev pub set_frozen : FrozenMap → State → State
set_frozen frozen s = record s { frozen_addresses = frozen }

module _ (sys : System) where
  unfoldable pub read_cheat_process_memory_unsafe : ℕ → ℕ → M (List ℕ)
  read_cheat_process_memory_unsafe address size = elim (sys.read address size) [
    | inl e ↦ fail (svc e)
    | inr bytes ↦ pure bytes
  ]

  unfoldable pub write_cheat_process_memory_unsafe : ℕ → List ℕ → M (Unit {0})
  unfolding update_frozen
  write_cheat_process_memory_unsafe address bytes = elim (sys.write address bytes) [
    | some e ↦ fail (svc e)
    | none ↦ modify (λ s. set_frozen (update_frozen address bytes s.frozen_addresses) s)
  ]

  unfoldable pub read_cheat_process_memory : ℕ → ℕ → M (List ℕ)
  unfolding with_process read_cheat_process_memory_unsafe
  read_cheat_process_memory address size =
      with_process sys (read_cheat_process_memory_unsafe address size)

  unfoldable pub write_cheat_process_memory : ℕ → List ℕ → M (Unit {0})
  unfolding with_process write_cheat_process_memory_unsafe
  write_cheat_process_memory address bytes =
      with_process sys (write_cheat_process_memory_unsafe address bytes)

  unfoldable pub get_frozen_address_count : M ℕ
  unfolding with_process
  get_frozen_address_count = with_process sys (gets (λ s. length s.frozen_addresses))

  unfoldable pub get_frozen_addresses : ℕ → ℕ → M FrozenMap
  unfolding with_process collect_frozen
  get_frozen_addresses max_count offset =
      with_process sys (gets (λ s. collect_frozen max_count offset s.frozen_addresses))

  unfoldable pub get_frozen_address : ℕ → M (ℕ × FrozenAddressValue)
  unfolding ◌>>=◌ with_process find_frozen
  get_frozen_address address = with_process sys (do
    s ← gets (λ s. s)
    v ← require_some (find_frozen address s.frozen_addresses) frozen_address_not_found
    pure (address, v))

  -- A read of more than the eight bytes of the value is out of bounds: what it does is not said, and it
  -- counts as an abort. The service lets no such width through.
  unfoldable pub enable_frozen_address : ℕ → ℕ → M ℕ
  unfolding ◌>>=◌ with_process find_frozen insert_frozen le_value read_cheat_process_memory_unsafe
  enable_frozen_address address width = with_process sys (do
    s ← gets (λ s. s)
    require (ltb (length s.frozen_addresses) max_frozen_address_count)
        frozen_address_out_of_resource
    require (elim (find_frozen address s.frozen_addresses) [ none ↦ true | some v ↦ false ])
        frozen_address_already_exists
    abort_unless (leb width 8)
    bytes ← read_cheat_process_memory_unsafe address width
    modify (
        set_frozen (
          insert_frozen address (record { value = le_value bytes; width = width })
            s.frozen_addresses))
    pure (le_value bytes))

  unfoldable pub disable_frozen_address : ℕ → M (Unit {0})
  unfolding ◌>>=◌ with_process find_frozen erase_frozen
  disable_frozen_address address = with_process sys (do
    s ← gets (λ s. s)
    v ← require_some (find_frozen address s.frozen_addresses) frozen_address_not_found
    modify (set_frozen (erase_frozen address s.frozen_addresses)))
