-- ===== src/CheatApi/Calls.antt =====
-- The commands of dmnt/source/cheat/dmnt_cheat_service.cpp, and the invariant that each of them keeps.
use nx_sysmodules.Base.{ℕ, Bool, true, false, ltb, leb, ◌==◌, List, length}
use nx_sysmodules.Base.Outcome.{◌>>◌, require, LeftBy}
use nx_sysmodules.CheatApi.State.{FrozenAddressValue, Entry, State, M, Sizes, System}
use nx_sysmodules.CheatApi.Process.{has_active_cheat_process}
use nx_sysmodules.CheatApi.Cheats.{Definition, toggle_cheat, add_cheat, remove_cheat}
use nx_sysmodules.CheatApi.Frozen.{
  write_cheat_process_memory, enable_frozen_address, disable_frozen_address,
}
use nx_sysmodules.CheatApi.Keeping.{WellFormed, Keeping, has_active_cheat_process-Keeping}
use nx_sysmodules.CheatApi.Steps.{require_then}
use nx_sysmodules.CheatApi.State.{Launch, MemoryInfo, Metadata}
use nx_sysmodules.CheatApi.Cheats.{collect_cheats, get_cheat_count, get_cheats, get_cheat_by_id}
use nx_sysmodules.CheatApi.Frozen.{
  collect_frozen, FrozenMap, read_cheat_process_memory, get_frozen_address,
  get_frozen_address_count, get_frozen_addresses,
}
use nx_sysmodules.CheatApi.Mappings.{
  query_cheat_process_memory, get_cheat_process_metadata, get_cheat_process_mapping_count,
  get_cheat_process_mappings, count_mappings, collect_mappings, address_count,
}
use nx_sysmodules.CheatApi.Entries.{has_opcodes}
use nx_sysmodules.Base.Slots.{count}
use nx_sysmodules.CheatApi.Attach.{attach_to_application_process}
use nx_sysmodules.CheatApi.Changes.{
  toggle_cheat-Keeping, add_cheat-Keeping, remove_cheat-Keeping, write_cheat_process_memory-Keeping,
  enable_frozen_address-Keeping, disable_frozen_address-Keeping,
}
use nx_sysmodules.CheatApi.Answers.{
  gets-Keeping, query_cheat_process_memory-Keeping, read_cheat_process_memory-Keeping,
  get_cheat_by_id-Keeping, get_frozen_address-Keeping,
}
use nx_sysmodules.CheatApi.Service.{enable_frozen_address_command, force_open_cheat_process_command}
use nx_sysmodules.Base.Outcome.{Outcome, ok, err, abort}
use nx_sysmodules.CheatApi.State.{ApiError, cheat_not_attached, frozen_address_invalid_width}
use Prim.Native.Nat.{bit_and, ◌-◌}
use nx_sysmodules.CheatApi.AttachKeeping.{attach_to_application_process-Keeping}

-- The commands of the service, but the one that hands out the handle of an event, and what the thread
-- that waits for launches does. The buffers of the commands are there.
pub data Call : Type 0 where
  has_process : Call
  get_metadata : Call
  force_open : Launch → Call
  launch_process : Launch → Call
  get_mapping_count : Call
  get_mappings : ℕ → ℕ → Call
  read_memory : ℕ → ℕ → Call
  write_memory : ℕ → List ℕ → Call
  query_memory : ℕ → Call
  count_cheats : Call
  list_cheats : ℕ → ℕ → Call
  get_cheat : ℕ → Call
  toggle : ℕ → Call
  add : Definition → Bool → Call
  remove : ℕ → Call
  count_frozen : Call
  list_frozen : ℕ → ℕ → Call
  get_frozen : ℕ → Call
  enable_frozen : ℕ → ℕ → Call
  disable_frozen : ℕ → Call

-- What a call answers.
abbrev pub Answer : Call → Type 0
Answer has_process = Bool
Answer get_metadata = Metadata
Answer (force_open launch) = Unit
Answer (launch_process launch) = Unit
Answer get_mapping_count = ℕ
Answer (get_mappings max_count offset) = List MemoryInfo
Answer (read_memory address size) = List ℕ
Answer (write_memory address bytes) = Unit
Answer (query_memory address) = MemoryInfo
Answer count_cheats = ℕ
Answer (list_cheats max_count offset) = List Entry
Answer (get_cheat id) = Entry
Answer (toggle id) = Unit
Answer (add d enabled) = Unit
Answer (remove id) = Unit
Answer count_frozen = ℕ
Answer (list_frozen max_count offset) = FrozenMap
Answer (get_frozen address) = ℕ × FrozenAddressValue
Answer (enable_frozen address width) = ℕ
Answer (disable_frozen address) = Unit

-- The commands forward to the cheat manager. The test that a buffer is there is left out, and a buffer
-- has the size that is asked for. The launch thread ignores what AttachToApplicationProcess returns.
unfoldable pub run_call : Sizes → System → (call : Call) → M (Answer call)
unfolding has_active_cheat_process get_cheat_process_metadata attach_to_application_process
    get_cheat_process_mapping_count get_cheat_process_mappings read_cheat_process_memory
    write_cheat_process_memory query_cheat_process_memory get_cheat_count get_cheats get_cheat_by_id
    toggle_cheat add_cheat remove_cheat get_frozen_address_count get_frozen_addresses
    get_frozen_address enable_frozen_address_command force_open_cheat_process_command
    disable_frozen_address
run_call sizes sys has_process = has_active_cheat_process sys
run_call sizes sys get_metadata = get_cheat_process_metadata sys
run_call sizes sys (force_open launch) = force_open_cheat_process_command sizes sys launch
run_call sizes sys (launch_process launch) = attach_to_application_process sizes sys launch true
run_call sizes sys get_mapping_count = get_cheat_process_mapping_count sys
run_call sizes sys (get_mappings max_count offset) = get_cheat_process_mappings sys max_count offset
run_call sizes sys (read_memory address size) = read_cheat_process_memory sys address size
run_call sizes sys (write_memory address bytes) = write_cheat_process_memory sys address bytes
run_call sizes sys (query_memory address) = query_cheat_process_memory sys address
run_call sizes sys count_cheats = get_cheat_count sizes sys
run_call sizes sys (list_cheats max_count offset) = get_cheats sizes sys max_count offset
run_call sizes sys (get_cheat id) = get_cheat_by_id sizes sys id
run_call sizes sys (toggle id) = toggle_cheat sizes sys id
run_call sizes sys (add d enabled) = add_cheat sizes sys d enabled
run_call sizes sys (remove id) = remove_cheat sizes sys id
run_call sizes sys count_frozen = get_frozen_address_count sys
run_call sizes sys (list_frozen max_count offset) = get_frozen_addresses sys max_count offset
run_call sizes sys (get_frozen address) = get_frozen_address sys address
run_call sizes sys (enable_frozen address width) = enable_frozen_address_command sys address width
run_call sizes sys (disable_frozen address) = disable_frozen_address sys address

module _ (sizes : Sizes) (sys : System) where
  enable_frozen_address_command-Keeping :
      (address width : ℕ)
      → Keeping sizes.opcodes_size (enable_frozen_address_command sys address width)
  unfolding enable_frozen_address_command
  enable_frozen_address_command-Keeping address width =
      checked (ltb 0 width)
        (require (leb width 8) frozen_address_invalid_width
          >> (require (bit_and width (width - 1) == 0) frozen_address_invalid_width
              >> enable_frozen_address sys address width))
        (checked (leb width 8)
          (require (bit_and width (width - 1) == 0) frozen_address_invalid_width
            >> enable_frozen_address sys address width)
          (checked (bit_and width (width - 1) == 0) (enable_frozen_address sys address width)
            (enable_frozen_address-Keeping sizes sys address width)))
    where
      checked :
          (b : Bool) (m : M ℕ)
          → Keeping sizes.opcodes_size m
          → Keeping sizes.opcodes_size (require b frozen_address_invalid_width >> m)
      checked b m k s h =
          require_then sizes.opcodes_size b frozen_address_invalid_width m s h (k s h)

  force_open_cheat_process_command-Keeping :
      (launch : Launch)
      → Keeping sizes.opcodes_size (force_open_cheat_process_command sizes sys launch)
  unfolding force_open_cheat_process_command
  force_open_cheat_process_command-Keeping launch s h =
      left (attach_to_application_process sizes sys launch false s)
        (attach_to_application_process-Keeping sizes sys launch false s h)
    where
      left :
          (r : Outcome State ApiError Unit)
          → LeftBy (WellFormed sizes.opcodes_size) r
          → LeftBy (WellFormed sizes.opcodes_size) (elim r as (λ _. Outcome State ApiError Unit) [
            | ok a t ↦ ok tt t
            | err e t ↦ err cheat_not_attached t
            | abort ↦ abort
          ])
      left (ok a t) k = k
      left (err e t) k = k
      left abort k = k

-- Every call of the service and of the thread that waits for launches, where it returns or fails,
-- leaves a well-formed manager as one: 0x80 slots, each with its index as its id and no more opcodes
-- than its array holds, and at most 0x80 frozen addresses, in order and none twice.
pub run_call-WellFormed :
    (sizes : Sizes) (sys : System) (call : Call) (s : State)
    → WellFormed sizes.opcodes_size s
    → LeftBy (WellFormed sizes.opcodes_size) (run_call sizes sys call s)
unfolding run_call
run_call-WellFormed sizes sys has_process s h =
    has_active_cheat_process-Keeping sizes.opcodes_size sys s h
run_call-WellFormed sizes sys get_metadata s h = gets-Keeping sizes sys (λ s. s.metadata) s h
run_call-WellFormed sizes sys (force_open launch) s h =
    force_open_cheat_process_command-Keeping sizes sys launch s h
run_call-WellFormed sizes sys (launch_process launch) s h =
    attach_to_application_process-Keeping sizes sys launch true s h
run_call-WellFormed sizes sys get_mapping_count s h =
    gets-Keeping sizes sys (λ s. count_mappings sys (address_count sys) 0 0) s h
run_call-WellFormed sizes sys (get_mappings max_count offset) s h =
    gets-Keeping sizes sys (λ s. collect_mappings sys (address_count sys) max_count offset 0) s h
run_call-WellFormed sizes sys (read_memory address size) s h =
    read_cheat_process_memory-Keeping sizes sys address size s h
run_call-WellFormed sizes sys (write_memory address bytes) s h =
    write_cheat_process_memory-Keeping sizes sys address bytes s h
run_call-WellFormed sizes sys (query_memory address) s h =
    query_cheat_process_memory-Keeping sizes sys address s h
run_call-WellFormed sizes sys count_cheats s h =
    gets-Keeping sizes sys (λ s. count has_opcodes s.entries) s h
run_call-WellFormed sizes sys (list_cheats max_count offset) s h =
    gets-Keeping sizes sys (λ s. collect_cheats max_count offset s.entries) s h
run_call-WellFormed sizes sys (get_cheat id) s h = get_cheat_by_id-Keeping sizes sys id s h
run_call-WellFormed sizes sys (toggle id) s h = toggle_cheat-Keeping sizes sys id s h
run_call-WellFormed sizes sys (add d enabled) s h = add_cheat-Keeping sizes sys d enabled s h
run_call-WellFormed sizes sys (remove id) s h = remove_cheat-Keeping sizes sys id s h
run_call-WellFormed sizes sys count_frozen s h =
    gets-Keeping sizes sys (λ s. length s.frozen_addresses) s h
run_call-WellFormed sizes sys (list_frozen max_count offset) s h =
    gets-Keeping sizes sys (λ s. collect_frozen max_count offset s.frozen_addresses) s h
run_call-WellFormed sizes sys (get_frozen address) s h =
    get_frozen_address-Keeping sizes sys address s h
run_call-WellFormed sizes sys (enable_frozen address width) s h =
    enable_frozen_address_command-Keeping sizes sys address width s h
run_call-WellFormed sizes sys (disable_frozen address) s h =
    disable_frozen_address-Keeping sizes sys address s h
