-- ===== src/CheatApi/Tests.antt =====
-- Concrete cheats and toggles, dmnt/source/cheat/impl/dmnt_cheat_api.cpp.
use nx_sysmodules.Base.{
  ℕ, zero, suc, ◌≡◌, ◌^◌, ◌<◌, refl, inl, inr, Bool, true, false, none, some, List, [], ◌∷◌, ◌==◌,
  if◌then◌else◌, length, take, drop, arith, bytes_eq,
}
use nx_sysmodules.Base.Outcome.{ok, LeftBy}
use nx_sysmodules.Base.{ltb, Bool-cases}
use nx_sysmodules.CheatApi.State.{MemoryInfo, Entry, State, Sizes, System, Launch}
use nx_sysmodules.CheatApi.Entries.{empty_entry}
use nx_sysmodules.CheatApi.Toggles.{accepted, parse_cheat_toggles}
use nx_sysmodules.CheatApi.Saving.{save_cheat_toggles, IsToggleName, with_flags}
use nx_sysmodules.CheatApi.SavedToggles.{parse_cheat_toggles-save_cheat_toggles}
use nx_sysmodules.CheatApi.Parsing.{parse_cheats}
use nx_sysmodules.CheatApi.Process.{is_attached}
use nx_sysmodules.CheatApi.Attach.{attach_to_application_process}
use nx_sysmodules.CheatApi.Cheats.{Definition, get_cheat_count, get_cheats}
use nx_sysmodules.CheatApi.Frozen.{
  find_frozen, le_value, get_frozen_address_count, get_frozen_addresses, disable_frozen_address,
}
use nx_sysmodules.CheatApi.WellFormed.{AreSlots, Slots}
use nx_sysmodules.CheatApi.Parses.{Ends, parse_cheat_toggles-Ends}
use nx_sysmodules.CheatApi.ParsesCheats.{parse_cheats-Ends}
use nx_sysmodules.CheatApi.Started.{attach_to_application_process-started}
use nx_sysmodules.CheatApi.Keeping.{WellFormed}
use nx_sysmodules.CheatApi.Calls.{add, run_call, run_call-WellFormed}
use nx_sysmodules.CheatApi.Paging.{cheats, get_cheats-get_frozen_addresses}
use nx_sysmodules.CheatApi.Mappings.{get_cheat_process_mapping_count, get_cheat_process_mappings}
use nx_sysmodules.CheatApi.Regions.{Holds, Walk, get_cheat_process_mappings-Walk}
use nx_sysmodules.CheatApi.Service.{enable_frozen_address_command}
use nx_sysmodules.CheatApi.Freezing.{IsWidth, enable_frozen_address_command-disable_frozen_address}

abbrev sizes : Sizes
sizes = record { name_size = 0x40; opcodes_size = 0x100 }

-- A system on which every call succeeds.
-- The two halves of the address space: only the low one has a permission.
abbrev low_half : MemoryInfo
low_half = record { address = 0; size = 2 ^ 63; permission = 3 }

abbrev high_half : MemoryInfo
high_half = record { address = 2 ^ 63; size = 2 ^ 63; permission = 0 }

abbrev sys : System
sys = record {
  has_process_id = λ h. true;
  application_process_id = inr 0x51;
  can_close = λ h. true;
  read = λ a n. inr (0x2A ∷ 0 ∷ 0 ∷ 0 ∷ []);
  write = λ a bytes. none;
  query = λ a. inr (if ltb a (2 ^ 63) then low_half else high_half);
  can_open_toggles = λ p. true;
  can_write = λ n. true;
}

abbrev cheat : List ℕ → Bool → Entry
cheat name b = record { enabled = b; cheat_id = 1; readable_name = name; opcodes = 0x20000000 ∷ [] }

abbrev infinite_lives : List ℕ
infinite_lives = 0x6C ∷ 0x69 ∷ 0x76 ∷ 0x65 ∷ 0x73 ∷ []

abbrev max_coins : List ℕ
max_coins = 0x63 ∷ 0x6F ∷ 0x69 ∷ 0x6E ∷ 0x73 ∷ []

lives_not_coins : bytes_eq infinite_lives max_coins ≡ false
unfolding bytes_eq
lives_not_coins = refl

no_name : bytes_eq [] max_coins ≡ false
unfolding bytes_eq
no_name = refl

lives_letters : IsToggleName 0x40 infinite_lives
lives_letters = ((refl, (refl, (refl, (refl, (refl, tt))))), omega arith)

coins_letters : IsToggleName 0x40 max_coins
coins_letters = ((refl, (refl, (refl, (refl, (refl, tt))))), omega arith)

parse_cheat_toggles-save_cheat_toggles_example :
    parse_cheat_toggles 0x40
      (empty_entry 0 ∷ cheat infinite_lives true ∷ empty_entry 2 ∷ cheat max_coins true ∷ [])
      (save_cheat_toggles
        (λ _. true)
        (empty_entry 0 ∷ cheat infinite_lives false ∷ empty_entry 2 ∷ cheat max_coins true ∷ []))
    ≡ accepted (
        empty_entry 0
        ∷ with_flags
            (cheat infinite_lives false ∷ empty_entry 2 ∷ cheat max_coins true ∷ [])
            (cheat infinite_lives true ∷ empty_entry 2 ∷ cheat max_coins true ∷ []))
parse_cheat_toggles-save_cheat_toggles_example =
    parse_cheat_toggles-save_cheat_toggles 0x40 (empty_entry 0) (empty_entry 0)
      (cheat infinite_lives false ∷ empty_entry 2 ∷ cheat max_coins true ∷ [])
      (cheat infinite_lives true ∷ empty_entry 2 ∷ cheat max_coins true ∷ [])
      (refl, refl, (refl, refl, (refl, refl, tt)))
      (
        (λ _. (lives_letters, tt)),
        ((λ e. cc), ((λ _. (coins_letters, (lives_not_coins, (no_name, tt)))), tt)),
      )

-- Empty slots.
abbrev slots_from : ℕ → ℕ → List Entry
slots_from i zero = []
slots_from i (suc n) = empty_entry i ∷ slots_from (suc i) n

slots_from-AreSlots : (i n : ℕ) → AreSlots 0x100 i (slots_from i n)
slots_from-AreSlots i zero = tt
slots_from-AreSlots i (suc n) =
    (record { numbered = refl; bounded = omega arith }, slots_from-AreSlots (suc i) n)

slots_from-Slots : Slots 0x100 (slots_from 0 0x80)
slots_from-Slots = record { all = slots_from-AreSlots 0 0x80; count = refl }

parse_cheat_toggles-Ends_example :
    Ends
      (Slots 0x100)
      (parse_cheat_toggles 0x40 (slots_from 0 0x80) (0x5B ∷ 0x61 ∷ 0x5D ∷ 0x31 ∷ 0x0A ∷ []))
parse_cheat_toggles-Ends_example =
    parse_cheat_toggles-Ends 0x100 0x40 (slots_from 0 0x80) (0x5B ∷ 0x61 ∷ 0x5D ∷ 0x31 ∷ 0x0A ∷ [])
      slots_from-Slots

parse_cheats-Ends_example :
    Ends
      (Slots 0x100)
      (parse_cheats sizes true (slots_from 0 0x80) (0x5B ∷ 0x61 ∷ 0x5D ∷ 0x30 ∷ []))
parse_cheats-Ends_example =
    parse_cheats-Ends sizes true (slots_from 0 0x80) (0x5B ∷ 0x61 ∷ 0x5D ∷ 0x30 ∷ [])
      slots_from-Slots

-- A manager with a process attached.
abbrev attached : State
attached = record {
  debug_handle = some 7;
  metadata = record { process_id = 0x51; program_id = 0x0100 };
  needs_reload_vm = false;
  enable_cheats_by_default = true;
  always_save_cheat_toggles = false;
  should_save_cheat_toggles = false;
  entries = slots_from 0 0x80;
  frozen_addresses = [];
  saved = [];
  signals = 0;
  started = [];
}

abbrev definition : Definition
definition = record { readable_name = max_coins; num_opcodes = 1; opcodes = 0x20000000 ∷ 0 ∷ [] }

run_call-WellFormed_example :
    LeftBy (WellFormed 0x100) (run_call sizes sys (add definition true) attached)
run_call-WellFormed_example =
    run_call-WellFormed sizes sys (add definition true) attached
      (record { slots = slots_from-Slots; ordered = tt; few = omega arith })

-- An application of two modules, without cheats on the SD card.
abbrev launch : Launch
launch = record {
  can_start = λ p. true;
  process_info = λ p. inr (0x0100, true);
  has_address_space = λ p. true;
  can_close_process = λ p. true;
  module_count = λ p. inr 2;
  debug_active_process = λ p. inr 9;
  cheats_text = λ p. none;
  toggles_text = λ p. none;
}

attach_to_application_process-started_example :
    LeftBy
      (λ (t : State). t.started ≡ 0x51 ∷ [])
      (attach_to_application_process sizes sys launch true attached)
attach_to_application_process-started_example =
    attach_to_application_process-started sizes sys launch 0x51 attached refl

is_attached_example : is_attached sys attached ≡ true
unfolding is_attached
is_attached_example = refl

abbrev with_cheats : State
with_cheats = record attached {
  entries = empty_entry 0 ∷ cheat infinite_lives true ∷ cheat max_coins true ∷ [];
}

with_cheats-attached : is_attached sys with_cheats ≡ true
unfolding is_attached
with_cheats-attached = refl

get_cheats-get_frozen_addresses_example :
    (get_cheat_count sizes sys with_cheats ≡ ok (length (cheats with_cheats.entries)) with_cheats)
    × (get_cheats sizes sys 1 1 with_cheats
        ≡ ok (take 1 (drop 1 (cheats with_cheats.entries))) with_cheats)
    × (get_frozen_address_count sys with_cheats ≡ ok 0 with_cheats)
    × (get_frozen_addresses sys 1 1 with_cheats ≡ ok [] with_cheats)
get_cheats-get_frozen_addresses_example =
    get_cheats-get_frozen_addresses sizes sys 1 1 with_cheats with_cheats-attached

nothing_frozen : find_frozen 0x8000 attached.frozen_addresses ≡ none
unfolding find_frozen
nothing_frozen = refl

enable_frozen_address_command-disable_frozen_address_example :
    (t : State) × (enable_frozen_address_command sys 0x8000 4 attached
      ≡ ok (le_value (0x2A ∷ 0 ∷ 0 ∷ 0 ∷ [])) t)
    × (le_value (0x2A ∷ 0 ∷ 0 ∷ 0 ∷ []) < 256 ^ 4)
    × ((c : ℕ)
        → find_frozen c t.frozen_addresses ≡ (
            if 0x8000 == c
            then some (record { value = le_value (0x2A ∷ 0 ∷ 0 ∷ 0 ∷ []); width = 4 })
            else find_frozen c attached.frozen_addresses))
    × (disable_frozen_address sys 0x8000 t ≡ ok tt attached)
enable_frozen_address_command-disable_frozen_address_example =
    enable_frozen_address_command-disable_frozen_address sys 0x8000 4 (0x2A ∷ 0 ∷ 0 ∷ 0 ∷ [])
      attached (unfold IsWidth in inr (inr (inl refl))) is_attached_example refl nothing_frozen tt
      refl refl (omega arith, (omega arith, (omega arith, (omega arith, tt))))

half-Holds : (a : ℕ) (info : MemoryInfo) → a < 2 ^ 64 → sys.query a ≡ inr info → Holds a info
half-Holds a info l q = elim (Bool-cases (ltb a (2 ^ 63))) [
  | inl low ↦
      let same : low_half ≡ info = ground arith in
      rw (← same) (record { starts = omega arith; ends = ground arith; fits = omega arith })
  | inr high ↦
      let same : high_half ≡ info = ground arith in
      rw (← same) (record { starts = ground arith; ends = omega (arith, l); fits = omega arith })
]

get_cheat_process_mappings-Walk_example :
    (regions : List MemoryInfo) × Walk sys 0 regions
    × (get_cheat_process_mapping_count sys attached ≡ ok (length regions) attached)
    × ((max_count offset : ℕ)
        → get_cheat_process_mappings sys max_count offset attached
          ≡ ok (take max_count (drop offset regions)) attached)
get_cheat_process_mappings-Walk_example =
    get_cheat_process_mappings-Walk sys half-Holds attached is_attached_example
