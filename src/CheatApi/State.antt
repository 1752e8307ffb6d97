-- ===== src/CheatApi/State.antt =====
-- CheatProcessManager of dmnt/source/cheat/impl/dmnt_cheat_api.cpp: its members, and what it takes from
-- the kernel, from pm and from the SD card.
use nx_sysmodules.Base.{ℕ, Bool, Option, List, ◌⊎◌}
use nx_sysmodules.Base.Outcome.{Outcome}

abbrev pub max_cheat_count : ℕ
max_cheat_count = 0x80

abbrev pub max_frozen_address_count : ℕ
max_frozen_address_count = 0x80

-- CheatEntry with its CheatDefinition. The name is the bytes before its first zero, the opcodes are the
-- first `num_opcodes` of the array.
pub record Entry : Type 0 where
  pub enabled : Bool
  pub cheat_id : ℕ
  pub readable_name : List ℕ
  pub opcodes : List ℕ

pub record FrozenAddressValue : Type 0 where
  pub value : ℕ
  pub width : ℕ

-- CheatProcessMetadata, as far as the manager reads it.
pub record Metadata : Type 0 where
  pub process_id : ℕ
  pub program_id : ℕ

abbrev pub no_metadata : Metadata
no_metadata = record { process_id = 0; program_id = 0 }

-- The members; what SaveCheatToggles wrote, each time with its program id, the last one first; and how
-- often the cheat process event was signalled, and the processes that were started, the last one first.
-- The frozen addresses are in the order of std::map.
pub record State : Type 0 where
  pub debug_handle : Option ℕ
  pub metadata : Metadata
  pub needs_reload_vm : Bool
  pub enable_cheats_by_default : Bool
  pub always_save_cheat_toggles : Bool
  pub should_save_cheat_toggles : Bool
  pub entries : List Entry
  pub frozen_addresses : List (ℕ × FrozenAddressValue)
  pub saved : List (ℕ × List ℕ)
  pub signals : ℕ
  pub started : List ℕ

pub data ApiError : Type 0 where
  cheat_not_attached cheat_unknown_id cheat_cannot_disable cheat_invalid : ApiError
  cheat_out_of_resource frozen_address_not_found frozen_address_already_exists : ApiError
  frozen_address_out_of_resource frozen_address_invalid_width : ApiError
  svc : ℕ → ApiError

abbrev pub M : Type 0 → Type 0
M A = State → Outcome State ApiError A

-- MemoryInfo, as far as the manager reads it; the permission 0 is Perm_None.
pub record MemoryInfo : Type 0 where
  pub address : ℕ
  pub size : ℕ
  pub permission : ℕ

-- The sizes of the arrays of CheatDefinition, which libstratosphere declares.
pub record Sizes : Type 0 where
  pub name_size : ℕ
  pub opcodes_size : ℕ

-- The answers of the system during one call.
pub record System : Type 0 where
  -- os::TryGetProcessId of the debug handle, pm::dmnt::GetApplicationProcessId, svc::CloseHandle.
  pub has_process_id : ℕ → Bool
  pub application_process_id : ℕ ⊎ ℕ
  pub can_close : ℕ → Bool
  -- svcReadDebugProcessMemory of an address and a size: an error, or the bytes; and the error of
  -- svcWriteDebugProcessMemory, if there is one.
  pub read : ℕ → ℕ → ℕ ⊎ List ℕ
  pub write : ℕ → List ℕ → Option ℕ
  -- svcQueryDebugProcessMemory of an address.
  pub query : ℕ → ℕ ⊎ MemoryInfo
  -- fs::OpenFile of the file of toggles to be written, and the n-th fs::WriteFile to it.
  pub can_open_toggles : ℕ → Bool
  pub can_write : ℕ → Bool

-- What AttachToApplicationProcess asks for besides: whether pm starts a process; the program id of a
-- process and whether its override status enables cheats, from pm; whether its address space is told
-- and the handle that pm gave of it is closed; how many modules loader reports; the debug handle from
-- the kernel; and the texts on the SD card, that of the toggles with whether it opened.
pub record Launch : Type 0 where
  pub can_start : ℕ → Bool
  pub process_info : ℕ → ℕ ⊎ (ℕ × Bool)
  pub has_address_space : ℕ → Bool
  pub can_close_process : ℕ → Bool
  pub module_count : ℕ → ℕ ⊎ ℕ
  pub debug_active_process : ℕ → ℕ ⊎ ℕ
  pub cheats_text : ℕ → Option (List ℕ)
  pub toggles_text : ℕ → Option (Option (List ℕ))
