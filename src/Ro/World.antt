-- ===== src/Ro/World.antt =====
-- What ro/source/impl takes from the kernel, from libstratosphere and from the headers that a process
-- hands it. Nothing of it is in the repository.
use nx_sysmodules.Base.{ℕ, ◌%◌, ◌^◌, Bool, Option, List}

abbrev pub Handle : Type 0
Handle = ℕ

abbrev pub invalid_handle : Handle
invalid_handle = 0

abbrev pub u64 : ℕ → ℕ
u64 x = x % 2 ^ 64

pub data SvcError : Type 0 where
  invalid_current_memory : SvcError
  other_error : ℕ → SvcError

pub data SvcResult (A : Type 0) : Type 0 where
  success : A → SvcResult A
  failure : SvcError → SvcResult A

-- What is read of an NRO through `NroHeader`, whose sizes and offsets are 32-bit fields; the content is
-- all of it.
pub record NroHeader : Type 0 where
  pub magic_valid : Bool
  pub size : ℕ
  pub text_offset : ℕ
  pub text_size : ℕ
  pub ro_offset : ℕ
  pub ro_size : ℕ
  pub rw_offset : ℕ
  pub rw_size : ℕ
  pub bss_size : ℕ
  pub module_id : List ℕ
  pub content : List ℕ

-- What is read of an NRR through `NrrHeader`, whose sizes and offsets are 32-bit fields; the hashes are
-- what stands from its hashes offset on.
pub record NrrHeader : Type 0 where
  pub magic_valid : Bool
  pub size : ℕ
  pub key_generation : ℕ
  pub certification_signature : List ℕ
  pub certification_signed_area : List ℕ
  pub certification_modulus : List ℕ
  pub program_id_valid : Bool
  pub signature : List ℕ
  pub signed_area : List ℕ
  pub signed_area_size : ℕ
  pub program_id : ℕ
  pub module_type : ℕ
  pub hashes_offset : ℕ
  pub num_hashes : ℕ
  pub hashes : List (List ℕ)

-- The answers of the system, over the mappings `Mem` of all processes.
pub record Kernel (Mem : Type 0) : Type 0 where
  -- os::TryGetProcessId, svcGetInfo of the program id, and pm::info::GetProgramId of a process.
  pub process_id_of : Handle → Option ℕ
  pub program_id_of : Handle → Option ℕ
  pub ask_pm : ℕ → Option ℕ
  -- map::MapCodeMemoryInProcess, which chooses the address, at the attempt; MappedCodeMemory at an
  -- address; and the unmapping when a MappedCodeMemory is destroyed.
  pub map_anywhere : ℕ → Mem → Handle → ℕ → ℕ → SvcResult (ℕ × Mem)
  pub map_at : Mem → Handle → ℕ → ℕ → ℕ → SvcResult Mem
  pub destroy : Mem → Handle → ℕ → ℕ → ℕ → Mem
  pub can_add_guard_regions : Mem → Handle → ℕ → ℕ → Bool
  -- svcUnmapProcessCodeMemory and svcSetProcessMemoryPermission.
  pub unmap : Mem → Handle → ℕ → ℕ → ℕ → SvcResult Mem
  pub set_permission : Mem → Handle → ℕ → ℕ → ℕ → SvcResult Mem
  -- map::LocateMappableSpace; map::AutoCloseMap, the mapping of a process's memory into ro, opened and
  -- closed; and svcUnmapProcessMemory.
  pub locate_mappable_space : Mem → ℕ → Option ℕ
  pub open_map : Mem → ℕ → Handle → ℕ → ℕ → SvcResult Mem
  pub close_map : Mem → ℕ → Handle → ℕ → ℕ → Mem
  pub unmap_own : Mem → ℕ → Handle → ℕ → ℕ → SvcResult Mem
  -- What stands in ro's memory at an address where an NRO or an NRR is mapped.
  pub nro_header : Mem → ℕ → NroHeader
  pub nrr_header : Mem → ℕ → NrrHeader
  -- LocateAndApplyIpsPatchesToModule of a module id, on the mapped bytes.
  pub apply_patches : Mem → List ℕ → ℕ → ℕ → Mem
  -- crypto::GenerateSha256Hash and crypto::VerifyRsa2048PssSha256 of a modulus, a message and a
  -- signature.
  pub sha256 : List ℕ → List ℕ
  pub verify_rsa : List ℕ → List ℕ → List ℕ → Bool
  pub dev_modulus : ℕ → List ℕ
  pub prod_modulus : ℕ → List ℕ
  -- settings::fwdbg::GetSettingsItemValue of "ease_nro_restriction", where it is one byte.
  pub ease_setting : Option ℕ
  pub is_3_0_0 : Bool
  pub is_7_0_0 : Bool
  pub is_9_1_0 : Bool
  pub page_size : ℕ
  -- NrrHeader::GetSignedAreaOffset() and sizeof(NrrHeader).
  pub signed_area_offset : ℕ
  pub nrr_header_size : ℕ
