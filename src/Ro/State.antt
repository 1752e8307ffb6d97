-- ===== src/Ro/State.antt =====
-- The contexts of ro/source/impl/ro_service_impl.cpp and their tables.
use nx_sysmodules.Base.{
  ℕ, suc, Bool, true, false, ◌&&◌, Option, none, some, List, [], ◌∷◌, ◌==◌, if◌then◌else◌, get_or,
  set, replicate, bytes_eq,
}
use nx_sysmodules.Base.Outcome.{Outcome, ok, err}
use nx_sysmodules.Ro.World.{Handle, SvcError, SvcResult, success, failure}

abbrev pub max_sessions : ℕ
max_sessions = 3

abbrev pub max_nrr_infos : ℕ
max_nrr_infos = 0x40

abbrev pub max_nro_infos : ℕ
max_nro_infos = 0x40

pub record NroInfo : Type 0 where
  pub base_address : ℕ
  pub nro_heap_address : ℕ
  pub nro_heap_size : ℕ
  pub bss_heap_address : ℕ
  pub bss_heap_size : ℕ
  pub code_size : ℕ
  pub rw_size : ℕ
  pub module_id : List ℕ

-- `mapped_header` is a pointer into ro's own memory.
pub record NrrInfo : Type 0 where
  pub mapped_header : ℕ
  pub nrr_heap_address : ℕ
  pub nrr_heap_size : ℕ
  pub mapped_code_address : ℕ
  pub cached_signed_area_size : ℕ
  pub cached_hashes_offset : ℕ
  pub cached_num_hashes : ℕ
  pub cached_signed_area : List ℕ
  pub signed_area_hash : List ℕ

pub record ProcessContext : Type 0 where
  pub nro_in_use : List Bool
  pub nrr_in_use : List Bool
  pub nro_infos : List NroInfo
  pub nrr_infos : List NrrInfo
  pub process_handle : Handle
  pub process_id : ℕ
  pub in_use : Bool

-- memset(info, 0, sizeof(*info))
abbrev pub zero_nro : NroInfo
zero_nro = record {
  base_address = 0;
  nro_heap_address = 0;
  nro_heap_size = 0;
  bss_heap_address = 0;
  bss_heap_size = 0;
  code_size = 0;
  rw_size = 0;
  module_id = replicate 0x20 0;
}

abbrev pub zero_nrr : NrrInfo
zero_nrr = record {
  mapped_header = 0;
  nrr_heap_address = 0;
  nrr_heap_size = 0;
  mapped_code_address = 0;
  cached_signed_area_size = 0;
  cached_hashes_offset = 0;
  cached_num_hashes = 0;
  cached_signed_area = [];
  signed_area_hash = replicate 0x20 0;
}

abbrev pub zero_context : ProcessContext
zero_context = record {
  nro_in_use = replicate max_nro_infos false;
  nrr_in_use = replicate max_nrr_infos false;
  nro_infos = replicate max_nro_infos zero_nro;
  nrr_infos = replicate max_nrr_infos zero_nrr;
  process_handle = 0;
  process_id = 0;
  in_use = false;
}

-- The globals, and the mappings of the processes.
pub record State (Mem : Type 0) : Type 0 where
  pub contexts : List ProcessContext
  pub is_development_hardware : Bool
  pub is_development_function_enabled : Bool
  pub memory : Mem

pub data RoError : Type 0 where
  out_of_address_space already_loaded invalid_nro invalid_nrr too_many_nro too_many_nrr : RoError
  not_authorized invalid_nrr_type invalid_address invalid_size not_loaded not_registered : RoError
  invalid_session invalid_process : RoError
  svc : SvcError → RoError

abbrev pub M : Type 0 → Type 0 → Type 0
M Mem A = State Mem → Outcome (State Mem) RoError A

-- R_TRY of a call that only answers.
abbrev pub try_svc : {Mem A : Type 0} → SvcResult A → M Mem A
try_svc (success a) s = ok a s
try_svc (failure e) s = err (svc e) s

-- R_TRY of a call that changes the mappings.
abbrev pub try_memory : {Mem : Type 0} → (Mem → SvcResult Mem) → M Mem (Unit {0})
try_memory f s = elim (f s.memory) [
  | success m ↦ ok tt (record s { memory = m })
  | failure e ↦ err (svc e) s
]

-- The first slot in use, or not in use, that passes: the loops over `in_use[i]` and `infos[i]`.
module _ {A : Type 0} where
  abbrev pub next_slot : Option (ℕ × A) → Option (ℕ × A)
  next_slot none = none
  next_slot (some (i, x)) = some (suc i, x)

  unfoldable pub find_slot : (Bool → A → Bool) → List Bool → List A → Option (ℕ × A)
  find_slot p [] xs = none
  find_slot p (b ∷ bs) [] = none
  find_slot p (b ∷ bs) (x ∷ xs) = if p b x then some (0, x) else next_slot (find_slot p bs xs)

abbrev pub is_free : {A : Type 0} → Bool → A → Bool
is_free true x = false
is_free false x = true

unfoldable pub get_nrr_info_by_address : ℕ → ProcessContext → Option (ℕ × NrrInfo)
unfolding find_slot
get_nrr_info_by_address address c =
    find_slot (λ used x. used && x.nrr_heap_address == address) c.nrr_in_use c.nrr_infos

unfoldable pub get_free_nrr_info : ProcessContext → Option (ℕ × NrrInfo)
unfolding find_slot
get_free_nrr_info c = find_slot is_free c.nrr_in_use c.nrr_infos

unfoldable pub get_nro_info_by_address : ℕ → ProcessContext → Option (ℕ × NroInfo)
get_nro_info_by_address address c =
    find_slot (λ used x. used && x.base_address == address) c.nro_in_use c.nro_infos

unfoldable pub get_nro_info_by_module_id : List ℕ → ProcessContext → Option (ℕ × NroInfo)
get_nro_info_by_module_id id c =
    find_slot (λ used x. used && bytes_eq x.module_id id) c.nro_in_use c.nro_infos

unfoldable pub get_free_nro_info : ProcessContext → Option (ℕ × NroInfo)
get_free_nro_info c = find_slot is_free c.nro_in_use c.nro_infos

-- SetNrrInfoInUse and SetNroInfoInUse, and writes through a pointer into the arrays.
unfoldable pub set_nrr_info_in_use : ℕ → Bool → ProcessContext → ProcessContext
set_nrr_info_in_use i used c = record c { nrr_in_use = set c.nrr_in_use i used }

unfoldable pub set_nro_info_in_use : ℕ → Bool → ProcessContext → ProcessContext
set_nro_info_in_use i used c = record c { nro_in_use = set c.nro_in_use i used }

unfoldable pub write_nrr : ℕ → NrrInfo → ProcessContext → ProcessContext
write_nrr i x c = record c { nrr_infos = set c.nrr_infos i x }

unfoldable pub write_nro : ℕ → NroInfo → ProcessContext → ProcessContext
write_nro i x c = record c { nro_infos = set c.nro_infos i x }

module _ {Mem : Type 0} where
  unfoldable pub put_context : ℕ → ProcessContext → State Mem → State Mem
  put_context id c s = record s { contexts = set s.contexts id c }

  abbrev pub context_at : ℕ → State Mem → ProcessContext
  context_at id s = get_or s.contexts id zero_context

  abbrev pub with_memory : State Mem → Mem → State Mem
  with_memory s m = record s { memory = m }
