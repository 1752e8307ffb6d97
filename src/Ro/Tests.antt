-- ===== src/Ro/Tests.antt =====
-- Runs of ro over a process memory that is a table, and the theorems about it at concrete inputs.

use nx_sysmodules.Base.{
  ℕ, ◌+◌, ◌*◌, ◌/◌, ◌^◌, ◌≤◌, ◌<◌, ◌≡◌, refl, sym, ap, ◌∙◌, Bool, true, false, none, some, [], ◌∷◌,
  arith, ltb, leb, if◌then◌else◌, set, replicate, bytes_eq, All-get, All-replicate,
}
use nx_sysmodules.Base.Outcome.{ok, ◌>>=◌, state_after}
use nx_sysmodules.Ro.World.{
  Handle, Kernel, NroHeader, NrrHeader, SvcResult, success, failure, other_error,
}
use nx_sysmodules.Ro.State.{
  get_free_nro_info, find_slot, zero_nro, NroInfo, NrrInfo, ProcessContext, State, zero_context,
  zero_nrr, max_nro_infos, max_nrr_infos,
}
use nx_sysmodules.Ro.Laws.{View, mapping, clearing, Agree, Fresh, KernelLaws}
use nx_sysmodules.Base.Search.{lower_bound, bytes_lt}
use nx_sysmodules.Ro.Contexts.{require_context}
use nx_sysmodules.Ro.Addresses.{validate_address_and_non_zero_size, validate_address_and_size}
use nx_sysmodules.Ro.Nro.{map_nro, set_nro_perms}
use nx_sysmodules.Ro.Nrr.{validate_nrr_hash_table_entry}
use nx_sysmodules.Ro.Process.{NroLayout, validate_nro}
use nx_sysmodules.Ro.Slots.{written}
use nx_sysmodules.Ro.Ranges.{Fits, Three, validate_address_and_non_zero_size-cases}
use nx_sysmodules.Ro.LoadNro.{LoadsNro, load_nro-LoadsNro}
use nx_sysmodules.Ro.Unloading.{SlotsMapped, unload-load_nro}
use nx_sysmodules.Ro.Authorization.{Accepted, validate_nro-Accepted}
use nx_sysmodules.Ro.Modules.{NroRequest, load_nro, unload_nro}

-- The processes' mappings, which end below a limit.
record Space : Type 0 where
  view : View
  limit : ℕ
  free : (h : Handle) (a : ℕ) → limit ≤ a → view h a ≡ none

nothing : Space
nothing = record { view = λ h a. none; limit = 0; free = λ h a l. refl }

map_space : Space → Handle → ℕ → ℕ → ℕ → Space
map_space m h base source size = record {
  view = mapping m.view h base source size;
  limit = m.limit + (base + size);
  free = λ g a l. ground (arith, m.free g a (omega arith));
}

clear_space : Space → Handle → ℕ → ℕ → Space
clear_space m h base size = record {
  view = clearing m.view h base size;
  limit = m.limit;
  free = λ g a l. ground (arith, m.free g a l);
}

abbrev place : Space → ℕ
place m = (m.limit / 4096 + 1) * 4096

abbrev nro : NroHeader
nro = record {
  magic_valid = true;
  size = 12288;
  text_offset = 0;
  text_size = 4096;
  ro_offset = 4096;
  ro_size = 4096;
  rw_offset = 8192;
  rw_size = 4096;
  bss_size = 4096;
  module_id = 5 ∷ [];
  content = 7 ∷ [];
}

abbrev nrr : NrrHeader
nrr = record {
  magic_valid = true;
  size = 4096;
  key_generation = 0;
  certification_signature = [];
  certification_signed_area = [];
  certification_modulus = [];
  program_id_valid = true;
  signature = [];
  signed_area = [];
  signed_area_size = 32;
  program_id = 1;
  module_type = 0;
  hashes_offset = 848;
  num_hashes = 1;
  hashes = (7 ∷ []) ∷ [];
}

abbrev map_somewhere : Space → Handle → ℕ → ℕ → SvcResult (ℕ × Space)
unfolding map_space
map_somewhere m h source size =
    if ltb (place m + size) (2 ^ 64)
    then success (place m, map_space m h (place m) source size)
    else failure (other_error 0)

-- A hash is the content itself here.
abbrev kernel : Kernel Space
unfolding map_space clear_space
kernel = record {
  process_id_of = λ h. some h;
  program_id_of = λ h. some 1;
  ask_pm = λ p. some 1;
  map_anywhere = λ i m h source size. map_somewhere m h source size;
  map_at = λ m h base source size.
      if leb m.limit base
      then success (map_space m h base source size)
      else failure (other_error 0);
  destroy = λ m h base source size. clear_space m h base size;
  can_add_guard_regions = λ m h base size. true;
  unmap = λ m h base source size. success (clear_space m h base size);
  set_permission =
      λ m h base size permission. if ltb 0 size then success m else failure (other_error 0);
  locate_mappable_space = λ m size. some 0;
  open_map = λ m own h base size. success m;
  close_map = λ m own h base size. m;
  unmap_own = λ m own h base size. success m;
  nro_header = λ m own. nro;
  nrr_header = λ m own. nrr;
  apply_patches = λ m id own size. m;
  sha256 = λ xs. xs;
  verify_rsa = λ modulus message signature. true;
  dev_modulus = λ g. [];
  prod_modulus = λ g. [];
  ease_setting = none;
  is_3_0_0 = true;
  is_7_0_0 = true;
  is_9_1_0 = true;
  page_size = 4096;
  signed_area_offset = 848;
  nrr_header_size = 848;
}

-- A conditional result that is a success passed its test.
if_success :
    {A : Type 0} (b : Bool) (x y : A)
    → (if b then success x else failure (other_error 0)) ≡ success y
    → (b ≡ true) × (x ≡ y)
if_success true x y e = (refl, cc)
if_success false x y e = cc

module _ (m : Space) (h : Handle) (source size base : ℕ) (m' : Space) where
  placed :
      map_somewhere m h source size ≡ success (base, m')
      → (place m ≡ base) × (map_space m h (place m) source size ≡ m') × (place m + size < 2 ^ 64)
  unfolding map_space
  placed e =
      let (t, q) = if_success (ltb (place m + size) (2 ^ 64)) _ _ e in
      (ap (λ p. p.0) q, ap (λ p. p.1) q, ground arith)

  placed_at :
      (if leb m.limit base
          then success (map_space m h base source size)
          else failure (other_error 0))
        ≡ success m'
      → (m.limit ≤ base) × (map_space m h base source size ≡ m')
  placed_at e = let (t, q) = if_success (leb m.limit base) _ _ e in (ground arith, q)

  fresh : m.limit ≤ base → Fresh m.view h base size
  fresh l a i = m.free h a (ground arith)

laws : KernelLaws kernel (λ m. m.view)
unfolding map_space clear_space
laws = record {
  map_anywhere_fresh = λ i m h source size base m' e.
      let (p, q, l) = placed m h source size base m' e in
      fresh m h source size base m' (omega (arith, p));
  map_anywhere_maps = λ i m h source size base m' e g a.
      let (p, q, l) = placed m h source size base m' e in
      ap (λ (x : Space). x.view g a) (sym q) ∙ ap (λ b. mapping m.view h b source size g a) p;
  map_anywhere_place = λ i m h source size base m' e.
      let (p, q, l) = placed m h source size base m' e in (omega (arith, p, l), omega (arith, p));
  map_at_fresh = λ m h base source size m' e.
      fresh m h source size base m' (placed_at m h source size base m' e).0;
  map_at_maps = λ m h base source size m' e g a.
      ap (λ (x : Space). x.view g a) (sym (placed_at m h source size base m' e).1);
  destroy_clears = λ m h base source size c g a. refl;
  unmap_succeeds = λ m h base source size p c. (clear_space m h base size, refl);
  unmap_clears = λ m h base source size m' e g a.
      let q : clear_space m h base size ≡ m' = cc in ap (λ (x : Space). x.view g a) (sym q);
  permission_size = λ m h base size permission m' e.
      let t = (if_success (ltb 0 size) m m' e).0 in ground (arith, t);
  permission_keeps = λ m h base size permission m' e g a.
      ap (λ (x : Space). x.view g a) (sym (if_success (ltb 0 size) m m' e).1);
  open_keeps =
      λ m own h base size m' e g a. let q : m ≡ m' = cc in ap (λ (x : Space). x.view g a) (sym q);
  close_keeps = λ m own h base size g a. refl;
  patches_keep = λ m id own size g a. refl;
}

-- A process whose only NRR holds the hash of the NRO.
abbrev registered : NrrInfo
registered = record zero_nrr {
  cached_signed_area_size = 32;
  cached_hashes_offset = 848;
  cached_num_hashes = 1;
  signed_area_hash = 7 ∷ [];
}

abbrev client : ProcessContext
client = record zero_context {
  nrr_in_use = set (replicate max_nrr_infos false) 0 true;
  nrr_infos = set (replicate max_nrr_infos zero_nrr) 0 registered;
  process_handle = 9;
  process_id = 9;
  in_use = true;
}

abbrev start : State Space
unfolding nothing
start = record {
  contexts = client ∷ zero_context ∷ zero_context ∷ [];
  is_development_hardware = false;
  is_development_function_enabled = false;
  memory = nothing;
}

abbrev request : NroRequest
request = record { nro_address = 0x10000; nro_size = 12288; bss_address = 0x20000; bss_size = 4096 }

after_load : State Space
after_load = state_after (load_nro kernel 0 request start) start

loads : load_nro kernel 0 request start ≡ ok 4096 after_load
unfolding nothing map_space clear_space after_load load_nro ◌>>=◌ require_context
    validate_address_and_non_zero_size validate_address_and_size get_free_nro_info find_slot map_nro
    validate_nro lower_bound bytes_lt bytes_eq validate_nrr_hash_table_entry set_nro_perms
loads = refl

client_SlotsMapped : SlotsMapped kernel (λ m. m.view) laws 0 request start
unfolding start
client_SlotsMapped i x used at =
    let unused =
      All-get (λ b. b ≡ false) client.nro_in_use i true
        (All-replicate (λ b. b ≡ false) max_nro_infos false refl) used in
    cc

unload-load_nro_example :
    (u : State Space) × (unload_nro kernel 0 4096 after_load ≡ ok tt u)
    × Agree u.memory.view start.memory.view
    × ((i : ℕ) × (old : NroInfo) × (get_free_nro_info client ≡ some (i, old))
        × (u ≡ written 0 i client.nro_in_use zero_nro start u.memory))
unfolding start
unload-load_nro_example =
    unload-load_nro kernel (λ m. m.view) laws 0 request start (omega arith) (omega arith)
      (omega arith) (omega arith) (omega arith) (omega arith) client_SlotsMapped 4096 after_load
      loads

load_nro-LoadsNro_example :
    LoadsNro kernel (λ m. m.view) laws 0 request start (load_nro kernel 0 request start)
unfolding start
load_nro-LoadsNro_example =
    load_nro-LoadsNro kernel (λ m. m.view) laws 0 request start (omega arith) (omega arith)
      (omega arith) (omega arith) (omega arith) (omega arith)

abbrev layout : NroLayout
layout = record { id = 5 ∷ []; rx_size = 4096; ro_size = 4096; rw_size = 4096 }

validates : validate_nro kernel client 4096 12288 4096 start ≡ ok layout start
unfolding kernel map_space clear_space nothing ◌>>=◌ validate_nro find_slot lower_bound bytes_lt
    bytes_eq validate_nrr_hash_table_entry
validates = refl

validate_nro-Accepted_example :
    (own : ℕ) × (m : Space) × (kernel.open_map start.memory own client.process_handle 4096 12288
      ≡ success m)
    × Accepted kernel client (kernel.nro_header m own) m 12288 4096
    × (layout.id ≡ (kernel.nro_header m own).module_id)
validate_nro-Accepted_example =
    validate_nro-Accepted kernel client 4096 12288 4096 start start layout validates

validate_address_and_non_zero_size-cases_example :
    Three 4096 0xFFFFFFFFFFFFF000 start
      (validate_address_and_non_zero_size 4096 0xFFFFFFFFFFFFF000 4096 start)
      ((0 < 4096) × Fits 4096 0xFFFFFFFFFFFFF000 4096)
validate_address_and_non_zero_size-cases_example =
    validate_address_and_non_zero_size-cases 4096 0xFFFFFFFFFFFFF000 4096 (omega arith)
      (omega arith) start
