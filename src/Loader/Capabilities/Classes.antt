-- ===== src/Loader/Capabilities/Classes.antt =====
-- The capability classes of loader/source/ldr_capabilities.cpp: their fields and their IsValid, which
-- compares a capability with the list `kac` that restricts it.
use Prim.Native.Nat.{bit_and}
use nx_sysmodules.Base.{
  ℕ, ◌+◌, ◌-◌, ◌^◌, Bool, true, false, not, ◌&&◌, ◌||◌, Option, none, some, List, [], ◌∷◌, ltb, leb,
  ◌==◌, if◌then◌else◌,
}
use nx_sysmodules.Loader.Capabilities.Fields.{field, set_field, trailing_ones}
use nx_sysmodules.Loader.Capabilities.Ids

-- KernelFlags
abbrev pub maximum_thread_priority : ℕ → ℕ
maximum_thread_priority = field 4 6

abbrev pub minimum_thread_priority : ℕ → ℕ
minimum_thread_priority = field 10 6

abbrev pub minimum_core_id : ℕ → ℕ
minimum_core_id = field 16 8

abbrev pub maximum_core_id : ℕ → ℕ
maximum_core_id = field 24 8

-- SyscallMask
abbrev pub mask : ℕ → ℕ
mask = field 5 24

abbrev pub mask_index : ℕ → ℕ
mask_index = field 29 3

-- MapRange
abbrev pub address_size : ℕ → ℕ
address_size = field 7 24

abbrev pub range_flag : ℕ → ℕ
range_flag = field 31 1

abbrev pub size_max : ℕ
size_max = 0x100000

-- InterruptPair
abbrev pub interrupt_id_0 : ℕ → ℕ
interrupt_id_0 = field 12 10

abbrev pub interrupt_id_1 : ℕ → ℕ
interrupt_id_1 = field 22 10

abbrev pub empty_interrupt_id : ℕ
empty_interrupt_id = 0x3FF

-- ApplicationType
abbrev pub application_type : ℕ → ℕ
application_type = field 14 3

unfoldable pub encode_application_type : ℕ → ℕ
encode_application_type app_type = set_field 14 3 (2 ^ 13 - 1) app_type

-- HandleTable
abbrev pub table_size : ℕ → ℕ
table_size = field 16 10

-- DebugFlags
abbrev pub allow_debug : ℕ → ℕ
allow_debug = field 17 1

abbrev pub force_debug : ℕ → ℕ
force_debug = field 18 1

abbrev pub bit_of : Bool → ℕ
bit_of b = if b then 1 else 0

unfoldable pub encode_debug_flags : Bool → Bool → ℕ
encode_debug_flags allow force =
    set_field 18 1 (set_field 17 1 (2 ^ 16 - 1) (bit_of allow)) (bit_of force)

unfoldable pub within_flags : ℕ → ℕ → Bool
within_flags word r =
    not (
      ltb (minimum_thread_priority word) (minimum_thread_priority r)
      || (ltb (maximum_thread_priority r) (maximum_thread_priority word)
          || ltb (maximum_thread_priority word) (minimum_thread_priority word)))
    && not (
        ltb (minimum_core_id word) (minimum_core_id r)
        || (ltb (maximum_core_id r) (maximum_core_id word)
            || ltb (maximum_core_id word) (minimum_core_id word)))

-- The test of a range against a pair of the restriction, both as pairs of words.
unfoldable pub range_fits : ℕ → ℕ → ℕ → ℕ → Bool
range_fits word next r r_next =
    let start = address_size word in
    let end = start + address_size next in
    let restriction_start = address_size r in
    let restriction_end = restriction_start + address_size r_next in
    if leb size_max (address_size r_next)
    then false
    else (range_flag word == range_flag r && range_flag next == range_flag r_next)
      && (leb restriction_start start && (leb start restriction_end && leb end restriction_end))

abbrev pub passes : (ℕ → Bool) → Option ℕ → Bool
passes p none = false
passes p (some r) = p r

-- `__builtin_ctz` of 0 is undefined: its result is a parameter.
module _ (ctz_of_zero : ℕ) where
  -- GetCapabilityId, __builtin_ctz(~cap.value).
  unfoldable pub get_capability_id : ℕ → ℕ
  get_capability_id word =
      let ones = trailing_ones 32 word in if word == 2 ^ 32 - 1 then ctz_of_zero else ones

  -- The first word with the id: the loops that return at it.
  unfoldable pub first_with : ℕ → List ℕ → Option ℕ
  first_with id [] = none
  first_with id (c ∷ kac) = if get_capability_id c == id then some c else first_with id kac

  -- Whether a word with the id passes: the loops that go on past a word that does not.
  unfoldable pub any_with : ℕ → (ℕ → Bool) → List ℕ → Bool
  any_with id p [] = false
  any_with id p (c ∷ kac) = if get_capability_id c == id && p c then true else any_with id p kac

  unfoldable pub kernel_flags_valid : ℕ → List ℕ → Bool
  kernel_flags_valid word kac = passes (within_flags word) (first_with Ids.kernel_flags kac)

  unfoldable pub syscall_mask_valid : ℕ → List ℕ → Bool
  syscall_mask_valid word kac =
      any_with Ids.syscall_mask (λ r. mask_index word == mask_index r && mask word == mask r) kac

  -- The loop of MapRange::IsValid, which reads the restriction in pairs of words.
  unfoldable pub any_range : ℕ → ℕ → List ℕ → Bool
  any_range word next [] = false
  any_range word next (r ∷ []) = false
  any_range word next (r ∷ r' ∷ kac) =
      let after_pair = any_range word next kac in
      let after_one = any_range word next (r' ∷ kac) in
      if get_capability_id r == Ids.map_range
      then if get_capability_id r' == Ids.map_range
        then if range_fits word next r r' then true else after_pair
        else false
      else after_one

  unfoldable pub map_range_valid : ℕ → ℕ → List ℕ → Bool
  map_range_valid word next kac =
      if get_capability_id next == Ids.map_range
      then if leb size_max (address_size next) then false else any_range word next kac
      else false

  unfoldable pub map_page_valid : ℕ → List ℕ → Bool
  map_page_valid word kac = any_with Ids.map_page (λ r. word == r) kac

  unfoldable pub is_single_id_valid : ℕ → List ℕ → Bool
  is_single_id_valid id kac =
      any_with Ids.interrupt_pair
        (λ r.
          (interrupt_id_0 r == empty_interrupt_id && interrupt_id_1 r == empty_interrupt_id)
          || (interrupt_id_0 r == id || interrupt_id_1 r == id))
        kac

  unfoldable pub interrupt_pair_valid : ℕ → List ℕ → Bool
  interrupt_pair_valid word kac =
      is_single_id_valid (interrupt_id_0 word) kac && is_single_id_valid (interrupt_id_1 word) kac

  unfoldable pub application_type_valid : ℕ → List ℕ → Bool
  application_type_valid word kac = passes (λ r. r == word) (first_with Ids.application_type kac)

  unfoldable pub kernel_version_valid : ℕ → List ℕ → Bool
  kernel_version_valid word kac = passes (λ r. r == word) (first_with Ids.kernel_version kac)

  unfoldable pub handle_table_valid : ℕ → List ℕ → Bool
  handle_table_valid word kac =
      passes (λ r. leb (table_size word) (table_size r)) (first_with Ids.handle_table kac)

  unfoldable pub debug_flags_valid : ℕ → List ℕ → Bool
  debug_flags_valid word kac = passes (λ r. bit_and r word == word) (first_with Ids.debug_flags kac)
