-- ===== src/Loader/Capabilities/Validation.antt =====
-- ValidateCapabilities of loader/source/ldr_capabilities.cpp, on the words of both lists.
use nx_sysmodules.Base.{ℕ, Bool, List, [], ◌∷◌, ◌==◌, if◌then◌else◌}
use nx_sysmodules.Loader.Capabilities.Ids
use nx_sysmodules.Loader.Capabilities.Classes.{
  get_capability_id, kernel_flags_valid, syscall_mask_valid, map_range_valid, map_page_valid,
  interrupt_pair_valid, application_type_valid, kernel_version_valid, handle_table_valid,
  debug_flags_valid,
}

-- ResultInvalidCapability of a class, named by the class's id, or ResultUnknownCapability.
pub data Verdict : Type 0 where
  valid : Verdict
  invalid_capability : ℕ → Verdict
  unknown_capability : Verdict

abbrev pub and_then : Verdict → Verdict → Verdict
and_then valid v = v
and_then (invalid_capability id) v = invalid_capability id
and_then unknown_capability v = unknown_capability

module _ (ctz_of_zero : ℕ) where
  -- VALIDATE_CASE and the default case: whether a word other than a map range may stand.
  unfoldable pub single_verdict : List ℕ → ℕ → ℕ → Verdict
  single_verdict acid id word =
      let verdict = λ (b : Bool). if b then valid else invalid_capability id in
      if id == Ids.kernel_flags
      then verdict (kernel_flags_valid ctz_of_zero word acid)
      else if id == Ids.syscall_mask
      then verdict (syscall_mask_valid ctz_of_zero word acid)
      else if id == Ids.map_page
      then verdict (map_page_valid ctz_of_zero word acid)
      else if id == Ids.interrupt_pair
      then verdict (interrupt_pair_valid ctz_of_zero word acid)
      else if id == Ids.application_type
      then verdict (application_type_valid ctz_of_zero word acid)
      else if id == Ids.kernel_version
      then verdict (kernel_version_valid ctz_of_zero word acid)
      else if id == Ids.handle_table
      then verdict (handle_table_valid ctz_of_zero word acid)
      else if id == Ids.debug_flags
      then verdict (debug_flags_valid ctz_of_zero word acid)
      else if id == Ids.empty
      then valid
      else unknown_capability

  -- The loop over the program's words, in which a map range takes the next word with it.
  unfoldable pub validate_capabilities : List ℕ → List ℕ → Verdict
  validate_capabilities acid [] = valid
  validate_capabilities acid (word ∷ []) =
      if get_capability_id ctz_of_zero word == Ids.map_range
      then invalid_capability Ids.map_range
      else single_verdict acid (get_capability_id ctz_of_zero word) word
  validate_capabilities acid (word ∷ next ∷ aci) =
      let after_pair = validate_capabilities acid aci in
      let after_one = validate_capabilities acid (next ∷ aci) in
      if get_capability_id ctz_of_zero word == Ids.map_range
      then if map_range_valid ctz_of_zero word next acid
        then after_pair
        else invalid_capability Ids.map_range
      else and_then (single_verdict acid (get_capability_id ctz_of_zero word) word) after_one
