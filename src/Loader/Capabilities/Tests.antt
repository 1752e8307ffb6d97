-- ===== src/Loader/Capabilities/Tests.antt =====
-- Runs of the checks of capabilities, and the theorems about them at concrete words.
use nx_sysmodules.Base.{ℕ, ◌+◌, ◌*◌, ◌^◌, ◌≡◌, ◌↔◌, refl, List, [], ◌∷◌, All}
use nx_sysmodules.Loader.Capabilities.Ids
use nx_sysmodules.Loader.Capabilities.Fields.{trailing_ones}
use nx_sysmodules.Loader.Capabilities.Classes.{
  get_capability_id, first_with, any_with, handle_table_valid, debug_flags_valid, any_range,
  map_range_valid, range_fits, encode_application_type, encode_debug_flags,
}
use nx_sysmodules.Loader.Capabilities.Validation.{
  valid, invalid_capability, single_verdict, validate_capabilities,
}
use nx_sysmodules.Loader.Capabilities.Permits.{requests, Permits}
use nx_sysmodules.Loader.Capabilities.Decision.{validate_capabilities_iff}
use nx_sysmodules.Loader.Capabilities.Flags.{
  ProgramInfoFlags, set_word, set_program_info_flags, EachWritten,
  set_program_info_flags-EachWritten, flags_of_word, get_flags, get_program_info_flags,
}

abbrev handle_table_word : ℕ → ℕ
handle_table_word n = 0x7FFF + n * 2 ^ 16

abbrev restriction : List ℕ
restriction =
    handle_table_word 512 ∷ (0xFFFF + 3 * 2 ^ 17) ∷ (0x3F + 16 * 2 ^ 7) ∷ (0x3F + 8 * 2 ^ 7) ∷ []

abbrev program : List ℕ
program = handle_table_word 256 ∷ (0xFFFF + 2 ^ 17) ∷ (0x3F + 18 * 2 ^ 7) ∷ (0x3F + 6 * 2 ^ 7) ∷ []

program_valid : validate_capabilities 32 restriction program ≡ valid
unfolding validate_capabilities single_verdict get_capability_id trailing_ones first_with any_with
    handle_table_valid debug_flags_valid any_range map_range_valid range_fits
program_valid = refl

too_many_handles :
    validate_capabilities 32 restriction (handle_table_word 513 ∷ [])
    ≡ invalid_capability Ids.handle_table
unfolding validate_capabilities single_verdict get_capability_id trailing_ones first_with any_with
    handle_table_valid
too_many_handles = refl

validate_capabilities_iff_example :
    (validate_capabilities 32 restriction program ≡ valid)
    ↔ All (Permits 32 restriction) (requests 32 program)
validate_capabilities_iff_example = validate_capabilities_iff 32 restriction program

abbrev constants : ProgramInfoFlags
constants = record { application_type_mask = 3; invalid_type = 3; allow_debug_bit = 4 }

-- An application that may not be debugged, with the flags of an applet that may.
abbrev written : List ℕ
written = (0x1FFF + 2 ^ 14) ∷ 0xFFFF ∷ handle_table_word 256 ∷ []

flags_read_back :
    get_program_info_flags 32 constants (set_program_info_flags 32 constants 6 written) ≡ 6
unfolding get_program_info_flags get_flags flags_of_word set_program_info_flags set_word
    get_capability_id trailing_ones encode_application_type encode_debug_flags
flags_read_back = refl

set_program_info_flags-EachWritten_example :
    EachWritten 32 constants 6 written (set_program_info_flags 32 constants 6 written)
set_program_info_flags-EachWritten_example =
    set_program_info_flags-EachWritten 32 constants 6 written
