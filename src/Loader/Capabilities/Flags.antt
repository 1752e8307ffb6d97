-- ===== src/Loader/Capabilities/Flags.antt =====
-- GetProgramInfoFlags and SetProgramInfoFlags of loader/source/ldr_capabilities.cpp. The bits of the
-- flags are constants of libstratosphere.
use Prim.Native.Nat.{bit_and, bit_or}
use nx_sysmodules.Base.{
  ℕ, ◌+◌, ◌-◌, ◌*◌, ◌%◌, ◌^◌, ◌≡◌, ◌≢◌, refl, Bool, true, false, not, ◌&&◌, List, [], ◌∷◌, arith,
  ◌==◌, if◌then◌else◌,
}
use nx_sysmodules.Base.Finite.{all_below, all_below_elim}
use nx_sysmodules.Loader.Capabilities.Ids
use nx_sysmodules.Loader.Capabilities.Fields.{trailing_ones}
use nx_sysmodules.Loader.Capabilities.Classes.{
  get_capability_id, application_type, encode_application_type, allow_debug, force_debug, bit_of,
  encode_debug_flags,
}

pub record ProgramInfoFlags : Type 0 where
  pub application_type_mask : ℕ
  pub invalid_type : ℕ
  pub allow_debug_bit : ℕ

module _ (ctz_of_zero : ℕ) (constants : ProgramInfoFlags) where
  -- What one word adds to the flags.
  unfoldable pub flags_of_word : ℕ → ℕ → ℕ
  flags_of_word word flags =
      let app_type = bit_and (application_type word) constants.application_type_mask in
      if get_capability_id ctz_of_zero word == Ids.application_type
      then if app_type == constants.invalid_type then flags else bit_or flags app_type
      else if get_capability_id ctz_of_zero word == Ids.debug_flags
      then if allow_debug word == 0 then flags else bit_or flags constants.allow_debug_bit
      else flags

  unfoldable pub get_flags : List ℕ → ℕ → ℕ
  unfolding flags_of_word
  get_flags [] flags = flags
  get_flags (word ∷ kac) flags = get_flags kac (flags_of_word word flags)

  unfoldable pub get_program_info_flags : List ℕ → ℕ
  unfolding get_flags
  get_program_info_flags kac = get_flags kac 0

  -- What SetProgramInfoFlags makes of one word.
  unfoldable pub set_word : ℕ → ℕ → ℕ
  set_word flags word =
      if get_capability_id ctz_of_zero word == Ids.application_type
      then encode_application_type (bit_and flags constants.application_type_mask)
      else if get_capability_id ctz_of_zero word == Ids.debug_flags
      then encode_debug_flags (not (bit_and flags constants.allow_debug_bit == 0))
          (not (force_debug word == 0))
      else word

  unfoldable pub set_program_info_flags : ℕ → List ℕ → List ℕ
  set_program_info_flags flags [] = []
  set_program_info_flags flags (word ∷ kac) = set_word flags word ∷ set_program_info_flags flags kac

-- The words that are written, field by field.
abbrev written_type : ℕ → Bool
written_type x =
    let word = 8191 + x * 16384 in trailing_ones 32 word == 13 && not (word == 2 ^ 32 - 1)

written_types : all_below 8 written_type ≡ true
unfolding all_below trailing_ones
written_types = refl

encode_application_type_value : (t : ℕ) → encode_application_type t ≡ 8191 + t % 8 * 16384
unfolding encode_application_type
encode_application_type_value t = omega arith

encode_application_type_lem :
    (ctz_of_zero t : ℕ)
    → (get_capability_id ctz_of_zero (encode_application_type t) ≡ Ids.application_type)
      × (application_type (encode_application_type t) ≡ t % 8)
unfolding get_capability_id
encode_application_type_lem ctz t =
    let checked : written_type (t % 8) ≡ true =
      all_below_elim 8 written_type (t % 8) written_types (omega arith) in
    (
      ground (arith, encode_application_type_value t, checked),
      omega (arith, encode_application_type_value t),
    )

encode_debug_flags_lem :
    (ctz_of_zero : ℕ) (allow force : Bool)
    → (get_capability_id ctz_of_zero (encode_debug_flags allow force) ≡ Ids.debug_flags)
      × (allow_debug (encode_debug_flags allow force) ≡ bit_of allow)
      × (force_debug (encode_debug_flags allow force) ≡ bit_of force)
unfolding encode_debug_flags get_capability_id trailing_ones
encode_debug_flags_lem ctz true true = (refl, refl, refl)
encode_debug_flags_lem ctz true false = (refl, refl, refl)
encode_debug_flags_lem ctz false true = (refl, refl, refl)
encode_debug_flags_lem ctz false false = (refl, refl, refl)

module _ (ctz_of_zero : ℕ) (constants : ProgramInfoFlags) (flags : ℕ) where
  -- What SetProgramInfoFlags leaves of a word.
  pub record IsWritten (word word' : ℕ) : Type 0 where
    pub same_id : get_capability_id ctz_of_zero word' ≡ get_capability_id ctz_of_zero word
    pub app_type :
        get_capability_id ctz_of_zero word ≡ Ids.application_type
        → application_type word' ≡ bit_and flags constants.application_type_mask % 8
    pub debug :
        get_capability_id ctz_of_zero word ≡ Ids.debug_flags
        → allow_debug word' ≡ (if bit_and flags constants.allow_debug_bit == 0 then 0 else 1)
    pub forced :
        get_capability_id ctz_of_zero word ≡ Ids.debug_flags → force_debug word' ≡ force_debug word
    pub other :
        get_capability_id ctz_of_zero word ≢ Ids.application_type
        → get_capability_id ctz_of_zero word ≢ Ids.debug_flags
        → word' ≡ word

  set_word-IsWritten : (word : ℕ) → IsWritten word (set_word ctz_of_zero constants flags word)
  unfolding set_word
  set_word-IsWritten word =
      let t = bit_and flags constants.application_type_mask in
      let allow = not (bit_and flags constants.allow_debug_bit == 0) in
      let force = not (force_debug word == 0) in
      let typed = encode_application_type_lem ctz_of_zero t in
      let debugged = encode_debug_flags_lem ctz_of_zero allow force in
      record {
        same_id = ground (arith, typed, debugged);
        app_type = λ e. ground (arith, typed, debugged);
        debug = λ e. ground (arith, typed, debugged);
        forced = λ e. ground (arith, typed, debugged);
        other = λ a d. ground (arith, typed, debugged);
      }

  -- The words before and after, one by one.
  abbrev pub EachWritten : List ℕ → List ℕ → Type 0
  EachWritten [] [] = Unit
  EachWritten [] (w ∷ ws) = ⊥
  EachWritten (w ∷ ws) [] = ⊥
  EachWritten (w ∷ ws) (w' ∷ ws') = IsWritten w w' × EachWritten ws ws'

  -- SetProgramInfoFlags keeps the number of words and the class of each; a word of the application
  -- type takes the type of the flags, a word of the debug flags takes their debug bit and keeps its
  -- force bit, and every other word stays as it was.
  pub set_program_info_flags-EachWritten :
      (kac : List ℕ) → EachWritten kac (set_program_info_flags ctz_of_zero constants flags kac)
  unfolding set_program_info_flags
  set_program_info_flags-EachWritten [] = tt
  set_program_info_flags-EachWritten (w ∷ kac) =
      (set_word-IsWritten w, set_program_info_flags-EachWritten kac)
