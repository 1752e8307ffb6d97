-- ===== src/Ro/Nrr.antt =====
-- ro/source/impl/ro_nrr_utils.cpp: the registration of hashes. The tables of moduli are the kernel
-- record's dev_modulus and prod_modulus.
use nx_sysmodules.Base.{
  ℕ, ◌+◌, ◌-◌, ◌*◌, ◌^◌, Bool, false, not, ◌&&◌, ◌||◌, none, some, List, [], ◌∷◌, ◌++◌, take,
  replicate, leb, ◌==◌, if◌then◌else◌, bytes_eq,
}
use nx_sysmodules.Base.Outcome.{
  ok, err, ◌>>=◌, ◌>>◌, pure, gets, require, require_some, modify, guarded,
}
use nx_sysmodules.Ro.World.{Handle, Kernel, NrrHeader, success, failure, u64}
use nx_sysmodules.Ro.State.{
  M, out_of_address_space, not_authorized, invalid_nrr, invalid_nrr_type, invalid_size, svc,
  try_memory,
}

abbrev pub key_generation_max_100 : ℕ
key_generation_max_100 = 0

abbrev pub key_generation_max_910 : ℕ
key_generation_max_910 = 1

-- Subtraction of a size_t.
abbrev pub sub64 : ℕ → ℕ → ℕ
sub64 a b = u64 (a + (2 ^ 64 - u64 b))

module _ {Mem : Type 0} (k : Kernel Mem) where
  -- GetSettingsItemValue answers with the size it read.
  unfoldable pub should_ease_nro_restriction : Bool
  should_ease_nro_restriction = elim k.ease_setting [ none ↦ false | some x ↦ not (x == 0) ]

  unfoldable pub get_certification_modulus : ℕ → M Mem (List ℕ)
  get_certification_modulus generation = do
    require (leb generation (if k.is_9_1_0 then key_generation_max_910 else key_generation_max_100))
        not_authorized
    gets (λ s.
        if s.is_development_hardware then k.dev_modulus generation else k.prod_modulus generation)

  unfoldable pub validate_nrr_certification : NrrHeader → List ℕ → M Mem (Unit {0})
  validate_nrr_certification header modulus = do
    require (k.verify_rsa modulus header.certification_signed_area header.certification_signature)
        not_authorized
    require header.program_id_valid not_authorized

  unfoldable pub validate_nrr_signature : NrrHeader → M Mem (Unit {0})
  validate_nrr_signature header =
      require (k.verify_rsa header.certification_modulus header.signed_area header.signature)
        not_authorized

  -- What is checked unless the restriction is eased.
  unfoldable pub validate_nrr_content : NrrHeader → List ℕ → ℕ → ℕ → Bool → M Mem (Unit {0})
  unfolding validate_nrr_certification validate_nrr_signature
  validate_nrr_content header modulus program_id expected_type enforce_type = do
    validate_nrr_certification header modulus
    validate_nrr_signature header
    require (header.program_id == program_id) invalid_nrr
    require (not (k.is_7_0_0 && enforce_type) || header.module_type == expected_type)
        invalid_nrr_type

  unfoldable pub validate_nrr : NrrHeader → ℕ → ℕ → ℕ → Bool → M Mem (Unit {0})
  unfolding should_ease_nro_restriction get_certification_modulus validate_nrr_content
  validate_nrr header size program_id expected_type enforce_type = do
    require header.magic_valid invalid_nrr
    require (header.size == size) invalid_size
    modulus ← get_certification_modulus header.key_generation
    (if should_ease_nro_restriction
        then pure tt
        else validate_nrr_content header modulus program_id expected_type enforce_type)

  -- The destructors of AutoCloseMap and of MappedCodeMemory.
  abbrev pub close : ℕ → Handle → ℕ → ℕ → M Mem (Unit {0})
  close address process code_address size =
      modify (λ s. record s { memory = k.close_map s.memory address process code_address size })

  abbrev pub destroy_code : Handle → ℕ → ℕ → ℕ → M Mem (Unit {0})
  destroy_code process code_address source size =
      modify (λ s. record s { memory = k.destroy s.memory process code_address source size })

  -- MapCodeMemoryInProcess.
  abbrev map_code : Handle → ℕ → ℕ → M Mem ℕ
  map_code process source size s = elim (k.map_anywhere 0 s.memory process source size) [
    | success (address, m) ↦ ok address (record s { memory = m })
    | failure e ↦ err (svc e) s
  ]

  -- The header's address, the code address and the hash of the signed area.
  unfoldable pub map_and_validate_nrr : Handle → ℕ → ℕ → ℕ → ℕ → Bool → M Mem (ℕ × ℕ × List ℕ)
  unfolding validate_nrr
  map_and_validate_nrr process program_id source size expected_type enforce_type = do
    code_address ← map_code process source size
    guarded (destroy_code process code_address source size) (do
      space ← gets (λ s. k.locate_mappable_space s.memory size)
      address ← require_some space out_of_address_space
      try_memory (λ m. k.open_map m address process code_address size)
      header ← gets (λ s. k.nrr_header s.memory address)
      guarded (close address process code_address size)
          (validate_nrr header size program_id expected_type enforce_type)
      pure (address, code_address, k.sha256 header.signed_area))

  unfoldable pub unmap_nrr : Handle → ℕ → ℕ → ℕ → ℕ → M Mem (Unit {0})
  unmap_nrr process header source size code_address = do
    try_memory (λ m. k.unmap_own m header process code_address size)
    try_memory (λ m. k.unmap m process code_address source size)

  abbrev pub concat : List (List ℕ) → List ℕ
  concat [] = []
  concat (xs ∷ xss) = xs ++ concat xss

  abbrev pub any_hash : List ℕ → List (List ℕ) → Bool
  any_hash hash [] = false
  any_hash hash (h ∷ hs) = bytes_eq h hash || any_hash hash hs

  -- The hash of the area before the table, of the table and of the zeros after it, and the search for
  -- the desired hash on the way; `hash_table` is what stands in memory.
  unfoldable pub validate_nrr_hash_table_entry :
      List ℕ → ℕ → ℕ → ℕ → List ℕ → List (List ℕ) → List ℕ → Bool
  validate_nrr_hash_table_entry area area_size offset num_hashes nrr_hash hash_table hash =
      let pre = sub64 offset k.signed_area_offset in
      let table = take num_hashes hash_table in
      let remaining = sub64 (sub64 area_size pre) (32 * num_hashes) in
      any_hash hash table
      && bytes_eq (k.sha256 (take pre area ++ (concat table ++ replicate remaining 0))) nrr_hash
