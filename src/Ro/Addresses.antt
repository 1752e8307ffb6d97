-- ===== src/Ro/Addresses.antt =====
-- ValidateAddressAndNonZeroSize and ValidateAddressAndSize of ro/source/impl/ro_service_impl.cpp.
use nx_sysmodules.Base.{ℕ, ◌+◌, ◌%◌, Bool, not, ◌||◌, ltb, ◌==◌}
use nx_sysmodules.Base.Outcome.{◌>>◌, require}
use nx_sysmodules.Ro.World.{u64}
use nx_sysmodules.Ro.State.{M, invalid_address, invalid_size}

-- util::IsAligned
abbrev pub is_aligned : ℕ → ℕ → Bool
is_aligned x alignment = x % alignment == 0

module _ {Mem : Type 0} (page_size : ℕ) where
  unfoldable pub validate_address_and_non_zero_size : ℕ → ℕ → M Mem (Unit {0})
  validate_address_and_non_zero_size address size = do
    require (is_aligned address page_size) invalid_address
    require (not (size == 0)) invalid_size
    require (is_aligned size page_size) invalid_size
    require (ltb address (u64 (address + size))) invalid_size

  unfoldable pub validate_address_and_size : ℕ → ℕ → M Mem (Unit {0})
  validate_address_and_size address size = do
    require (is_aligned address page_size) invalid_address
    require (is_aligned size page_size) invalid_size
    require (size == 0 || ltb address (u64 (address + size))) invalid_size
