-- ===== src/Loader/Capabilities/Fields.antt =====
-- The bit fields of a capability word, as loader/source/ldr_capabilities.cpp declares them. A word is
-- a u32; a field is read and written by `util::BitPack32`.
use nx_sysmodules.Base.{ℕ, zero, suc, ◌+◌, ◌-◌, ◌*◌, ◌/◌, ◌%◌, ◌^◌, ◌==◌, if◌then◌else◌}

-- BitPack32::Get of the `count` bits from `index` on.
abbrev pub field : ℕ → ℕ → ℕ → ℕ
field index count word = word / 2 ^ index % 2 ^ count

-- BitPack32::Set of the same bits.
abbrev pub set_field : ℕ → ℕ → ℕ → ℕ → ℕ
set_field index count word value =
    word - field index count word * 2 ^ index + value % 2 ^ count * 2 ^ index

-- The number of ones below the lowest zero of `n` bits.
unfoldable pub trailing_ones : ℕ → ℕ → ℕ
trailing_ones zero word = 0
trailing_ones (suc n) word =
    let rest = trailing_ones n (word / 2) in if word % 2 == 0 then 0 else suc rest
