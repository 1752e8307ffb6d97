-- ===== src/Cheat/Fetch.antt =====
-- How DecodeNextOpcode of dmnt/source/cheat/impl/dmnt_cheat_vm.cpp reads the program: its local
-- `valid`, the instruction pointer, and the two lambdas GetNextDword and GetNextVmInt.
use nx_sysmodules.Base.{
  ℕ, ◌+◌, ◌*◌, ◌/◌, ◌%◌, ◌^◌, Bool, false, List, ltb, ◌==◌, if◌then◌else◌, length, get_or,
}

pub record Fetch : Type 0 where
  pub program : List ℕ
  pub ptr : ℕ
  pub valid : Bool

abbrev pub D : Type 0 → Type 0
D A = Fetch → A × Fetch

infixl 5 ◌>>=◌ ◌>>◌
abbrev pub ◌>>=◌ : {A B : Type 0} → D A → (A → D B) → D B
◌>>=◌ m f s = let (a, t) = m s in f a t

abbrev pub ◌>>◌ : {B : Type 0} → D (Unit {0}) → D B → D B
m >> k = m >>= λ _. k

abbrev pub pure : {A : Type 0} → A → D A
pure a s = (a, s)

-- valid = false
abbrev pub invalidate : D (Unit {0})
invalidate s = (tt, record s { valid = false })

unfoldable pub get_next_dword : D ℕ
get_next_dword s =
    if ltb s.ptr (length s.program)
    then (get_or s.program s.ptr 0, record s { ptr = s.ptr + 1 })
    else (0, record s { valid = false })

-- (first << 32) | second, of two dwords, the first read first.
unfoldable pub get_next_qword : D ℕ
unfolding get_next_dword
get_next_qword = do first ← get_next_dword; second ← get_next_dword; pure (first * 2 ^ 32 + second)

-- A VmInt is the 64 bits of the union, zero but for the member that is written.
unfoldable pub get_next_vm_int : ℕ → D ℕ
unfolding get_next_dword
get_next_vm_int bit_width = do
  first ← get_next_dword
  if bit_width == 1
      then pure (first % 2 ^ 8)
      else if bit_width == 2
      then pure (first % 2 ^ 16)
      else if bit_width == 4
      then pure first
      else if bit_width == 8
      then (do second ← get_next_dword; pure (first * 2 ^ 32 + second))
      else pure 0

-- (dword >> shift) & 0xF
abbrev pub nibble : ℕ → ℕ → ℕ
nibble dword shift = dword / 2 ^ shift % 16

-- ((u64)high << 32) | the next dword.
unfoldable pub get_rel_address : ℕ → D ℕ
unfolding get_next_dword
get_rel_address high = do second ← get_next_dword; pure (high * 2 ^ 32 + second)
