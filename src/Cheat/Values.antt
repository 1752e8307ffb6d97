-- ===== src/Cheat/Values.antt =====
-- The values that Execute, dmnt/source/cheat/impl/dmnt_cheat_vm.cpp, computes: widths, comparisons
-- and register arithmetic. A u64 is a number below 2 ^ 64.
use Prim.Native.Nat.{bit_and, bit_or, bit_xor}
use nx_sysmodules.Base.{
  ℕ, ◌+◌, ◌-◌, ◌*◌, ◌/◌, ◌%◌, ◌^◌, Bool, false, not, ◌||◌, ltb, leb, ◌==◌, if◌then◌else◌,
}
use nx_sysmodules.Cheat.Opcodes.Enumerations.{
  ComparisonType, gt, ge, lt, le, eq, ne, ArithmeticType, addition, subtraction, multiplication,
  left_shift, right_shift, logical_and, logical_or, logical_not, logical_xor, unchanged,
}

abbrev pub u64_mod : ℕ
u64_mod = 2 ^ 64

-- What a u64 holds of a value.
abbrev pub u64 : ℕ → ℕ
u64 x = x % u64_mod

-- case 1: case 2: case 4: case 8:
unfoldable pub is_width : ℕ → Bool
is_width w = w == 1 || (w == 2 || (w == 4 || w == 8))

-- 2 ^ (8 * width), of a valid width.
unfoldable pub width_mod : ℕ → ℕ
width_mod w = if w == 1 then 2 ^ 8 else if w == 2 then 2 ^ 16 else if w == 4 then 2 ^ 32 else 2 ^ 64

-- GetVmInt, and the switch that takes the low bytes of a register: 0 for any other width.
unfoldable pub get_vm_int : ℕ → ℕ → ℕ
unfolding is_width width_mod
get_vm_int value w = if is_width w then value % width_mod w else 0

-- The switches under "Apply bit width": any other width leaves the value.
unfoldable pub apply_width : ℕ → ℕ → ℕ
unfolding is_width width_mod
apply_width w value = if is_width w then value % width_mod w else value

-- A read of `w` bytes into a u64 replaces its low bytes.
unfoldable pub replace_low : ℕ → ℕ → ℕ → ℕ
unfolding width_mod
replace_low w old bytes = old / width_mod w * width_mod w + bytes % width_mod w

unfoldable pub condition_met : ComparisonType → ℕ → ℕ → Bool
condition_met gt src cond = ltb cond src
condition_met ge src cond = leb cond src
condition_met lt src cond = ltb src cond
condition_met le src cond = leb src cond
condition_met eq src cond = src == cond
condition_met ne src cond = not (src == cond)
condition_met (ComparisonType.other n) src cond = false

-- A shift of a u64 by 64 or more is undefined in C++: its results are parameters.
pub record Shifter : Type 0 where
  pub wide_left : ℕ → ℕ → ℕ
  pub wide_right : ℕ → ℕ → ℕ

module _ (sh : Shifter) where
  unfoldable pub shift_left : ℕ → ℕ → ℕ
  shift_left a b = if ltb b 64 then u64 (a * 2 ^ b) else u64 (sh.wide_left a b)

  unfoldable pub shift_right : ℕ → ℕ → ℕ
  shift_right a b = if ltb b 64 then u64 (a / 2 ^ b) else u64 (sh.wide_right a b)

  -- The switch of PerformArithmeticStatic, which leaves the register on the other types.
  unfoldable pub static_math : ArithmeticType → ℕ → ℕ → ℕ
  unfolding shift_left shift_right
  static_math addition a b = u64 (a + b)
  static_math subtraction a b = u64 (a + u64_mod - b)
  static_math multiplication a b = u64 (a * b)
  static_math left_shift a b = shift_left a b
  static_math right_shift a b = shift_right a b
  static_math t a b = a

  -- The switch of PerformArithmeticRegister, which leaves 0 on no type of the enumeration.
  unfoldable pub register_math : ArithmeticType → ℕ → ℕ → ℕ
  unfolding shift_left shift_right
  register_math addition a b = u64 (a + b)
  register_math subtraction a b = u64 (a + u64_mod - b)
  register_math multiplication a b = u64 (a * b)
  register_math left_shift a b = shift_left a b
  register_math right_shift a b = shift_right a b
  register_math logical_and a b = u64 (bit_and a b)
  register_math logical_or a b = u64 (bit_or a b)
  register_math logical_not a b = u64_mod - 1 - a
  register_math logical_xor a b = u64 (bit_xor a b)
  register_math unchanged a b = a
  register_math (ArithmeticType.other n) a b = 0
