-- ===== src/Cheat/Opcodes/Enumerations.antt =====
-- The enumerations of dmnt/source/cheat/impl/dmnt_cheat_vm.hpp, and the casts to them.
use nx_sysmodules.Base.{ℕ, ◌==◌, if◌then◌else◌}

pub data MemoryAccessType : Type 0 where
  main_nso heap : MemoryAccessType
  other : ℕ → MemoryAccessType

unfoldable pub memory_access_type : ℕ → MemoryAccessType
memory_access_type n =
    if n == 0
    then MemoryAccessType.main_nso
    else if n == 1
    then MemoryAccessType.heap
    else MemoryAccessType.other n

-- ConditionalComparisonType.
pub data ComparisonType : Type 0 where
  gt ge lt le eq ne : ComparisonType
  other : ℕ → ComparisonType

unfoldable pub comparison_type : ℕ → ComparisonType
comparison_type n =
    if n == 1
    then ComparisonType.gt
    else if n == 2
    then ComparisonType.ge
    else if n == 3
    then ComparisonType.lt
    else if n == 4
    then ComparisonType.le
    else if n == 5
    then ComparisonType.eq
    else if n == 6
    then ComparisonType.ne
    else ComparisonType.other n

-- RegisterArithmeticType, whose None is `unchanged`.
pub data ArithmeticType : Type 0 where
  addition subtraction multiplication left_shift right_shift logical_and logical_or logical_not
        logical_xor unchanged :
      ArithmeticType
  other : ℕ → ArithmeticType

unfoldable pub arithmetic_type : ℕ → ArithmeticType
arithmetic_type n =
    if n == 0
    then ArithmeticType.addition
    else if n == 1
    then ArithmeticType.subtraction
    else if n == 2
    then ArithmeticType.multiplication
    else if n == 3
    then ArithmeticType.left_shift
    else if n == 4
    then ArithmeticType.right_shift
    else if n == 5
    then ArithmeticType.logical_and
    else if n == 6
    then ArithmeticType.logical_or
    else if n == 7
    then ArithmeticType.logical_not
    else if n == 8
    then ArithmeticType.logical_xor
    else if n == 9
    then ArithmeticType.unchanged
    else ArithmeticType.other n

-- StoreRegisterOffsetType, with the decoder's default for any other value.
pub data OffsetType : Type 0 where
  no_offset reg imm mem_reg mem_imm mem_imm_reg : OffsetType

unfoldable pub offset_type : ℕ → OffsetType
offset_type n =
    if n == 0
    then OffsetType.no_offset
    else if n == 1
    then OffsetType.reg
    else if n == 2
    then OffsetType.imm
    else if n == 3
    then OffsetType.mem_reg
    else if n == 4
    then OffsetType.mem_imm
    else if n == 5
    then OffsetType.mem_imm_reg
    else OffsetType.no_offset

-- CompareRegisterValueType.
pub data CompareValueType : Type 0 where
  memory_rel_addr memory_ofs_reg register_rel_addr register_ofs_reg static_value other_register :
      CompareValueType
  other : ℕ → CompareValueType

unfoldable pub compare_value_type : ℕ → CompareValueType
compare_value_type n =
    if n == 0
    then CompareValueType.memory_rel_addr
    else if n == 1
    then CompareValueType.memory_ofs_reg
    else if n == 2
    then CompareValueType.register_rel_addr
    else if n == 3
    then CompareValueType.register_ofs_reg
    else if n == 4
    then CompareValueType.static_value
    else if n == 5
    then CompareValueType.other_register
    else CompareValueType.other n

-- DebugLogValueType.
pub data LogValueType : Type 0 where
  memory_rel_addr memory_ofs_reg register_rel_addr register_ofs_reg register_value : LogValueType
  other : ℕ → LogValueType

unfoldable pub log_value_type : ℕ → LogValueType
log_value_type n =
    if n == 0
    then LogValueType.memory_rel_addr
    else if n == 1
    then LogValueType.memory_ofs_reg
    else if n == 2
    then LogValueType.register_rel_addr
    else if n == 3
    then LogValueType.register_ofs_reg
    else if n == 4
    then LogValueType.register_value
    else LogValueType.other n

-- SaveRestoreRegisterOpType.
pub data OpType : Type 0 where
  restore save clear_saved clear_regs : OpType
  other : ℕ → OpType

unfoldable pub op_type : ℕ → OpType
op_type n =
    if n == 0
    then OpType.restore
    else if n == 1
    then OpType.save
    else if n == 2
    then OpType.clear_saved
    else if n == 3
    then OpType.clear_regs
    else OpType.other n
