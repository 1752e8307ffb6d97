-- ===== src/Cheat/Opcodes.antt =====
-- The opcodes of dmnt/source/cheat/impl/dmnt_cheat_vm.hpp: one record for each struct, and the
-- union of them. An enumeration is cast from four bits unchecked: `other` holds the bits that are
-- no enumerator.
pub mod Enumerations
use nx_sysmodules.Base.{ℕ, Bool, true, false, List}
use Enumerations.{
  MemoryAccessType, ComparisonType, ArithmeticType, OffsetType, CompareValueType, LogValueType,
  OpType,
}

pub record StoreStatic : Type 0 where
  pub bit_width : ℕ
  pub mem_type : MemoryAccessType
  pub offset_register : ℕ
  pub rel_address : ℕ
  pub value : ℕ

pub record BeginConditional : Type 0 where
  pub bit_width : ℕ
  pub mem_type : MemoryAccessType
  pub cond_type : ComparisonType
  pub rel_address : ℕ
  pub value : ℕ

pub record ControlLoop : Type 0 where
  pub start_loop : Bool
  pub reg_index : ℕ
  pub num_iters : ℕ

pub record LoadRegisterStatic : Type 0 where
  pub reg_index : ℕ
  pub value : ℕ

pub record LoadRegisterMemory : Type 0 where
  pub bit_width : ℕ
  pub mem_type : MemoryAccessType
  pub reg_index : ℕ
  pub load_from_reg : Bool
  pub rel_address : ℕ

pub record StoreStaticToAddress : Type 0 where
  pub bit_width : ℕ
  pub reg_index : ℕ
  pub increment_reg : Bool
  pub add_offset_reg : Bool
  pub offset_reg_index : ℕ
  pub value : ℕ

pub record PerformArithmeticStatic : Type 0 where
  pub bit_width : ℕ
  pub reg_index : ℕ
  pub math_type : ArithmeticType
  pub value : ℕ

pub record PerformArithmeticRegister : Type 0 where
  pub bit_width : ℕ
  pub math_type : ArithmeticType
  pub dst_reg_index : ℕ
  pub src_reg_1_index : ℕ
  pub src_reg_2_index : ℕ
  pub has_immediate : Bool
  pub value : ℕ

pub record StoreRegisterToAddress : Type 0 where
  pub bit_width : ℕ
  pub str_reg_index : ℕ
  pub addr_reg_index : ℕ
  pub increment_reg : Bool
  pub ofs_type : OffsetType
  pub mem_type : MemoryAccessType
  pub ofs_reg_index : ℕ
  pub rel_address : ℕ

pub record BeginRegisterConditional : Type 0 where
  pub bit_width : ℕ
  pub cond_type : ComparisonType
  pub val_reg_index : ℕ
  pub comp_type : CompareValueType
  pub mem_type : MemoryAccessType
  pub addr_reg_index : ℕ
  pub other_reg_index : ℕ
  pub ofs_reg_index : ℕ
  pub rel_address : ℕ
  pub value : ℕ

pub record SaveRestoreRegister : Type 0 where
  pub dst_index : ℕ
  pub src_index : ℕ
  pub op_type : OpType

pub record SaveRestoreRegisterMask : Type 0 where
  pub op_type : OpType
  pub should_operate : List Bool

pub record DebugLog : Type 0 where
  pub bit_width : ℕ
  pub log_id : ℕ
  pub val_type : LogValueType
  pub mem_type : MemoryAccessType
  pub addr_reg_index : ℕ
  pub val_reg_index : ℕ
  pub ofs_reg_index : ℕ
  pub rel_address : ℕ

-- CheatVmOpcode: the constructor is the opcode, its argument the union's member.
pub data Opcode : Type 0 where
  store_static : StoreStatic → Opcode
  begin_cond : BeginConditional → Opcode
  end_cond : Opcode
  ctrl_loop : ControlLoop → Opcode
  ldr_static : LoadRegisterStatic → Opcode
  ldr_memory : LoadRegisterMemory → Opcode
  str_static : StoreStaticToAddress → Opcode
  perform_math_static : PerformArithmeticStatic → Opcode
  begin_keypress_cond : ℕ → Opcode
  perform_math_reg : PerformArithmeticRegister → Opcode
  str_register : StoreRegisterToAddress → Opcode
  begin_reg_cond : BeginRegisterConditional → Opcode
  save_restore_reg : SaveRestoreRegister → Opcode
  save_restore_regmask : SaveRestoreRegisterMask → Opcode
  debug_log : DebugLog → Opcode

-- opcode.begin_conditional_block
unfoldable pub begin_conditional_block : Opcode → Bool
begin_conditional_block (begin_cond o) = true
begin_conditional_block (begin_keypress_cond m) = true
begin_conditional_block (begin_reg_cond o) = true
begin_conditional_block o = false

-- opcode.opcode == CheatVmOpcodeType_EndConditionalBlock
unfoldable pub is_end_cond : Opcode → Bool
is_end_cond end_cond = true
is_end_cond o = false
