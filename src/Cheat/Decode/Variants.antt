-- ===== src/Cheat/Decode/Variants.antt =====
-- The cases of the switch of DecodeNextOpcode, dmnt/source/cheat/impl/dmnt_cheat_vm.cpp, that
-- switch on the kind of an operand. A member that a case does not write is zero.
use nx_sysmodules.Base.{ℕ, zero, suc, ◌/◌, ◌%◌, Bool, not, List, [], ◌∷◌, ◌==◌}
use nx_sysmodules.Cheat.Opcodes.Enumerations.{
  memory_access_type, comparison_type, OffsetType, offset_type, CompareValueType,
  compare_value_type, LogValueType, log_value_type, op_type,
}
use nx_sysmodules.Cheat.Opcodes.{
  Opcode, str_register, begin_reg_cond, save_restore_reg, save_restore_regmask, debug_log,
}
use nx_sysmodules.Cheat.Vm.{num_registers}
use nx_sysmodules.Cheat.Fetch.{D, ◌>>=◌, pure, get_next_vm_int, get_rel_address, nibble}

abbrev str_register_of : ℕ → OffsetType → ℕ → ℕ → Opcode
str_register_of d ofs_type mem_type rel_address = str_register (record {
  bit_width = nibble d 24;
  str_reg_index = nibble d 20;
  addr_reg_index = nibble d 16;
  increment_reg = not (nibble d 12 == 0);
  ofs_type = ofs_type;
  mem_type = memory_access_type mem_type;
  ofs_reg_index = nibble d 4;
  rel_address = rel_address;
})

-- The switch over the offset type: whether a memory type and a relative address follow.
unfoldable pub str_register_operands : ℕ → OffsetType → D Opcode
unfolding get_rel_address
str_register_operands d OffsetType.no_offset = pure (str_register_of d OffsetType.no_offset 0 0)
str_register_operands d OffsetType.reg = pure (str_register_of d OffsetType.reg 0 0)
str_register_operands d OffsetType.imm = do
  rel_address ← get_rel_address (d % 16)
  pure (str_register_of d OffsetType.imm 0 rel_address)
str_register_operands d OffsetType.mem_reg =
    pure (str_register_of d OffsetType.mem_reg (nibble d 4) 0)
str_register_operands d OffsetType.mem_imm = do
  rel_address ← get_rel_address (d % 16)
  pure (str_register_of d OffsetType.mem_imm (nibble d 4) rel_address)
str_register_operands d OffsetType.mem_imm_reg = do
  rel_address ← get_rel_address (d % 16)
  pure (str_register_of d OffsetType.mem_imm_reg (nibble d 4) rel_address)

unfoldable pub decode_str_register : ℕ → D Opcode
unfolding str_register_operands
decode_str_register d = str_register_operands d (offset_type (nibble d 8))

abbrev begin_reg_of : ℕ → CompareValueType → ℕ → ℕ → ℕ → ℕ → ℕ → ℕ → Opcode
begin_reg_of d comp_type mem_type addr other ofs rel_address value = begin_reg_cond (record {
  bit_width = nibble d 20;
  cond_type = comparison_type (nibble d 16);
  val_reg_index = nibble d 12;
  comp_type = comp_type;
  mem_type = memory_access_type mem_type;
  addr_reg_index = addr;
  other_reg_index = other;
  ofs_reg_index = ofs;
  rel_address = rel_address;
  value = value;
})

unfoldable pub begin_reg_operands : ℕ → CompareValueType → D Opcode
unfolding get_rel_address get_next_vm_int
begin_reg_operands d CompareValueType.static_value = do
  value ← get_next_vm_int (nibble d 20)
  pure (begin_reg_of d CompareValueType.static_value 0 0 0 0 0 value)
begin_reg_operands d CompareValueType.other_register =
    pure (begin_reg_of d CompareValueType.other_register 0 0 (nibble d 4) 0 0 0)
begin_reg_operands d CompareValueType.memory_rel_addr = do
  rel_address ← get_rel_address (d % 16)
  pure (begin_reg_of d CompareValueType.memory_rel_addr (nibble d 4) 0 0 0 rel_address 0)
begin_reg_operands d CompareValueType.memory_ofs_reg =
    pure (begin_reg_of d CompareValueType.memory_ofs_reg (nibble d 4) 0 0 (d % 16) 0 0)
begin_reg_operands d CompareValueType.register_rel_addr = do
  rel_address ← get_rel_address (d % 16)
  pure (begin_reg_of d CompareValueType.register_rel_addr 0 (nibble d 4) 0 0 rel_address 0)
begin_reg_operands d CompareValueType.register_ofs_reg =
    pure (begin_reg_of d CompareValueType.register_ofs_reg 0 (nibble d 4) 0 (d % 16) 0 0)
begin_reg_operands d (CompareValueType.other n) =
    pure (begin_reg_of d (CompareValueType.other n) 0 0 0 0 0 0)

unfoldable pub decode_begin_reg_cond : ℕ → D Opcode
unfolding begin_reg_operands
decode_begin_reg_cond d = begin_reg_operands d (compare_value_type (nibble d 8))

abbrev debug_log_of : ℕ → LogValueType → ℕ → ℕ → ℕ → ℕ → ℕ → Opcode
debug_log_of d val_type mem_type addr val ofs rel_address = debug_log (record {
  bit_width = nibble d 16;
  log_id = nibble d 12;
  val_type = val_type;
  mem_type = memory_access_type mem_type;
  addr_reg_index = addr;
  val_reg_index = val;
  ofs_reg_index = ofs;
  rel_address = rel_address;
})

unfoldable pub debug_log_operands : ℕ → LogValueType → D Opcode
unfolding get_rel_address
debug_log_operands d LogValueType.register_value =
    pure (debug_log_of d LogValueType.register_value 0 0 (nibble d 4) 0 0)
debug_log_operands d LogValueType.memory_rel_addr = do
  rel_address ← get_rel_address (d % 16)
  pure (debug_log_of d LogValueType.memory_rel_addr (nibble d 4) 0 0 0 rel_address)
debug_log_operands d LogValueType.memory_ofs_reg =
    pure (debug_log_of d LogValueType.memory_ofs_reg (nibble d 4) 0 0 (d % 16) 0)
debug_log_operands d LogValueType.register_rel_addr = do
  rel_address ← get_rel_address (d % 16)
  pure (debug_log_of d LogValueType.register_rel_addr 0 (nibble d 4) 0 0 rel_address)
debug_log_operands d LogValueType.register_ofs_reg =
    pure (debug_log_of d LogValueType.register_ofs_reg 0 (nibble d 4) 0 (d % 16) 0)
debug_log_operands d (LogValueType.other n) = pure (debug_log_of d (LogValueType.other n) 0 0 0 0 0)

unfoldable pub decode_debug_log : ℕ → D Opcode
unfolding debug_log_operands
decode_debug_log d = debug_log_operands d (log_value_type (nibble d 8))

unfoldable pub decode_save_restore_reg : ℕ → D Opcode
decode_save_restore_reg d = pure (
    save_restore_reg
      (record { dst_index = nibble d 16; src_index = nibble d 8; op_type = op_type (nibble d 4) }))

-- should_operate[i] = (dword & (1u << i)) != 0, from bit 0 on.
unfoldable pub mask_bits : ℕ → ℕ → List Bool
mask_bits zero d = []
mask_bits (suc n) d = not (d % 2 == 0) ∷ mask_bits n (d / 2)

unfoldable pub decode_save_restore_regmask : ℕ → D Opcode
unfolding mask_bits
decode_save_restore_regmask d = pure (
    save_restore_regmask
      (record { op_type = op_type (nibble d 20); should_operate = mask_bits num_registers d }))
