-- ===== src/Cheat/Decode/Fixed.antt =====
-- The cases of the switch of DecodeNextOpcode, dmnt/source/cheat/impl/dmnt_cheat_vm.cpp, whose
-- operands stand at fixed places: a function for each, from the first dword.
use nx_sysmodules.Base.{ℕ, ◌%◌, ◌^◌, Bool, true, false, not, ◌==◌, if◌then◌else◌}
use nx_sysmodules.Cheat.Opcodes.Enumerations.{memory_access_type, comparison_type, arithmetic_type}
use nx_sysmodules.Cheat.Opcodes.{
  Opcode, store_static, begin_cond, ctrl_loop, ldr_static, ldr_memory, str_static,
  perform_math_static, begin_keypress_cond, perform_math_reg,
}
use nx_sysmodules.Cheat.Fetch.{
  D, ◌>>=◌, pure, get_next_dword, get_next_qword, get_next_vm_int, get_rel_address, nibble,
}

unfoldable pub decode_store_static : ℕ → D Opcode
unfolding get_rel_address get_next_vm_int
decode_store_static d = do
  rel_address ← get_rel_address (d % 2 ^ 8)
  value ← get_next_vm_int (nibble d 24)
  pure (
      store_static (record {
        bit_width = nibble d 24;
        mem_type = memory_access_type (nibble d 20);
        offset_register = nibble d 16;
        rel_address = rel_address;
        value = value;
      }))

-- The width of the value is read as `opcode.store_static.bit_width`, which shares its place in the
-- union with `begin_cond.bit_width`.
unfoldable pub decode_begin_cond : ℕ → D Opcode
unfolding get_rel_address get_next_vm_int
decode_begin_cond d = do
  rel_address ← get_rel_address (d % 2 ^ 8)
  value ← get_next_vm_int (nibble d 24)
  pure (
      begin_cond (record {
        bit_width = nibble d 24;
        mem_type = memory_access_type (nibble d 20);
        cond_type = comparison_type (nibble d 16);
        rel_address = rel_address;
        value = value;
      }))

unfoldable pub decode_ctrl_loop : ℕ → D Opcode
unfolding get_next_dword
decode_ctrl_loop d =
    if nibble d 24 == 0
    then (do
      num_iters ← get_next_dword
      pure (
          ctrl_loop (record { start_loop = true; reg_index = nibble d 20; num_iters = num_iters })))
    else pure (ctrl_loop (record { start_loop = false; reg_index = nibble d 20; num_iters = 0 }))

unfoldable pub decode_ldr_static : ℕ → D Opcode
unfolding get_next_qword
decode_ldr_static d = do
  value ← get_next_qword
  pure (ldr_static (record { reg_index = nibble d 16; value = value }))

unfoldable pub decode_ldr_memory : ℕ → D Opcode
unfolding get_rel_address
decode_ldr_memory d = do
  rel_address ← get_rel_address (d % 2 ^ 8)
  pure (
      ldr_memory (record {
        bit_width = nibble d 24;
        mem_type = memory_access_type (nibble d 20);
        reg_index = nibble d 16;
        load_from_reg = not (nibble d 12 == 0);
        rel_address = rel_address;
      }))

unfoldable pub decode_str_static : ℕ → D Opcode
unfolding get_next_qword
decode_str_static d = do
  value ← get_next_qword
  pure (
      str_static (record {
        bit_width = nibble d 24;
        reg_index = nibble d 16;
        increment_reg = not (nibble d 12 == 0);
        add_offset_reg = not (nibble d 8 == 0);
        offset_reg_index = nibble d 4;
        value = value;
      }))

unfoldable pub decode_perform_math_static : ℕ → D Opcode
unfolding get_next_dword
decode_perform_math_static d = do
  value ← get_next_dword
  pure (
      perform_math_static (record {
        bit_width = nibble d 24;
        reg_index = nibble d 16;
        math_type = arithmetic_type (nibble d 12);
        value = value;
      }))

unfoldable pub decode_begin_keypress_cond : ℕ → D Opcode
decode_begin_keypress_cond d = pure (begin_keypress_cond (d % 2 ^ 28))

abbrev perform_math_reg_of : ℕ → Bool → ℕ → ℕ → Opcode
perform_math_reg_of d has_immediate src_reg_2_index value = perform_math_reg (record {
  bit_width = nibble d 24;
  math_type = arithmetic_type (nibble d 20);
  dst_reg_index = nibble d 16;
  src_reg_1_index = nibble d 12;
  src_reg_2_index = src_reg_2_index;
  has_immediate = has_immediate;
  value = value;
})

unfoldable pub decode_perform_math_reg : ℕ → D Opcode
unfolding get_next_vm_int
decode_perform_math_reg d =
    if nibble d 8 == 0
    then pure (perform_math_reg_of d false (nibble d 4) 0)
    else (do value ← get_next_vm_int (nibble d 24); pure (perform_math_reg_of d true 0 value))
