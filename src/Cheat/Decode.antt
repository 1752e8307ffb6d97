-- ===== src/Cheat/Decode.antt =====
-- DecodeNextOpcode of dmnt/source/cheat/impl/dmnt_cheat_vm.cpp.
pub mod Fixed
pub mod Variants
use nx_sysmodules.Base.{
  ℕ, zero, suc, ◌+◌, ◌*◌, ◌/◌, ◌%◌, ◌^◌, Bool, true, false, not, ◌&&◌, Option, none, some, List, [],
  ◌∷◌, ltb, leb, ◌==◌, if◌then◌else◌, length,
}
use Fixed.{
  decode_store_static, decode_begin_cond, decode_ctrl_loop, decode_ldr_static, decode_ldr_memory,
  decode_str_static, decode_perform_math_static, decode_begin_keypress_cond,
  decode_perform_math_reg,
}
use Variants.{
  decode_str_register, decode_begin_reg_cond, decode_save_restore_reg, decode_save_restore_regmask,
  decode_debug_log,
}
use nx_sysmodules.Cheat.Opcodes.Enumerations.{
  memory_access_type, comparison_type, arithmetic_type, OffsetType, offset_type, CompareValueType,
  compare_value_type, LogValueType, log_value_type, op_type,
}
use nx_sysmodules.Cheat.Opcodes.{
  Opcode, store_static, begin_cond, end_cond, ctrl_loop, ldr_static, ldr_memory, str_static,
  perform_math_static, begin_keypress_cond, perform_math_reg, str_register, begin_reg_cond,
  save_restore_reg, save_restore_regmask, debug_log,
}
use nx_sysmodules.Cheat.Vm.{Vm, num_registers}
use nx_sysmodules.Cheat.Fetch.{
  Fetch, D, ◌>>=◌, ◌>>◌, pure, invalidate, get_next_dword, get_next_qword, get_next_vm_int,
  get_rel_address, nibble,
}

-- The opcode number: one nibble, two from 0xC on, three from 0xF0 on.
unfoldable pub opcode_type : ℕ → ℕ
opcode_type d =
    let one = nibble d 28 in
    let two = one * 16 + nibble d 24 in
    let three = two * 16 + nibble d 20 in
    if leb 12 one then (if leb 0xF0 two then three else two) else one

-- The switch over the opcodes; an opcode that is none of them cannot be decoded.
unfoldable pub decode_operands : ℕ → D Opcode
decode_operands d =
    let op = opcode_type d in
    if op == 0
    then decode_store_static d
    else if op == 1
    then decode_begin_cond d
    else if op == 2
    then pure end_cond
    else if op == 3
    then decode_ctrl_loop d
    else if op == 4
    then decode_ldr_static d
    else if op == 5
    then decode_ldr_memory d
    else if op == 6
    then decode_str_static d
    else if op == 7
    then decode_perform_math_static d
    else if op == 8
    then decode_begin_keypress_cond d
    else if op == 9
    then decode_perform_math_reg d
    else if op == 10
    then decode_str_register d
    else if op == 0xC0
    then decode_begin_reg_cond d
    else if op == 0xC1
    then decode_save_restore_reg d
    else if op == 0xC2
    then decode_save_restore_regmask d
    else if op == 0xFFF
    then decode_debug_log d
    else (invalidate >> pure end_cond)

-- ON_SCOPE_EXIT: the opcode is written to `out` only if it is valid.
unfoldable pub finish : Vm → Opcode → Fetch → Option Opcode × Vm
finish vm op f = (
  if f.valid then some op else none,
  record vm { instruction_ptr = f.ptr; decode_success = vm.decode_success && f.valid },
)

-- The opcode, `none` where the method returns false, and the machine.
unfoldable pub decode_next_opcode : Vm → Option Opcode × Vm
unfolding finish
decode_next_opcode vm =
    let (d, f) =
      get_next_dword
        (record { program = vm.program; ptr = vm.instruction_ptr; valid = vm.decode_success }) in
    if f.valid then (let (op, g) = decode_operands d f in finish vm op g) else finish vm end_cond f
