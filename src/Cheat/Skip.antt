-- ===== src/Cheat/Skip.antt =====
-- SkipConditionalBlock of dmnt/source/cheat/impl/dmnt_cheat_vm.cpp.
use nx_sysmodules.Base.{ℕ, zero, suc, ◌+◌, ◌-◌, Option, none, some, ltb, ◌==◌, if◌then◌else◌}
use nx_sysmodules.Cheat.Opcodes.{Opcode, begin_conditional_block, is_end_cond}
use nx_sysmodules.Cheat.Vm.{Vm, num_opcodes}
use nx_sysmodules.Cheat.Decode.{decode_next_opcode}

-- The nesting of the blocks that are skipped.
unfoldable pub track : Opcode → Vm → Vm
track op vm =
    if begin_conditional_block op
    then record vm { condition_depth = vm.condition_depth + 1 }
    else if is_end_cond op
    then record vm { condition_depth = vm.condition_depth - 1 }
    else vm

-- while (depth > desired_depth && DecodeNextOpcode(&skip_opcode)), on fuel.
unfoldable pub skip_loop : ℕ → ℕ → Vm → Vm
skip_loop zero desired vm = vm
skip_loop (suc n) desired vm =
    let skipped : Vm =
      (let (o, vm') = decode_next_opcode vm in
        elim o [ none ↦ vm' | some op ↦ skip_loop n desired (track op vm') ]) in
    if ltb desired vm.condition_depth then skipped else vm

-- `none` is R_ABORT_UNLESS(ResultVirtualMachineInvalidConditionDepth()). A decoded opcode takes a
-- word at least, so that one round for each word and one more are enough.
unfoldable pub skip_conditional_block : Vm → Option Vm
skip_conditional_block vm =
    if vm.condition_depth == 0
    then none
    else some (skip_loop (suc (num_opcodes vm)) (vm.condition_depth - 1) vm)
