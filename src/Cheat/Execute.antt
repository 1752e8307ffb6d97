-- ===== src/Cheat/Execute.antt =====
-- Execute of dmnt/source/cheat/impl/dmnt_cheat_vm.cpp: the effect of each opcode, and the loop.
pub mod Memory
pub mod Registers
pub mod Blocks
use nx_sysmodules.Base.{
  ℕ, zero, suc, ◌+◌, Bool, true, false, Option, none, some, List, [], if◌then◌else◌,
}
use nx_sysmodules.Cheat.Opcodes.{
  Opcode, begin_conditional_block, store_static, begin_cond, end_cond, ctrl_loop, ldr_static,
  ldr_memory, str_static, perform_math_static, begin_keypress_cond, perform_math_reg, str_register,
  begin_reg_cond, save_restore_reg, save_restore_regmask, debug_log,
}
use nx_sysmodules.Cheat.Vm.{Vm, reset_state}
use nx_sysmodules.Cheat.Decode.{decode_next_opcode}
use Memory.{
  Env, Machine, step_store_static, step_ldr_memory, step_str_static, step_str_register,
  step_debug_log,
}
use Registers.{
  step_ctrl_loop, step_ldr_static, step_perform_math_static, step_perform_math_reg,
  step_save_restore_reg, step_save_restore_regmask,
}
use Blocks.{step_begin_cond, step_end_cond, step_begin_keypress_cond, step_begin_reg_cond}

-- if (cur_opcode.begin_conditional_block) this->condition_depth++
unfoldable pub enter : Opcode → Vm → Vm
enter op vm =
    if begin_conditional_block op
    then record vm { condition_depth = vm.condition_depth + 1 }
    else vm

module _ {Mem : Type 0} (env : Env Mem) where
  -- The switch over the opcodes; `none` is an abort.
  unfoldable pub execute_opcode : Opcode → Machine Mem → Option (Machine Mem)
  execute_opcode (store_static o) m = some (step_store_static env o m)
  execute_opcode (begin_cond o) m = step_begin_cond env o m
  execute_opcode end_cond m = some (step_end_cond m)
  execute_opcode (ctrl_loop o) m = some (step_ctrl_loop o m)
  execute_opcode (ldr_static o) m = some (step_ldr_static o m)
  execute_opcode (ldr_memory o) m = some (step_ldr_memory env o m)
  execute_opcode (str_static o) m = some (step_str_static env o m)
  execute_opcode (perform_math_static o) m = some (step_perform_math_static env.shifter o m)
  execute_opcode (begin_keypress_cond mask) m = step_begin_keypress_cond env mask m
  execute_opcode (perform_math_reg o) m = some (step_perform_math_reg env.shifter o m)
  execute_opcode (str_register o) m = some (step_str_register env o m)
  execute_opcode (begin_reg_cond o) m = step_begin_reg_cond env o m
  execute_opcode (save_restore_reg o) m = some (step_save_restore_reg o m)
  execute_opcode (save_restore_regmask o) m = some (step_save_restore_regmask o m)
  execute_opcode (debug_log o) m = some (step_debug_log env o m)

  -- One round of the loop after a decoded opcode.
  unfoldable pub step : Opcode → Machine Mem → Option (Machine Mem)
  unfolding enter
  step op m = execute_opcode op (record m { vm = enter op m.vm })

  pub data Run : Type 0 where
    finished : Machine Mem → Run
    aborted : Run
    out_of_fuel : Run

  -- The loop of Execute, on fuel; a cheat may loop for ever.
  unfoldable pub run : ℕ → Machine Mem → Run
  run zero m = out_of_fuel
  run (suc n) m =
      let (o, vm') = decode_next_opcode m.vm in
      elim o [
        | none ↦ finished (record m { vm = vm' })
        | some op ↦ elim (step op (record m { vm = vm' })) [ none ↦ aborted | some m' ↦ run n m' ]
      ]

  unfoldable pub execute : ℕ → Machine Mem → Run
  unfolding reset_state
  execute fuel m = run fuel (record m { vm = reset_state m.vm })
