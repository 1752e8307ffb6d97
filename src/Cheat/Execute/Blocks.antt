-- ===== src/Cheat/Execute/Blocks.antt =====
-- The opcodes of dmnt/source/cheat/impl/dmnt_cheat_vm.cpp that begin and end conditional blocks.
use Prim.Native.Nat.{bit_and}
use nx_sysmodules.Base.{ℕ, ◌+◌, ◌-◌, Bool, true, false, Option, none, some, ◌==◌}
use nx_sysmodules.Cheat.Opcodes.Enumerations.{CompareValueType}
use nx_sysmodules.Cheat.Opcodes.{BeginConditional, BeginRegisterConditional}
use nx_sysmodules.Cheat.Skip.{skip_conditional_block}
use nx_sysmodules.Cheat.Values.{u64, get_vm_int, condition_met}
use nx_sysmodules.Cheat.Execute.Memory.{Env, Machine, reg_at, cheat_process_address, read_into}

module _ {Mem : Type 0} where
  -- if (!cond_met) this->SkipConditionalBlock()
  unfoldable pub skip_unless : Bool → Machine Mem → Option (Machine Mem)
  skip_unless true m = some m
  skip_unless false m = elim (skip_conditional_block m.vm) [
    | none ↦ none
    | some vm' ↦ some (record m { vm = vm' })
  ]

  -- A block end without a block is ignored.
  unfoldable pub step_end_cond : Machine Mem → Machine Mem
  step_end_cond m = record m { vm = record m.vm { condition_depth = m.vm.condition_depth - 1 } }

module _ {Mem : Type 0} (env : Env Mem) where
  unfoldable pub step_begin_cond : BeginConditional → Machine Mem → Option (Machine Mem)
  unfolding skip_unless
  step_begin_cond o m =
      let address = cheat_process_address env o.mem_type o.rel_address in
      skip_unless
        (condition_met o.cond_type (read_into env m.memory address o.bit_width 0)
          (get_vm_int o.value o.bit_width))
        m

  unfoldable pub step_begin_keypress_cond : ℕ → Machine Mem → Option (Machine Mem)
  unfolding skip_unless
  step_begin_keypress_cond mask m = skip_unless (bit_and mask env.keys_held == mask) m

  -- The value that a register is compared with.
  unfoldable pub compared_value : BeginRegisterConditional → CompareValueType → Machine Mem → ℕ
  compared_value o CompareValueType.static_value m = get_vm_int o.value o.bit_width
  compared_value o CompareValueType.other_register m =
      get_vm_int (reg_at m.vm o.other_reg_index) o.bit_width
  compared_value o CompareValueType.memory_rel_addr m =
      read_into env m.memory (cheat_process_address env o.mem_type o.rel_address) o.bit_width 0
  compared_value o CompareValueType.memory_ofs_reg m =
      read_into env m.memory (cheat_process_address env o.mem_type (reg_at m.vm o.ofs_reg_index))
        o.bit_width 0
  compared_value o CompareValueType.register_rel_addr m =
      read_into env m.memory (u64 (reg_at m.vm o.addr_reg_index + o.rel_address)) o.bit_width 0
  compared_value o CompareValueType.register_ofs_reg m =
      read_into env m.memory (u64 (reg_at m.vm o.addr_reg_index + reg_at m.vm o.ofs_reg_index))
        o.bit_width 0
  compared_value o (CompareValueType.other n) m = read_into env m.memory 0 o.bit_width 0

  unfoldable pub step_begin_reg_cond : BeginRegisterConditional → Machine Mem → Option (Machine Mem)
  unfolding skip_unless
  step_begin_reg_cond o m =
      skip_unless
        (condition_met o.cond_type (get_vm_int (reg_at m.vm o.val_reg_index) o.bit_width)
          (compared_value o o.comp_type m))
        m
