-- ===== src/Cheat/Execute/Registers.antt =====
-- The opcodes of dmnt/source/cheat/impl/dmnt_cheat_vm.cpp that change only the machine: loops,
-- arithmetic, saved values.
use nx_sysmodules.Base.{ℕ, ◌+◌, ◌-◌, Bool, List, [], ◌∷◌, ◌==◌, if◌then◌else◌, get_or, set}
use nx_sysmodules.Cheat.Opcodes.Enumerations.{OpType, save, clear_saved, clear_regs}
use nx_sysmodules.Cheat.Opcodes.{
  ControlLoop, LoadRegisterStatic, PerformArithmeticStatic, PerformArithmeticRegister,
  SaveRestoreRegister, SaveRestoreRegisterMask,
}
use nx_sysmodules.Cheat.Vm.{Vm}
use nx_sysmodules.Cheat.Values.{
  Shifter, u64, u64_mod, get_vm_int, apply_width, static_math, register_math,
}
use nx_sysmodules.Cheat.Execute.Memory.{Machine, reg_at, set_reg}

-- The start of a loop takes the counter and the top; its end counts down, wrapping at 0, and jumps
-- while the counter is not 0.
unfoldable pub loop_vm : ControlLoop → Vm → Vm
unfolding set_reg
loop_vm o vm =
    if o.start_loop
    then record (set_reg o.reg_index o.num_iters vm) {
      loop_tops = set vm.loop_tops o.reg_index vm.instruction_ptr;
    }
    else let count = u64 (reg_at vm o.reg_index + u64_mod - 1) in
      let counted = set_reg o.reg_index count vm in
      if count == 0
      then counted
      else record counted { instruction_ptr = get_or vm.loop_tops o.reg_index 0 }

unfoldable pub perform_math_static_vm : Shifter → PerformArithmeticStatic → Vm → Vm
unfolding set_reg
perform_math_static_vm sh o vm =
    set_reg o.reg_index
      (apply_width o.bit_width (static_math sh o.math_type (reg_at vm o.reg_index) o.value)) vm

unfoldable pub perform_math_reg_vm : Shifter → PerformArithmeticRegister → Vm → Vm
unfolding set_reg
perform_math_reg_vm sh o vm =
    let operand_2 =
      (if o.has_immediate then get_vm_int o.value o.bit_width else reg_at vm o.src_reg_2_index) in
    set_reg o.dst_reg_index
      (apply_width o.bit_width
        (register_math sh o.math_type (reg_at vm o.src_reg_1_index) operand_2))
      vm

unfoldable pub save_restore_vm : OpType → ℕ → ℕ → Vm → Vm
unfolding set_reg
save_restore_vm clear_regs dst src vm = set_reg dst 0 vm
save_restore_vm clear_saved dst src vm = record vm { saved_values = set vm.saved_values dst 0 }
save_restore_vm save dst src vm = record vm {
  saved_values = set vm.saved_values dst (reg_at vm src);
}
save_restore_vm t dst src vm = set_reg dst (get_or vm.saved_values src 0) vm

-- for (i...) if (should_operate[i]) dst[i] = src[i], and dst[i] = 0.
unfoldable pub copy_masked : List Bool → List ℕ → List ℕ → List ℕ
copy_masked [] src dst = dst
copy_masked (b ∷ bs) [] dst = dst
copy_masked (b ∷ bs) (x ∷ src) [] = []
copy_masked (b ∷ bs) (x ∷ src) (y ∷ dst) = (if b then x else y) ∷ copy_masked bs src dst

unfoldable pub clear_masked : List Bool → List ℕ → List ℕ
clear_masked [] dst = dst
clear_masked (b ∷ bs) [] = []
clear_masked (b ∷ bs) (y ∷ dst) = (if b then 0 else y) ∷ clear_masked bs dst

unfoldable pub save_restore_mask_vm : OpType → List Bool → Vm → Vm
save_restore_mask_vm clear_saved mask vm = record vm {
  saved_values = clear_masked mask vm.saved_values;
}
save_restore_mask_vm clear_regs mask vm = record vm { registers = clear_masked mask vm.registers }
save_restore_mask_vm save mask vm = record vm {
  saved_values = copy_masked mask vm.registers vm.saved_values;
}
save_restore_mask_vm t mask vm = record vm {
  registers = copy_masked mask vm.saved_values vm.registers;
}

module _ {Mem : Type 0} where
  abbrev with_vm : (Vm → Vm) → Machine Mem → Machine Mem
  with_vm f m = record m { vm = f m.vm }

  unfoldable pub step_ctrl_loop : ControlLoop → Machine Mem → Machine Mem
  step_ctrl_loop o = with_vm (loop_vm o)

  unfoldable pub step_ldr_static : LoadRegisterStatic → Machine Mem → Machine Mem
  unfolding set_reg
  step_ldr_static o = with_vm (set_reg o.reg_index o.value)

  unfoldable pub step_perform_math_static :
      Shifter → PerformArithmeticStatic → Machine Mem → Machine Mem
  step_perform_math_static sh o = with_vm (perform_math_static_vm sh o)

  unfoldable pub step_perform_math_reg :
      Shifter → PerformArithmeticRegister → Machine Mem → Machine Mem
  step_perform_math_reg sh o = with_vm (perform_math_reg_vm sh o)

  unfoldable pub step_save_restore_reg : SaveRestoreRegister → Machine Mem → Machine Mem
  step_save_restore_reg o = with_vm (save_restore_vm o.op_type o.dst_index o.src_index)

  unfoldable pub step_save_restore_regmask : SaveRestoreRegisterMask → Machine Mem → Machine Mem
  step_save_restore_regmask o = with_vm (save_restore_mask_vm o.op_type o.should_operate)
