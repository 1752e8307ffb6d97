-- ===== src/Cheat/Masks.antt =====
-- The SaveRestoreRegisterMask opcode of dmnt/source/cheat/impl/dmnt_cheat_vm.cpp, register by register.
use nx_sysmodules.Base.{
  ℕ, zero, suc, ◌≡◌, refl, ◌∙◌, sym, Bool, false, List, [], ◌∷◌, arith, if◌then◌else◌, length,
  get_or,
}
use nx_sysmodules.Cheat.Opcodes.Enumerations.{restore, save, clear_saved, clear_regs}
use nx_sysmodules.Cheat.Vm.{Vm}
use nx_sysmodules.Cheat.Execute.Registers.{copy_masked, clear_masked, save_restore_mask_vm}
use nx_sysmodules.Cheat.Bounded.{Bounded}

get_or-copy_masked :
    (mask : List Bool) (src dst : List ℕ) (i : ℕ)
    → length src ≡ length dst
    → get_or (copy_masked mask src dst) i 0
      ≡ (if get_or mask i false then get_or src i 0 else get_or dst i 0)
unfolding copy_masked
get_or-copy_masked [] src dst i e = refl
get_or-copy_masked (b ∷ bs) [] [] i e = ground arith
get_or-copy_masked (b ∷ bs) [] (y ∷ dst) i e = absurd (omega (arith, e))
get_or-copy_masked (b ∷ bs) (x ∷ src) [] i e = absurd (omega (arith, e))
get_or-copy_masked (b ∷ bs) (x ∷ src) (y ∷ dst) zero e = refl
get_or-copy_masked (b ∷ bs) (x ∷ src) (y ∷ dst) (suc i) e =
    get_or-copy_masked bs src dst i (omega (arith, e))

get_or-clear_masked :
    (mask : List Bool) (dst : List ℕ) (i : ℕ)
    → get_or (clear_masked mask dst) i 0 ≡ (if get_or mask i false then 0 else get_or dst i 0)
unfolding clear_masked
get_or-clear_masked [] dst i = refl
get_or-clear_masked (b ∷ bs) [] i = ground arith
get_or-clear_masked (b ∷ bs) (y ∷ dst) zero = refl
get_or-clear_masked (b ∷ bs) (y ∷ dst) (suc i) = get_or-clear_masked bs dst i

-- On a machine whose arrays have their sizes, the masked opcode saves, restores or clears exactly the
-- registers of the mask and leaves the others; saving and clearing saved values leave the registers,
-- restoring and clearing registers leave the saved values.
pub save_restore_mask_vm-get_or :
    (mask : List Bool) (vm : Vm) (i : ℕ)
    → Bounded vm
    → (get_or (save_restore_mask_vm save mask vm).saved_values i 0
        ≡ (if get_or mask i false then get_or vm.registers i 0 else get_or vm.saved_values i 0))
      × (get_or (save_restore_mask_vm restore mask vm).registers i 0
          ≡ (if get_or mask i false then get_or vm.saved_values i 0 else get_or vm.registers i 0))
      × (get_or (save_restore_mask_vm clear_saved mask vm).saved_values i 0
          ≡ (if get_or mask i false then 0 else get_or vm.saved_values i 0))
      × (get_or (save_restore_mask_vm clear_regs mask vm).registers i 0
          ≡ (if get_or mask i false then 0 else get_or vm.registers i 0))
      × ((save_restore_mask_vm save mask vm).registers ≡ vm.registers)
      × ((save_restore_mask_vm clear_saved mask vm).registers ≡ vm.registers)
      × ((save_restore_mask_vm restore mask vm).saved_values ≡ vm.saved_values)
      × ((save_restore_mask_vm clear_regs mask vm).saved_values ≡ vm.saved_values)
unfolding save_restore_mask_vm
save_restore_mask_vm-get_or mask vm i b = (
  get_or-copy_masked mask vm.registers vm.saved_values i (b.register_count ∙ sym b.saved_count),
  get_or-copy_masked mask vm.saved_values vm.registers i (b.saved_count ∙ sym b.register_count),
  get_or-clear_masked mask vm.saved_values i,
  get_or-clear_masked mask vm.registers i,
  refl,
  refl,
  refl,
  refl,
)
