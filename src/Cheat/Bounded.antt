-- ===== src/Cheat/Bounded.antt =====
-- The bounds that the opcodes keep in Execute of dmnt/source/cheat/impl/dmnt_cheat_vm.cpp keeps.
use nx_sysmodules.Base.{
  ℕ, zero, suc, ◌+◌, ◌-◌, ◌≤◌, ◌≡◌, inl, inr, refl, ap, ◌∙◌, Bool, List, [], ◌∷◌, arith, ltb, ◌==◌,
  length, get_or, All, All-set, length-set, Bool-cases,
}
use nx_sysmodules.Cheat.Opcodes.{Opcode, begin_conditional_block, is_end_cond, ControlLoop}
use nx_sysmodules.Cheat.Opcodes.Enumerations.{OpType, save, clear_saved, clear_regs}
use nx_sysmodules.Cheat.Vm.{Vm, num_opcodes, num_registers}
use nx_sysmodules.Cheat.Decode.{decode_next_opcode}
use nx_sysmodules.Cheat.Skip.{track, skip_loop}
use nx_sysmodules.Cheat.Decoding.{
  decode_next_opcode-SameState, decode_next_opcode-cases, decode_next_opcode-within,
}
use nx_sysmodules.Cheat.Skipping.{skip_round, skip_end, skip_done}
use nx_sysmodules.Cheat.Execute.Memory.{reg_at, set_reg}
use nx_sysmodules.Cheat.Execute.Registers.{
  loop_vm, save_restore_vm, save_restore_mask_vm, copy_masked, clear_masked,
}
use nx_sysmodules.Cheat.Values.{u64, u64_mod}
use nx_sysmodules.Cheat.Execute.{enter}

-- The pointer and every loop top are within the program; the arrays have their sizes.
pub record Bounded (vm : Vm) : Type 0 where
  pub within : vm.instruction_ptr ≤ num_opcodes vm
  pub tops : All (λ t. t ≤ num_opcodes vm) vm.loop_tops
  pub top_count : length vm.loop_tops ≡ num_registers
  pub register_count : length vm.registers ≡ num_registers
  pub saved_count : length vm.saved_values ≡ num_registers

-- A move of the pointer to a place within the program.
pub Bounded-move :
    (vm vm' : Vm)
    → Bounded vm
    → vm'.program ≡ vm.program
    → vm'.loop_tops ≡ vm.loop_tops
    → vm'.registers ≡ vm.registers
    → vm'.saved_values ≡ vm.saved_values
    → vm'.instruction_ptr ≤ num_opcodes vm
    → Bounded vm'
Bounded-move vm vm' b p t r s w = record {
  within = rw p w;
  tops = rw (t, p) b.tops;
  top_count = rw t b.top_count;
  register_count = rw r b.register_count;
  saved_count = rw s b.saved_count;
}

pub Bounded-decode : (vm : Vm) → Bounded vm → Bounded (decode_next_opcode vm).1
Bounded-decode vm b =
    let s = decode_next_opcode-SameState vm in
    Bounded-move vm (decode_next_opcode vm).1 b s.program s.tops s.registers s.saved
      (decode_next_opcode-within vm b.within)

Bounded-track : (op : Opcode) (vm : Vm) → Bounded vm → Bounded (track op vm)
unfolding track
Bounded-track op vm b = elim (Bool-cases (begin_conditional_block op)) [
  | inl e ↦ rw e (Bounded-move vm _ b refl refl refl refl b.within)
  | inr e ↦ rw e (elim (Bool-cases (is_end_cond op)) [
    | inl f ↦ rw f (Bounded-move vm _ b refl refl refl refl b.within)
    | inr f ↦ rw f b
  ])
]

pub Bounded-enter : (op : Opcode) (vm : Vm) → Bounded vm → Bounded (enter op vm)
unfolding enter
Bounded-enter op vm b = elim (Bool-cases (begin_conditional_block op)) [
  | inl e ↦ rw e (Bounded-move vm _ b refl refl refl refl b.within)
  | inr e ↦ rw e b
]

pub Bounded-skip_loop : (n desired : ℕ) (vm : Vm) → Bounded vm → Bounded (skip_loop n desired vm)
unfolding skip_loop
Bounded-skip_loop zero desired vm b = b
Bounded-skip_loop (suc n) desired vm b = elim (Bool-cases (ltb desired vm.condition_depth)) [
  | inr d ↦ rw (skip_done (suc n) desired vm d) b
  | inl d ↦ elim (decode_next_opcode-cases vm) [
    | inr (ended, bad) ↦ rw (skip_end n desired vm d ended) (Bounded-decode vm b)
    | inl (op, e, _, _, _, _) ↦ rw (skip_round n desired vm op d e) (
        Bounded-skip_loop n desired (track op (decode_next_opcode vm).1)
          (Bounded-track op (decode_next_opcode vm).1 (Bounded-decode vm b)))
  ]
]

All-get_or : (bound : ℕ) (xs : List ℕ) (i : ℕ) → All (λ t. t ≤ bound) xs → get_or xs i 0 ≤ bound
All-get_or bound [] i h = omega arith
All-get_or bound (x ∷ xs) zero h = h.0
All-get_or bound (x ∷ xs) (suc i) h = All-get_or bound xs i h.1

pub Bounded-set_reg : (i v : ℕ) (vm : Vm) → Bounded vm → Bounded (set_reg i v vm)
unfolding set_reg
Bounded-set_reg i v vm b = record {
  within = b.within;
  tops = b.tops;
  top_count = b.top_count;
  register_count = length-set vm.registers i v ∙ b.register_count;
  saved_count = b.saved_count;
}

pub Bounded-loop_vm : (o : ControlLoop) (vm : Vm) → Bounded vm → Bounded (loop_vm o vm)
unfolding loop_vm
Bounded-loop_vm o vm b =
    let count = u64 (reg_at vm o.reg_index + u64_mod - 1) in
    elim (Bool-cases o.start_loop) [
      | inl e ↦ rw e (record {
        within = b.within;
        tops = All-set _ vm.loop_tops o.reg_index vm.instruction_ptr b.tops b.within;
        top_count = length-set vm.loop_tops o.reg_index vm.instruction_ptr ∙ b.top_count;
        register_count = length-set vm.registers o.reg_index o.num_iters ∙ b.register_count;
        saved_count = b.saved_count;
      })
      | inr e ↦ rw e (elim (Bool-cases (count == 0)) [
        | inl z ↦ rw z (Bounded-set_reg o.reg_index count vm b)
        | inr z ↦ rw z (record {
          within = All-get_or (num_opcodes vm) vm.loop_tops o.reg_index b.tops;
          tops = b.tops;
          top_count = b.top_count;
          register_count = length-set vm.registers o.reg_index count ∙ b.register_count;
          saved_count = b.saved_count;
        })
      ])
    ]

length-copy_masked :
    (mask : List Bool) (src dst : List ℕ) → length (copy_masked mask src dst) ≡ length dst
unfolding copy_masked
length-copy_masked [] src dst = refl
length-copy_masked (b ∷ bs) [] dst = refl
length-copy_masked (b ∷ bs) (x ∷ src) [] = refl
length-copy_masked (b ∷ bs) (x ∷ src) (y ∷ dst) = ap suc (length-copy_masked bs src dst)

length-clear_masked :
    (mask : List Bool) (dst : List ℕ) → length (clear_masked mask dst) ≡ length dst
unfolding clear_masked
length-clear_masked [] dst = refl
length-clear_masked (b ∷ bs) [] = refl
length-clear_masked (b ∷ bs) (y ∷ dst) = ap suc (length-clear_masked bs dst)

-- A machine with other registers or saved values of the same numbers.
Bounded-values :
    (vm : Vm) (registers saved : List ℕ)
    → Bounded vm
    → length registers ≡ length vm.registers
    → length saved ≡ length vm.saved_values
    → Bounded (record vm { registers = registers; saved_values = saved })
Bounded-values vm registers saved b r s = record {
  within = b.within;
  tops = b.tops;
  top_count = b.top_count;
  register_count = r ∙ b.register_count;
  saved_count = s ∙ b.saved_count;
}

pub Bounded-save_restore_vm :
    (t : OpType) (dst src : ℕ) (vm : Vm) → Bounded vm → Bounded (save_restore_vm t dst src vm)
unfolding save_restore_vm
Bounded-save_restore_vm clear_regs dst src vm b = Bounded-set_reg dst _ vm b
Bounded-save_restore_vm clear_saved dst src vm b =
    Bounded-values vm vm.registers _ b refl (length-set vm.saved_values dst _)
Bounded-save_restore_vm save dst src vm b =
    Bounded-values vm vm.registers _ b refl (length-set vm.saved_values dst _)
Bounded-save_restore_vm t dst src vm b = Bounded-set_reg dst _ vm b

pub Bounded-save_restore_mask_vm :
    (t : OpType) (mask : List Bool) (vm : Vm)
    → Bounded vm
    → Bounded (save_restore_mask_vm t mask vm)
unfolding save_restore_mask_vm
Bounded-save_restore_mask_vm clear_regs mask vm b =
    Bounded-values vm _ vm.saved_values b (length-clear_masked mask vm.registers) refl
Bounded-save_restore_mask_vm clear_saved mask vm b =
    Bounded-values vm vm.registers _ b refl (length-clear_masked mask vm.saved_values)
Bounded-save_restore_mask_vm save mask vm b =
    Bounded-values vm vm.registers _ b refl (length-copy_masked mask vm.registers vm.saved_values)
Bounded-save_restore_mask_vm t mask vm b =
    Bounded-values vm _ vm.saved_values b (length-copy_masked mask vm.saved_values vm.registers)
      refl
