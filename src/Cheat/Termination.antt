-- ===== src/Cheat/Termination.antt =====
-- Execute of dmnt/source/cheat/impl/dmnt_cheat_vm.cpp ends on programs that have no end of a loop.
use nx_sysmodules.Base.{
  ℕ, zero, suc, ◌-◌, ◌≤◌, ◌<◌, ◌≡◌, inl, inr, refl, ◌∙◌, ap, Bool, true, false, not, Option, none,
  some, List, [], arith, ltb, if◌then◌else◌, length, Bool-cases,
}
use nx_sysmodules.Cheat.Opcodes.{
  Opcode, store_static, begin_cond, end_cond, ctrl_loop, ldr_static, ldr_memory, str_static,
  perform_math_static, begin_keypress_cond, perform_math_reg, str_register, begin_reg_cond,
  save_restore_reg, save_restore_regmask, debug_log,
}
use nx_sysmodules.Cheat.Vm.{Vm, num_opcodes, reset_state}
use nx_sysmodules.Cheat.Decode.{decode_next_opcode, finish}
use nx_sysmodules.Cheat.Decoding.{
  decode_next_opcode-SameState, decode_next_opcode-cases, decode_next_opcode-forward,
}
use nx_sysmodules.Cheat.Skip.{track, skip_loop, skip_conditional_block}
use nx_sysmodules.Cheat.Skipping.{track-eq, skip_round, skip_end, skip_done}
use nx_sysmodules.Cheat.Execute.Memory.{
  Env, Machine, set_reg, write_width, increment, step_store_static, step_ldr_memory,
  step_str_static, step_str_register, step_debug_log,
}
use nx_sysmodules.Cheat.Execute.Registers.{
  loop_vm, step_ctrl_loop, step_ldr_static, step_perform_math_static, step_perform_math_reg,
  step_save_restore_reg, step_save_restore_regmask, perform_math_static_vm, perform_math_reg_vm,
  save_restore_vm, save_restore_mask_vm,
}
use nx_sysmodules.Cheat.Execute.Blocks.{
  skip_unless, step_begin_cond, step_end_cond, step_begin_keypress_cond, step_begin_reg_cond,
}
use nx_sysmodules.Cheat.Execute.{finished, enter, execute_opcode, step, run, execute}
use nx_sysmodules.Cheat.Bounded.{Bounded, Bounded-decode}
use nx_sysmodules.Cheat.Safety.{Safe-step, run_end, run_round, Bounded-reset_state}

-- The end of a loop, the one opcode that jumps back.
unfoldable pub is_loop_end : Opcode → Bool
is_loop_end (ctrl_loop o) = not o.start_loop
is_loop_end op = false

-- The opcode that is decoded at a place of the program.
unfoldable pub opcode_at : List ℕ → ℕ → Option Opcode
opcode_at words ptr =
    (decode_next_opcode (record {
      instruction_ptr = ptr;
      condition_depth = 0;
      decode_success = true;
      program = words;
      registers = [];
      saved_values = [];
      loop_tops = [];
    })).0

unfoldable pub jumps_back : Option Opcode → Bool
jumps_back none = false
jumps_back (some op) = is_loop_end op

-- Whether no place before `n` decodes to the end of a loop.
unfoldable pub no_jump_below : List ℕ → ℕ → Bool
no_jump_below words zero = true
no_jump_below words (suc n) =
    let rest = no_jump_below words n in if jumps_back (opcode_at words n) then false else rest

no_jump_below-elim :
    (words : List ℕ) (n i : ℕ)
    → no_jump_below words n ≡ true
    → i < n
    → jumps_back (opcode_at words i) ≡ false
unfolding no_jump_below
no_jump_below-elim words zero i h l = absurd (omega (arith, l))
no_jump_below-elim words (suc n) i h l = ground (arith, no_jump_below-elim words n i)

opcode_at-decode_next_opcode :
    (vm : Vm)
    → vm.decode_success ≡ true
    → opcode_at vm.program vm.instruction_ptr ≡ (decode_next_opcode vm).0
unfolding opcode_at decode_next_opcode finish
opcode_at-decode_next_opcode vm good = rw good (ground arith)

abbrev Onward : Vm → Vm → Type 0
Onward vm vm' = (vm'.program ≡ vm.program) × (vm.instruction_ptr ≤ vm'.instruction_ptr)

Onward-decode : (vm : Vm) → Onward vm (decode_next_opcode vm).1
Onward-decode vm = ((decode_next_opcode-SameState vm).program, decode_next_opcode-forward vm)

Onward-skip_loop : (n desired : ℕ) (vm : Vm) → Onward vm (skip_loop n desired vm)
unfolding skip_loop
Onward-skip_loop zero desired vm = (refl, omega arith)
Onward-skip_loop (suc n) desired vm = elim (Bool-cases (ltb desired vm.condition_depth)) [
  | inr d ↦ rw (skip_done (suc n) desired vm d) (refl, omega arith)
  | inl d ↦ elim (decode_next_opcode-cases vm) [
    | inr (ended, bad) ↦ rw (skip_end n desired vm d ended) (Onward-decode vm)
    | inl (op, e, _, _, _, _) ↦
        let t = track-eq op (decode_next_opcode vm).1 in
        let first = Onward-decode vm in
        let rest = Onward-skip_loop n desired (track op (decode_next_opcode vm).1) in
        rw (skip_round n desired vm op d e)
          (rest.0 ∙ (t.0 ∙ first.0), omega (arith, rest.1, t.4, first.1))
  ]
]

module _ {Mem : Type 0} where
  Onward-skip_unless :
      (met : Bool) (m m' : Machine Mem) → skip_unless met m ≡ some m' → Onward m.vm m'.vm
  unfolding skip_unless skip_conditional_block
  Onward-skip_unless true m m' e = ground arith
  Onward-skip_unless false m m' e =
      ground (arith, Onward-skip_loop (suc (num_opcodes m.vm)) (m.vm.condition_depth - 1) m.vm)

no_loop_end :
    (op : Opcode) (o : Option Opcode) → o ≡ some op → jumps_back o ≡ false → is_loop_end op ≡ false
unfolding jumps_back
no_loop_end op o e j = ground (arith, e)

module _ {Mem : Type 0} (env : Env Mem) where
  Onward-execute_opcode :
      (op : Opcode) (m m' : Machine Mem)
      → is_loop_end op ≡ false
      → execute_opcode env op m ≡ some m'
      → Onward m.vm m'.vm
  unfolding execute_opcode is_loop_end write_width increment loop_vm save_restore_vm
      save_restore_mask_vm step_store_static step_ldr_memory step_str_static step_str_register
      step_debug_log step_ctrl_loop step_ldr_static step_perform_math_static step_perform_math_reg
      step_save_restore_reg step_save_restore_regmask perform_math_static_vm perform_math_reg_vm
      step_begin_cond step_end_cond step_begin_keypress_cond step_begin_reg_cond set_reg
  Onward-execute_opcode (store_static o) m m' l e = ground arith
  Onward-execute_opcode (begin_cond o) m m' l e = Onward-skip_unless _ m m' e
  Onward-execute_opcode end_cond m m' l e = ground arith
  Onward-execute_opcode (ctrl_loop o) m m' l e = ground arith
  Onward-execute_opcode (ldr_static o) m m' l e = ground arith
  Onward-execute_opcode (ldr_memory o) m m' l e = ground arith
  Onward-execute_opcode (str_static o) m m' l e = ground arith
  Onward-execute_opcode (perform_math_static o) m m' l e = ground arith
  Onward-execute_opcode (begin_keypress_cond mask) m m' l e = Onward-skip_unless _ m m' e
  Onward-execute_opcode (perform_math_reg o) m m' l e = ground arith
  Onward-execute_opcode (str_register o) m m' l e = ground arith
  Onward-execute_opcode (begin_reg_cond o) m m' l e = Onward-skip_unless _ m m' e
  Onward-execute_opcode (save_restore_reg o) m m' l e = ground arith
  Onward-execute_opcode (save_restore_regmask o) m m' l e = ground arith
  Onward-execute_opcode (debug_log o) m m' l e = ground arith

  Onward-step :
      (op : Opcode) (m m' : Machine Mem)
      → is_loop_end op ≡ false
      → step env op m ≡ some m'
      → Onward m.vm m'.vm
  unfolding step enter
  Onward-step op m m' l e =
      let on = Onward-execute_opcode op (record m { vm = enter op m.vm }) m' l e in
      ground (arith, on)

  run_terminates :
      (n : ℕ) (m : Machine Mem)
      → Bounded m.vm
      → no_jump_below m.vm.program (num_opcodes m.vm) ≡ true
      → num_opcodes m.vm - m.vm.instruction_ptr < n
      → (m' : Machine Mem) × (run env n m ≡ finished m')
  run_terminates zero m b free l = absurd (omega (arith, l))
  run_terminates (suc n) m b free l = elim (decode_next_opcode-cases m.vm) [
    | inr (ended, bad) ↦ (_, run_end env n m ended)
    | inl (op, e, good, _, past, inside) ↦
        let d = record m { vm = (decode_next_opcode m.vm).1 } in
        let (t, s, b') = Safe-step env op d (Bounded-decode m.vm b) in
        let place : opcode_at m.vm.program m.vm.instruction_ptr ≡ some op =
          opcode_at-decode_next_opcode m.vm good ∙ e in
        let still =
          no_jump_below-elim m.vm.program (num_opcodes m.vm) m.vm.instruction_ptr free
            (omega (arith, past, inside)) in
        let first = Onward-decode m.vm in
        let on = Onward-step op d t (no_loop_end op _ place still) s in
        let same : t.vm.program ≡ m.vm.program = on.0 ∙ first.0 in
        let size : num_opcodes t.vm ≡ num_opcodes m.vm = ap length same in
        let (m', r) =
          run_terminates n t b' (rw same free)
            (omega (arith, l, size, past, on.1, b.within, inside)) in
        (m', run_round env n m t op e s ∙ r)
  ]

  -- Execute of a program in which no place decodes to the end of a loop finishes within one round
  -- for each word and one more, whatever the memory and the keys are.
  pub execute_terminates :
      (m : Machine Mem)
      → no_jump_below m.vm.program (num_opcodes m.vm) ≡ true
      → (m' : Machine Mem) × (execute env (suc (num_opcodes m.vm)) m ≡ finished m')
  unfolding execute reset_state
  execute_terminates m free =
      run_terminates (suc (num_opcodes m.vm)) (record m { vm = reset_state m.vm })
        (Bounded-reset_state env m.vm) free (omega arith)
