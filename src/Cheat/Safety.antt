-- ===== src/Cheat/Safety.antt =====
-- What a run of Execute of dmnt/source/cheat/impl/dmnt_cheat_vm.cpp keeps, and that it never aborts.
use nx_sysmodules.Base.{
  ℕ, zero, suc, ◌-◌, ◌≤◌, ◌<◌, ◌≡◌, ◌≢◌, inl, inr, refl, sym, ◌∙◌, Bool, true, false, Option, none,
  some, arith, All-replicate,
}
use nx_sysmodules.Cheat.Opcodes.{
  Opcode, begin_conditional_block, store_static, begin_cond, end_cond, ctrl_loop, ldr_static,
  ldr_memory, str_static, perform_math_static, begin_keypress_cond, perform_math_reg, str_register,
  begin_reg_cond, save_restore_reg, save_restore_regmask, debug_log,
}
use nx_sysmodules.Cheat.Vm.{Vm, num_opcodes, num_registers, reset_state}
use nx_sysmodules.Cheat.Decode.{decode_next_opcode}
use nx_sysmodules.Cheat.Skip.{skip_loop, skip_conditional_block}
use nx_sysmodules.Cheat.Decoding.{decode_next_opcode-cases}
use nx_sysmodules.Cheat.Execute.Memory.{Env, Machine, increment, write_width}
use nx_sysmodules.Cheat.Execute.Blocks.{skip_unless}
use nx_sysmodules.Cheat.Execute.{enter, execute_opcode, step, Run, finished, aborted, run, execute}
use nx_sysmodules.Cheat.Execute.Memory.{
  step_store_static, step_ldr_memory, step_str_static, step_str_register, step_debug_log,
}
use nx_sysmodules.Cheat.Execute.Registers.{
  step_ctrl_loop, step_ldr_static, step_perform_math_static, step_perform_math_reg,
  step_save_restore_reg, step_save_restore_regmask, perform_math_static_vm, perform_math_reg_vm,
}
use nx_sysmodules.Cheat.Execute.Blocks.{
  step_begin_cond, step_end_cond, step_begin_keypress_cond, step_begin_reg_cond,
}
use nx_sysmodules.Cheat.Bounded.{
  Bounded, Bounded-move, Bounded-decode, Bounded-enter, Bounded-skip_loop, Bounded-set_reg,
  Bounded-loop_vm, Bounded-save_restore_vm, Bounded-save_restore_mask_vm,
}

-- A step that does not abort, to a bounded machine.
abbrev pub Safe : {Mem : Type 0} → Option (Machine Mem) → Type 0
Safe {Mem} r = (m' : Machine Mem) × (r ≡ some m') × Bounded m'.vm

module _ {Mem : Type 0} where
  Safe-skip_unless :
      (met : Bool) (m : Machine Mem)
      → Bounded m.vm
      → 0 < m.vm.condition_depth
      → Safe (skip_unless met m)
  unfolding skip_unless skip_conditional_block
  Safe-skip_unless true m b d = (m, refl, b)
  Safe-skip_unless false m b d = (
    record m { vm = skip_loop (suc (num_opcodes m.vm)) (m.vm.condition_depth - 1) m.vm },
    ground arith,
    Bounded-skip_loop (suc (num_opcodes m.vm)) (m.vm.condition_depth - 1) m.vm b,
  )

module _ {Mem : Type 0} (env : Env Mem) where
  Bounded-increment :
      (c : Bool) (i w : ℕ) (m : Machine Mem) → Bounded m.vm → Bounded (increment env c i w m).vm
  unfolding increment
  Bounded-increment false i w m b = b
  Bounded-increment true i w m b = Bounded-set_reg i _ m.vm b

  write_width-vm :
      (address w value : ℕ) (m : Machine Mem) → (write_width env address w value m).vm ≡ m.vm
  unfolding write_width
  write_width-vm address w value m = ground arith

  Bounded-write_width :
      (address w value : ℕ) (m : Machine Mem)
      → Bounded m.vm
      → Bounded (write_width env address w value m).vm
  Bounded-write_width address w value m b = rw (write_width-vm address w value m) b

  enter-deep :
      (op : Opcode) (vm : Vm)
      → begin_conditional_block op ≡ true
      → 0 < (enter op vm).condition_depth
  unfolding enter
  enter-deep op vm e = rw e (omega arith)

  Safe-execute_opcode :
      (op : Opcode) (m : Machine Mem)
      → Bounded m.vm
      → (begin_conditional_block op ≡ true → 0 < m.vm.condition_depth)
      → Safe (execute_opcode env op m)
  unfolding execute_opcode begin_conditional_block step_store_static step_ldr_memory step_str_static
      step_str_register step_debug_log step_ctrl_loop step_ldr_static step_perform_math_static
      step_perform_math_reg step_save_restore_reg step_save_restore_regmask perform_math_static_vm
      perform_math_reg_vm step_begin_cond step_end_cond step_begin_keypress_cond step_begin_reg_cond
  Safe-execute_opcode (store_static o) m b d = (_, refl, Bounded-write_width _ _ _ m b)
  Safe-execute_opcode (begin_cond o) m b d = Safe-skip_unless _ m b (d refl)
  Safe-execute_opcode end_cond m b d = (_, refl, Bounded-move m.vm _ b refl refl refl refl b.within)
  Safe-execute_opcode (ctrl_loop o) m b d = (_, refl, Bounded-loop_vm o m.vm b)
  Safe-execute_opcode (ldr_static o) m b d = (_, refl, Bounded-set_reg _ _ m.vm b)
  Safe-execute_opcode (ldr_memory o) m b d = (_, refl, Bounded-set_reg _ _ m.vm b)
  Safe-execute_opcode (str_static o) m b d =
      (_, refl, Bounded-increment _ _ _ _ (Bounded-write_width _ _ _ m b))
  Safe-execute_opcode (perform_math_static o) m b d = (_, refl, Bounded-set_reg _ _ m.vm b)
  Safe-execute_opcode (begin_keypress_cond mask) m b d = Safe-skip_unless _ m b (d refl)
  Safe-execute_opcode (perform_math_reg o) m b d = (_, refl, Bounded-set_reg _ _ m.vm b)
  Safe-execute_opcode (str_register o) m b d =
      (_, refl, Bounded-increment _ _ _ _ (Bounded-write_width _ _ _ m b))
  Safe-execute_opcode (begin_reg_cond o) m b d = Safe-skip_unless _ m b (d refl)
  Safe-execute_opcode (save_restore_reg o) m b d =
      (_, refl, Bounded-save_restore_vm o.op_type o.dst_index o.src_index m.vm b)
  Safe-execute_opcode (save_restore_regmask o) m b d =
      (_, refl, Bounded-save_restore_mask_vm o.op_type o.should_operate m.vm b)
  Safe-execute_opcode (debug_log o) m b d = (_, refl, b)

  pub Safe-step : (op : Opcode) (m : Machine Mem) → Bounded m.vm → Safe (step env op m)
  unfolding step
  Safe-step op m b =
      Safe-execute_opcode op (record m { vm = enter op m.vm }) (Bounded-enter op m.vm b)
        (enter-deep op m.vm)

  pub run_end :
      (n : ℕ) (m : Machine Mem)
      → (decode_next_opcode m.vm).0 ≡ none
      → run env (suc n) m ≡ finished (record m { vm = (decode_next_opcode m.vm).1 })
  unfolding run
  run_end n m e = ground arith

  pub run_round :
      (n : ℕ) (m m' : Machine Mem) (op : Opcode)
      → (decode_next_opcode m.vm).0 ≡ some op
      → step env op (record m { vm = (decode_next_opcode m.vm).1 }) ≡ some m'
      → run env (suc n) m ≡ run env n m'
  unfolding run
  run_round n m m' op e s = ground arith

  abbrev run_of : Machine Mem → Run env
  run_of m = finished m

  finished_eq : {m m' : Machine Mem} → run_of m ≡ run_of m' → m ≡ m'
  finished_eq e = cc

  run-safe : (n : ℕ) (m : Machine Mem) → Bounded m.vm → run env n m ≢ aborted
  unfolding run
  run-safe zero m b = λ e. cc
  run-safe (suc n) m b = elim (decode_next_opcode-cases m.vm) [
    | inr (ended, bad) ↦ rw (run_end n m ended) (λ e. cc)
    | inl (op, e, _, _, _, _) ↦
        let (m', s, b') =
          Safe-step op (record m { vm = (decode_next_opcode m.vm).1 }) (Bounded-decode m.vm b) in
        rw (run_round n m m' op e s) (run-safe n m' b')
  ]

  run-end :
      (n : ℕ) (m m' : Machine Mem)
      → Bounded m.vm
      → run env n m ≡ finished m'
      → Bounded m'.vm × (m'.vm.decode_success ≡ false)
  unfolding run
  run-end zero m m' b e = cc
  run-end (suc n) m m' b e = elim (decode_next_opcode-cases m.vm) [
    | inr (ended, bad) ↦
        let q : m' ≡ record m { vm = (decode_next_opcode m.vm).1 } =
          finished_eq (sym e ∙ run_end n m ended) in
        rw q (Bounded-decode m.vm b, bad)
    | inl (op, d, _, _, _, _) ↦
        let (t, s, b') =
          Safe-step op (record m { vm = (decode_next_opcode m.vm).1 }) (Bounded-decode m.vm b) in
        run-end n t m' b' (sym (run_round n m t op d s) ∙ e)
  ]

  pub Bounded-reset_state : (vm : Vm) → Bounded (reset_state vm)
  unfolding reset_state
  Bounded-reset_state vm = record {
    within = omega arith;
    tops = All-replicate (λ t. t ≤ num_opcodes vm) num_registers 0 (omega arith);
    top_count = refl;
    register_count = refl;
    saved_count = refl;
  }

  -- Execute never reaches the abort of SkipConditionalBlock, however long it runs.
  pub execute_never_aborts : (fuel : ℕ) (m : Machine Mem) → execute env fuel m ≢ aborted
  unfolding execute
  execute_never_aborts fuel m =
      run-safe fuel (record m { vm = reset_state m.vm }) (Bounded-reset_state m.vm)

  -- Where Execute finishes, the last decoding has failed, the instruction pointer and every loop top
  -- are within the program, and the arrays have their sizes.
  pub execute_finishes-Bounded :
      (fuel : ℕ) (m m' : Machine Mem)
      → execute env fuel m ≡ finished m'
      → Bounded m'.vm × (m'.vm.decode_success ≡ false)
  unfolding execute
  execute_finishes-Bounded fuel m m' e =
      run-end fuel (record m { vm = reset_state m.vm }) m' (Bounded-reset_state m.vm) e
