-- ===== src/Cheat/Tests.antt =====
-- Small programs for the cheat virtual machine of dmnt/source/cheat/impl/dmnt_cheat_vm.cpp, and what
-- the theorems say of them.
use nx_sysmodules.Base.{
  get_or, All, All-replicate, length, ℕ, ◌≤◌, ◌<◌, ◌≡◌, ◌≢◌, ◌⊎◌, refl, Bool, true, false, none,
  some, List, [], ◌∷◌, arith, replicate,
}
use nx_sysmodules.Cheat.Opcodes.{Opcode, begin_conditional_block, is_end_cond}
use nx_sysmodules.Cheat.Vm.{Vm, num_opcodes, num_registers, CheatEntry, load_program, reset_state}
use nx_sysmodules.Cheat.Fetch.{get_next_dword}
use nx_sysmodules.Cheat.Decode.Fixed.{
  decode_begin_keypress_cond, decode_ldr_static, decode_store_static,
}
use nx_sysmodules.Cheat.Decode.{opcode_type, decode_operands, decode_next_opcode}
use nx_sysmodules.Cheat.Skip.{track, skip_loop, skip_conditional_block}
use nx_sysmodules.Cheat.Execute.Memory.{Env, Machine}
use nx_sysmodules.Cheat.Execute.Registers.{save_restore_mask_vm, step_ldr_static}
use nx_sysmodules.Cheat.Execute.Blocks.{step_begin_keypress_cond}
use nx_sysmodules.Cheat.Execute.{finished, aborted, execute, run, step, enter, execute_opcode}
use nx_sysmodules.Cheat.Bounded.{Bounded}
use nx_sysmodules.Cheat.Loading.{enabled_opcodes, load_program_lem}
use nx_sysmodules.Cheat.Decoding.{decode_next_opcode-cases}
use nx_sysmodules.Cheat.Skipping.{skip_conditional_block_returns}
use nx_sysmodules.Cheat.Termination.{
  is_loop_end, opcode_at, jumps_back, no_jump_below, execute_terminates,
}
use nx_sysmodules.Cheat.Opcodes.Enumerations.{restore, save, clear_saved, clear_regs}
use nx_sysmodules.Cheat.Masks.{save_restore_mask_vm-get_or}
use nx_sysmodules.Cheat.Safety.{execute_never_aborts, execute_finishes-Bounded}

-- While key 1 is held, register 0 becomes 5; register 1 becomes 7 in any case.
abbrev words : List ℕ
words = 0x80000001 ∷ 0x40000000 ∷ 0 ∷ 5 ∷ 0x20000000 ∷ 0x40010000 ∷ 0 ∷ 7 ∷ []

abbrev zeros : List ℕ
zeros = replicate num_registers 0

abbrev vm_at : ℕ → ℕ → Bool → List ℕ → Vm
vm_at ptr depth good registers = record {
  instruction_ptr = ptr;
  condition_depth = depth;
  decode_success = good;
  program = words;
  registers = registers;
  saved_values = zeros;
  loop_tops = zeros;
}

-- Memory is one cell; no key is held.
abbrev env : Env ℕ
env = record {
  read = λ memory address width. some memory;
  write = λ memory address width value. value;
  keys_held = 0;
  main_nso_base = 0x8000000;
  heap_base = 0x9000000;
  shifter = record { wide_left = λ a b. 0; wide_right = λ a b. 0 };
}

abbrev machine : Vm → Machine ℕ
machine vm = record { vm = vm; memory = 3; logs = [] }

-- Inside the block, at its first opcode.
abbrev in_block : Vm
in_block = vm_at 1 1 true zeros

abbrev ended : Vm
ended = vm_at 8 0 false (0 ∷ 7 ∷ replicate 14 0)

runs : execute env 4 (machine (vm_at 0 0 true zeros)) ≡ finished (machine ended)
unfolding execute run step enter execute_opcode reset_state decode_next_opcode get_next_dword
    decode_operands opcode_type decode_begin_keypress_cond step_begin_keypress_cond
    skip_conditional_block begin_conditional_block skip_loop decode_ldr_static track is_end_cond
    step_ldr_static
runs = refl

decode_next_opcode-cases_example :
    ((op : Opcode) × ((decode_next_opcode in_block).0 ≡ some op)
      × (in_block.decode_success ≡ true)
      × ((decode_next_opcode in_block).1.decode_success ≡ true)
      × (in_block.instruction_ptr < (decode_next_opcode in_block).1.instruction_ptr)
      × ((decode_next_opcode in_block).1.instruction_ptr ≤ num_opcodes in_block))
    ⊎ (((decode_next_opcode in_block).0 ≡ none)
        × ((decode_next_opcode in_block).1.decode_success ≡ false))
decode_next_opcode-cases_example = decode_next_opcode-cases in_block

skip_conditional_block_returns_example :
    (vm' : Vm) × (skip_conditional_block in_block ≡ some vm')
    × ((vm'.condition_depth < in_block.condition_depth) ⊎ (vm'.decode_success ≡ false))
skip_conditional_block_returns_example =
    skip_conditional_block_returns in_block (omega arith) (omega arith)

execute_never_aborts_example : execute env 4 (machine in_block) ≢ aborted
execute_never_aborts_example = execute_never_aborts env 4 (machine in_block)

execute_finishes-Bounded_example : Bounded ended × (ended.decode_success ≡ false)
execute_finishes-Bounded_example =
    execute_finishes-Bounded env 4 (machine (vm_at 0 0 true zeros)) (machine ended) runs

-- The first cheat is off.
abbrev cheats : List CheatEntry
cheats =
    record { enabled = false; opcodes = 1 ∷ [] }
    ∷ record { enabled = true; opcodes = 0x20000000 ∷ [] }
    ∷ record { enabled = true; opcodes = 0x80000001 ∷ [] }
    ∷ []

load_program_lem_example :
    load_program cheats in_block
    ≡ (record in_block { program = 0x20000000 ∷ 0x80000001 ∷ [] }, true)
unfolding enabled_opcodes
load_program_lem_example = load_program_lem cheats in_block

free_of_jumps : no_jump_below words (length words) ≡ true
unfolding no_jump_below jumps_back opcode_at is_loop_end decode_next_opcode get_next_dword
    decode_operands opcode_type decode_begin_keypress_cond decode_ldr_static decode_store_static
free_of_jumps = refl

-- Nine rounds are enough for the eight words.
execute_terminates_example : (m' : Machine ℕ) × (execute env 9 (machine in_block) ≡ finished m')
execute_terminates_example = execute_terminates env (machine in_block) free_of_jumps

abbrev mixed : Vm
mixed = vm_at 0 0 true (9 ∷ 8 ∷ replicate 14 0)

save_restore_mask_vm-get_or_example :
    (get_or (save_restore_mask_vm save (false ∷ true ∷ []) mixed).saved_values 1 0 ≡ 8)
    × (get_or (save_restore_mask_vm restore (false ∷ true ∷ []) mixed).registers 1 0 ≡ 0)
    × (get_or (save_restore_mask_vm clear_saved (false ∷ true ∷ []) mixed).saved_values 1 0 ≡ 0)
    × (get_or (save_restore_mask_vm clear_regs (false ∷ true ∷ []) mixed).registers 1 0 ≡ 0)
    × ((save_restore_mask_vm save (false ∷ true ∷ []) mixed).registers ≡ mixed.registers)
    × ((save_restore_mask_vm clear_saved (false ∷ true ∷ []) mixed).registers ≡ mixed.registers)
    × ((save_restore_mask_vm restore (false ∷ true ∷ []) mixed).saved_values ≡ zeros)
    × ((save_restore_mask_vm clear_regs (false ∷ true ∷ []) mixed).saved_values ≡ zeros)
save_restore_mask_vm-get_or_example =
    save_restore_mask_vm-get_or (false ∷ true ∷ []) mixed 1 (record {
      within = omega arith;
      tops = tops;
      top_count = refl;
      register_count = refl;
      saved_count = refl;
    })
  where
    tops : All (λ t. t ≤ 8) zeros
    tops = All-replicate (λ t. t ≤ 8) 16 0 (omega arith)
