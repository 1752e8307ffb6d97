-- ===== src/Cheat/Vm.antt =====
-- The state of CheatVirtualMachine, dmnt/source/cheat/impl/dmnt_cheat_vm.hpp, ResetState and
-- LoadProgram.
use nx_sysmodules.Base.{
  ℕ, ◌+◌, Bool, true, false, List, [], ◌∷◌, ◌++◌, ltb, if◌then◌else◌, length, replicate,
}

abbrev pub maximum_program_opcode_count : ℕ
maximum_program_opcode_count = 0x400

abbrev pub num_registers : ℕ
num_registers = 0x10

-- `program` holds the first `num_opcodes` words of the array, the only ones that are read.
pub record Vm : Type 0 where
  pub instruction_ptr : ℕ
  pub condition_depth : ℕ
  pub decode_success : Bool
  pub program : List ℕ
  pub registers : List ℕ
  pub saved_values : List ℕ
  pub loop_tops : List ℕ

abbrev pub num_opcodes : Vm → ℕ
num_opcodes vm = length vm.program

unfoldable pub reset_state : Vm → Vm
reset_state vm = record vm {
  instruction_ptr = 0;
  condition_depth = 0;
  decode_success = true;
  registers = replicate num_registers 0;
  saved_values = replicate num_registers 0;
  loop_tops = replicate num_registers 0;
}

pub record CheatEntry : Type 0 where
  pub enabled : Bool
  pub opcodes : List ℕ

-- The loop of LoadProgram over the cheats, from the words loaded so far.
unfoldable pub load_cheats : List CheatEntry → List ℕ → List ℕ × Bool
load_cheats [] loaded = (loaded, true)
load_cheats (c ∷ cs) loaded =
    let skipped = load_cheats cs loaded in
    let added = load_cheats cs (loaded ++ c.opcodes) in
    if c.enabled
    then if ltb maximum_program_opcode_count (length c.opcodes + length loaded)
      then ([], false)
      else added
    else skipped

-- The new machine and whether the program was loaded.
unfoldable pub load_program : List CheatEntry → Vm → Vm × Bool
unfolding load_cheats
load_program cheats vm =
    let (words, loaded) = load_cheats cheats [] in (record vm { program = words }, loaded)
