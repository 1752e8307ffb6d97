-- ===== src/Cheat/Decoding.antt =====
-- What DecodeNextOpcode of dmnt/source/cheat/impl/dmnt_cheat_vm.cpp does to the machine.
use nx_sysmodules.Base.{
  ◌+◌, ◌≤◌, ◌<◌, ◌≡◌, ◌⊎◌, inl, inr, true, false, none, some, arith, Bool-cases,
}
use nx_sysmodules.Cheat.Opcodes.{Opcode}
use nx_sysmodules.Cheat.Vm.{Vm, num_opcodes}
use nx_sysmodules.Cheat.Fetch.{Fetch, get_next_dword}
use nx_sysmodules.Cheat.Decode.{decode_operands, decode_next_opcode}
use nx_sysmodules.Cheat.Progress.{Moves-decode_operands, Moves-get_next_dword}

-- The machine before and after, where only the pointer and the flag differ.
pub record SameState (vm vm' : Vm) : Type 0 where
  pub program : vm'.program ≡ vm.program
  pub depth : vm'.condition_depth ≡ vm.condition_depth
  pub registers : vm'.registers ≡ vm.registers
  pub saved : vm'.saved_values ≡ vm.saved_values
  pub tops : vm'.loop_tops ≡ vm.loop_tops

pub decode_next_opcode-SameState : (vm : Vm) → SameState vm (decode_next_opcode vm).1
unfolding decode_next_opcode
decode_next_opcode-SameState vm = ground arith

abbrev start : Vm → Fetch
start vm = record { program = vm.program; ptr = vm.instruction_ptr; valid = vm.decode_success }

-- The first dword is there, or the machine is invalid.
first_dword :
    (vm : Vm)
    → (((get_next_dword (start vm)).1.valid ≡ true)
        × (vm.decode_success ≡ true)
        × ((get_next_dword (start vm)).1.ptr ≡ vm.instruction_ptr + 1)
        × ((get_next_dword (start vm)).1.program ≡ vm.program)
        × (vm.instruction_ptr < num_opcodes vm))
      ⊎ ((get_next_dword (start vm)).1.valid ≡ false)
unfolding get_next_dword
first_dword vm = ground arith

-- DecodeNextOpcode either gives an opcode, having read one dword at least and stayed within the
-- program, from a machine that never failed before; or it gives none, and the machine has failed.
pub decode_next_opcode-cases :
    (vm : Vm)
    → ((op : Opcode) × ((decode_next_opcode vm).0 ≡ some op)
        × (vm.decode_success ≡ true)
        × ((decode_next_opcode vm).1.decode_success ≡ true)
        × (vm.instruction_ptr < (decode_next_opcode vm).1.instruction_ptr)
        × ((decode_next_opcode vm).1.instruction_ptr ≤ num_opcodes vm))
      ⊎ (((decode_next_opcode vm).0 ≡ none) × ((decode_next_opcode vm).1.decode_success ≡ false))
unfolding decode_next_opcode
decode_next_opcode-cases vm = elim (first_dword vm) [
  | inr bad ↦ inr (ground arith, ground arith)
  | inl (good, past, at, same, within) ↦
      let d = (get_next_dword (start vm)).0 in
      let f = (get_next_dword (start vm)).1 in
      let grows = (Moves-decode_operands d).at f in
      let g = (decode_operands d f).1 in
      elim (Bool-cases g.valid) [
        | inl v ↦ inl (
          (decode_operands d f).0,
          ground arith,
          past,
          ground arith,
          ground (arith, grows.forward),
          ground (arith, grows.within),
        )
        | inr v ↦ inr (ground arith, ground arith)
      ]
]

-- The pointer stays within the program, also when nothing is decoded.
pub decode_next_opcode-within :
    (vm : Vm)
    → vm.instruction_ptr ≤ num_opcodes vm
    → (decode_next_opcode vm).1.instruction_ptr ≤ num_opcodes vm
unfolding decode_next_opcode
decode_next_opcode-within vm w =
    let read = Moves-get_next_dword.at (start vm) in
    let d = (get_next_dword (start vm)).0 in
    let f = (get_next_dword (start vm)).1 in
    let grows = (Moves-decode_operands d).at f in
    elim (Bool-cases f.valid) [
      | inl v ↦ rw v (ground (arith, read.within w, read.program, grows.within))
      | inr v ↦ rw v (read.within w)
    ]

-- The pointer never moves back.
pub decode_next_opcode-forward :
    (vm : Vm) → vm.instruction_ptr ≤ (decode_next_opcode vm).1.instruction_ptr
unfolding decode_next_opcode
decode_next_opcode-forward vm =
    let read = Moves-get_next_dword.at (start vm) in
    let d = (get_next_dword (start vm)).0 in
    let f = (get_next_dword (start vm)).1 in
    let grows = (Moves-decode_operands d).at f in
    elim (Bool-cases f.valid) [
      | inl v ↦ rw v (omega (arith, read.forward, grows.forward))
      | inr v ↦ rw v read.forward
    ]
