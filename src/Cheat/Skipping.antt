-- ===== src/Cheat/Skipping.antt =====
-- SkipConditionalBlock of dmnt/source/cheat/impl/dmnt_cheat_vm.cpp ends by its own test.
use nx_sysmodules.Base.{
  ℕ, zero, suc, ◌-◌, ◌≤◌, ◌<◌, ◌≡◌, ◌⊎◌, inl, inr, refl, ◌∙◌, ap, true, false, none, some, arith,
  ltb, length, Bool-cases,
}
use nx_sysmodules.Cheat.Opcodes.{Opcode}
use nx_sysmodules.Cheat.Vm.{Vm, num_opcodes}
use nx_sysmodules.Cheat.Decode.{decode_next_opcode}
use nx_sysmodules.Cheat.Skip.{track, skip_loop, skip_conditional_block}
use nx_sysmodules.Cheat.Decoding.{decode_next_opcode-SameState, decode_next_opcode-cases}

pub track-eq :
    (op : Opcode) (vm : Vm)
    → ((track op vm).program ≡ vm.program)
      × ((track op vm).registers ≡ vm.registers)
      × ((track op vm).saved_values ≡ vm.saved_values)
      × ((track op vm).loop_tops ≡ vm.loop_tops)
      × ((track op vm).instruction_ptr ≡ vm.instruction_ptr)
      × ((track op vm).decode_success ≡ vm.decode_success)
unfolding track
track-eq op vm = ground arith

-- One round of the loop, where the next opcode is known.
pub skip_round :
    (n desired : ℕ) (vm : Vm) (op : Opcode)
    → ltb desired vm.condition_depth ≡ true
    → (decode_next_opcode vm).0 ≡ some op
    → skip_loop (suc n) desired vm ≡ skip_loop n desired (track op (decode_next_opcode vm).1)
unfolding skip_loop
skip_round n desired vm op d e = ground arith

pub skip_end :
    (n desired : ℕ) (vm : Vm)
    → ltb desired vm.condition_depth ≡ true
    → (decode_next_opcode vm).0 ≡ none
    → skip_loop (suc n) desired vm ≡ (decode_next_opcode vm).1
unfolding skip_loop
skip_end n desired vm d e = ground arith

pub skip_done :
    (n desired : ℕ) (vm : Vm) → ltb desired vm.condition_depth ≡ false → skip_loop n desired vm ≡ vm
unfolding skip_loop
skip_done zero desired vm d = refl
skip_done (suc n) desired vm d = ground arith

-- With fuel for every word that is left, and one round more, the loop ends because it is out of the
-- block or because nothing more can be decoded.
pub skip_loop_stops :
    (n desired : ℕ) (vm : Vm)
    → vm.instruction_ptr ≤ num_opcodes vm
    → num_opcodes vm - vm.instruction_ptr < n
    → ((skip_loop n desired vm).condition_depth ≤ desired)
      ⊎ ((skip_loop n desired vm).decode_success ≡ false)
skip_loop_stops zero desired vm w h = absurd (omega arith)
skip_loop_stops (suc n) desired vm w h = elim (Bool-cases (ltb desired vm.condition_depth)) [
  | inr d ↦ rw (skip_done (suc n) desired vm d) (inl (ground arith))
  | inl d ↦ elim (decode_next_opcode-cases vm) [
    | inr (ended, bad) ↦ rw (skip_end n desired vm d ended) (inr bad)
    | inl (op, e, past, good, forward, within) ↦
        let t = track-eq op (decode_next_opcode vm).1 in
        let s = decode_next_opcode-SameState vm in
        let size : num_opcodes (track op (decode_next_opcode vm).1) ≡ num_opcodes vm =
          ap length (t.0 ∙ s.program) in
        rw (skip_round n desired vm op d e) (
          skip_loop_stops n desired (track op (decode_next_opcode vm).1)
            (omega (arith, size, t.4, within)) (omega (arith, size, t.4, within, forward)))
  ]
]

-- SkipConditionalBlock of a machine that is in a block, with its pointer within the program,
-- returns, either because it is out of the block or because nothing more can be decoded.
pub skip_conditional_block_returns :
    (vm : Vm)
    → 0 < vm.condition_depth
    → vm.instruction_ptr ≤ num_opcodes vm
    → (vm' : Vm) × (skip_conditional_block vm ≡ some vm')
      × ((vm'.condition_depth < vm.condition_depth) ⊎ (vm'.decode_success ≡ false))
unfolding skip_conditional_block
skip_conditional_block_returns vm inside within =
    let n = suc (num_opcodes vm) in
    (
      skip_loop n (vm.condition_depth - 1) vm,
      ground arith,
      elim (skip_loop_stops n (vm.condition_depth - 1) vm within (omega arith)) [
        | inl out ↦ inl (omega (arith, out))
        | inr bad ↦ inr bad
      ],
    )
