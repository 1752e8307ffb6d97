-- ===== src/Cheat/Progress.antt =====
-- DecodeNextOpcode of dmnt/source/cheat/impl/dmnt_cheat_vm.cpp only moves forward in the program.
use nx_sysmodules.Base.{
  ℕ, ◌≤◌, ◌≡◌, inl, inr, refl, ◌∙◌, Bool, true, false, arith, ltb, if◌then◌else◌, length,
  Bool-cases,
}
use nx_sysmodules.Cheat.Opcodes.Enumerations.{
  OffsetType, offset_type, CompareValueType, compare_value_type, LogValueType, log_value_type,
}
use nx_sysmodules.Cheat.Fetch.{
  Fetch, D, ◌>>=◌, pure, invalidate, get_next_dword, get_next_qword, get_next_vm_int,
  get_rel_address, nibble,
}
use nx_sysmodules.Cheat.Decode.Fixed.{
  decode_store_static, decode_begin_cond, decode_ctrl_loop, decode_ldr_static, decode_ldr_memory,
  decode_str_static, decode_perform_math_static, decode_begin_keypress_cond,
  decode_perform_math_reg,
}
use nx_sysmodules.Cheat.Decode.Variants.{
  decode_str_register, decode_begin_reg_cond, decode_save_restore_reg, decode_save_restore_regmask,
  decode_debug_log, str_register_operands, begin_reg_operands, debug_log_operands,
}
use nx_sysmodules.Cheat.Decode.{decode_operands}

-- A read leaves the program, moves forward within it, and is valid only if it was so before.
pub record Grows (f g : Fetch) : Type 0 where
  pub program : g.program ≡ f.program
  pub forward : f.ptr ≤ g.ptr
  pub within : f.ptr ≤ length f.program → g.ptr ≤ length f.program
  pub valid : g.valid ≡ true → f.valid ≡ true

Grows-trans : (f g h : Fetch) → Grows f g → Grows g h → Grows f h
Grows-trans f g h a b = record {
  program = b.program ∙ a.program;
  forward = omega (arith, a.forward, b.forward);
  within = λ l. ground (arith, a.within l, a.program, b.within);
  valid = λ v. a.valid (b.valid v);
}

pub record Moves {A : Type 0} (m : D A) : Type 0 where
  pub at : (f : Fetch) → Grows f (m f).1

module _ {A : Type 0} where
  Moves-pure : (a : A) → Moves (pure a)
  Moves-pure a = record {
    at = λ f. record { program = refl; forward = omega arith; within = λ l. l; valid = λ v. v };
  }

  Moves-if : (b : Bool) (m n : D A) → Moves m → Moves n → Moves (if b then m else n)
  Moves-if true m n a b = a
  Moves-if false m n a b = b

Moves-bind :
    {A B : Type 0} (m : D A) (k : A → D B) → Moves m → ((a : A) → Moves (k a)) → Moves (m >>= k)
Moves-bind m k a b = record {
  at = λ f. let (x, g) = m f in Grows-trans f g _ (a.at f) ((b x).at g);
}

Moves-invalidate : Moves invalidate
Moves-invalidate = record {
  at = λ f. record { program = refl; forward = omega arith; within = λ l. l; valid = λ v. cc };
}

pub Moves-get_next_dword : Moves get_next_dword
unfolding get_next_dword
Moves-get_next_dword = record {
  at = λ f. elim (Bool-cases (ltb f.ptr (length f.program))) [
    | inl e ↦ rw e (record {
      program = refl;
      forward = omega arith;
      within = λ l. ground arith;
      valid = λ v. v;
    })
    | inr e ↦
        rw e (record { program = refl; forward = omega arith; within = λ l. l; valid = λ v. cc })
  ];
}

ruleset moves = (Moves-pure, Moves-if, Moves-bind, Moves-invalidate, Moves-get_next_dword)

Moves-get_next_qword : Moves get_next_qword
unfolding get_next_qword
Moves-get_next_qword = search moves

Moves-get_rel_address : (high : ℕ) → Moves (get_rel_address high)
unfolding get_rel_address
Moves-get_rel_address high = search moves

Moves-get_next_vm_int : (w : ℕ) → Moves (get_next_vm_int w)
unfolding get_next_vm_int
Moves-get_next_vm_int w = search moves depth 8

ruleset reads = (moves, Moves-get_next_qword, Moves-get_rel_address, Moves-get_next_vm_int)

Moves-decode_store_static : (d : ℕ) → Moves (decode_store_static d)
unfolding decode_store_static
Moves-decode_store_static d = search reads

Moves-decode_begin_cond : (d : ℕ) → Moves (decode_begin_cond d)
unfolding decode_begin_cond
Moves-decode_begin_cond d = search reads

Moves-decode_ctrl_loop : (d : ℕ) → Moves (decode_ctrl_loop d)
unfolding decode_ctrl_loop
Moves-decode_ctrl_loop d = search reads

Moves-decode_ldr_static : (d : ℕ) → Moves (decode_ldr_static d)
unfolding decode_ldr_static
Moves-decode_ldr_static d = search reads

Moves-decode_ldr_memory : (d : ℕ) → Moves (decode_ldr_memory d)
unfolding decode_ldr_memory
Moves-decode_ldr_memory d = search reads

Moves-decode_str_static : (d : ℕ) → Moves (decode_str_static d)
unfolding decode_str_static
Moves-decode_str_static d = search reads

Moves-decode_perform_math_static : (d : ℕ) → Moves (decode_perform_math_static d)
unfolding decode_perform_math_static
Moves-decode_perform_math_static d = search reads

Moves-decode_begin_keypress_cond : (d : ℕ) → Moves (decode_begin_keypress_cond d)
unfolding decode_begin_keypress_cond
Moves-decode_begin_keypress_cond d = search reads

Moves-decode_perform_math_reg : (d : ℕ) → Moves (decode_perform_math_reg d)
unfolding decode_perform_math_reg
Moves-decode_perform_math_reg d = search reads

Moves-str_register_operands : (d : ℕ) (t : OffsetType) → Moves (str_register_operands d t)
unfolding str_register_operands
Moves-str_register_operands d OffsetType.no_offset = search reads
Moves-str_register_operands d _ = search reads

Moves-begin_reg_operands : (d : ℕ) (t : CompareValueType) → Moves (begin_reg_operands d t)
unfolding begin_reg_operands
Moves-begin_reg_operands d CompareValueType.static_value = search reads
Moves-begin_reg_operands d _ = search reads

Moves-debug_log_operands : (d : ℕ) (t : LogValueType) → Moves (debug_log_operands d t)
unfolding debug_log_operands
Moves-debug_log_operands d LogValueType.register_value = search reads
Moves-debug_log_operands d _ = search reads

Moves-decode_str_register : (d : ℕ) → Moves (decode_str_register d)
unfolding decode_str_register
Moves-decode_str_register d = Moves-str_register_operands d (offset_type (nibble d 8))

Moves-decode_begin_reg_cond : (d : ℕ) → Moves (decode_begin_reg_cond d)
unfolding decode_begin_reg_cond
Moves-decode_begin_reg_cond d = Moves-begin_reg_operands d (compare_value_type (nibble d 8))

Moves-decode_debug_log : (d : ℕ) → Moves (decode_debug_log d)
unfolding decode_debug_log
Moves-decode_debug_log d = Moves-debug_log_operands d (log_value_type (nibble d 8))

Moves-decode_save_restore_reg : (d : ℕ) → Moves (decode_save_restore_reg d)
unfolding decode_save_restore_reg
Moves-decode_save_restore_reg d = search reads

Moves-decode_save_restore_regmask : (d : ℕ) → Moves (decode_save_restore_regmask d)
unfolding decode_save_restore_regmask
Moves-decode_save_restore_regmask d = search reads

ruleset decoders = (
  reads, Moves-decode_store_static, Moves-decode_begin_cond, Moves-decode_ctrl_loop,
  Moves-decode_ldr_static, Moves-decode_ldr_memory, Moves-decode_str_static,
  Moves-decode_perform_math_static, Moves-decode_begin_keypress_cond, Moves-decode_perform_math_reg,
  Moves-decode_str_register, Moves-decode_begin_reg_cond, Moves-decode_debug_log,
  Moves-decode_save_restore_reg, Moves-decode_save_restore_regmask,
)

pub Moves-decode_operands : (d : ℕ) → Moves (decode_operands d)
unfolding decode_operands
Moves-decode_operands d = search decoders depth 20
