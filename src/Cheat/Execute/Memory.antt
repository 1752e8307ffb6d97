-- ===== src/Cheat/Execute/Memory.antt =====
-- The opcodes of dmnt/source/cheat/impl/dmnt_cheat_vm.cpp that read and write the memory of the
-- cheat process, which is a parameter.
use nx_sysmodules.Base.{
  ℕ, ◌+◌, Bool, true, false, Option, none, some, List, [], ◌∷◌, ◌++◌, if◌then◌else◌, get_or, set,
}
use nx_sysmodules.Cheat.Opcodes.Enumerations.{
  MemoryAccessType, heap, OffsetType, no_offset, reg, imm, mem_reg, mem_imm, mem_imm_reg,
  LogValueType,
}
use nx_sysmodules.Cheat.Opcodes.{
  StoreStatic, LoadRegisterMemory, StoreStaticToAddress, StoreRegisterToAddress, DebugLog,
}
use nx_sysmodules.Cheat.Vm.{Vm}
use nx_sysmodules.Cheat.Values.{Shifter, u64, is_width, get_vm_int, replace_low}

-- The world of a run: the memory functions of dmnt_cheat_api.cpp, where a failed read is `none`, the
-- keys that are held, and the bases of the metadata.
pub record Env (Mem : Type 0) : Type 0 where
  pub read : Mem → ℕ → ℕ → Option ℕ
  pub write : Mem → ℕ → ℕ → ℕ → Mem
  pub keys_held : ℕ
  pub main_nso_base : ℕ
  pub heap_base : ℕ
  pub shifter : Shifter

-- The machine, the memory of the cheat process, and the values logged, the newest last.
pub record Machine (Mem : Type 0) : Type 0 where
  pub vm : Vm
  pub memory : Mem
  pub logs : List (ℕ × ℕ)

abbrev pub reg_at : Vm → ℕ → ℕ
reg_at vm i = get_or vm.registers i 0

unfoldable pub set_reg : ℕ → ℕ → Vm → Vm
set_reg i v vm = record vm { registers = set vm.registers i v }

module _ {Mem : Type 0} (env : Env Mem) where
  -- GetCheatProcessAddress
  unfoldable pub cheat_process_address : MemoryAccessType → ℕ → ℕ
  cheat_process_address heap rel_address = u64 (env.heap_base + rel_address)
  cheat_process_address t rel_address = u64 (env.main_nso_base + rel_address)

  -- ReadCheatProcessMemoryUnsafe into a u64, on a valid width; a failed read leaves it.
  unfoldable pub read_into : Mem → ℕ → ℕ → ℕ → ℕ
  unfolding is_width
  read_into memory address w old =
      if is_width w
      then elim (env.read memory address w) [ none ↦ old | some bytes ↦ replace_low w old bytes ]
      else old

  -- WriteCheatProcessMemoryUnsafe of the low bytes of a u64, on a valid width.
  unfoldable pub write_width : ℕ → ℕ → ℕ → Machine Mem → Machine Mem
  unfolding is_width
  write_width address w value m =
      if is_width w then record m { memory = env.write m.memory address w value } else m

  unfoldable pub increment : Bool → ℕ → ℕ → Machine Mem → Machine Mem
  unfolding set_reg
  increment false i w m = m
  increment true i w m = record m { vm = set_reg i (u64 (reg_at m.vm i + w)) m.vm }

  unfoldable pub step_store_static : StoreStatic → Machine Mem → Machine Mem
  step_store_static o m =
      write_width
        (cheat_process_address o.mem_type (u64 (o.rel_address + reg_at m.vm o.offset_register)))
        o.bit_width (get_vm_int o.value o.bit_width) m

  unfoldable pub step_ldr_memory : LoadRegisterMemory → Machine Mem → Machine Mem
  unfolding set_reg
  step_ldr_memory o m = record m {
    vm =
        set_reg o.reg_index
          (read_into m.memory
            (if o.load_from_reg
              then u64 (reg_at m.vm o.reg_index + o.rel_address)
              else cheat_process_address o.mem_type o.rel_address)
            o.bit_width (reg_at m.vm o.reg_index))
          m.vm;
  }

  unfoldable pub step_str_static : StoreStaticToAddress → Machine Mem → Machine Mem
  step_str_static o m =
      let base = reg_at m.vm o.reg_index in
      let address =
        (if o.add_offset_reg then u64 (base + reg_at m.vm o.offset_reg_index) else base) in
      increment o.increment_reg o.reg_index o.bit_width (write_width address o.bit_width o.value m)

  -- The address of StoreRegisterToAddress, from the address register's value.
  unfoldable pub store_address : StoreRegisterToAddress → OffsetType → Vm → ℕ
  store_address o no_offset vm = reg_at vm o.addr_reg_index
  store_address o reg vm = u64 (reg_at vm o.addr_reg_index + reg_at vm o.ofs_reg_index)
  store_address o imm vm = u64 (reg_at vm o.addr_reg_index + o.rel_address)
  store_address o mem_reg vm = cheat_process_address o.mem_type (reg_at vm o.addr_reg_index)
  store_address o mem_imm vm = cheat_process_address o.mem_type o.rel_address
  store_address o mem_imm_reg vm =
      cheat_process_address o.mem_type (u64 (reg_at vm o.addr_reg_index + o.rel_address))

  unfoldable pub step_str_register : StoreRegisterToAddress → Machine Mem → Machine Mem
  step_str_register o m =
      increment o.increment_reg o.addr_reg_index o.bit_width
        (write_width (store_address o o.ofs_type m.vm) o.bit_width (reg_at m.vm o.str_reg_index) m)

  -- The value that DebugLog logs.
  unfoldable pub log_value : DebugLog → LogValueType → Machine Mem → ℕ
  log_value o LogValueType.register_value m = get_vm_int (reg_at m.vm o.val_reg_index) o.bit_width
  log_value o LogValueType.memory_rel_addr m =
      read_into m.memory (cheat_process_address o.mem_type o.rel_address) o.bit_width 0
  log_value o LogValueType.memory_ofs_reg m =
      read_into m.memory (cheat_process_address o.mem_type (reg_at m.vm o.ofs_reg_index))
        o.bit_width 0
  log_value o LogValueType.register_rel_addr m =
      read_into m.memory (u64 (reg_at m.vm o.addr_reg_index + o.rel_address)) o.bit_width 0
  log_value o LogValueType.register_ofs_reg m =
      read_into m.memory (u64 (reg_at m.vm o.addr_reg_index + reg_at m.vm o.ofs_reg_index))
        o.bit_width 0
  log_value o (LogValueType.other n) m = read_into m.memory 0 o.bit_width 0

  unfoldable pub step_debug_log : DebugLog → Machine Mem → Machine Mem
  step_debug_log o m = record m { logs = m.logs ++ (o.log_id, log_value o o.val_type m) ∷ [] }
