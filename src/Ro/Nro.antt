-- ===== src/Ro/Nro.antt =====
-- ro/source/impl/ro_nro_utils.cpp: mapping an NRO with its bss, its permissions, and unmapping it.
use nx_sysmodules.Base.{ℕ, zero, suc, ◌+◌, ltb, if◌then◌else◌}
use nx_sysmodules.Base.Outcome.{ok, err, ◌>>◌, pure}
use nx_sysmodules.Ro.World.{
  Handle, Kernel, SvcError, success, failure, invalid_current_memory, other_error, u64,
}
use nx_sysmodules.Ro.State.{M, out_of_address_space, svc, try_memory}

abbrev pub max_map_retries : ℕ
max_map_retries = 0x200

-- One turn of the loop of MapNro: `continue` and the mappings it leaves, an address, or a failure.
pub data Turn (Mem : Type 0) : Type 0 where
  again : Mem → Turn Mem
  mapped : ℕ → Mem → Turn Mem
  failed : SvcError → Mem → Turn Mem

module _ {Mem : Type 0} (k : Kernel Mem) where
  module _ (process : Handle) where
    -- What the turn does once the NRO is mapped at `base`; leaving it unmaps what was mapped.
    unfoldable pub map_bss_turn : ℕ → ℕ → ℕ → ℕ → ℕ → Mem → Turn Mem
    map_bss_turn base nro nro_size bss bss_size m =
        elim (k.map_at m process (u64 (base + nro_size)) bss bss_size) [
          | failure invalid_current_memory ↦ again (k.destroy m process base nro nro_size)
          | failure (other_error e) ↦ failed (other_error e) (k.destroy m process base nro nro_size)
          | success m' ↦
              if k.can_add_guard_regions m' process base (u64 (nro_size + bss_size))
              then mapped base m'
              else again (
                  k.destroy (k.destroy m' process (u64 (base + nro_size)) bss bss_size) process base
                    nro nro_size)
        ]

    unfoldable pub map_nro_turn : ℕ → ℕ → ℕ → ℕ → ℕ → Mem → Turn Mem
    unfolding map_bss_turn
    map_nro_turn i nro nro_size bss bss_size m = elim (k.map_anywhere i m process nro nro_size) [
      | failure e ↦ failed e m
      | success (base, m') ↦
          if ltb 0 bss_size
          then map_bss_turn base nro nro_size bss bss_size m'
          else if k.can_add_guard_regions m' process base nro_size
          then mapped base m'
          else again (k.destroy m' process base nro nro_size)
    ]

    -- The loop, over the turns that are left.
    unfoldable pub map_nro_loop : ℕ → ℕ → ℕ → ℕ → ℕ → M Mem ℕ
    unfolding map_nro_turn
    map_nro_loop zero nro nro_size bss bss_size s = err out_of_address_space s
    map_nro_loop (suc left) nro nro_size bss bss_size s =
        elim (map_nro_turn left nro nro_size bss bss_size s.memory) [
          | failed e m ↦ err (svc e) (record s { memory = m })
          | mapped base m ↦ ok base (record s { memory = m })
          | again m ↦ map_nro_loop left nro nro_size bss bss_size (record s { memory = m })
        ]

    unfoldable pub map_nro : ℕ → ℕ → ℕ → ℕ → M Mem ℕ
    unfolding map_nro_loop
    map_nro = map_nro_loop max_map_retries

    unfoldable pub set_nro_perms : ℕ → ℕ → ℕ → ℕ → M Mem (Unit {0})
    set_nro_perms base rx_size ro_size rw_size = do
      try_memory (λ m. k.set_permission m process (u64 base) rx_size 5)
      try_memory (λ m. k.set_permission m process (u64 (base + rx_size)) ro_size 1)
      try_memory (λ m. k.set_permission m process (u64 (base + rx_size + ro_size)) rw_size 3)

    abbrev pub unmap_part : ℕ → ℕ → ℕ → M Mem (Unit {0})
    unmap_part address bss bss_size =
        if ltb 0 bss_size then try_memory (λ m. k.unmap m process address bss bss_size) else pure tt

    unfoldable pub unmap_nro : ℕ → ℕ → ℕ → ℕ → ℕ → ℕ → M Mem (Unit {0})
    unmap_nro base nro bss bss_size code_size rw_size = do
      unmap_part (u64 (base + code_size + rw_size)) bss bss_size
      unmap_part (u64 (base + code_size)) (u64 (nro + code_size)) rw_size
      try_memory (λ m. k.unmap m process base nro code_size)
