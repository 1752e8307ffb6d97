-- ===== src/CheatApi/Mappings.antt =====
-- The memory queries of CheatProcessManager, dmnt/source/cheat/impl/dmnt_cheat_api.cpp, and
-- GetCheatProcessMetadata.
use nx_sysmodules.Base.{
  ℕ, zero, suc, ◌+◌, ◌-◌, ◌^◌, ◌⊎◌, inl, inr, Bool, true, false, not, ◌||◌, List, [], ◌∷◌, ◌==◌,
  if◌then◌else◌,
}
use nx_sysmodules.Base.Outcome.{pure, fail, gets}
use nx_sysmodules.CheatApi.State.{Metadata, MemoryInfo, svc, M, System}
use nx_sysmodules.CheatApi.Process.{with_process}
use nx_sysmodules.CheatApi.Frozen.{u64}

-- mem_info.perm != Perm_None
abbrev pub has_permission : MemoryInfo → Bool
has_permission info = not (info.permission == 0)

-- The address that the loops go on with; 0 ends them.
abbrev pub next_address : MemoryInfo → ℕ
next_address info = u64 (info.address + info.size)

module _ (sys : System) where
  -- The loop of GetCheatProcessMappingCount on fuel.
  unfoldable pub count_mappings : ℕ → ℕ → ℕ → ℕ
  count_mappings zero address count = count
  count_mappings (suc fuel) address count = elim (sys.query address) [
    | inl e ↦ count
    | inr info ↦
        let counted = if has_permission info then suc count else count in
        elim (next_address info == 0) [
          | true ↦ counted
          | false ↦ count_mappings fuel (next_address info) counted
        ]
  ]

  -- The room and the mappings to pass over that are left after a region, and whether it is written.
  unfoldable pub take_mapping : Bool → ℕ → ℕ → Bool × (ℕ × ℕ)
  take_mapping false room offset = (false, (room, offset))
  take_mapping true zero offset = (false, (zero, offset - 1))
  take_mapping true (suc room) zero = (true, (room, zero))
  take_mapping true (suc room) (suc offset) = (false, (suc room, offset))

  -- The loop of GetCheatProcessMappings on fuel, with the room that is left and the mappings that are
  -- still to be passed over.
  unfoldable pub collect_mappings : ℕ → ℕ → ℕ → ℕ → List MemoryInfo
  unfolding take_mapping
  collect_mappings zero room offset address = []
  collect_mappings (suc fuel) room offset address = elim (sys.query address) [
    | inl e ↦ []
    | inr info ↦
        let (written, (room_left, offset_left)) = take_mapping (has_permission info) room offset in
        let rest : List MemoryInfo = elim (next_address info == 0 || room_left == 0) [
          | true ↦ []
          | false ↦ collect_mappings fuel room_left offset_left (next_address info)
        ] in
        if written then info ∷ rest else rest
  ]

  -- Every round goes on with a higher address below 2 ^ 64, so that so many rounds are enough.
  abbrev pub address_count : ℕ
  address_count = 2 ^ 64

  unfoldable pub get_cheat_process_mapping_count : M ℕ
  unfolding with_process count_mappings
  get_cheat_process_mapping_count = with_process sys (gets (λ s. count_mappings address_count 0 0))

  unfoldable pub get_cheat_process_mappings : ℕ → ℕ → M (List MemoryInfo)
  unfolding with_process collect_mappings
  get_cheat_process_mappings max_count offset =
      with_process sys (gets (λ s. collect_mappings address_count max_count offset 0))

  abbrev pub answer_query : ℕ ⊎ MemoryInfo → M MemoryInfo
  answer_query (inl e) = fail (svc e)
  answer_query (inr info) = pure info

  unfoldable pub query_cheat_process_memory : ℕ → M MemoryInfo
  unfolding with_process
  query_cheat_process_memory address = with_process sys (answer_query (sys.query address))

  unfoldable pub get_cheat_process_metadata : M Metadata
  unfolding with_process
  get_cheat_process_metadata = with_process sys (gets (λ s. s.metadata))
