-- ===== src/CheatApi/Answers.antt =====
-- The handlers of dmnt/source/cheat/impl/dmnt_cheat_api.cpp that only answer keep the invariant: they can
-- close the process.
use nx_sysmodules.Base.{ℕ, ◌⊎◌, inl, inr, List}
use nx_sysmodules.Base.Outcome.{pure, fail, gets, LeftBy}
use nx_sysmodules.CheatApi.State.{State, M, Sizes, System, frozen_address_not_found, svc}
use nx_sysmodules.CheatApi.Cheats.{known_entry}
use nx_sysmodules.CheatApi.Frozen.{find_frozen, read_cheat_process_memory_unsafe}
use nx_sysmodules.CheatApi.Keeping.{WellFormed, Keeping, with_process-Keeping}
use nx_sysmodules.CheatApi.Steps.{require_some_then, known_entry-Reads}
use nx_sysmodules.CheatApi.Process.{with_process}
use nx_sysmodules.CheatApi.State.{MemoryInfo}
use nx_sysmodules.CheatApi.Cheats.{get_cheat_by_id}
use nx_sysmodules.CheatApi.Frozen.{read_cheat_process_memory, get_frozen_address}
use nx_sysmodules.CheatApi.Mappings.{answer_query, query_cheat_process_memory}
use nx_sysmodules.CheatApi.Steps.{Reads-LeftBy}

module _ (sizes : Sizes) (sys : System) where
  abbrev Holds : State → Type 0
  Holds = WellFormed sizes.opcodes_size

  -- A handler that only answers from the members.
  pub gets-Keeping :
      {A : Type 0} (f : State → A) → Keeping sizes.opcodes_size (with_process sys (gets f))
  gets-Keeping f = with_process-Keeping sizes.opcodes_size sys (gets f) (λ s h. h)

  pub query_cheat_process_memory-Keeping :
      (address : ℕ) → Keeping sizes.opcodes_size (query_cheat_process_memory sys address)
  unfolding query_cheat_process_memory
  query_cheat_process_memory-Keeping address =
      with_process-Keeping sizes.opcodes_size sys (answer_query sys (sys.query address))
        (λ s h. answered (sys.query address) s h)
    where
      answered : (r : ℕ ⊎ MemoryInfo) (s : State) → Holds s → LeftBy Holds (answer_query sys r s)
      answered (inl e) s h = h
      answered (inr info) s h = h

  pub read_cheat_process_memory-Keeping :
      (address size : ℕ) → Keeping sizes.opcodes_size (read_cheat_process_memory sys address size)
  unfolding read_cheat_process_memory read_cheat_process_memory_unsafe
  read_cheat_process_memory-Keeping address size =
      with_process-Keeping sizes.opcodes_size sys _ (λ s h. answered (sys.read address size) s h)
    where
      answered :
          (r : ℕ ⊎ List ℕ) (s : State)
          → Holds s
          → LeftBy Holds
              ((elim r as (λ _. M (List ℕ)) [ inl e ↦ fail (svc e) | inr bytes ↦ pure bytes ]) s)
      answered (inl e) s h = h
      answered (inr bytes) s h = h

  pub get_cheat_by_id-Keeping : (id : ℕ) → Keeping sizes.opcodes_size (get_cheat_by_id sizes sys id)
  unfolding get_cheat_by_id
  get_cheat_by_id-Keeping id =
      let size = sizes.opcodes_size in
      with_process-Keeping size sys (known_entry id)
        (λ s h. Reads-LeftBy size _ s (known_entry id s) (known_entry-Reads size id s) h)

  pub get_frozen_address-Keeping :
      (address : ℕ) → Keeping sizes.opcodes_size (get_frozen_address sys address)
  unfolding get_frozen_address
  get_frozen_address-Keeping address =
      let size = sizes.opcodes_size in
      with_process-Keeping size sys _ (λ s h.
        require_some_then size (find_frozen address s.frozen_addresses) frozen_address_not_found
          (λ v. pure (address, v)) s h (λ v q. h))
