-- ===== src/Ro/Contexts.antt =====
-- The table of the contexts of ro/source/impl/ro_service_impl.cpp, and the switches beside it.
use nx_sysmodules.Base.{
  ℕ, suc, ◌-◌, ◌^◌, Bool, true, false, not, Option, none, some, List, [], ◌∷◌, ltb, ◌==◌,
  if◌then◌else◌,
}
use nx_sysmodules.Base.Outcome.{
  ◌>>=◌, ◌>>◌, pure, gets, modify, require, abort_unless, abort_unless_some, state_after,
}
use nx_sysmodules.Ro.World.{Handle, Kernel, invalid_handle}
use nx_sysmodules.Ro.State.{
  NrrInfo, ProcessContext, zero_context, State, M, max_sessions, invalid_session, invalid_process,
  put_context, context_at,
}
use nx_sysmodules.Ro.Nrr.{unmap_nrr}

-- InvalidContextId, the greatest size_t.
abbrev pub invalid_context_id : ℕ
invalid_context_id = 2 ^ 64 - 1

-- The first context that passes.
unfoldable pub find_context : (ProcessContext → Bool) → List ProcessContext → Option ℕ
find_context p [] = none
find_context p (c ∷ cs) =
    let rest = find_context p cs in
    if p c then some 0 else elim rest [ none ↦ none | some i ↦ some (suc i) ]

unfoldable pub get_context_by_process_id : ℕ → List ProcessContext → Option ℕ
unfolding find_context
get_context_by_process_id process_id = find_context (λ c. c.process_id == process_id)

module _ {Mem : Type 0} where
  -- GetContextById; an id past the table aborts.
  unfoldable pub get_context_by_id : ℕ → M Mem (Option ProcessContext)
  get_context_by_id id =
      if id == invalid_context_id
      then pure none
      else (do abort_unless (ltb id max_sessions); gets (λ s. some (context_at id s)))

  -- The same, where the caller aborts on a null pointer.
  unfoldable pub require_context : ℕ → M Mem ProcessContext
  unfolding get_context_by_id
  require_context id = do found ← get_context_by_id id; abort_unless_some found

  abbrev pub set_development_hardware : Bool → M Mem (Unit {0})
  set_development_hardware b = modify (λ s. record s { is_development_hardware = b })

  abbrev pub set_development_function_enabled : Bool → M Mem (Unit {0})
  set_development_function_enabled b =
      modify (λ s. record s { is_development_function_enabled = b })

  -- No free context aborts.
  unfoldable pub allocate_context : Handle → ℕ → M Mem ℕ
  unfolding find_context put_context
  allocate_context process id = do
    free ← gets (λ s. find_context (λ c. not c.in_use) s.contexts)
    i ← abort_unless_some free
    modify (
        put_context i
          (record zero_context { process_id = id; process_handle = process; in_use = true }))
    pure i

  unfoldable pub validate_process : ℕ → ℕ → M Mem (Unit {0})
  unfolding get_context_by_id
  validate_process context_id id = do
    found ← get_context_by_id context_id
    require (elim found [ none ↦ false | some c ↦ c.process_id == id ]) invalid_process

module _ {Mem : Type 0} (k : Kernel Mem) where
  unfoldable pub register_process : Handle → ℕ → M Mem ℕ
  unfolding get_context_by_process_id allocate_context
  register_process process id = do
    require (elim (k.process_id_of process) [ none ↦ false | some x ↦ x == id ]) invalid_process
    known ← gets (λ s. get_context_by_process_id id s.contexts)
    require (elim known [ none ↦ true | some i ↦ false ]) invalid_session
    allocate_context process id

  -- The unmapping of every NRR in use, whatever it answers.
  unfoldable pub unmap_nrrs : Handle → List Bool → List NrrInfo → State Mem → State Mem
  unfolding unmap_nrr
  unmap_nrrs process [] infos s = s
  unmap_nrrs process (used ∷ bs) [] s = s
  unmap_nrrs process (used ∷ bs) (x ∷ infos) s = unmap_nrrs process bs infos (
      if used
      then state_after
          (unmap_nrr k process x.mapped_header x.nrr_heap_address x.nrr_heap_size
            x.mapped_code_address s)
          s
      else s)

  -- FreeContext; the handle it closes is nothing that the contexts refer to after it.
  unfoldable pub unregister_process : ℕ → M Mem (Unit {0})
  unfolding get_context_by_id unmap_nrrs put_context
  unregister_process context_id = do
    found ← get_context_by_id context_id
    elim found [
      | none ↦ pure tt
      | some c ↦ modify (λ s. put_context context_id zero_context (
          if c.process_handle == invalid_handle
          then s
          else unmap_nrrs c.process_handle c.nrr_in_use c.nrr_infos s))
    ]
