-- ===== src/Ro/LoadNro.antt =====
-- LoadNro of ro/source/impl/ro_service_impl.cpp as a whole: its checks, the free slot and the mapping.
use mathlib.Core.Path.{subst}
use nx_sysmodules.Base.{
  ℕ, ◌+◌, ◌^◌, ◌<◌, ◌≡◌, ◌⊎◌, inl, inr, refl, sym, Bool, true, false, Option, none, some, arith,
  length, set, get_or, leb, ltb, ◌==◌,
}
use nx_sysmodules.Base.Outcome.{
  Outcome, ok, err, abort, ◌>>=◌, ◌>>◌, require, require_some, bind_ok, bind_err,
}
use nx_sysmodules.Ro.World.{Kernel, u64}
use nx_sysmodules.Ro.State.{
  NroInfo, zero_nro, State, M, RoError, context_at, max_sessions, invalid_size, invalid_address,
  is_free, too_many_nro, get_free_nro_info,
}
use nx_sysmodules.Ro.Contexts.{require_context, get_context_by_id, invalid_context_id}
use nx_sysmodules.Ro.Modules.{NroRequest, update_nro, load_nro_into, load_nro}
use nx_sysmodules.Ro.Laws.{View, Agree, KernelLaws}
use nx_sysmodules.Ro.Ranges.{
  Fits, Three, validate_address_and_non_zero_size-cases, validate_address_and_size-cases,
}
use nx_sysmodules.Ro.Slots.{written, find_slot-lt, update_nro-as_written}
use nx_sysmodules.Ro.Loading.{IsPlaced, IsRecord, Loaded, load_nro_into-Loaded}

module _ {Mem : Type 0} (id : ℕ) (s : State Mem) where
  pub require_context-known : id < max_sessions → require_context id s ≡ ok (context_at id s) s
  unfolding require_context get_context_by_id ◌>>=◌
  require_context-known l =
      let e : (id == invalid_context_id) ≡ false = ground arith in
      let e' : ltb id max_sessions ≡ true = ground arith in rw (e, e')

-- A step that checks and changes nothing.
module _ {Mem : Type 0} (s : State Mem) where
  abbrev pub Checks : Type 0 → Outcome (State Mem) RoError (Unit {0}) → Type 0
  Checks P o = (P × (o ≡ ok tt s)) ⊎ ((x : RoError) × (o ≡ err x s))

  require-Checks : (b : Bool) (x : RoError) → Checks (b ≡ true) (require b x s)
  require-Checks true x = inl (refl, refl)
  require-Checks false x = inr (x, refl)

  module _ {P : Type 0} where
    Three-Checks :
        (page_size address : ℕ) (o : Outcome (State Mem) RoError (Unit {0}))
        → Three page_size address s o P
        → Checks P o
    Three-Checks page_size address o (inl (a, p, e)) = inl (p, e)
    Three-Checks page_size address o (inr (inl (a, e))) = inr (invalid_address, e)
    Three-Checks page_size address o (inr (inr (a, p, e))) = inr (invalid_size, e)

  require_some-bind :
      {A B : Type 0} (o : Option A) (x : RoError) (Q : Outcome (State Mem) RoError B → Type 0)
      (f : A → M Mem B)
      → ((a : A) → o ≡ some a → Q (f a s))
      → Q (err x s)
      → Q ((require_some o x >>= f) s)
  require_some-bind none x Q f g h = subst Q (sym (bind_err (require_some none x) f s refl)) h
  require_some-bind (some a) x Q f g h =
      subst Q (sym (bind_ok (require_some (some a) x) f s refl)) (g a refl)

  -- What follows a check need only be seen where it passed.
  Checks-bind :
      {A : Type 0} (P : Type 0) (Q : Outcome (State Mem) RoError A → Type 0) (m : M Mem (Unit {0}))
      (f : M Mem A)
      → Checks P (m s)
      → (P → Q (f s))
      → ((x : RoError) → Q (err x s))
      → Q ((m >> f) s)
  Checks-bind P Q m f (inl (p, e)) g h = subst Q (sym (bind_ok m (λ _. f) s e)) (g p)
  Checks-bind P Q m f (inr (x, e)) g h = subst Q (sym (bind_err m (λ _. f) s e)) (h x)

module _ {Mem : Type 0} (k : Kernel Mem) (view : Mem → View) (laws : KernelLaws k view) where
  module _ (id : ℕ) (r : NroRequest) (s : State Mem) where
    -- What LoadNro leaves: on success a mapped NRO, recorded in a slot that was free, and nothing else
    -- changed; on a failure the mappings as they were, and at most a slot written that is not in use.
    abbrev pub LoadsNro : Outcome (State Mem) RoError ℕ → Type 0
    LoadsNro (ok base t) =
        IsPlaced k view laws (context_at id s).process_handle r base (view s.memory) (view t.memory)
        × (0 < r.nro_size)
        × Fits k.page_size r.nro_address r.nro_size
        × Fits k.page_size r.bss_address r.bss_size
        × ((i : ℕ) × (old : NroInfo) × (x : NroInfo) × (get_free_nro_info (context_at id s)
              ≡ some (i, old))
            × IsRecord r base x
            × (t ≡ written id i (set (context_at id s).nro_in_use i true) x s t.memory))
    LoadsNro (err e t) =
        Agree (view t.memory) (view s.memory)
        × ((t ≡ s)
            ⊎ ((i : ℕ) × (old : NroInfo) × (x : NroInfo) × (get_free_nro_info (context_at id s)
                  ≡ some (i, old))
                × (t ≡ written id i (context_at id s).nro_in_use x s t.memory)))
    LoadsNro abort = ⊥

    -- The writing into a free slot, and what follows it.
    module _ (fits : r.nro_address + r.nro_size < 2 ^ 64) (there : id < length s.contexts) where
      load_into_slot :
          0 < r.nro_size
          → Fits k.page_size r.nro_address r.nro_size
          → Fits k.page_size r.bss_address r.bss_size
          → (i : ℕ) (old : NroInfo) → get_free_nro_info (context_at id s) ≡ some (i, old)
          → LoadsNro (
              load_nro_into k id i (context_at id s).process_handle r (
                update_nro id i
                  (λ x. record x {
                    nro_heap_address = r.nro_address;
                    nro_heap_size = r.nro_size;
                    bss_heap_address = r.bss_address;
                    bss_heap_size = r.bss_size;
                  })
                  s))
      unfolding get_free_nro_info
      load_into_slot z f f' i old e =
          let c = context_at id s in
          let write = λ (x : NroInfo).
            let y : NroInfo = record x {
              nro_heap_address = r.nro_address;
              nro_heap_size = r.nro_size;
              bss_heap_address = r.bss_address;
              bss_heap_size = r.bss_size;
            } in
            y in
          let x0 = write (get_or c.nro_infos i zero_nro) in
          let slot = find_slot-lt is_free c.nro_in_use c.nro_infos i old e in
          go _ (
            rw (update_nro-as_written id i s write) (
              load_nro_into-Loaded k view laws id i c.process_handle r s there slot.1 fits
                c.nro_in_use x0 s.memory refl refl refl refl))
        where
          go :
              (o : Outcome (State Mem) RoError ℕ)
              → Loaded k view laws id i
                  (context_at id s).process_handle
                  r
                  (view s.memory)
                  (context_at id s).nro_in_use
                  s
                  o
              → LoadsNro o
          go (ok base t) (p, (x, q, w)) = (p, z, f, f', (i, old, x, e, q, w))
          go (err x t) (same, (y, w)) = (same, inr (i, old, y, e, w))
          go abort h = h

    -- LoadNro for a registered context, with 64-bit addresses and sizes, under the laws of the kernel,
    -- never aborts: where it returns, the NRO is mapped at the address it returns, the sizes and ranges
    -- were valid, and the NRO is recorded in a slot that was free; where it fails, the mappings are as
    -- they were, and at most a free slot is written, which stays free.
    pub load_nro-LoadsNro :
        r.nro_address < 2 ^ 64
        → r.nro_size < 2 ^ 64
        → r.bss_address < 2 ^ 64
        → r.bss_size < 2 ^ 64
        → id < max_sessions
        → id < length s.contexts
        → LoadsNro (load_nro k id r s)
    unfolding load_nro
    load_nro-LoadsNro a1 a2 a3 a4 known there =
        let c = context_at id s in
        let untouched : (x : RoError) → LoadsNro (err x s) = λ x. ((λ g a. refl), inl refl) in
        subst LoadsNro (sym (bind_ok (require_context id) _ s (require_context-known id s known))) (
          Checks-bind s _ LoadsNro _ _
            (Three-Checks s k.page_size r.nro_address _ (
              validate_address_and_non_zero_size-cases k.page_size r.nro_address r.nro_size a1 a2
                s))
            (λ p1.
              Checks-bind s _ LoadsNro _ _
                (Three-Checks s k.page_size r.bss_address _
                  (validate_address_and_size-cases k.page_size r.bss_address r.bss_size a3 a4 s))
                (λ p2.
                  Checks-bind s _ LoadsNro _ _
                    (require-Checks s (leb r.nro_size (u64 (r.nro_size + r.bss_size))) invalid_size)
                    (λ _.
                      Checks-bind s _ LoadsNro _ _
                        (require-Checks s (leb r.bss_size (u64 (r.nro_size + r.bss_size)))
                          invalid_size)
                        (λ _.
                          require_some-bind s (get_free_nro_info c) too_many_nro LoadsNro _
                            (λ slot e.
                              subst LoadsNro (sym (bind_ok _ _ s refl))
                                (load_into_slot p1.1.1 there p1.0 p1.1 p2 slot.0 slot.1 e))
                            (untouched too_many_nro))
                        untouched)
                    untouched)
                untouched)
            untouched)
