-- ===== src/Ro/Loading.antt =====
-- What LoadNro of ro/source/impl/ro_service_impl.cpp leaves: an NRO mapped and recorded in a free
-- slot, or the process's mappings as they were.
use mathlib.Core.Path.{subst}
use nx_sysmodules.Base.{
  ℕ, ◌+◌, ◌^◌, ◌<◌, ◌≡◌, inl, inr, refl, sym, ap, ◌∙◌, Bool, true, List, arith, length, set,
}
use nx_sysmodules.Base.Outcome.{
  Outcome, ok, err, abort, ◌>>=◌, state_after, guarded, bind_ok, bind_err,
}
use nx_sysmodules.Ro.World.{Handle, Kernel, u64}
use nx_sysmodules.Ro.State.{NroInfo, State, RoError, context_at, with_memory}
use nx_sysmodules.Ro.Nro.{set_nro_perms, unmap_nro, map_nro}
use nx_sysmodules.Ro.Process.{NroLayout, validate_nro}
use nx_sysmodules.Ro.Modules.{
  NroRequest, update_nro, finish_nro, permit_nro, check_nro, load_nro_into,
}
use nx_sysmodules.Ro.Laws.{View, Agree, KernelLaws, NroMapped-Agree}
use nx_sysmodules.Ro.Mapping.{unmap_nro_state}
use nx_sysmodules.Ro.MapNro.{Placed, Mapped, map_nro-Mapped}
use nx_sysmodules.Ro.Keeping.{Keeps-cases}
use nx_sysmodules.Ro.Validating.{Fills, validate_nro-Keeps, set_nro_perms-Keeps}
use nx_sysmodules.Ro.Slots.{written, update_nro-written, set_used-written}

module _ {S E A : Type 0} (undo : S → Outcome S E (Unit {0})) (m : S → Outcome S E A) (s : S) where
  guarded_ok : {a : A} {t : S} → m s ≡ ok a t → guarded undo m s ≡ ok a t
  guarded_ok e = rw (guarded, e)

  guarded_err : {x : E} {t : S} → m s ≡ err x t → guarded undo m s ≡ err x (state_after (undo t) t)
  guarded_err e = rw (guarded, e)

finish_nro_lem :
    {Mem : Type 0} (k : Kernel Mem) (id i base : ℕ) (l : NroLayout) (s : State Mem)
    → id < length s.contexts
    → i < length (context_at id s).nro_infos
    → (used : List Bool) (x : NroInfo) (m : Mem)
    → finish_nro k id i base l (written id i used x s m)
      ≡ ok base (
          written id i
            (set used i true)
            (record x { code_size = u64 (l.rx_size + l.ro_size); rw_size = l.rw_size })
            s
            m)
unfolding finish_nro ◌>>=◌
finish_nro_lem k id i base l s a b used x m =
    ap
      (λ t. ok base (
        update_nro id i
          (λ x. record x { code_size = u64 (l.rx_size + l.ro_size); rw_size = l.rw_size }) t))
      (set_used-written id i s a b used x m true)
    ∙ ap (ok base) (
        update_nro-written id i s a b (set used i true) x m
          (λ x. record x { code_size = u64 (l.rx_size + l.ro_size); rw_size = l.rw_size }))

-- The slot's record of an NRO that LoadNro mapped at `base`.
pub record IsRecord (r : NroRequest) (base : ℕ) (x : NroInfo) : Type 0 where
  pub base_address : x.base_address ≡ base
  pub nro_heap_address : x.nro_heap_address ≡ r.nro_address
  pub nro_heap_size : x.nro_heap_size ≡ r.nro_size
  pub bss_heap_address : x.bss_heap_address ≡ r.bss_address
  pub bss_heap_size : x.bss_heap_size ≡ r.bss_size
  pub sections : x.code_size + x.rw_size ≡ r.nro_size
  pub code : 0 < x.code_size

module _ {Mem : Type 0} (k : Kernel Mem) (view : Mem → View) (laws : KernelLaws k view) where
  abbrev pub IsPlaced : Handle → NroRequest → ℕ → View → View → Type 0
  IsPlaced process r = Placed k view laws process r.nro_address r.nro_size r.bss_address r.bss_size

  module _ (id i : ℕ) (process : Handle) (r : NroRequest) where
    -- From the state `s` with the flags `used`, and the mappings v before.
    abbrev pub Loaded : View → List Bool → State Mem → Outcome (State Mem) RoError ℕ → Type 0
    Loaded v used s (ok base t) =
        IsPlaced process r base v (view t.memory)
        × ((x : NroInfo) × IsRecord r base x × (t ≡ written id i (set used i true) x s t.memory))
    Loaded v used s (err e t) =
        Agree (view t.memory) v × ((x : NroInfo) × (t ≡ written id i used x s t.memory))
    Loaded v used s abort = ⊥

    module _ (s : State Mem) (a : id < length s.contexts)
        (b : i < length (context_at id s).nro_infos) (fits : r.nro_address + r.nro_size < 2 ^ 64)
        (used : List Bool) (v : View) (base : ℕ) where
      permit_nro-Loaded :
          (l : NroLayout) (x : NroInfo) (m : Mem)
          → IsPlaced process r base v (view m)
          → Fills k view laws r.nro_size l
          → x.base_address ≡ base
          → x.nro_heap_address ≡ r.nro_address
          → x.nro_heap_size ≡ r.nro_size
          → x.bss_heap_address ≡ r.bss_address
          → x.bss_heap_size ≡ r.bss_size
          → Loaded v used s (permit_nro k id i process r base l (written id i used x s m))
      unfolding permit_nro written
      permit_nro-Loaded l x m p f e1 e2 e3 e4 e5 =
          let s1 : State Mem = written id i used x s m in
          let undo =
            unmap_nro k process base r.nro_address r.bss_address r.bss_size
              (u64 (l.rx_size + l.ro_size)) l.rw_size in
          let steps =
            set_nro_perms k process base l.rx_size l.ro_size (u64 (l.rw_size + r.bss_size)) in
          let size : u64 (l.rx_size + l.ro_size) ≡ l.rx_size + l.ro_size = omega (arith, p.room) in
          elim (Keeps-cases view _ s1 _ (
            set_nro_perms-Keeps k view laws process base l.rx_size l.ro_size
              (u64 (l.rw_size + r.bss_size)) s1)) [
                | inl (u, m2, e, code, same) ↦
                    let x2 : NroInfo = record x {
                      code_size = u64 (l.rx_size + l.ro_size);
                      rw_size = l.rw_size;
                    } in
                    let run : permit_nro k id i process r base l s1
                        ≡ ok base (written id i (set used i true) x2 s m2) =
                      bind_ok _ _ s1 (guarded_ok undo steps s1 e)
                      ∙ finish_nro_lem k id i base l s a b used x m2 in
                    subst (Loaded v used s) (sym run) (
                      record {
                        both = NroMapped-Agree p.both same;
                        room = p.room;
                        aligned = p.aligned;
                      },
                      (
                        x2,
                        record {
                          base_address = e1;
                          nro_heap_address = e2;
                          nro_heap_size = e3;
                          bss_heap_address = e4;
                          bss_heap_size = e5;
                          sections = omega (arith, size, f);
                          code = omega (arith, size, code);
                        },
                        refl,
                      ),
                    )
                | inr (y, m2, e, same) ↦
                    let code = u64 (l.rx_size + l.ro_size) in
                    let (m3, e3, back) =
                      unmap_nro_state k view laws process base r.nro_address r.nro_size
                        r.bss_address r.bss_size code l.rw_size v (with_memory s1 m2)
                        (NroMapped-Agree p.both same) (omega (arith, size, f)) p.room fits in
                    let run : permit_nro k id i process r base l s1
                        ≡ err y (written id i used x s m3) =
                      bind_err _ _ s1 (guarded_err undo steps s1 e ∙ ap (err y) e3) in
                    subst (Loaded v used s) (sym run) (back, (x, refl))
              ]

      check_nro-Loaded :
          (x : NroInfo) (m : Mem)
          → IsPlaced process r base v (view m)
          → x.base_address ≡ base
          → x.nro_heap_address ≡ r.nro_address
          → x.nro_heap_size ≡ r.nro_size
          → x.bss_heap_address ≡ r.bss_address
          → x.bss_heap_size ≡ r.bss_size
          → Loaded v used s (check_nro k id i process r base (written id i used x s m))
      unfolding check_nro written
      check_nro-Loaded x m p e1 e2 e3 e4 e5 =
          let s1 : State Mem = written id i used x s m in
          let c = context_at id s1 in
          let undo = unmap_nro k process base r.nro_address r.bss_address r.bss_size r.nro_size 0 in
          let steps = validate_nro k c base r.nro_size r.bss_size in
          elim (Keeps-cases view _ s1 _
            (validate_nro-Keeps k view laws c base r.nro_size r.bss_size s1)) [
              | inl (l, m2, e, f, same) ↦
                  let x2 : NroInfo = record x { module_id = l.id } in
                  let run : check_nro k id i process r base s1
                      ≡ permit_nro k id i process r base l (written id i used x2 s m2) =
                    bind_ok _ _ s1 refl
                    ∙ (bind_ok _ _ s1 (guarded_ok undo steps s1 e)
                        ∙ (bind_ok _ _ (with_memory s1 m2) refl
                            ∙ ap (permit_nro k id i process r base l) (
                                update_nro-written id i s a b used x m2
                                  (λ x. record x { module_id = l.id })))) in
                  subst (Loaded v used s) (sym run) (
                    permit_nro-Loaded l x2 m2
                      (record {
                        both = NroMapped-Agree p.both same;
                        room = p.room;
                        aligned = p.aligned;
                      })
                      f e1 e2 e3 e4 e5)
              | inr (y, m2, e, same) ↦
                  let (m3, e3, back) =
                    unmap_nro_state k view laws process base r.nro_address r.nro_size r.bss_address
                      r.bss_size r.nro_size 0 v (with_memory s1 m2) (NroMapped-Agree p.both same)
                      (omega arith) p.room fits in
                  let run : check_nro k id i process r base s1 ≡ err y (written id i used x s m3) =
                    bind_ok _ _ s1 refl
                    ∙ bind_err _ _ s1 (guarded_err undo steps s1 e ∙ ap (err y) e3) in
                  subst (Loaded v used s) (sym run) (back, (x, refl))
            ]

    module _ (s : State Mem) (a : id < length s.contexts)
        (b : i < length (context_at id s).nro_infos) (fits : r.nro_address + r.nro_size < 2 ^ 64)
        (used : List Bool) where
      pub load_nro_into-Loaded :
          (x : NroInfo) (m : Mem)
          → x.nro_heap_address ≡ r.nro_address
          → x.nro_heap_size ≡ r.nro_size
          → x.bss_heap_address ≡ r.bss_address
          → x.bss_heap_size ≡ r.bss_size
          → Loaded (view m) used s (load_nro_into k id i process r (written id i used x s m))
      unfolding load_nro_into written ◌>>=◌
      load_nro_into-Loaded x m e2 e3 e4 e5 =
          go (map_nro k process r.nro_address r.nro_size r.bss_address r.bss_size s1) (
            map_nro-Mapped k view laws process r.nro_address r.nro_size r.bss_address r.bss_size s1)
        where
          s1 : State Mem
          s1 = written id i used x s m

          go :
              (o : Outcome (State Mem) RoError ℕ)
              → Mapped k view laws process r.nro_address r.nro_size r.bss_address r.bss_size
                  (view m)
                  s1
                  o
              → Loaded (view m) used s (elim o [
                | ok base t ↦
                    check_nro k id i process r base
                      (update_nro id i (λ x. record x { base_address = base }) t)
                | err e t ↦ err e t
                | abort ↦ abort
              ])
          go (ok base t) (p, q) =
              subst (λ t. Loaded (view m) used s (check_nro k id i process r base t))
                (sym (
                  ap (update_nro id i (λ x. record x { base_address = base })) q
                  ∙ update_nro-written id i s a b used x t.memory
                      (λ x. record x { base_address = base })))
                (check_nro-Loaded s a b fits used (view m) base (record x { base_address = base })
                  t.memory p refl e2 e3 e4 e5)
          go (err e t) (same, q) = (same, (x, q))
          go abort h = h
