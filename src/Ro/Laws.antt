-- ===== src/Ro/Laws.antt =====
-- What ro/source/impl relies on of the kernel's process memory: which source address stands at an
-- address of a process, and how the calls change it.
use nx_sysmodules.Base.{
  ℕ, ◌+◌, ◌-◌, ◌%◌, ◌^◌, ◌<◌, ◌≡◌, sym, ◌∙◌, Bool, true, ◌&&◌, Option, none, some, List, arith, ltb,
  leb, ◌==◌, if◌then◌else◌,
}
use nx_sysmodules.Ro.World.{Handle, Kernel, success}

-- The source that backs an address of a process, where one is mapped as code.
abbrev pub View : Type 0
View = Handle → ℕ → Option ℕ

abbrev pub is_within : ℕ → ℕ → ℕ → Bool
is_within base size a = leb base a && ltb a (base + size)

-- A view in which a range of a process maps a source, or maps nothing.
abbrev pub mapping : View → Handle → ℕ → ℕ → ℕ → View
mapping v h base source size g a =
    if g == h && is_within base size a then some (source + (a - base)) else v g a

abbrev pub clearing : View → Handle → ℕ → ℕ → View
clearing v h base size g a = if g == h && is_within base size a then none else v g a

abbrev pub Agree : View → View → Type 0
Agree v w = (g : Handle) (a : ℕ) → v g a ≡ w g a

abbrev pub Fresh : View → Handle → ℕ → ℕ → Type 0
Fresh v h base size = (a : ℕ) → is_within base size a ≡ true → v h a ≡ none

abbrev pub Maps : View → Handle → ℕ → ℕ → ℕ → Type 0
Maps v h base source size =
    (a : ℕ) → is_within base size a ≡ true → v h a ≡ some (source + (a - base))

-- A range is mapped where nothing was mapped, and a mapped range can be unmapped again; permissions,
-- ro's own mappings and patches leave the processes' mappings as they are.
pub record KernelLaws {Mem : Type 0} (k : Kernel Mem) (view : Mem → View) : Type 0 where
  pub map_anywhere_fresh :
      (i : ℕ) (m : Mem) (h : Handle) (source size base : ℕ) (m' : Mem)
      → k.map_anywhere i m h source size ≡ success (base, m')
      → Fresh (view m) h base size
  pub map_anywhere_maps :
      (i : ℕ) (m : Mem) (h : Handle) (source size base : ℕ) (m' : Mem)
      → k.map_anywhere i m h source size ≡ success (base, m')
      → Agree (view m') (mapping (view m) h base source size)
  pub map_anywhere_place :
      (i : ℕ) (m : Mem) (h : Handle) (source size base : ℕ) (m' : Mem)
      → k.map_anywhere i m h source size ≡ success (base, m')
      → (base + size < 2 ^ 64) × (base % k.page_size ≡ 0)
  pub map_at_fresh :
      (m : Mem) (h : Handle) (base source size : ℕ) (m' : Mem)
      → k.map_at m h base source size ≡ success m'
      → Fresh (view m) h base size
  pub map_at_maps :
      (m : Mem) (h : Handle) (base source size : ℕ) (m' : Mem)
      → k.map_at m h base source size ≡ success m'
      → Agree (view m') (mapping (view m) h base source size)
  pub destroy_clears :
      (m : Mem) (h : Handle) (base source size : ℕ)
      → Maps (view m) h base source size
      → Agree (view (k.destroy m h base source size)) (clearing (view m) h base size)
  pub unmap_succeeds :
      (m : Mem) (h : Handle) (base source size : ℕ)
      → 0 < size
      → Maps (view m) h base source size
      → (m' : Mem) × (k.unmap m h base source size ≡ success m')
  pub unmap_clears :
      (m : Mem) (h : Handle) (base source size : ℕ) (m' : Mem)
      → k.unmap m h base source size ≡ success m'
      → Agree (view m') (clearing (view m) h base size)
  pub permission_size :
      (m : Mem) (h : Handle) (base size permission : ℕ) (m' : Mem)
      → k.set_permission m h base size permission ≡ success m'
      → 0 < size
  pub permission_keeps :
      (m : Mem) (h : Handle) (base size permission : ℕ) (m' : Mem)
      → k.set_permission m h base size permission ≡ success m'
      → Agree (view m') (view m)
  pub open_keeps :
      (m : Mem) (own : ℕ) (h : Handle) (base size : ℕ) (m' : Mem)
      → k.open_map m own h base size ≡ success m'
      → Agree (view m') (view m)
  pub close_keeps :
      (m : Mem) (own : ℕ) (h : Handle) (base size : ℕ)
      → Agree (view (k.close_map m own h base size)) (view m)
  pub patches_keep :
      (m : Mem) (id : List ℕ) (own size : ℕ) → Agree (view (k.apply_patches m id own size)) (view m)

-- A view in which an NRO stands at `base`, and its bss after it, that were not there before.
pub record NroMapped (h : Handle) (nro nro_size bss bss_size base : ℕ) (v w : View) : Type 0 where
  pub fresh_nro : Fresh v h base nro_size
  pub fresh_bss : Fresh v h (base + nro_size) bss_size
  pub now : Agree w (mapping (mapping v h base nro nro_size) h (base + nro_size) bss bss_size)

module _ {h : Handle} {nro nro_size bss bss_size base : ℕ} {v w : View} where
  pub NroMapped-bss :
      NroMapped h nro nro_size bss bss_size base v w → Maps w h (base + nro_size) bss bss_size
  NroMapped-bss n a i = ground (arith, n.now h a)

  -- Unmapping the bss, then the end of the NRO, then the rest, leaves what was there before.
  module _ (code data_size : ℕ) (e : code + data_size ≡ nro_size) {w1 : View} where
    pub after_bss :
        NroMapped h nro nro_size bss bss_size base v w
        → Agree w1 (clearing w h (base + nro_size) bss_size)
        → Maps w1 h (base + code) (nro + code) data_size
    after_bss n c a i = ground (arith, n.now h a, c h a, e)

    pub after_rw :
        {w2 : View}
        → NroMapped h nro nro_size bss bss_size base v w
        → Agree w1 (clearing w h (base + nro_size) bss_size)
        → Agree w2 (clearing w1 h (base + code) data_size)
        → Maps w2 h base nro code
    after_rw n c d a i = ground (arith, n.now h a, c h a, d h a, e)

    pub after_code :
        {w2 w3 : View}
        → NroMapped h nro nro_size bss bss_size base v w
        → Agree w1 (clearing w h (base + nro_size) bss_size)
        → Agree w2 (clearing w1 h (base + code) data_size)
        → Agree w3 (clearing w2 h base code)
        → Agree w3 v
    after_code n c d f g a =
        ground (arith, n.now g a, c g a, d g a, f g a, e, n.fresh_nro a, n.fresh_bss a)

  pub NroMapped-Agree :
      {w' : View}
      → NroMapped h nro nro_size bss bss_size base v w
      → Agree w' w
      → NroMapped h nro nro_size bss bss_size base v w'
  NroMapped-Agree n c = record {
    fresh_nro = n.fresh_nro;
    fresh_bss = n.fresh_bss;
    now = λ g a. c g a ∙ n.now g a;
  }

  pub NroMapped-before :
      {v' : View}
      → NroMapped h nro nro_size bss bss_size base v w
      → Agree v v'
      → NroMapped h nro nro_size bss bss_size base v' w
  NroMapped-before n c = record {
    fresh_nro = λ a i. sym (c h a) ∙ n.fresh_nro a i;
    fresh_bss = λ a i. sym (c h a) ∙ n.fresh_bss a i;
    now = λ g a. ground (arith, n.now g a, c g a);
  }

module _ (h : Handle) (base source size : ℕ) (v : View) {w : View} where
  pub mapping-Maps : Agree w (mapping v h base source size) → Maps w h base source size
  mapping-Maps c a i = ground (arith, c h a)

  -- What was mapped and is unmapped again.
  pub mapping_undone :
      {u : View}
      → Fresh v h base size
      → Agree w (mapping v h base source size)
      → Agree u (clearing w h base size)
      → Agree u v
  mapping_undone f c d g a = ground (arith, f a, c g a, d g a)

  -- The same after something that left the mapping alone.
  module _ {next source' size' : ℕ} {x : View} where
    pub NroMapped-of :
        Fresh v h base size
        → Agree w (mapping v h base source size)
        → next ≡ base + size
        → Fresh w h next size'
        → Agree x (mapping w h next source' size')
        → NroMapped h source size source' size' base v x
    NroMapped-of f c e f' c' = record {
      fresh_nro = f;
      fresh_bss = λ a i. ground (arith, f' a, c h a, e);
      now = λ g a. ground (arith, c' g a, c g a, e);
    }

  pub NroMapped-alone :
      (bss : ℕ)
      → Fresh v h base size
      → Agree w (mapping v h base source size)
      → NroMapped h source size bss 0 base v w
  NroMapped-alone bss f c = record {
    fresh_nro = f;
    fresh_bss = λ a i. absurd (ground arith);
    now = λ g a. ground (arith, c g a);
  }
