-- ===== src/CheatApi/Regions.antt =====
-- The two loops over the memory of the process in dmnt/source/cheat/impl/dmnt_cheat_api.cpp and the
-- regions that they go over.
use nx_sysmodules.Base.{
  ℕ, zero, suc, ◌+◌, ◌^◌, ◌<◌, ◌≤◌, ◌≡◌, ◌∙◌, ◌⊎◌, inl, inr, refl, sym, ap, Bool, true, false, List,
  [], ◌∷◌, ◌==◌, if◌then◌else◌, length, take, drop, arith, Bool-cases,
}
use nx_sysmodules.Base.Outcome.{ok}
use nx_sysmodules.CheatApi.State.{MemoryInfo, State, System}
use nx_sysmodules.CheatApi.Process.{is_attached}
use nx_sysmodules.CheatApi.Mappings.{
  has_permission, next_address, count_mappings, take_mapping, collect_mappings, address_count,
  get_cheat_process_mapping_count, get_cheat_process_mappings,
}
use nx_sysmodules.CheatApi.Paging.{take-drop_nil, with_process-attached}

-- A region stands before those after it where it has a permission.
unfoldable pub readable : MemoryInfo → List MemoryInfo → List MemoryInfo
readable info regions = if has_permission info then info ∷ regions else regions

-- What svcQueryDebugProcessMemory answers with: the region that holds the address.
pub record Holds (a : ℕ) (info : MemoryInfo) : Type 0 where
  pub starts : info.address ≤ a
  pub ends : a < info.address + info.size
  pub fits : info.address + info.size ≤ 2 ^ 64

module _ (sys : System) where
  -- The regions with a permission from an address on, up to the end of the address space or to the
  -- first query that fails.
  pub data Walk : ℕ → List MemoryInfo → Type 0 where
    stops : {a : ℕ} (e : ℕ) → sys.query a ≡ inl e → Walk a []
    last :
        {a : ℕ} (info : MemoryInfo)
        → sys.query a ≡ inr info
        → info.address + info.size ≡ 2 ^ 64
        → Walk a (readable info [])
    more :
        {a : ℕ} (info : MemoryInfo) (regions : List MemoryInfo)
        → sys.query a ≡ inr info
        → info.address + info.size < 2 ^ 64
        → Walk (info.address + info.size) regions
        → Walk a (readable info regions)

  query-cases :
      (r : ℕ ⊎ MemoryInfo) → ((e : ℕ) × (r ≡ inl e)) ⊎ ((info : MemoryInfo) × (r ≡ inr info))
  query-cases (inl e) = inl (e, refl)
  query-cases (inr info) = inr (info, refl)

  eq_or_less : (n m : ℕ) → n ≤ m → (n ≡ m) ⊎ (n < m)
  eq_or_less n m h = ground arith

  next_address-cases :
      (a : ℕ) (info : MemoryInfo)
      → Holds a info
      → ((info.address + info.size ≡ 2 ^ 64) × (next_address info ≡ 0))
        ⊎ ((info.address + info.size < 2 ^ 64)
            × (next_address info ≡ info.address + info.size)
            × (a < next_address info))
  next_address-cases a info h = elim (eq_or_less (info.address + info.size) (2 ^ 64) h.fits) [
    | inl e ↦ inl (e, rw e refl)
    | inr l ↦
        let same : next_address info ≡ info.address + info.size = omega (arith, l) in
        inr (l, same, rw same h.ends)
  ]

  -- A region that is counted, with those after it.
  count_readable :
      (info : MemoryInfo) (regions : List MemoryInfo) (c : ℕ)
      → (if has_permission info then suc c else c) + length regions
        ≡ c + length (readable info regions)
  unfolding readable
  count_readable info regions c = elim (Bool-cases (has_permission info)) [
    | inl q ↦ rw q (omega arith)
    | inr q ↦ rw q refl
  ]

  -- A region that is written or passed over, with the window of those after it.
  window :
      (b : Bool) (room offset : ℕ) (info : MemoryInfo) (regions : List MemoryInfo)
      → (let (written, (room_left, offset_left)) = take_mapping sys b room offset in
          let rest = take room_left (drop offset_left regions) in
          if written then info ∷ rest else rest)
        ≡ take room (drop offset (if b then info ∷ regions else regions))
  unfolding take_mapping
  window false room offset info regions = refl
  window true zero offset info regions = refl
  window true (suc room) zero info regions = refl
  window true (suc room) (suc offset) info regions = refl

  window_of :
      (room offset : ℕ) (info : MemoryInfo) (rest regions : List MemoryInfo)
      → (let (written, (room_left, offset_left)) =
            take_mapping sys (has_permission info) room offset in
          rest ≡ take room_left (drop offset_left regions))
      → (if (take_mapping sys (has_permission info) room offset).0 then info ∷ rest else rest)
        ≡ take room (drop offset (readable info regions))
  unfolding readable
  window_of room offset info rest regions e =
      ap (λ r. if (take_mapping sys (has_permission info) room offset).0 then info ∷ r else r) e
      ∙ window (has_permission info) room offset info regions

  -- The loops on enough fuel.
  record Covers (fuel a : ℕ) : Type 0 where
    regions : List MemoryInfo
    walk : Walk a regions
    counts : (c : ℕ) → count_mappings sys fuel a c ≡ c + length regions
    collects :
        (room offset : ℕ)
        → collect_mappings sys fuel room offset a ≡ take room (drop offset regions)

  module _
      (law : (a : ℕ) (info : MemoryInfo) → a < 2 ^ 64 → sys.query a ≡ inr info → Holds a info) where
    fails-Covers : (fuel a e : ℕ) → sys.query a ≡ inl e → Covers (suc fuel) a
    unfolding count_mappings collect_mappings
    fails-Covers fuel a e q = record {
      regions = [];
      walk = stops e q;
      counts = λ c. rw (count_mappings, q) (omega arith);
      collects =
          λ room offset. rw (collect_mappings, q, take-drop_nil {A = MemoryInfo} room offset) refl;
    }

    last-Covers :
        (fuel a : ℕ) (info : MemoryInfo)
        → sys.query a ≡ inr info
        → info.address + info.size ≡ 2 ^ 64
        → next_address info ≡ 0
        → Covers (suc fuel) a
    unfolding count_mappings collect_mappings
    last-Covers fuel a info q full n = record {
      regions = readable info [];
      walk = last info q full;
      counts = λ c. rw (count_mappings, q, n) (omega (arith, count_readable info [] c));
      collects = λ room offset.
          rw (collect_mappings, q, n)
            (window_of room offset info [] [] (sym (take-drop_nil {A = MemoryInfo} _ _)));
    }

    more-Covers :
        (fuel a : ℕ) (info : MemoryInfo)
        → sys.query a ≡ inr info
        → info.address + info.size < 2 ^ 64
        → next_address info ≡ info.address + info.size
        → a < next_address info
        → Covers fuel (info.address + info.size)
        → Covers (suc fuel) a
    unfolding count_mappings collect_mappings
    more-Covers fuel a info q less n m c = record {
      regions = readable info c.regions;
      walk = more info c.regions q less c.walk;
      counts = λ k.
          rw (count_mappings, q, positive) (rw n (c.counts _ ∙ count_readable info c.regions k));
      collects = λ room offset.
          rw (collect_mappings, q, positive) (window_of room offset info _ c.regions (others _ _));
    }
      where
        positive : (next_address info == 0) ≡ false
        positive = ground (arith, m)

        others :
            (room offset : ℕ)
            → elim (room == 0) as (λ _. List MemoryInfo) [
              | true ↦ []
              | false ↦ collect_mappings sys fuel room offset (next_address info)
            ]
              ≡ take room (drop offset c.regions)
        others room offset = elim (Bool-cases (room == 0)) [
          | inl none_left ↦
              let zero_left : room ≡ 0 = ground arith in rw (none_left, zero_left) refl
          | inr left ↦ rw (left, n) (c.collects room offset)
        ]

    covers : (fuel a : ℕ) → a < 2 ^ 64 → 2 ^ 64 ≤ fuel + a → Covers fuel a
    covers zero a l f = absurd (omega arith)
    covers (suc fuel) a l f = elim (query-cases (sys.query a)) [
      | inl (e, q) ↦ fails-Covers fuel a e q
      | inr (info, q) ↦ elim (next_address-cases a info (law a info l q)) [
        | inl (full, n) ↦ last-Covers fuel a info q full n
        | inr (less, n, m) ↦
            more-Covers fuel a info q less n m
              (covers fuel (info.address + info.size) less (omega (arith, n, m, f)))
      ]
    ]

    -- While the process is attached, and where the kernel answers a query with the region that holds
    -- the address, GetCheatProcessMappingCount counts the regions that have a permission, up to the
    -- first query that fails, and GetCheatProcessMappings answers with the window of them that was asked
    -- for; nothing changes.
    pub get_cheat_process_mappings-Walk :
        (s : State)
        → is_attached sys s ≡ true
        → (regions : List MemoryInfo) × Walk 0 regions
          × (get_cheat_process_mapping_count sys s ≡ ok (length regions) s)
          × ((max_count offset : ℕ)
              → get_cheat_process_mappings sys max_count offset s
                ≡ ok (take max_count (drop offset regions)) s)
    unfolding get_cheat_process_mapping_count get_cheat_process_mappings
    get_cheat_process_mappings-Walk s attached =
        let c = covers (address_count sys) 0 (omega arith) (omega arith) in
        (
          c.regions,
          c.walk,
          with_process-attached sys _ s attached ∙ ap (λ n. ok n s) (c.counts 0 ∙ omega arith),
          λ max_count offset.
              with_process-attached sys _ s attached
              ∙ ap (λ r. ok r s) (c.collects max_count offset),
        )
