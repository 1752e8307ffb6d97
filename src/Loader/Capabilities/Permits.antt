-- ===== src/Loader/Capabilities/Permits.antt =====
-- What a restriction permits, stated on the fields of the words, and ValidateCapabilities of
-- loader/source/ldr_capabilities.cpp against it.
use Prim.Native.Nat.{bit_and}
use nx_sysmodules.Base.{
  ℕ, ◌+◌, ◌≤◌, ◌<◌, ◌≡◌, ◌≢◌, ◌⊎◌, inl, inr, Bool, true, ◌&&◌, some, List, [], ◌∷◌, arith, ◌==◌,
  if◌then◌else◌, Bool-cases,
}
use nx_sysmodules.Loader.Capabilities.Ids
use nx_sysmodules.Loader.Capabilities.Classes.{
  maximum_thread_priority, minimum_thread_priority, minimum_core_id, maximum_core_id, mask,
  mask_index, address_size, range_flag, size_max, interrupt_id_0, interrupt_id_1,
  empty_interrupt_id, table_size, get_capability_id, first_with, any_with,
}

-- Some element satisfies the predicate.
abbrev pub AnyOf : {A : Type 0} → (A → Type 0) → List A → Type 0
AnyOf P [] = ⊥
AnyOf P (x ∷ xs) = P x ⊎ AnyOf P xs

-- What a program asks for: a word, a range in two words, or the first word of a range at the end.
pub data Request : Type 0 where
  single : ℕ → Request
  range : ℕ → ℕ → Request
  cut : ℕ → Request

-- The range that the first words of a range stand for, in pages.
abbrev pub RangeWithin : ℕ → ℕ → ℕ × ℕ → Type 0
RangeWithin word next (r, r') =
    (address_size r' < size_max)
    × (range_flag word ≡ range_flag r)
    × (range_flag next ≡ range_flag r')
    × (address_size r ≤ address_size word)
    × (address_size word + address_size next ≤ address_size r + address_size r')

-- The restriction's pair allows every interrupt, or the one.
abbrev pub Interrupt : ℕ → ℕ → Type 0
Interrupt id r =
    ((interrupt_id_0 r ≡ empty_interrupt_id) × (interrupt_id_1 r ≡ empty_interrupt_id))
    ⊎ ((interrupt_id_0 r ≡ id) ⊎ (interrupt_id_1 r ≡ id))

module _ (ctz_of_zero : ℕ) where
  abbrev pub IdIs : ℕ → ℕ → Type 0
  IdIs id word = get_capability_id ctz_of_zero word ≡ id

  -- `r` is the first word of the list with the id.
  abbrev pub FirstIs : ℕ → List ℕ → ℕ → Type 0
  FirstIs id [] r = ⊥
  FirstIs id (c ∷ kac) r =
      (IdIs id c × (c ≡ r)) ⊎ ((get_capability_id ctz_of_zero c ≢ id) × FirstIs id kac r)

  -- The requests of a list, in order.
  unfoldable pub requests : List ℕ → List Request
  requests [] = []
  requests (w ∷ []) =
      (if get_capability_id ctz_of_zero w == Ids.map_range then cut w else single w) ∷ []
  requests (w ∷ next ∷ kac) =
      let after_pair = requests kac in
      let after_one = requests (next ∷ kac) in
      if get_capability_id ctz_of_zero w == Ids.map_range
      then range w next ∷ after_pair
      else single w ∷ after_one

  -- The ranges of a restriction, up to the first that is not two words of the class.
  unfoldable pub leading_ranges : List ℕ → List (ℕ × ℕ)
  leading_ranges [] = []
  leading_ranges (r ∷ []) = []
  leading_ranges (r ∷ r' ∷ kac) =
      let after_pair = leading_ranges kac in
      let after_one = leading_ranges (r' ∷ kac) in
      if get_capability_id ctz_of_zero r == Ids.map_range
      then if get_capability_id ctz_of_zero r' == Ids.map_range then (r, r') ∷ after_pair else []
      else after_one

  -- A request that a restriction permits, class by class.
  pub data Permits (acid : List ℕ) : Request → Type 0 where
    kernel_flags :
        {w : ℕ} (r : ℕ)
        → IdIs Ids.kernel_flags w
        → FirstIs Ids.kernel_flags acid r
        → minimum_thread_priority r ≤ minimum_thread_priority w
        → minimum_thread_priority w ≤ maximum_thread_priority w
        → maximum_thread_priority w ≤ maximum_thread_priority r
        → minimum_core_id r ≤ minimum_core_id w
        → minimum_core_id w ≤ maximum_core_id w
        → maximum_core_id w ≤ maximum_core_id r
        → Permits acid (single w)
    syscall_mask :
        {w : ℕ}
        → IdIs Ids.syscall_mask w
        → AnyOf
            (λ r. IdIs Ids.syscall_mask r × ((mask_index w ≡ mask_index r) × (mask w ≡ mask r)))
            acid
        → Permits acid (single w)
    map_range :
        {w next : ℕ}
        → IdIs Ids.map_range w
        → IdIs Ids.map_range next
        → address_size next < size_max
        → AnyOf (RangeWithin w next) (leading_ranges acid)
        → Permits acid (range w next)
    map_page :
        {w : ℕ}
        → IdIs Ids.map_page w
        → AnyOf (λ r. IdIs Ids.map_page r × (w ≡ r)) acid
        → Permits acid (single w)
    interrupt_pair :
        {w : ℕ}
        → IdIs Ids.interrupt_pair w
        → AnyOf (λ r. IdIs Ids.interrupt_pair r × Interrupt (interrupt_id_0 w) r) acid
        → AnyOf (λ r. IdIs Ids.interrupt_pair r × Interrupt (interrupt_id_1 w) r) acid
        → Permits acid (single w)
    application_type :
        {w : ℕ}
        → IdIs Ids.application_type w
        → FirstIs Ids.application_type acid w
        → Permits acid (single w)
    kernel_version :
        {w : ℕ}
        → IdIs Ids.kernel_version w
        → FirstIs Ids.kernel_version acid w
        → Permits acid (single w)
    handle_table :
        {w : ℕ} (r : ℕ)
        → IdIs Ids.handle_table w
        → FirstIs Ids.handle_table acid r
        → table_size w ≤ table_size r
        → Permits acid (single w)
    debug_flags :
        {w : ℕ} (r : ℕ)
        → IdIs Ids.debug_flags w
        → FirstIs Ids.debug_flags acid r
        → bit_and r w ≡ w
        → Permits acid (single w)
    empty : {w : ℕ} → IdIs Ids.empty w → Permits acid (single w)

  pub FirstIs-first_with :
      (id r : ℕ) (kac : List ℕ) → first_with ctz_of_zero id kac ≡ some r → FirstIs id kac r
  unfolding first_with
  FirstIs-first_with id r [] e = cc
  FirstIs-first_with id r (c ∷ kac) e = elim (Bool-cases (get_capability_id ctz_of_zero c == id)) [
    | inl q ↦ inl (ground arith, ground arith)
    | inr q ↦ inr (ground arith, FirstIs-first_with id r kac (ground arith))
  ]

  pub first_with-FirstIs :
      (id r : ℕ) (kac : List ℕ) → FirstIs id kac r → first_with ctz_of_zero id kac ≡ some r
  unfolding first_with
  first_with-FirstIs id r [] h = absurd h
  first_with-FirstIs id r (c ∷ kac) (inl (q, e)) = ground arith
  first_with-FirstIs id r (c ∷ kac) (inr (q, h)) = ground (arith, first_with-FirstIs id r kac h)

  -- The loops that go on past a word that does not pass.
  module _ (id : ℕ) (p : ℕ → Bool) (P : ℕ → Type 0) where
    pub AnyOf-any_with :
        (kac : List ℕ)
        → ((r : ℕ) → p r ≡ true → P r)
        → any_with ctz_of_zero id p kac ≡ true
        → AnyOf (λ r. IdIs id r × P r) kac
    unfolding any_with
    AnyOf-any_with [] sound e = cc
    AnyOf-any_with (c ∷ kac) sound e =
        elim (Bool-cases (get_capability_id ctz_of_zero c == id && p c)) [
          | inl q ↦ inl (ground arith, sound c (ground arith))
          | inr q ↦ inr (AnyOf-any_with kac sound (ground arith))
        ]

    pub any_with-AnyOf :
        (kac : List ℕ)
        → ((r : ℕ) → P r → p r ≡ true)
        → AnyOf (λ r. IdIs id r × P r) kac
        → any_with ctz_of_zero id p kac ≡ true
    unfolding any_with
    any_with-AnyOf [] complete h = absurd h
    any_with-AnyOf (c ∷ kac) complete (inl (q, h)) = ground (arith, complete c h)
    any_with-AnyOf (c ∷ kac) complete (inr h) = ground (arith, any_with-AnyOf kac complete h)
