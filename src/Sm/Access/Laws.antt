-- ===== src/Sm/Access/Laws.antt =====
-- What the two functions ValidateAccessControl of sm/source/impl/sm_service_manager.cpp promise.
use nx_sysmodules.Base.{
  ℕ, zero, suc, ◌+◌, ◌≤◌, ◌≡◌, ◌↔◌, refl, ap, ◌⊎◌, inl, inr, Bool, true, false, List, [], ◌∷◌, some,
  arith, if◌then◌else◌, length, get_elem?, length-drop, All, Bool-cases, eq_of_bytes_eq,
}
use native.Mathlib.Nat.{le_refl}
use nx_sysmodules.Sm.State.{Platform, ServiceName, State, ok, err, not_allowed}
use nx_sysmodules.Sm.Access.{
  Cursor, get_size, get_next_entry, get_service_name, is_host, is_wildcard, is_valid, visit,
  entries, allows, any_allows, validate_request, all_allowed, validate_access_control,
}

-- An entry takes two bytes at least, and they are there.
length-get_next_entry : (e : Cursor) → is_valid e ≡ true → length (get_next_entry e) + 2 ≤ length e
unfolding get_next_entry is_valid
length-get_next_entry e h = ground (arith, length-drop (get_size e) e)

is_valid-nonempty : (e : Cursor) → length e ≤ 0 → is_valid e ≡ false
unfolding is_valid
is_valid-nonempty e h = ground arith

-- With fuel for every byte the loop stops by its own test.
visit_fuel : (n m : ℕ) (e : Cursor) → length e ≤ n → length e ≤ m → visit n e ≡ visit m e
unfolding visit
visit_fuel zero zero e a b = refl
visit_fuel zero (suc m) e a b = ground (arith, is_valid-nonempty e)
visit_fuel (suc n) zero e a b = ground (arith, is_valid-nonempty e)
visit_fuel (suc n) (suc m) e a b =
    ground (arith, length-get_next_entry e, visit_fuel n m (get_next_entry e))

visit_unroll :
    (n : ℕ) (e : Cursor)
    → length e ≤ n
    → visit n e ≡ (if is_valid e then e ∷ entries (get_next_entry e) else [])
unfolding entries
visit_unroll zero e h = ground (arith, is_valid-nonempty e)
visit_unroll (suc n) e h = elim (Bool-cases (is_valid e)) [
  | inl v ↦ rw v (
      ap (λ r. e ∷ r)
        (visit_fuel n _ (get_next_entry e) (omega (arith, length-get_next_entry e v)) (le_refl _)))
  | inr v ↦ rw v
]

-- The entries are those of the source's loop: this one and those after it while it is valid. So
-- as much fuel as there are bytes is enough, and the loop ends.
pub entries_unroll :
    (e : Cursor) → entries e ≡ (if is_valid e then e ∷ entries (get_next_entry e) else [])
unfolding entries
entries_unroll e = visit_unroll (length e) e (le_refl _)

module _ (p : Platform) where
  -- What a request for `service` gets from an entry without a wildcard is that entry's own name.
  allows_exact :
      (e : Cursor) (service : ServiceName) (host : Bool)
      → is_wildcard e ≡ false
      → allows p e service host false ≡ true
      → (service ≡ get_service_name p e) × (host ≡ is_host e)
  unfolding allows
  allows_exact e service true w h = ground (arith, eq_of_bytes_eq (get_service_name p e) service)
  allows_exact e service false w h = ground (arith, eq_of_bytes_eq (get_service_name p e) service)

  -- An entry without a wildcard allows every wildcard request on its own side.
  allows_wildcard :
      (e : Cursor) (service : ServiceName)
      → is_wildcard e ≡ false
      → allows p e service (is_host e) true ≡ true
  unfolding allows
  allows_wildcard e service w = ground arith

  any_allows_at :
      (es : List Cursor) (i : ℕ) (e : Cursor) (service : ServiceName) (host wildcard : Bool)
      → get_elem? es i ≡ some e
      → allows p e service host wildcard ≡ true
      → any_allows p es service host wildcard ≡ true
  unfolding any_allows
  any_allows_at [] i e service host wildcard g h = ground arith
  any_allows_at (x ∷ es) zero e service host wildcard g h = ground arith
  any_allows_at (x ∷ es) (suc i) e service host wildcard g h =
      ground (arith, any_allows_at es i e service host wildcard)

  -- Whether a restriction allows everything that an entry of an access control asks for.
  abbrev pub IsAllowed : Cursor → Cursor → Type 0
  IsAllowed restriction e =
      any_allows p (entries restriction) (get_service_name p e) (is_host e) (is_wildcard e) ≡ true

  all_allowed_of_IsAllowed :
      (restriction : Cursor) (es : List Cursor) (s : State)
      → All (IsAllowed restriction) es
      → all_allowed p restriction es s ≡ ok tt s
  unfolding all_allowed validate_request
  all_allowed_of_IsAllowed restriction [] s h = refl
  all_allowed_of_IsAllowed restriction (e ∷ es) s h =
      rw h.0 (all_allowed_of_IsAllowed restriction es s h.1)

  IsAllowed-of_all_allowed :
      (restriction : Cursor) (es : List Cursor) (s : State)
      → all_allowed p restriction es s ≡ ok tt s
      → All (IsAllowed restriction) es
  unfolding all_allowed validate_request
  IsAllowed-of_all_allowed restriction [] s h = tt
  IsAllowed-of_all_allowed restriction (e ∷ es) s h =
      ground (arith, IsAllowed-of_all_allowed restriction es s)

  all_allowed_cases :
      (restriction : Cursor) (es : List Cursor) (s : State)
      → (all_allowed p restriction es s ≡ ok tt s)
        ⊎ (all_allowed p restriction es s ≡ err not_allowed s)
  unfolding all_allowed validate_request
  all_allowed_cases restriction [] s = inl refl
  all_allowed_cases restriction (e ∷ es) s = ground (arith, all_allowed_cases restriction es s)

  -- The second ValidateAccessControl answers success exactly when every entry of `access` is
  -- allowed by some entry of the restriction, fails with NotAllowed otherwise, and changes nothing.
  pub validate_access_control_iff :
      (restriction access : Cursor) (s : State)
      → ((validate_access_control p restriction access s ≡ ok tt s)
          ↔ All (IsAllowed restriction) (entries access))
        × ((validate_access_control p restriction access s ≡ ok tt s)
            ⊎ (validate_access_control p restriction access s ≡ err not_allowed s))
  unfolding validate_access_control
  validate_access_control_iff restriction access s = (
    (
      IsAllowed-of_all_allowed restriction (entries access) s,
      all_allowed_of_IsAllowed restriction (entries access) s,
    ),
    all_allowed_cases restriction (entries access) s,
  )

  any_allows_confined :
      (restriction : Cursor) (es : List Cursor) (service : ServiceName) (host : Bool)
      → All (λ e. is_wildcard e ≡ false) es
      → All (IsAllowed restriction) es
      → any_allows p es service host false ≡ true
      → any_allows p (entries restriction) service host false ≡ true
  unfolding any_allows
  any_allows_confined restriction [] service host w a h = ground arith
  any_allows_confined restriction (e ∷ es) service host w a h =
      elim (Bool-cases (allows p e service host false)) [
        | inl t ↦ let (n, k) = allows_exact e service host w.0 t in rw (n, k) (rw w.0 at (a.0))
        | inr f ↦ any_allows_confined restriction es service host w.1 a.1 (ground arith)
      ]

  -- An access control that passed validation and has no wildcard entry allows a request that is not
  -- for a wildcard only where the restriction allows it itself.
  pub access_confined :
      (restriction access : Cursor) (service : ServiceName) (host : Bool) (s t : State)
      → All (λ e. is_wildcard e ≡ false) (entries access)
      → validate_access_control p restriction access s ≡ ok tt s
      → validate_request p access service host false t ≡ ok tt t
      → validate_request p restriction service host false t ≡ ok tt t
  unfolding validate_access_control validate_request
  access_confined restriction access service host s t w v h = rw (
      any_allows_confined restriction (entries access) service host w
        (IsAllowed-of_all_allowed restriction (entries access) s v) (ground arith))

  bypass :
      (restriction : Cursor) (i : ℕ) (r : Cursor) (es : List Cursor)
      → get_elem? (entries restriction) i ≡ some r
      → is_wildcard r ≡ false
      → All (λ e. (is_wildcard e ≡ true) × (is_host e ≡ is_host r)) es
      → All (IsAllowed restriction) es
  bypass restriction i r [] g w h = tt
  bypass restriction i r (e ∷ es) g w h = (
    rw (h.0.0, h.0.1)
        (any_allows_at (entries restriction) i r (get_service_name p e) (is_host r) true g
          (allows_wildcard r (get_service_name p e) w)),
    bypass restriction i r es g w h.1,
  )

  -- One entry without a wildcard in the restriction lets any list of wildcard entries with the same
  -- host flag pass validation, whatever the names are.
  pub wildcard_bypass :
      (restriction access : Cursor) (i : ℕ) (r : Cursor) (s : State)
      → get_elem? (entries restriction) i ≡ some r
      → is_wildcard r ≡ false
      → All (λ e. (is_wildcard e ≡ true) × (is_host e ≡ is_host r)) (entries access)
      → validate_access_control p restriction access s ≡ ok tt s
  wildcard_bypass restriction access i r s g w h =
      (validate_access_control_iff restriction access s).0.1
        (bypass restriction i r (entries access) g w h)
