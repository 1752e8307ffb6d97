-- ===== src/Sm/Access/Printing.antt =====
-- The format of an access control that AccessControlEntry of sm/source/impl/sm_service_manager.cpp
-- reads, from the side of what writes it.
use nx_sysmodules.Base.{
  ℕ, zero, suc, ◌+◌, ◌-◌, ◌<◌, ◌≤◌, ◌≡◌, ◌∙◌, refl, ap, Bool, Bool-cases, inl, inr, true, List, [],
  ◌∷◌, ◌++◌, map, ◌==◌, arith, if◌then◌else◌, length, length-append, get_or, take, drop, All,
}
use nx_sysmodules.Sm.State.{Platform, ServiceName}
use nx_sysmodules.Sm.Access.{
  Cursor, get_service_name_size, get_size, get_next_entry, get_service_name, is_host, is_wildcard,
  is_valid, entries,
}
use nx_sysmodules.Sm.Access.Laws.{entries_unroll}

-- What an access control grants: the hosting or the use of a service.
pub record Grant : Type 0 where
  pub host : Bool
  pub service : List ℕ

-- A name of one to eight bytes.
unfoldable pub IsGrant : Grant → Type 0
IsGrant g = (1 ≤ length g.service) × (length g.service ≤ 8)

-- The first byte holds the length of the name less one in its low bits and the host flag in its top
-- bit.
unfoldable pub header : Grant → ℕ
header g = length g.service - 1 + (if g.host then 0x80 else 0)

unfoldable pub print : List Grant → Cursor
unfolding header
print [] = []
print (g ∷ gs) = header g ∷ (g.service ++ print gs)

-- What the readers of an entry say of it.
unfoldable pub read_entry : Platform → Cursor → Bool × ServiceName × Bool
unfolding is_host get_service_name is_wildcard
read_entry p e = (is_host e, get_service_name p e, is_wildcard e)

-- What a grant means; one whose name ends in an asterisk is for every name that starts so.
unfoldable pub meaning : Platform → Grant → Bool × ServiceName × Bool
meaning p g = (g.host, p.encode g.service, get_or g.service (length g.service - 1) 0 == b'*')

module _ {ℓ} {A : Type ℓ} where
  take-append : (xs ys : List A) → take (length xs) (xs ++ ys) ≡ xs
  take-append [] ys = refl
  take-append (x ∷ xs) ys = ap (λ r. x ∷ r) (take-append xs ys)

  drop-append : (xs ys : List A) → drop (length xs) (xs ++ ys) ≡ ys
  drop-append [] ys = refl
  drop-append (x ∷ xs) ys = drop-append xs ys

  get_or-append :
      (xs ys : List A) (i : ℕ) (d : A) → i < length xs → get_or (xs ++ ys) i d ≡ get_or xs i d
  get_or-append [] ys i d l = absurd (omega arith)
  get_or-append (x ∷ xs) ys zero d l = refl
  get_or-append (x ∷ xs) ys (suc i) d l = get_or-append xs ys i d (omega arith)

  get_or-last :
      (x : A) (xs : List A) (n : ℕ) (d : A) → 1 ≤ n → get_or (x ∷ xs) n d ≡ get_or xs (n - 1) d
  get_or-last x xs zero d l = absurd (omega arith)
  get_or-last x xs (suc n) d l = ap (λ i. get_or xs i d) (omega arith)

module _ (g : Grant) (gs : List Grant) (h : IsGrant g) where
  get_service_name_size-print : get_service_name_size (print (g ∷ gs)) ≡ length g.service
  unfolding get_service_name_size print header IsGrant
  get_service_name_size-print = elim (Bool-cases g.host) [
    | inl q ↦ rw q (omega (arith, h.0, h.1))
    | inr q ↦ rw q (omega (arith, h.0, h.1))
  ]

  is_host-print : is_host (print (g ∷ gs)) ≡ g.host
  unfolding is_host print header IsGrant
  is_host-print = ground (arith, h.0, h.1)

  get_size-print : get_size (print (g ∷ gs)) ≡ suc (length g.service)
  unfolding get_size
  get_size-print = omega (arith, get_service_name_size-print)

  get_next_entry-print : get_next_entry (print (g ∷ gs)) ≡ print gs
  unfolding get_next_entry print
  get_next_entry-print = rw get_size-print (drop-append g.service (print gs))

  is_valid-print : is_valid (print (g ∷ gs)) ≡ true
  unfolding is_valid print
  is_valid-print = ground (arith, get_size-print, length-append g.service (print gs))

  get_service_name-print : (p : Platform) → get_service_name p (print (g ∷ gs)) ≡ p.encode g.service
  unfolding get_service_name print
  get_service_name-print p =
      ap (λ n. p.encode (take n (g.service ++ print gs))) get_service_name_size-print
      ∙ ap p.encode (take-append g.service (print gs))

  is_wildcard-print :
      is_wildcard (print (g ∷ gs)) ≡ (get_or g.service (length g.service - 1) 0 == b'*')
  unfolding is_wildcard print IsGrant
  is_wildcard-print =
      rw
        (
          get_service_name_size-print,
          get_or-last (header g) (g.service ++ print gs) (length g.service) 0 h.0,
          get_or-append g.service (print gs) (length g.service - 1) 0 (omega (arith, h.0)),
        )
        refl

  read_entry-print : (p : Platform) → read_entry p (print (g ∷ gs)) ≡ meaning p g
  unfolding read_entry meaning
  read_entry-print p = rw (is_host-print, get_service_name-print p, is_wildcard-print) refl

-- The entries of an access control that is printed from grants, whose names have one to eight bytes,
-- are those grants in order: the host flag, the encoded name and whether it is a wildcard.
pub map-read_entry-entries-print :
    (p : Platform) (gs : List Grant)
    → All IsGrant gs
    → map (read_entry p) (entries (print gs)) ≡ map (meaning p) gs
unfolding print is_valid
map-read_entry-entries-print p [] h = rw (entries_unroll []) refl
map-read_entry-entries-print p (g ∷ gs) h =
    ap (map (read_entry p)) (entries_unroll (print (g ∷ gs)))
    ∙ rw (is_valid-print g gs h.0, read_entry-print g gs h.0 p, get_next_entry-print g gs h.0)
        (ap (λ r. meaning p g ∷ r) (map-read_entry-entries-print p gs h.1))
