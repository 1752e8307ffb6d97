-- ===== src/Sm/Access.antt =====
-- AccessControlEntry and the two functions ValidateAccessControl of
-- sm/source/impl/sm_service_manager.cpp. A cursor is the bytes that are left: the pointer and the
-- capacity of the source's class.
pub mod Laws
pub mod Printing
use nx_sysmodules.Base.{
  ℕ, zero, suc, ◌+◌, ◌-◌, ◌/◌, ◌%◌, Bool, true, false, not, ◌&&◌, Option, none, some, List, [], ◌∷◌,
  leb, ◌==◌, if◌then◌else◌, length, get_or, take, drop, bytes_eq,
}
use nx_sysmodules.Sm.State.{Platform, ServiceName, M, ◌>>=◌, ◌>>◌, pure, require, not_allowed}

abbrev pub Cursor : Type 0
Cursor = List ℕ

-- (entry[0] & 7) + 1
unfoldable pub get_service_name_size : Cursor → ℕ
get_service_name_size e = get_or e 0 0 % 8 + 1

unfoldable pub get_size : Cursor → ℕ
unfolding get_service_name_size
get_size e = get_service_name_size e + 1

unfoldable pub get_next_entry : Cursor → Cursor
unfolding get_size
get_next_entry e = drop (get_size e) e

unfoldable pub get_service_name : Platform → Cursor → ServiceName
unfolding get_service_name_size
get_service_name p e = p.encode (take (get_service_name_size e) (drop 1 e))

-- (entry[0] & 0x80) != 0
unfoldable pub is_host : Cursor → Bool
is_host e = not ((get_or e 0 0 / 0x80) % 2 == 0)

unfoldable pub is_wildcard : Cursor → Bool
unfolding get_service_name_size
is_wildcard e = get_or e (get_service_name_size e) 0 == b'*'

-- b == c on bool
unfoldable pub same : Bool → Bool → Bool
same true c = c
same false c = not c

-- An empty cursor stands for a null pointer or no capacity.
unfoldable pub is_valid : Cursor → Bool
unfolding get_size
is_valid e = if length e == 0 then false else leb (get_size e) (length e)

-- The positions that `while (entry.IsValid()) { ...; entry = entry.GetNextEntry(); }` visits, on
-- fuel; every round drops two bytes at least.
visit : ℕ → Cursor → List Cursor
unfolding is_valid get_next_entry
visit zero e = []
visit (suc n) e = let rest = visit n (get_next_entry e) in if is_valid e then e ∷ rest else []

unfoldable pub entries : Cursor → List Cursor
unfolding visit
entries e = visit (length e) e

module _ (p : Platform) where
  -- The body of the first function's loop: whether this entry allows the request.
  unfoldable pub allows : Cursor → ServiceName → Bool → Bool → Bool
  unfolding same
  allows e service host wildcard =
      if same host (is_host e)
      then if same wildcard (is_wildcard e)
        then bytes_eq (get_service_name p e) service
        else if is_wildcard e
        then bytes_eq (take (get_service_name_size e - 1) (get_service_name p e))
            (take (get_service_name_size e - 1) service)
        else true
      else false

  -- R_SUCCEED_IF in the loop over the entries.
  unfoldable pub any_allows : List Cursor → ServiceName → Bool → Bool → Bool
  any_allows [] service host wildcard = false
  any_allows (e ∷ es) service host wildcard =
      if allows e service host wildcard then true else any_allows es service host wildcard

  -- ValidateAccessControl(access_control, service, is_host, is_wildcard)
  unfoldable pub validate_request : Cursor → ServiceName → Bool → Bool → M Unit
  validate_request acl service host wildcard =
      require (any_allows (entries acl) service host wildcard) not_allowed

  -- The loop of ValidateAccessControl(restriction, access) over the entries of `access`.
  unfoldable pub all_allowed : Cursor → List Cursor → M Unit
  all_allowed restriction [] = pure tt
  all_allowed restriction (e ∷ es) = do
    validate_request restriction (get_service_name p e) (is_host e) (is_wildcard e)
    all_allowed restriction es

  unfoldable pub validate_access_control : Cursor → Cursor → M Unit
  validate_access_control restriction access = all_allowed restriction (entries access)
