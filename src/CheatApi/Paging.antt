-- ===== src/CheatApi/Paging.antt =====
-- GetCheatCount, GetCheats, GetFrozenAddressCount and GetFrozenAddresses of
-- dmnt/source/cheat/impl/dmnt_cheat_api.cpp answer parts of one list.
use nx_sysmodules.Base.{
  ℕ, zero, suc, ◌≡◌, refl, sym, ap, arith, inl, inr, true, List, [], ◌∷◌, if◌then◌else◌, length,
  take, drop, Bool-cases,
}
use nx_sysmodules.Base.Outcome.{ok, gets, require, bind_ok}
use nx_sysmodules.Base.Slots.{count}
use nx_sysmodules.CheatApi.State.{Entry, State, M, cheat_not_attached, Sizes, System}
use nx_sysmodules.CheatApi.Entries.{has_opcodes}
use nx_sysmodules.CheatApi.Process.{
  is_attached, has_active_cheat_process, ensure_cheat_process, with_process,
}
use nx_sysmodules.CheatApi.Cheats.{collect_cheats, get_cheat_count, get_cheats}
use nx_sysmodules.CheatApi.Frozen.{
  FrozenMap, collect_frozen, get_frozen_address_count, get_frozen_addresses,
}

-- The cheats of the slots.
abbrev pub cheats : List Entry → List Entry
cheats [] = []
cheats (e ∷ entries) = if has_opcodes e then e ∷ cheats entries else cheats entries

collect_cheats-none : (offset : ℕ) (entries : List Entry) → collect_cheats 0 offset entries ≡ []
unfolding collect_cheats
collect_cheats-none offset [] = refl
collect_cheats-none offset (e ∷ entries) = refl

pub take-drop_nil : {A : Type 0} (n k : ℕ) → take {A = A} n (drop k []) ≡ []
take-drop_nil zero k = refl
take-drop_nil (suc n) zero = refl
take-drop_nil (suc n) (suc k) = refl

collect_cheats_lem :
    (room offset : ℕ) (entries : List Entry)
    → collect_cheats room offset entries ≡ take room (drop offset (cheats entries))
unfolding collect_cheats
collect_cheats_lem room offset [] = sym (take-drop_nil room offset)
collect_cheats_lem zero offset (e ∷ entries) = refl
collect_cheats_lem (suc room) zero (e ∷ entries) = elim (Bool-cases (has_opcodes e)) [
  | inl q ↦ rw q (ap (λ es. e ∷ es) (collect_cheats_lem room zero entries))
  | inr q ↦ rw q (collect_cheats_lem (suc room) zero entries)
]
collect_cheats_lem (suc room) (suc offset) (e ∷ entries) = elim (Bool-cases (has_opcodes e)) [
  | inl q ↦ rw q (collect_cheats_lem (suc room) offset entries)
  | inr q ↦ rw q (collect_cheats_lem (suc room) (suc offset) entries)
]

count_lem : (entries : List Entry) → count has_opcodes entries ≡ length (cheats entries)
unfolding count
count_lem [] = refl
count_lem (e ∷ entries) =
    let rest = count_lem entries in
    elim (Bool-cases (has_opcodes e)) [
      | inl q ↦ rw q (omega (arith, rest))
      | inr q ↦ rw q (omega (arith, rest))
    ]

collect_frozen_lem :
    (room offset : ℕ) (frozen : FrozenMap)
    → collect_frozen room offset frozen ≡ take room (drop offset frozen)
unfolding collect_frozen
collect_frozen_lem room offset [] = sym (take-drop_nil room offset)
collect_frozen_lem zero offset (f ∷ frozen) = refl
collect_frozen_lem (suc room) zero (f ∷ frozen) =
    ap (λ fs. f ∷ fs) (collect_frozen_lem room zero frozen)
collect_frozen_lem (suc room) (suc offset) (f ∷ frozen) =
    collect_frozen_lem (suc room) offset frozen

has_active_cheat_process-attached :
    (sys : System) (s : State)
    → is_attached sys s ≡ true
    → has_active_cheat_process sys s ≡ ok true s
unfolding has_active_cheat_process
has_active_cheat_process-attached sys s q = rw (has_active_cheat_process, q)

-- A handler that is attached does its work.
pub with_process-attached :
    {A : Type 0} (sys : System) (m : M A) (s : State)
    → is_attached sys s ≡ true
    → with_process sys m s ≡ m s
unfolding with_process ensure_cheat_process
with_process-attached sys m s q =
    bind_ok (ensure_cheat_process sys) (λ _. m) s
      (bind_ok (has_active_cheat_process sys) (λ b. require b cheat_not_attached) s
        (has_active_cheat_process-attached sys s q))

-- While the process is attached, GetCheatCount answers how many cheats have opcodes, GetCheats a page of
-- their list in the order of the slots, and GetFrozenAddressCount and GetFrozenAddresses the same of the
-- frozen addresses; nothing is changed.
pub get_cheats-get_frozen_addresses :
    (sizes : Sizes) (sys : System) (max_count offset : ℕ) (s : State)
    → is_attached sys s ≡ true
    → (get_cheat_count sizes sys s ≡ ok (length (cheats s.entries)) s)
      × (get_cheats sizes sys max_count offset s
          ≡ ok (take max_count (drop offset (cheats s.entries))) s)
      × (get_frozen_address_count sys s ≡ ok (length s.frozen_addresses) s)
      × (get_frozen_addresses sys max_count offset s
          ≡ ok (take max_count (drop offset s.frozen_addresses)) s)
unfolding get_cheat_count get_cheats get_frozen_address_count get_frozen_addresses
get_cheats-get_frozen_addresses sizes sys max_count offset s q = (
  rw (with_process-attached sys (gets (λ s. count has_opcodes s.entries)) s q, count_lem s.entries),
  rw (
    with_process-attached sys (gets (λ s. collect_cheats max_count offset s.entries)) s q,
    collect_cheats_lem max_count offset s.entries,
  ),
  with_process-attached sys (gets (λ s. length s.frozen_addresses)) s q,
  rw (
    with_process-attached sys (gets (λ s. collect_frozen max_count offset s.frozen_addresses)) s q,
    collect_frozen_lem max_count offset s.frozen_addresses,
  ),
)
