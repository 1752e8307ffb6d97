-- ===== src/Sm/Listing.antt =====
-- ListServiceRecords of sm/source/impl/sm_service_manager.cpp against a window of the records.
use nx_sysmodules.Base.{
  ℕ, zero, suc, ◌≡◌, refl, List, [], ◌∷◌, arith, if◌then◌else◌, take, drop, bytes_eq,
}
use nx_sysmodules.Sm.State.{Platform, State, ServiceInfo, ok}
use nx_sysmodules.Sm.Records.{
  ServiceRecord, get_service_info_record, list_records, list_service_records,
}

module _ (p : Platform) where
  -- The records of the slots in use, in the order of the table.
  unfoldable pub registered : List ServiceInfo → List ServiceRecord
  registered [] = []
  registered (v ∷ vs) =
      if bytes_eq v.name p.invalid_service_name
      then registered vs
      else get_service_info_record v ∷ registered vs

  list_records-registered :
      (vs : List ServiceInfo) (offset room : ℕ)
      → list_records p vs offset room ≡ take room (drop offset (registered vs))
  unfolding list_records registered
  list_records-registered [] zero zero = refl
  list_records-registered [] zero (suc room) = refl
  list_records-registered [] (suc offset) zero = refl
  list_records-registered [] (suc offset) (suc room) = refl
  list_records-registered (v ∷ vs) offset zero = refl
  list_records-registered (v ∷ vs) zero (suc room) =
      ground
        (arith, list_records-registered vs zero room, list_records-registered vs zero (suc room))
  list_records-registered (v ∷ vs) (suc offset) (suc room) = ground (
    arith,
    list_records-registered vs offset (suc room),
    list_records-registered vs (suc offset) (suc room),
  )

  -- ListServiceRecords writes the records of the registered services in the order of the table,
  -- `max_count` of them at most after the first `offset`, and changes nothing; the count that it
  -- reports is 0, however many it wrote.
  pub list_service_records-registered :
      (offset max_count : ℕ) (s : State)
      → list_service_records p offset max_count s
        ≡ ok (take max_count (drop offset (registered s.service_list)), 0) s
  unfolding list_service_records
  list_service_records-registered offset max_count s =
      rw (list_records-registered s.service_list offset max_count)
