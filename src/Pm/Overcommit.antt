-- ===== src/Pm/Overcommit.antt =====
-- A boost of pm/source/impl/pm_resource_manager.cpp never gives memory away twice, whatever fails.
use nx_sysmodules.Base.{
  ℕ, ◌+◌, ◌-◌, ◌^◌, ◌≤◌, ◌<◌, ◌≡◌, refl, inl, inr, Bool, true, false, ltb, leb, Bool-cases,
  Option-cases, arith, ltb→lt, leb→le,
}
use nx_sysmodules.Base.Outcome.{Outcome, ok, err, abort, ◌>>◌, modify, LeftBy, bind_rule}
use nx_sysmodules.Pm.Resources.{
  Group, system, application, State, PmError, M, System, u64, set_memory_resource_limit_limit_value,
  set_unsafe_limit, boost_unsafe, boost_system, boost_limits, boost_system_memory_resource_limit,
  svc, abort_on_error, stop_on_error, set_limit, tell_limit,
}

-- Before 5.0.0 the boost is the system's and there is no unsafe limit; from 5.0.0 on it is that limit.
abbrev pub Bounds : Bool → State → Type 0
Bounds true s =
    (s.unsafe_limit ≤ s.system_memory_boost_size)
    × (s.resource_limits.system_value ≤ s.memory_resource_limits.system_value)
Bounds false s =
    (s.unsafe_limit ≡ 0)
    × (s.resource_limits.system_value
        ≤ s.memory_resource_limits.system_value + s.system_memory_boost_size)

-- The limits that the kernel has are those that pm has written down, the applications' leaves room for
-- the boost, and what is boosted does not pass it.
pub record IsCovered (is_500 : Bool) (s : State) : Type 0 where
  pub application_told : s.kernel_limits.application_value ≡ s.resource_limits.application_value
  pub system_told : s.kernel_limits.system_value ≡ s.resource_limits.system_value
  pub application_room :
      s.resource_limits.application_value + s.system_memory_boost_size
      ≤ s.memory_resource_limits.application_value
  pub bounds : Bounds is_500 s

-- What the kernel may give to the applications, to the system and to the unsafe allocations is no more
-- than the two groups of the arrangement have.
abbrev pub IsWithin : State → Type 0
IsWithin s =
    s.kernel_limits.application_value + s.kernel_limits.system_value + s.unsafe_limit
    ≤ s.memory_resource_limits.application_value + s.memory_resource_limits.system_value

IsCovered-IsWithin : (is_500 : Bool) (s : State) → IsCovered is_500 s → IsWithin s
IsCovered-IsWithin true s h =
    let a = h.application_told in
    let b = h.system_told in
    let c = h.application_room in
    let d = h.bounds.0 in let e = h.bounds.1 in omega (arith, a, b, c, d, e)
IsCovered-IsWithin false s h =
    let a = h.application_told in
    let b = h.system_told in
    let c = h.application_room in
    let d = h.bounds.0 in let e = h.bounds.1 in omega (arith, a, b, c, d, e)

abbrev with_boost : ℕ → State → State
with_boost n s = record s { system_memory_boost_size = n }

-- After the limits are set and before the boost is written down: what is left on each way out.
abbrev Boosted : Bool → ℕ → Outcome State PmError (Unit {0}) → Type 0
Boosted b n (ok a t) = IsCovered b (with_boost n t)
Boosted b n (err e t) = IsCovered b t
Boosted b n abort = Unit

-- What follows from a call, from each of its answers.
module _ (sys : System) (Q : Outcome State PmError (Unit {0}) → Type 0) (s : State) where
  set_last :
      (g : Group) (n : ℕ)
      → Q (ok tt (tell_limit g n (set_limit g n s)))
      → ((e : ℕ) → Q (err (svc e) s))
      → Q (set_memory_resource_limit_limit_value sys g n s)
  unfolding set_memory_resource_limit_limit_value
  set_last system n p q = elim (Option-cases (sys.set_memory_limit system n)) [
    | inl o ↦ rw (set_memory_resource_limit_limit_value, o) p
    | inr (e, o) ↦ rw (set_memory_resource_limit_limit_value, o) (q e)
  ]
  set_last application n p q = elim (Option-cases (sys.set_memory_limit application n)) [
    | inl o ↦ rw (set_memory_resource_limit_limit_value, o) p
    | inr (e, o) ↦ rw (set_memory_resource_limit_limit_value, o) (q e)
  ]

  unsafe_last :
      (n : ℕ)
      → Q (ok tt (record s { unsafe_limit = n }))
      → ((e : ℕ) → Q (err (svc e) s))
      → Q (set_unsafe_limit sys n s)
  unfolding set_unsafe_limit
  unsafe_last n p q = elim (Option-cases (sys.set_unsafe_limit n)) [
    | inl o ↦ rw (set_unsafe_limit, o) p
    | inr (e, o) ↦ rw (set_unsafe_limit, o) (q e)
  ]

-- A step before others: what they leave of its state, and an error that stays.
Then :
    (Outcome State PmError (Unit {0}) → Type 0)
    → M (Unit {0})
    → Outcome State PmError (Unit {0})
    → Type 0
Then Q k (ok a t) = Q (k t)
Then Q k (err e t) = Q (err e t)
Then Q k abort = Q abort

Then-bind :
    (Q : Outcome State PmError (Unit {0}) → Type 0) (m k : M (Unit {0})) (s : State)
    → Then Q k (m s)
    → Q ((m >> k) s)
unfolding Then
Then-bind Q m k s h = bind_rule (Then Q k) Q m (λ _. k) s h (λ a t p. p) (λ x t p. p) (λ u. u)

u64-small : (x : ℕ) → x < 2 ^ 64 → u64 x ≡ x
u64-small x l = omega arith

module _ (sys : System) (n : ℕ) (s : State) (fits : n ≤ s.memory_resource_limits.application_value)
    (small : s.memory_resource_limits.system_value + n < 2 ^ 64) where
  boost_system-Boosted :
      (shrinks : Bool)
      → IsCovered false s
      → ltb n s.system_memory_boost_size ≡ shrinks
      → Boosted false n (
          boost_system sys
            (u64 (s.memory_resource_limits.system_value + n))
            (s.memory_resource_limits.application_value - n)
            shrinks
            s)
  unfolding boost_system Then
  boost_system-Boosted true h q =
      let l = ltb→lt n s.system_memory_boost_size q in
      let Q = Boosted false n in
      let first =
        set_memory_resource_limit_limit_value sys application
          (s.memory_resource_limits.application_value - n) in
      Then-bind Q
        (set_memory_resource_limit_limit_value sys system
          (u64 (s.memory_resource_limits.system_value + n)))
        first s
        (set_last sys (Then Q first) s system (u64 (s.memory_resource_limits.system_value + n))
          (set_last sys Q _ application (s.memory_resource_limits.application_value - n)
            (record {
              application_told = refl;
              system_told = refl;
              application_room = omega (arith, fits);
              bounds = (h.bounds.0, omega (arith, small));
            })
            (λ x. record {
              application_told = h.application_told;
              system_told = refl;
              application_room = h.application_room;
              bounds = (h.bounds.0, omega (arith, small, l));
            }))
          (λ x. h))
  boost_system-Boosted false h q =
      let l : s.system_memory_boost_size ≤ n = ground arith in
      let Q = Boosted false n in
      let d = h.bounds.1 in
      let last =
        set_memory_resource_limit_limit_value sys system
          (u64 (s.memory_resource_limits.system_value + n)) in
      Then-bind Q
        (set_memory_resource_limit_limit_value sys application
          (s.memory_resource_limits.application_value - n))
        last s
        (set_last sys (Then Q last) s application (s.memory_resource_limits.application_value - n)
          (set_last sys Q _ system (u64 (s.memory_resource_limits.system_value + n))
            (record {
              application_told = refl;
              system_told = refl;
              application_room = omega (arith, fits);
              bounds = (h.bounds.0, omega (arith, small));
            })
            (λ x. record {
              application_told = refl;
              system_told = h.system_told;
              application_room = omega (arith, fits, l);
              bounds = h.bounds;
            }))
          (λ x. h))

  boost_unsafe-Boosted :
      (shrinks : Bool)
      → IsCovered true s
      → ltb n s.system_memory_boost_size ≡ shrinks
      → Boosted true n
          (boost_unsafe sys n (s.memory_resource_limits.application_value - n) shrinks s)
  unfolding boost_unsafe Then
  boost_unsafe-Boosted true h q =
      let l = ltb→lt n s.system_memory_boost_size q in
      let Q = Boosted true n in
      let app =
        set_memory_resource_limit_limit_value sys application
          (s.memory_resource_limits.application_value - n) in
      Then-bind Q (set_unsafe_limit sys n) (abort_on_error app) s (
        unsafe_last sys (Then Q (abort_on_error app)) s n
          (set_last sys (λ o. Q (stop_on_error o)) _ application
            (s.memory_resource_limits.application_value - n)
            (record {
              application_told = refl;
              system_told = h.system_told;
              application_room = omega (arith, fits);
              bounds = (omega arith, h.bounds.1);
            })
            (λ x. tt))
          (λ x. h))
  boost_unsafe-Boosted false h q =
      let Q = Boosted true n in
      let last = set_unsafe_limit sys n in
      Then-bind Q
        (set_memory_resource_limit_limit_value sys application
          (s.memory_resource_limits.application_value - n))
        (abort_on_error last) s
        (set_last sys (Then Q (abort_on_error last)) s application
          (s.memory_resource_limits.application_value - n)
          (unsafe_last sys (λ o. Q (stop_on_error o)) _ n
            (record {
              application_told = refl;
              system_told = h.system_told;
              application_room = omega (arith, fits);
              bounds = (omega arith, h.bounds.1);
            })
            (λ x. tt))
          (λ x. h))

  boost_limits-Boosted : IsCovered sys.is_500 s → Boosted sys.is_500 n (boost_limits sys n s)
  unfolding boost_limits
  boost_limits-Boosted h = elim (Bool-cases sys.is_500) [
    | inl v ↦
        let h2 = rw v at h in rw v (boost_unsafe-Boosted (ltb n s.system_memory_boost_size) h2 refl)
    | inr v ↦
        let h2 = rw v at h in rw v (boost_system-Boosted (ltb n s.system_memory_boost_size) h2 refl)
  ]

-- What is written down after the limits, or their error.
module _ (b : Bool) (n : ℕ) where
  write_boost :
      (m : M (Unit {0})) (s : State)
      → Boosted b n (m s)
      → LeftBy (λ t. IsCovered b t × IsWithin t) ((m >> modify (with_boost n)) s)
  write_boost m s h =
      bind_rule (Boosted b n) (LeftBy (λ t. IsCovered b t × IsWithin t)) m
        (λ _. modify (with_boost n)) s h (λ a t p. (p, IsCovered-IsWithin b (with_boost n t) p))
        (λ x t p. (p, IsCovered-IsWithin b t p)) (λ u. u)

-- Where the limits are covered, BoostSystemMemoryResourceLimit of a size that does not overflow the
-- system's leaves them covered on every way out but an abort, whichever call of the kernel fails: the
-- kernel has the limits that pm wrote down, the boost is taken from the applications' limit, and the
-- groups together get no more memory than the arrangement gives them.
pub boost_system_memory_resource_limit-IsCovered :
    (sys : System) (boost_size : ℕ) (s : State)
    → IsCovered sys.is_500 s
    → s.memory_resource_limits.system_value + boost_size < 2 ^ 64
    → LeftBy
        (λ t. IsCovered sys.is_500 t × IsWithin t)
        (boost_system_memory_resource_limit sys boost_size s)
unfolding boost_system_memory_resource_limit
boost_system_memory_resource_limit-IsCovered sys n s h small =
    elim (Bool-cases (leb n s.memory_resource_limits.application_value)) [
      | inl q ↦ rw q (
          write_boost sys.is_500 n (boost_limits sys n) s (
            boost_limits-Boosted sys n s (leb→le n s.memory_resource_limits.application_value q)
              small h))
      | inr q ↦ rw q (h, IsCovered-IsWithin sys.is_500 s h)
    ]
