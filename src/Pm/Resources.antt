-- ===== src/Pm/Resources.antt =====
-- The boosts of pm/source/impl/pm_resource_manager.cpp.
use nx_sysmodules.Base.{
  ℕ, ◌+◌, ◌-◌, ◌%◌, ◌^◌, Bool, true, false, Option, none, some, ltb, leb, if◌then◌else◌,
}
use nx_sysmodules.Base.Outcome.{Outcome, ok, err, abort, ◌>>=◌, ◌>>◌, gets, modify, require}

-- The groups that a boost changes.
pub data Group : Type 0 where
  system application : Group

-- A value for each of the groups.
pub record Limits : Type 0 where
  pub system_value : ℕ
  pub application_value : ℕ

abbrev pub value_of : Group → Limits → ℕ
value_of system l = l.system_value
value_of application l = l.application_value

abbrev pub put_value : Group → ℕ → Limits → Limits
put_value system n l = record l { system_value = n }
put_value application n l = record l { application_value = n }

-- The globals: the memory limits of the arrangement, the memory column of g_resource_limits, the boost,
-- the thread limit of applications and the threads that are left over. Besides, what the kernel was
-- told last: memory limits, the unsafe limit and the thread limit of applications.
pub record State : Type 0 where
  pub memory_resource_limits : Limits
  pub resource_limits : Limits
  pub system_memory_boost_size : ℕ
  pub application_threads : ℕ
  pub extra_application_threads_available : ℕ
  pub kernel_limits : Limits
  pub unsafe_limit : ℕ
  pub kernel_application_threads : ℕ

pub data PmError : Type 0 where
  invalid_size : PmError
  svc : ℕ → PmError

abbrev pub M : Type 0 → Type 0
M A = State → Outcome State PmError A

-- The errors that the system calls answer to a value, if any, and whether the version is 5.0.0 at least.
pub record System : Type 0 where
  pub set_memory_limit : Group → ℕ → Option ℕ
  pub set_unsafe_limit : ℕ → Option ℕ
  pub set_thread_limit : ℕ → Option ℕ
  pub is_500 : Bool

abbrev pub u64 : ℕ → ℕ
u64 n = n % 2 ^ 64

abbrev pub set_limit : Group → ℕ → State → State
set_limit g n s = record s { resource_limits = put_value g n s.resource_limits }

abbrev pub tell_limit : Group → ℕ → State → State
tell_limit g n s = record s { kernel_limits = put_value g n s.kernel_limits }

-- A call that must succeed.
abbrev pub stop_on_error : Outcome State PmError (Unit {0}) → Outcome State PmError (Unit {0})
stop_on_error (ok a t) = ok a t
stop_on_error (err e t) = abort
stop_on_error abort = abort

abbrev pub abort_on_error : M (Unit {0}) → M (Unit {0})
abort_on_error m s = stop_on_error (m s)

module _ (sys : System) where
  -- SetMemoryResourceLimitLimitValue with its guard.
  unfoldable pub set_memory_resource_limit_limit_value : Group → ℕ → M (Unit {0})
  set_memory_resource_limit_limit_value g n s =
      let old = value_of g s.resource_limits in
      let written = set_limit g n s in
      elim (sys.set_memory_limit g n) [
        | none ↦ ok tt (tell_limit g n written)
        | some e ↦ err (svc e) (set_limit g old written)
      ]

  unfoldable pub set_unsafe_limit : ℕ → M (Unit {0})
  set_unsafe_limit n s = elim (sys.set_unsafe_limit n) [
    | none ↦ ok tt (record s { unsafe_limit = n })
    | some e ↦ err (svc e) s
  ]

  -- BoostSystemMemoryResourceLimit under the lock, from 5.0.0 on and before.
  unfoldable pub boost_unsafe : ℕ → ℕ → Bool → M (Unit {0})
  unfolding ◌>>=◌ set_memory_resource_limit_limit_value set_unsafe_limit
  boost_unsafe boost_size new_app_size true =
      set_unsafe_limit boost_size
      >> abort_on_error (set_memory_resource_limit_limit_value application new_app_size)
  boost_unsafe boost_size new_app_size false =
      set_memory_resource_limit_limit_value application new_app_size
      >> abort_on_error (set_unsafe_limit boost_size)

  unfoldable pub boost_system : ℕ → ℕ → Bool → M (Unit {0})
  unfolding ◌>>=◌ set_memory_resource_limit_limit_value
  boost_system new_sys_size new_app_size true =
      set_memory_resource_limit_limit_value system new_sys_size
      >> set_memory_resource_limit_limit_value application new_app_size
  boost_system new_sys_size new_app_size false =
      set_memory_resource_limit_limit_value application new_app_size
      >> set_memory_resource_limit_limit_value system new_sys_size

  unfoldable pub boost_limits : ℕ → M (Unit {0})
  unfolding boost_unsafe boost_system
  boost_limits boost_size s =
      let new_app_size = s.memory_resource_limits.application_value - boost_size in
      let new_sys_size = u64 (s.memory_resource_limits.system_value + boost_size) in
      let shrinks = ltb boost_size s.system_memory_boost_size in
      if sys.is_500
      then boost_unsafe boost_size new_app_size shrinks s
      else boost_system new_sys_size new_app_size shrinks s

  unfoldable pub boost_system_memory_resource_limit : ℕ → M (Unit {0})
  unfolding ◌>>=◌ boost_limits
  boost_system_memory_resource_limit boost_size = do
    s ← gets (λ s. s)
    require (leb boost_size s.memory_resource_limits.application_value) invalid_size
    boost_limits boost_size
    modify (λ s. record s { system_memory_boost_size = boost_size })

  unfoldable pub boost_application_thread_resource_limit : M (Unit {0})
  boost_application_thread_resource_limit s =
      let new_thread_count = u64 (s.application_threads + s.extra_application_threads_available) in
      elim (sys.set_thread_limit new_thread_count) [
        | some e ↦ err (svc e) s
        | none ↦ ok tt (record s {
          application_threads = new_thread_count;
          extra_application_threads_available = 0;
          kernel_application_threads = new_thread_count;
        })
      ]
