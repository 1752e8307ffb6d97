-- ===== src/Pm/Tests.antt =====
-- A boost of the system's memory that fails half-way.
use nx_sysmodules.Base.{ℕ, refl, false, Option, none, some, arith}
use nx_sysmodules.Base.Outcome.{LeftBy}
use nx_sysmodules.Pm.Resources.{
  Group, system, application, State, System, boost_system_memory_resource_limit,
}
use nx_sysmodules.Pm.Overcommit.{IsCovered, IsWithin, boost_system_memory_resource_limit-IsCovered}

abbrev fails_for_system : Group → ℕ → Option ℕ
fails_for_system system n = some 1
fails_for_system application n = none

-- A version before 5.0.0, whose kernel does not take the limit of the system.
abbrev sys : System
sys = record {
  set_memory_limit = fails_for_system;
  set_unsafe_limit = λ n. none;
  set_thread_limit = λ n. none;
  is_500 = false;
}

abbrev before : State
before = record {
  memory_resource_limits = record { system_value = 269; application_value = 3285 };
  resource_limits = record { system_value = 269; application_value = 3285 };
  system_memory_boost_size = 0;
  application_threads = 96;
  extra_application_threads_available = 0;
  kernel_limits = record { system_value = 269; application_value = 3285 };
  unsafe_limit = 0;
  kernel_application_threads = 96;
}

boost_system_memory_resource_limit-IsCovered_example :
    LeftBy (λ t. IsCovered false t × IsWithin t) (boost_system_memory_resource_limit sys 100 before)
boost_system_memory_resource_limit-IsCovered_example =
    boost_system_memory_resource_limit-IsCovered sys 100 before
      (record {
        application_told = refl;
        system_told = refl;
        application_room = omega arith;
        bounds = (refl, omega arith);
      })
      (omega arith)
