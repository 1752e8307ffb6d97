-- ===== src/Sm.antt =====
-- The service manager, sm/source/impl/sm_service_manager.cpp.
pub mod State
pub mod Names
pub mod Access
pub mod Tables
pub mod Processes
pub mod Services
pub mod Mitm
pub mod Records
pub mod Calls
pub mod Invariant
pub mod Registration
pub mod Handshake
pub mod Authorization
pub mod Declarations
pub mod Listing
pub mod Acknowledgement
pub mod MitmFailures
mod Tests
