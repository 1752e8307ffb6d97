-- ===== src/Ro.antt =====
-- The ro module, ro/source/impl: the relocatable objects (NRO) of a process and their registration
-- (NRR).
pub mod World
pub mod State
pub mod Addresses
pub mod Nro
pub mod Nrr
pub mod Process
pub mod Contexts
pub mod Modules
pub mod Laws
pub mod Mapping
pub mod MapNro
pub mod Keeping
pub mod Validating
pub mod Slots
pub mod Loading
pub mod Ranges
pub mod LoadNro
pub mod Unloading
pub mod Authorization
mod Tests
