-- ===== src/Cheat.antt =====
-- The cheat virtual machine, dmnt/source/cheat/impl/dmnt_cheat_vm.cpp and dmnt_cheat_vm.hpp.
pub mod Opcodes
pub mod Vm
pub mod Fetch
pub mod Decode
pub mod Skip
pub mod Values
pub mod Execute
pub mod Progress
pub mod Loading
pub mod Decoding
pub mod Skipping
pub mod Bounded
pub mod Safety
pub mod Termination
pub mod Masks
mod Tests
