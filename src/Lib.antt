-- ===== src/Lib.antt =====
-- The service manager, the cheats, and parts of loader, ro and pm of NX_Sysmodules, a set of system
-- modules for the Nintendo Switch.
--
-- The repository holds one folder for each system process. Parts of five of them are modelled.
--
-- * The service manager keeps the list of registered services, the clients with their access
--   control, and the mitm extension by which one process stands between a service and its
--   clients (sm/source/impl/sm_service_manager.cpp).
-- * The cheat virtual machine of dmnt decodes and runs the cheats of a game, with sixteen registers
--   and access to the game's memory (dmnt/source/cheat/impl/dmnt_cheat_vm.cpp and .hpp).
-- * The cheat manager of dmnt attaches to the game, reads its cheats and their toggles, and keeps the
--   cheat slots and the frozen addresses (dmnt/source/cheat/impl/dmnt_cheat_api.cpp).
-- * The loader decides whether the kernel capabilities of a program are within its restriction
--   (loader/source/ldr_capabilities.cpp).
-- * The relocatable object manager maps modules into the processes that register with it, once it has
--   checked their hashes (ro/source/impl/ro_service_impl.cpp, ro_nro_utils.cpp, ro_nrr_utils.cpp).
-- * The process manager moves memory between the resource limits of the system and of the
--   applications (pm/source/impl/pm_resource_manager.cpp).
--
-- The processes meet only in the client library, which is not in the repository; within dmnt, a
-- thread of the manager loads its slots into the virtual machine, which is not modelled.
--
-- Base holds what they share: lists over the native numbers, Boolean tests, tables of slots that a
-- search goes through from the front (Base/Slots), searches in a sorted table (Base/Search), tests
-- below a bound (Base/Finite), and the monad of the handlers (Base/Outcome): a handler returns with a
-- state, fails with a result and a state, or aborts.
--
-- Sm follows sm/source/impl/sm_service_manager.cpp.
--   Sm/State       ProcessInfo, ServiceInfo, the static members as `State`, and the monad of the
--                  handlers: `ok` with a state, `err` with a result and a state, or `abort`
--   Sm/Names       ValidateServiceName
--   Sm/Access      AccessControlEntry as the bytes that are left, and both ValidateAccessControl
--   Sm/Tables      the functions on the three tables, such as GetServiceInfo, HasMitm and
--                  AddFutureMitmDeclaration
--   Sm/Processes   RegisterProcess, UnregisterProcess
--   Sm/Services    RegisterService, UnregisterService, HasService and the others on services;
--                  GetServiceHandle in Sm/Services/Sessions
--   Sm/Mitm        InstallMitm, UninstallMitm, DeclareFutureMitm, AcknowledgeMitmSession
--   Sm/Records     GetServiceRecord, ListServiceRecords, EndInitialDefers
--   Sm/Calls       every call of a client as one data type, and the states that calls reach
-- The other modules of Sm hold proofs. `Platform` has what the file takes from libstratosphere
-- (constants, the encoding of names, the range of the initial processes), `Kernel` the answers of
-- the system calls of one request: both are parameters. A handle is a number and a managed handle
-- an optional one. The loop over an access control runs on fuel: an entry takes two bytes at least,
-- so that the number of bytes is enough. The other loops go over a table or a name.
--
-- Cheat follows dmnt/source/cheat/impl/dmnt_cheat_vm.cpp.
--   Cheat/Opcodes  the opcodes, with the enumerations of the header in Opcodes/Enumerations
--   Cheat/Vm       the machine, ResetState, LoadProgram
--   Cheat/Fetch    the state of DecodeNextOpcode and its lambdas GetNextDword and GetNextVmInt
--   Cheat/Decode   DecodeNextOpcode; the opcodes in Decode/Fixed and Decode/Variants
--   Cheat/Skip     SkipConditionalBlock
--   Cheat/Values   widths, comparisons, arithmetic on u64
--   Cheat/Execute  Execute: the loop here, the opcodes in Execute/Memory, Execute/Registers and
--                  Execute/Blocks
-- The other modules of Cheat hold proofs. `Env` has the memory functions of
-- dmnt/source/cheat/impl/dmnt_cheat_api.cpp, the held keys and the bases of the metadata; the
-- memory itself is any type. A u64 is a number with its wrap-around written out. A shift by 64 or
-- more is undefined in C++, so that its results are a parameter (`Shifter`). The order in which
-- C++ reads the two dwords of one expression is not specified either: the model reads the high one
-- first. The loop of SkipConditionalBlock runs on fuel, one round for each word and one more,
-- which is enough because a decoded opcode takes a word at least. The loop of Execute runs on any
-- fuel, since a cheat can loop for ever. What the DebugLog opcode writes to a file is a list.
--
-- CheatApi follows dmnt/source/cheat/impl/dmnt_cheat_api.cpp.
--   CheatApi/State    the members of CheatProcessManager; `System` and `Launch` are the answers of the
--                     kernel, of pm, of loader and of the SD card during a call, as parameters
--   CheatApi/Entries  ResetCheatEntry to GetFreeCheatEntry
--   CheatApi/Toggles  ParseCheatToggles
--   CheatApi/Saving   SaveCheatToggles
--   CheatApi/Parsing  ParseCheats
--   CheatApi/Process  CloseActiveCheatProcess, HasActiveCheatProcess, EnsureCheatProcess
--   CheatApi/Cheats   GetCheatCount to RemoveCheat
--   CheatApi/Frozen   the frozen addresses, and the reads and writes of the game's memory
--   CheatApi/Attach   LoadCheats, LoadCheatToggles, AttachToApplicationProcess
--   CheatApi/Mappings GetCheatProcessMetadata and the queries of memory mappings
--   CheatApi/Service  the commands of dmnt/source/cheat/dmnt_cheat_service.cpp that check more
--   CheatApi/Calls    the commands of the service, and the launch thread, as one data type
-- The other modules of CheatApi hold proofs. A name is the bytes before its zero, and the opcodes of
-- an entry are as many as its count says. A parser runs on as much fuel as the text has bytes, and a
-- round takes one at least. Where the source reads or writes outside of an array, the model of the
-- parser stops with `overrun`. The loops over the memory mappings run on 2 ^ 64 rounds: the kernel
-- answers with the region that holds the address, so that a round goes on with a higher address, or
-- with 0 and ends. A buffer of a command is taken as not null.
--
-- Loader follows loader/source/ldr_capabilities.cpp.
--   Loader/Capabilities/Ids         the classes by the number of trailing ones
--   Loader/Capabilities/Fields      the fields of a word
--   Loader/Capabilities/Classes     the class of a word, and IsValid and Encode of each class
--   Loader/Capabilities/Validation  ValidateCapabilities
--   Loader/Capabilities/Flags       GetProgramInfoFlags, SetProgramInfoFlags
-- The other modules of Loader hold proofs.
--
-- Ro follows ro/source/impl.
--   Ro/World      the kernel and the library as parameters: mapping, the contents of headers, hashes
--   Ro/Laws       what the proofs ask of the kernel
--   Ro/State      the contexts of the processes with their NRO and NRR slots
--   Ro/Contexts   registration of a process and its end
--   Ro/Addresses  the checks of addresses and sizes
--   Ro/Process    the checks of an NRO against the NRRs
--   Ro/Nro        MapNro, SetNroPerms, UnmapNro
--   Ro/Nrr        mapping and verification of an NRR
--   Ro/Modules    LoadNrr, UnloadNrr, LoadNro, UnloadNro, GetProcessModuleInfo
-- The other modules of Ro hold proofs.
--
-- Pm follows the boosts of pm/source/impl/pm_resource_manager.cpp.
--   Pm/Resources   the limits and what the kernel was told of them, BoostSystemMemoryResourceLimit and
--                  BoostApplicationThreadResourceLimit; `System` has the answers of the kernel
-- Pm/Overcommit holds the proofs.
--
-- Not modelled: the IPC layers; of dmnt the loops of the threads of the cheat manager and the
-- debug monitor; the logging that is compiled out of the virtual machine; the IPS
-- patches of ro; the rest of loader, which reads files and calls the kernel; and the other processes
-- (the rest of pm, ncm, boot, boot2, creport, fatal, spl, rnx_mitm), most of which drive hardware or
-- forward requests.
pub mod Base
pub mod Sm
pub mod Cheat
pub mod CheatApi
pub mod Pm
pub mod Loader
pub mod Ro
