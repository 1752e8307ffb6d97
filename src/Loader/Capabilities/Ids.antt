-- ===== src/Loader/Capabilities/Ids.antt =====
-- enum class CapabilityId of loader/source/ldr_capabilities.cpp.
use nx_sysmodules.Base.{ℕ}

abbrev pub kernel_flags : ℕ
kernel_flags = 3

abbrev pub syscall_mask : ℕ
syscall_mask = 4

abbrev pub map_range : ℕ
map_range = 6

abbrev pub map_page : ℕ
map_page = 7

abbrev pub interrupt_pair : ℕ
interrupt_pair = 11

abbrev pub application_type : ℕ
application_type = 13

abbrev pub kernel_version : ℕ
kernel_version = 14

abbrev pub handle_table : ℕ
handle_table = 15

abbrev pub debug_flags : ℕ
debug_flags = 16

abbrev pub empty : ℕ
empty = 32
