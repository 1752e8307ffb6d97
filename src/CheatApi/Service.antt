-- ===== src/CheatApi/Service.antt =====
-- The commands of dmnt/source/cheat/dmnt_cheat_service.cpp that do more than to forward.
use Prim.Native.Nat.{bit_and}
use nx_sysmodules.Base.{ℕ, ◌-◌, false, ltb, leb, ◌==◌}
use nx_sysmodules.Base.Outcome.{ok, err, abort, ◌>>=◌, ◌>>◌, require}
use nx_sysmodules.CheatApi.State.{
  M, Sizes, System, Launch, cheat_not_attached, frozen_address_invalid_width,
}
use nx_sysmodules.CheatApi.Attach.{attach_to_application_process}
use nx_sysmodules.CheatApi.Frozen.{enable_frozen_address}

-- CheatService::EnableFrozenAddress
unfoldable pub enable_frozen_address_command : System → ℕ → ℕ → M ℕ
unfolding ◌>>=◌ enable_frozen_address
enable_frozen_address_command sys address width = do
  require (ltb 0 width) frozen_address_invalid_width
  require (leb width 8) frozen_address_invalid_width
  require (bit_and width (width - 1) == 0) frozen_address_invalid_width
  enable_frozen_address sys address width

-- CheatService::ForceOpenCheatProcess
unfoldable pub force_open_cheat_process_command : Sizes → System → Launch → M (Unit {0})
unfolding attach_to_application_process
force_open_cheat_process_command sizes sys launch s =
    elim (attach_to_application_process sizes sys launch false s) [
      | ok a t ↦ ok tt t
      | err e t ↦ err cheat_not_attached t
      | abort ↦ abort
    ]
