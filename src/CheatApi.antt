-- ===== src/CheatApi.antt =====
-- The cheat manager, dmnt/source/cheat/impl/dmnt_cheat_api.cpp.
pub mod State
pub mod Entries
pub mod Toggles
pub mod Saving
pub mod ReadBack
pub mod SavedToggles
pub mod Process
pub mod Cheats
pub mod Frozen
pub mod Parsing
pub mod Attach
pub mod Closing
pub mod Mappings
pub mod Service
pub mod Attaching
pub mod Started
pub mod WellFormed
pub mod Parses
pub mod ParsesCheats
pub mod FrozenLaws
pub mod Keeping
pub mod Steps
pub mod Changes
pub mod Answers
pub mod AttachKeeping
pub mod Calls
pub mod Paging
pub mod Freezing
pub mod Regions
mod Tests
