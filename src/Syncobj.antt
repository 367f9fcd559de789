-- ===== src/Syncobj.antt =====
-- libswc/drm_syncobj.c: explicit synchronization of the buffers of clients.
pub mod World
pub mod Queue
pub mod Commits
pub mod Apply
pub mod Life
pub mod Shape
pub mod Balance
pub mod QueueBalance
pub mod Applied
pub mod Sound
pub mod Moves
pub mod Ends
pub mod Session
pub mod Reached
pub mod Check
pub mod Due
pub mod DueQueue
pub mod Shown
pub mod DueCommits
pub mod DueApply
mod Tests
