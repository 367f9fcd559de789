-- ===== src/Bindings.antt =====
-- libswc/bindings.c: the keys, buttons and wheels that a window manager has bound, with the code of
-- libswc/keyboard.c and libswc/pointer.c that pairs a press with its release.
pub mod Entries
pub mod Handle
pub mod Session
pub mod Counts
pub mod Tracked
pub mod Pairing
pub mod Few
pub mod Releases
pub mod Changes
pub mod Sound
pub mod Reached
pub mod Heard
pub mod Axis
mod Tests
