-- ===== src/Surface.antt =====
-- libswc/surface.c: the double-buffered state of a surface, and its pixels in logical coordinates.
pub mod Pixels
pub mod State
pub mod Cache
pub mod Commit
pub mod Session
pub mod Latest
pub mod Frames
pub mod Reached
pub mod Flagged
pub mod Applied
mod Tests
