-- ===== src/Subsurface.antt =====
-- libswc/subsurface.c: the children of a surface, their order and their positions.
pub mod State
pub mod Commit
pub mod Stack
pub mod Layers
pub mod Refines
pub mod Agreement
pub mod Marks
pub mod Session
pub mod Reached
pub mod Stale
pub mod Position
mod Tests
