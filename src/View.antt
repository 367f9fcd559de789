-- ===== src/View.antt =====
-- libswc/view.c, and the test for overlap in libswc/util.h.
pub mod Geometry
pub mod Overlap
pub mod State
pub mod Screens
pub mod Buffers
mod Tests
