-- ===== src/Lock.antt =====
-- libswc/session_lock.c: the lock of the session, and who may end it.
pub mod State
pub mod Surfaces
pub mod Requests
pub mod Near
pub mod Session
pub mod Effects
pub mod Steps
pub mod Reached
mod Tests
