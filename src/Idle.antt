-- ===== src/Idle.antt =====
-- libswc/idle_notify.c and libswc/idle_inhibit.c: clients that ask when the user is idle, and surfaces
-- that keep the session awake.
pub mod Notify
pub mod Inhibit
pub mod Clock
pub mod Fit
pub mod Session
mod Tests
