-- ===== src/Workspace.antt =====
-- libswc/workspace.c: the workspaces of each screen, published to panels.
pub mod Types
pub mod Destroy
pub mod Create
pub mod CreateCounts
pub mod Complete
pub mod Bind
pub mod Requests
pub mod Screens
pub mod Left
pub mod RequestCounts
pub mod Commit
pub mod ScreenCounts
pub mod Active
pub mod Dangling
mod Tests
pub mod Counts
pub mod Teardown
pub mod ManagerTeardown
