-- ===== src/Activation.antt =====
-- libswc/xdg_activation.c: tokens by which one program hands the focus to another.
pub mod Token
pub mod Manager
pub mod Hex
pub mod Safety
pub mod Modify
pub mod Moves
pub mod Use
pub mod Session
mod Tests
