-- ===== src/Launch.antt =====
-- launch/protocol.c: the messages, with a descriptor, between the launcher and the compositor.
pub mod Message
pub mod Size
pub mod Send
pub mod Sent
pub mod Descriptors
pub mod Receive
pub mod Received
pub mod RoundTrip
pub mod Rights
mod Tests
