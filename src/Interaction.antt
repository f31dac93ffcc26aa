-- ===== src/Interaction.antt =====
-- The interactions of winrt/Projection.cpp with a device: the objects that collect the callbacks of
-- one read, write or command until it is complete. Each callback runs on the Matter event loop, one
-- after another; the caller waits for `complete`.
pub mod OneShot
pub mod Write
pub mod Invoke
pub mod Read
pub mod EventRead
pub mod Tests
