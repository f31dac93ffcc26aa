-- ===== src/Camera.antt =====
-- The camera part of the projection: ownership of allocated streams and their release, and the
-- signaling runtime of one controller.
pub mod Ownership
pub mod Release
pub mod Host
pub mod Signaling
pub mod Failure
pub mod Metadata
pub mod Discovery
pub mod Ice
pub mod Prepared
