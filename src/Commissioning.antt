-- ===== src/Commissioning.antt =====
-- Commissioning in winrt/Projection.cpp: the projection of the SDK's stages, the state that the pairing
-- callbacks fill, and the list of commissioned nodes with its stored copy.
pub mod Stages
pub mod Pairing
pub mod NodeIndex
pub mod Nodes
pub mod Progress
pub mod Ble
pub mod Tests
