-- ===== src/Admission.antt =====
-- winrt/Projection.cpp, AcquireOperationLock and RuntimeOperationAdmission: who may run an operation
-- on the controller, on one node, or alone. The mutexes are the standard library's.
pub mod Wait
pub mod Nodes
pub mod Lifetime
pub mod Tests
