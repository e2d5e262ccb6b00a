-- ===== src/Ivr/Runtime.antt =====
-- The IVR runtime: apps/api/src/modules/runtime.
pub mod Types
pub mod Directory
pub mod Leave
pub mod Assets
pub mod Turn
pub mod Resolve
pub mod Session
