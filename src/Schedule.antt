-- ===== src/Schedule.antt =====
-- Schedules: apps/api/src/modules/schedules.
pub mod Types
pub mod Hours
pub mod Checks
pub mod Overrides
pub mod Service
pub mod Tests
