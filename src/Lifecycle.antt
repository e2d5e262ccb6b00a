-- ===== src/Lifecycle.antt =====
-- Versions of tenant objects: apps/api/src/modules/shared/enterprise-lifecycle.service.ts over the tables
-- of enterprise-lifecycle.repository.ts.
pub mod Types
pub mod Lineage
pub mod Tables
pub mod Service
pub mod Approval
pub mod Active
pub mod Marks
pub mod Gate
pub mod Trace
pub mod Tests
