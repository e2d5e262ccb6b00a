-- ===== src/Flows.antt =====
-- IVR flows and their versions: apps/api/src/modules/ivr-flows/ivr-flow.service.ts and its repository.
pub mod References
pub mod Tables
pub mod Service
pub mod Live
pub mod Serves
pub mod Gate
pub mod Tests
