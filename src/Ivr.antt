-- ===== src/Ivr.antt =====
-- IVR flows: packages/contracts/src/schemas/ivr-flows.ts, apps/api/src/modules/ivr-flows and
-- apps/api/src/modules/runtime.
pub mod NodeType
pub mod Graph
pub mod Edges
pub mod Validation
pub mod Planner
pub mod Simulation
pub mod Runtime
pub mod Tests
