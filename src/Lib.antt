-- ===== src/Lib.antt =====
-- manageCallAI: a control plane for telephony. Its API (apps/api) keeps call flows (IVR graphs) and
-- other tenant objects in versions, and runs the flows for a media server, one action at a time.
--
-- Parts and files:
-- - Base, Json, Text: shared helpers, JSON values and what the code uses of strings.
-- - Ivr/NodeType, Ivr/Graph, Ivr/Validation: `validateIvrGraph` of
--   apps/api/src/modules/ivr-flows/ivr-flow.validation.ts. NodeScan is its loop over the nodes, Visit
--   its traversal as a list of tasks for each node in the source's order. The bound of 50 on the depth of the
--   traversal is the fuel of `visit`; the report at the bound is the source's.
-- - Ivr/Edges: which nodes a graph leads to, stated apart from the code.
-- - Ivr/Planner: apps/api/src/modules/ivr-flows/ivr-graph-planner.ts; Takes is the table of its choices, stated
--   apart from the code.
-- - Ivr/Runtime: `resolveNextAction`, `startSession` and `advanceSession` of
--   apps/api/src/modules/runtime/ivr-runtime.service.ts. Leave is what the action of the current node
--   leads to, Turn the body of the loop, Resolve the loop, Assets the reads of prompts, extensions, queues
--   and voicemail boxes, Session the tables of sessions and steps. The loop's 100 rounds are its fuel;
--   Resolve/Calls says when they are enough.
-- - Ivr/Simulation: `simulateGraph` of apps/api/src/modules/ivr-flows/ivr-flow.service.ts. The loop's 100
--   rounds are its fuel; what is left after them is an error of the source.
-- - Schedule: Hours is `isInBusinessHours` of apps/api/src/modules/schedules/schedule.util.ts; Checks, Overrides
--   and Service are schedule.service.ts of the same folder on the table of schedule.repository.ts.
-- - Flows: the service of apps/api/src/modules/ivr-flows/ivr-flow.service.ts (Service, and References for the
--   checks against the tenant's assets) on the tables of ivr-flow.repository.ts (Tables).
-- - Lifecycle: apps/api/src/modules/shared/enterprise-lifecycle.service.ts and its repository on the
--   tables of one object type (the types differ by names of tables), and the approvals of
--   apps/api/src/modules/approvals/approval.service.ts about them. The table publish_policies that the
--   repository reads is there in the model; no migration creates it.
-- - Numbering: the plans, rules and assignments of apps/api/src/modules/numbering-plans and `checkDial`. The
--   order that `ORDER BY` leaves open is that of the table, here and in Trunks.
-- - Trunks: `simulateTrunkGroup` and, in Carrier, `resolveCarrierForSite` of
--   apps/api/src/modules/trunk-groups/trunk-group.service.ts.
-- - RateLimit: the in-memory limiter of apps/api/src/security/rate-limit.ts.
--
-- The runtime starts flows only in versions that were published, so only if they were validated; this is
-- the hypothesis of the runtime's theorems that the validation's theorems fill. The runtime and the
-- business hours meet at a schedule's rows, the flow service and the runtime at the tables of flows and
-- versions: Flows/Live has the runtime's view of the rows that the service writes.
--
-- Tables are lists of rows, a statement of SQL is a function on them, and a call of a service is one step: two
-- calls never interleave. Rows that a database generates an id for get it as an argument. ECMAScript's
-- `Intl`, `Date.parse` and `localeCompare`, and the clock, are parameters. Texts of errors are constructors.
-- Ids are texts that the database can read as such: where an id is no uuid PostgreSQL throws, and the model finds
-- no row. Priorities are numbers from 1, as the controllers check.
--
-- Not modelled: the controllers, the approvals of IVR flows, the Redis limiter, what changes trunk groups and
-- route lists, outbound calls, the other modules of the API, the web application, the worker, the MCP server
-- and the FreeSWITCH agent.
pub mod Base
pub mod Json
pub mod Text
pub mod Trunks
pub mod Schedule
pub mod Ivr
pub mod Lifecycle
pub mod Flows
pub mod Numbering
pub mod RateLimit
