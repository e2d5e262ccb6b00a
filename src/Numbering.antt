-- ===== src/Numbering.antt =====
-- apps/api/src/modules/numbering-plans: numbering-plan.types.ts, numbering-plan.service.ts, and the tables of
-- numbering-plan.repository.ts with the constraints of db/migrations/0063_numbering_plans_and_calling_policies.sql.
-- The clock, new ids and `RegExp` are parameters. A priority is a number from 1, as the controller checks. The
-- order that `ORDER BY` leaves open is that of the table.
mod Types
mod Plans
mod Assignments
mod Check
mod Assigned
mod Told
mod Deleted
mod Dial
mod Kept
mod Tests
