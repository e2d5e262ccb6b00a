-- ===== src/Numbering/Assignments.antt =====
-- The assignments of apps/api/src/modules/numbering-plans/numbering-plan.service.ts.
use manage_call_ai.Base.{
  ℕ, String, Bool, true, false, ◌&&◌, List, map, Option, none, some, push, find, any, str_eq,
  if◌then◌else◌,
}
use manage_call_ai.Numbering.Types.{
  NumberingPlan, Assignment, AssignableType, extension, sip_trunk, tenant, Tables,
  foreign_key_violation, Result, ok, err, or_else,
}

unfoldable pub same_type : AssignableType → AssignableType → Bool
same_type extension extension = true
same_type sip_trunk sip_trunk = true
same_type tenant tenant = true
same_type a b = false

-- `COALESCE(assignable_id, '00000000-0000-0000-0000-000000000000')`.
unfoldable pub coalesce : Option String → String
coalesce id = or_else id "00000000-0000-0000-0000-000000000000"

-- The key of the unique index.
unfoldable pub conflicts : String → AssignableType → Option String → Assignment → Bool
conflicts tenant_id type id a =
    str_eq a.tenant_id tenant_id
    && same_type a.assignable_type type
    && str_eq (coalesce a.assignable_id) (coalesce id)

unfoldable pub with_plan : String → Assignment → Assignment
with_plan plan_id a = record {
  id = a.id;
  tenant_id = a.tenant_id;
  plan_id = plan_id;
  assignable_type = a.assignable_type;
  assignable_id = a.assignable_id;
  created_at = a.created_at;
}

unfoldable pub upsert :
    String
    → ℕ
    → String
    → String
    → AssignableType
    → Option String
    → List Assignment
    → List Assignment
upsert id now tenant_id plan_id type assignable_id rows =
    if any (conflicts tenant_id type assignable_id) rows
    then map
        (λ (a : Assignment).
          if conflicts tenant_id type assignable_id a then with_plan plan_id a else a)
        rows
    else push rows record {
      id = id;
      tenant_id = tenant_id;
      plan_id = plan_id;
      assignable_type = type;
      assignable_id = assignable_id;
      created_at = now;
    }

unfoldable pub assign :
    String → ℕ → String → String → AssignableType → Option String → Tables → Result
assign id now tenant_id plan_id type assignable_id t =
    if any (λ (p : NumberingPlan). str_eq p.id plan_id) t.plans
    then ok record {
      plans = t.plans;
      rules = t.rules;
      assignments = upsert id now tenant_id plan_id type assignable_id t.assignments;
    }
    else err foreign_key_violation

-- `IS NOT DISTINCT FROM`.
unfoldable pub is_not_distinct : Option String → Option String → Bool
is_not_distinct none none = true
is_not_distinct (some a) (some b) = str_eq a b
is_not_distinct a b = false

unfoldable pub is_assignment : String → AssignableType → Option String → Assignment → Bool
is_assignment tenant_id type id a =
    str_eq a.tenant_id tenant_id
    && same_type a.assignable_type type
    && is_not_distinct a.assignable_id id

unfoldable pub find_assignment :
    String → AssignableType → Option String → Tables → Option Assignment
find_assignment tenant_id type id t = find (is_assignment tenant_id type id) t.assignments
