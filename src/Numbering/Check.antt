-- ===== src/Numbering/Check.antt =====
-- `checkDial` of apps/api/src/modules/numbering-plans/numbering-plan.service.ts.
use manage_call_ai.Base.{
  String, Bool, true, false, ◌&&◌, List, [], ◌∷◌, map, Option, none, some, keep, flat_map, str_eq,
  if◌then◌else◌, sort_by,
}
use manage_call_ai.Numbering.Types.{NumberingRule, Assignment, tenant, CallType, Tables}
use manage_call_ai.Numbering.Assignments.{same_type, is_not_distinct}

-- The assignments that a rule is joined with.
unfoldable pub is_joined : NumberingRule → Assignment → Bool
is_joined r a =
    str_eq a.plan_id r.plan_id
    && str_eq a.tenant_id r.tenant_id
    && (same_type a.assignable_type tenant && is_not_distinct a.assignable_id none)

-- A rule once for each of its assignments.
unfoldable pub copies : NumberingRule → List Assignment → List NumberingRule
copies r rows = map (λ a. r) (keep (is_joined r) rows)

-- The rows of the query, before `ORDER BY`.
unfoldable pub joined_rules : String → Tables → List NumberingRule
joined_rules tenant_id t =
    flat_map (λ r. copies r t.assignments)
      (keep (λ (r : NumberingRule). str_eq r.tenant_id tenant_id) t.rules)

unfoldable pub find_tenant_rules : String → Tables → List NumberingRule
find_tenant_rules tenant_id t = sort_by (λ r. r.priority) (joined_rules tenant_id t)

pub record DialCheckResult : Type 0 where
  pub dial_string : String
  pub matched_rule : Option NumberingRule
  pub call_type : Option CallType
  pub plan_id : Option String
  pub is_advisory : Bool

-- `new RegExp(pattern)`, `none` if it throws, and `test` of it.
module _ (regexp : String → Option (String → Bool)) where
  unfoldable pub test : Option (String → Bool) → String → Bool
  test none s = false
  test (some f) s = f s

  unfoldable pub matches_rule : String → String → Bool
  matches_rule dial_string pattern = test (regexp pattern) dial_string

  unfoldable pub first_match : String → List NumberingRule → DialCheckResult
  first_match dial_string [] = record {
    dial_string = dial_string;
    matched_rule = none;
    call_type = none;
    plan_id = none;
    is_advisory = true;
  }
  first_match dial_string (r ∷ rs) =
      let rest = first_match dial_string rs in
      if matches_rule dial_string r.pattern
      then record {
        dial_string = dial_string;
        matched_rule = some r;
        call_type = some r.call_type;
        plan_id = some r.plan_id;
        is_advisory = true;
      }
      else rest

  unfoldable pub check_dial : String → String → Tables → DialCheckResult
  check_dial tenant_id dial_string t =
      first_match dial_string (sort_by (λ r. r.priority) (find_tenant_rules tenant_id t))
