-- ===== src/Numbering/Plans.antt =====
-- The operations on plans and rules of apps/api/src/modules/numbering-plans/numbering-plan.service.ts.
use manage_call_ai.Base.{
  ℕ, String, Bool, false, not, ◌&&◌, List, map, Option, none, some, push, find, any, keep, str_eq,
  if◌then◌else◌, sort_by,
}
use manage_call_ai.Numbering.Types.{
  NumberingPlan, NumberingRule, Assignment, active, CreatePlanInput, UpdatePlanInput,
  CreateRuleInput, Tables, unique_violation, plan_not_found, rule_not_found, Result, ok, err,
  or_else,
}

-- `WHERE id = $1 AND tenant_id = $2`.
unfoldable pub is_plan : String → String → NumberingPlan → Bool
is_plan id tenant_id p = str_eq p.id id && str_eq p.tenant_id tenant_id

unfoldable pub has_name : String → String → NumberingPlan → Bool
has_name tenant_id name p = str_eq p.tenant_id tenant_id && str_eq p.name name

unfoldable pub create : String → ℕ → String → CreatePlanInput → Tables → Result
create id now tenant_id input t =
    if any (has_name tenant_id input.name) t.plans
    then err unique_violation
    else ok record {
      plans = push t.plans record {
        id = id;
        tenant_id = tenant_id;
        name = input.name;
        description = input.description;
        country_code = input.country_code;
        status = active;
        created_at = now;
        updated_at = now;
      };
      rules = t.rules;
      assignments = t.assignments;
    }

-- `findById`, without the rules of the plan.
unfoldable pub find_by_id : String → String → Tables → Option NumberingPlan
find_by_id id tenant_id t = find (is_plan id tenant_id) t.plans

unfoldable pub is_rule_of : String → String → NumberingRule → Bool
is_rule_of plan_id tenant_id r = str_eq r.plan_id plan_id && str_eq r.tenant_id tenant_id

-- `findRulesForPlan`.
unfoldable pub rules_of_plan : String → String → Tables → List NumberingRule
rules_of_plan plan_id tenant_id t =
    sort_by (λ r. r.priority) (keep (is_rule_of plan_id tenant_id) t.rules)

unfoldable pub updated_plan : ℕ → UpdatePlanInput → NumberingPlan → NumberingPlan
updated_plan now input p = record {
  id = p.id;
  tenant_id = p.tenant_id;
  name = or_else input.name p.name;
  description = or_else input.description p.description;
  country_code = or_else input.country_code p.country_code;
  status = or_else input.status p.status;
  created_at = p.created_at;
  updated_at = now;
}

unfoldable pub update_plans :
    String → String → ℕ → UpdatePlanInput → List NumberingPlan → List NumberingPlan
update_plans id tenant_id now input ps =
    map (λ (p : NumberingPlan). if is_plan id tenant_id p then updated_plan now input p else p) ps

-- Another plan of the tenant has the new name.
unfoldable pub is_name_taken : String → String → Option String → List NumberingPlan → Bool
is_name_taken id tenant_id none ps = false
is_name_taken id tenant_id (some name) ps =
    any (λ p. has_name tenant_id name p && not (str_eq p.id id)) ps

unfoldable pub update : String → String → ℕ → UpdatePlanInput → Tables → Result
update id tenant_id now input t =
    if not (any (is_plan id tenant_id) t.plans)
    then err (plan_not_found id)
    else if is_name_taken id tenant_id input.name t.plans
    then err unique_violation
    else ok record {
      plans = update_plans id tenant_id now input t.plans;
      rules = t.rules;
      assignments = t.assignments;
    }

-- The rows that refer to the plan are deleted with it.
unfoldable pub delete : String → String → Tables → Result
delete id tenant_id t =
    if any (is_plan id tenant_id) t.plans
    then ok record {
      plans = keep (λ p. not (is_plan id tenant_id p)) t.plans;
      rules = keep (λ (r : NumberingRule). not (str_eq r.plan_id id)) t.rules;
      assignments = keep (λ (a : Assignment). not (str_eq a.plan_id id)) t.assignments;
    }
    else err (plan_not_found id)

unfoldable pub new_rule : String → ℕ → String → String → CreateRuleInput → NumberingRule
new_rule id now plan_id tenant_id input = record {
  id = id;
  tenant_id = tenant_id;
  plan_id = plan_id;
  name = input.name;
  pattern = input.pattern;
  call_type = input.call_type;
  priority = or_else input.priority 100;
  description = input.description;
  created_at = now;
}

unfoldable pub add_rule : String → ℕ → String → String → CreateRuleInput → Tables → Result
add_rule id now plan_id tenant_id input t =
    if any (is_plan plan_id tenant_id) t.plans
    then ok record {
      plans = t.plans;
      rules = push t.rules (new_rule id now plan_id tenant_id input);
      assignments = t.assignments;
    }
    else err (plan_not_found plan_id)

unfoldable pub is_rule : String → String → String → NumberingRule → Bool
is_rule rule_id plan_id tenant_id r = str_eq r.id rule_id && is_rule_of plan_id tenant_id r

unfoldable pub remove_rule : String → String → String → Tables → Result
remove_rule rule_id plan_id tenant_id t =
    if any (is_rule rule_id plan_id tenant_id) t.rules
    then ok record {
      plans = t.plans;
      rules = keep (λ r. not (is_rule rule_id plan_id tenant_id r)) t.rules;
      assignments = t.assignments;
    }
    else err (rule_not_found rule_id)
