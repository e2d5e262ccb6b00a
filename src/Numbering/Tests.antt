-- ===== src/Numbering/Tests.antt =====
-- A tenant's plan with two rules, assigned to the whole tenant and to an extension.
use manage_call_ai.Base.{
  String, ◌≡◌, refl, Bool, true, [], Option, none, some, str_eq, if◌then◌else◌, IsLeast, insert_by,
  sort_by,
}
use manage_call_ai.Numbering.Types.{
  NumberingRule, CreatePlanInput, CreateRuleInput, Tables, CallType, AssignableType, Assignment,
  Result, ok, err,
}
use manage_call_ai.Numbering.Plans.{create, add_rule, delete}
use manage_call_ai.Numbering.Assignments.{assign, find_assignment}
use manage_call_ai.Numbering.Check.{joined_rules, check_dial}
use manage_call_ai.Numbering.Assigned.{check_dial-assign}
use manage_call_ai.Numbering.Deleted.{IsOther, check_dial-delete}
use manage_call_ai.Numbering.Told.{Told}
use manage_call_ai.Numbering.Dial.{matching, Tells, check_dial-IsLeast}
use manage_call_ai.Numbering.Kept.{find_assignment-assign}
use manage_call_ai.Numbering.Types
use manage_call_ai.Numbering.Plans
use manage_call_ai.Numbering.Assignments
use manage_call_ai.Numbering.Check

abbrev regexp : String → Option (String → Bool)
regexp p =
    if str_eq p "(" then none else some λ s. if str_eq p "^112$" then str_eq s "112" else true

abbrev plan : CreatePlanInput
plan = record { name = "Germany"; description = none; country_code = some "DE" }

abbrev emergency : CreateRuleInput
emergency = record {
  name = "Emergency";
  pattern = "^112$";
  call_type = CallType.emergency;
  priority = some 1;
  description = none;
}

abbrev local : CreateRuleInput
local = record {
  name = "Local";
  pattern = ".";
  call_type = CallType.local;
  priority = none;
  description = none;
}

abbrev tables_of : Result → Tables
tables_of (ok t) = t
tables_of (err e) = record { plans = []; rules = []; assignments = [] }

abbrev with_rules : Tables
with_rules = tables_of (
    add_rule "r2" 2 "p" "t" emergency (
      tables_of (
        add_rule "r1" 1 "p" "t" local
          (tables_of (create "p" 0 "t" plan record { plans = []; rules = []; assignments = [] })))))

abbrev for_tenant : Tables
for_tenant = tables_of (assign "a" 3 "t" "p" AssignableType.tenant none with_rules)

assign-for_tenant : assign "a" 3 "t" "p" AssignableType.tenant none with_rules ≡ ok for_tenant
unfolding Plans.has_name Plans.create Plans.is_plan Plans.new_rule Types.or_else Plans.add_rule
    Assignments.assign
assign-for_tenant = refl

abbrev for_extension : Tables
for_extension = tables_of (assign "b" 4 "t" "p" AssignableType.extension (some "x") for_tenant)

assign-for_extension :
    assign "b" 4 "t" "p" AssignableType.extension (some "x") for_tenant ≡ ok for_extension
unfolding Plans.has_name Plans.create Plans.is_plan Plans.new_rule Types.or_else Plans.add_rule
    Assignments.assign
assign-for_extension = refl

call_type-for_tenant : (check_dial regexp "t" "112" for_tenant).call_type ≡ some CallType.emergency
unfolding insert_by sort_by Types.or_else Plans.is_plan Plans.has_name Plans.create Plans.new_rule
    Plans.add_rule Assignments.same_type Assignments.coalesce Assignments.conflicts
    Assignments.with_plan Assignments.upsert Assignments.assign Assignments.is_not_distinct
    Check.is_joined Check.copies Check.joined_rules Check.find_tenant_rules Check.test
    Check.matches_rule Check.first_match Check.check_dial
call_type-for_tenant = refl

check_dial-IsLeast_example :
    (o : Option NumberingRule) × (Tells regexp o (check_dial regexp "t" "112" for_tenant)
      × IsLeast (λ r. r.priority) (matching regexp "112") (joined_rules "t" for_tenant) o)
check_dial-IsLeast_example = check_dial-IsLeast regexp "t" "112" for_tenant

check_dial-assign_example : Told (λ q. q ≡ "p") (check_dial regexp "t" "112" for_tenant).plan_id
check_dial-assign_example =
    check_dial-assign "t" "p" regexp "a" "112" 3 with_rules for_tenant assign-for_tenant

find_assignment-assign_example :
    (a : Assignment) × ((find_assignment "t" AssignableType.extension (some "x") for_extension
        ≡ some a)
      × (a.plan_id ≡ "p"))
find_assignment-assign_example =
    find_assignment-assign "t" "p" AssignableType.extension "x" refl "b" 4 for_tenant for_extension
      assign-for_extension

abbrev deleted : Tables
deleted = tables_of (delete "p" "t" for_tenant)

delete-deleted : delete "p" "t" for_tenant ≡ ok deleted
unfolding Plans.has_name Plans.create Plans.is_plan Plans.new_rule Types.or_else Plans.add_rule
    Assignments.assign Plans.delete
delete-deleted = refl

check_dial-delete_example : Told (IsOther "p") (check_dial regexp "t" "112" deleted).plan_id
check_dial-delete_example =
    check_dial-delete "p" regexp "t" "t" "112" for_tenant deleted delete-deleted
