-- ===== src/Schedule/Service.antt =====
-- `ScheduleService` and the statements of apps/api/src/modules/schedules/schedule.repository.ts on the table of
-- schedules; every call runs as one step. The ids and the times of new rows are arguments. The publish
-- lifecycle is that of `Lifecycle`; `validation_errors` is the validator that `validate` hands to it.
pub mod Week
pub mod Rows
pub mod Sound
pub mod Agree
pub mod Left
pub mod Revoke
pub mod Outcome
pub mod Trace
pub mod Tests
use manage_call_ai.Base.{
  ℕ, String, Bool, ◌&&◌, List, [], ◌∷◌, ◌++◌, push, find, map, Option, none, some, if◌then◌else◌,
  str_eq, ltb,
}
use manage_call_ai.Json.{
  Json, arr, obj, str, num, bool, nat, Elems, cons, nil, Props, prop, or_default,
}
use manage_call_ai.Text.{trim}
use manage_call_ai.Schedule.Types.{
  WeeklyRule, HolidayCalendarEntry, ScheduleOverride, ScheduleStatus, Schedule, is_active_schedule,
}
use manage_call_ai.Schedule.Hours.{Intl}
use manage_call_ai.Schedule.Checks.{
  or_then, validate_timezone, validate_rules, validate_holiday_calendar,
  validate_persisted_overrides,
}
use manage_call_ai.Schedule.Overrides.{
  CreateScheduleOverrideInput, optional, override_props, trimmed, build_override, revoke_override,
  validate_create_override_input, has_overlap, normalize_overrides,
}

pub data ServiceError : Type 0 where
  schedule_not_found override_not_found inactive_schedule : ServiceError
  validation : (message : String) → ServiceError
  override_overlap : (existing : ScheduleOverride) → ServiceError

pub data Result {ℓ} (A : Type ℓ) : Type ℓ where
  ok : A → Result A
  err : ServiceError → Result A

pub record CreateScheduleInput : Type 0 where
  pub tenant_id : String
  pub name : String
  pub description : Option String
  pub timezone : String
  pub weekly_rules_json : Option (List WeeklyRule)
  pub holiday_calendar_name : Option String
  pub holiday_calendar_json : Option (List HolidayCalendarEntry)

-- `none` is `undefined`, and `some none` is `null`.
pub record UpdateScheduleInput : Type 0 where
  pub name : Option String
  pub description : Option (Option String)
  pub timezone : Option String
  pub weekly_rules_json : Option (List WeeklyRule)
  pub holiday_calendar_name : Option (Option String)
  pub holiday_calendar_json : Option (List HolidayCalendarEntry)
  pub status : Option ScheduleStatus

-- What of an input is validated.
pub record Mutation : Type 0 where
  pub timezone : Option String
  pub weekly_rules_json : Option (List WeeklyRule)
  pub holiday_calendar_json : Option (List HolidayCalendarEntry)

-- The typed values as `unknown`.
abbrev pub rule_json : WeeklyRule → Json
rule_json r = obj (
    prop "day_of_week" (num (nat r.day_of_week))
      (prop "open_time" (str r.open_time) (prop "close_time" (str r.close_time) Props.end)))

abbrev pub entry_json : HolidayCalendarEntry → Json
entry_json h = obj (
    prop "date" (str h.date) (
      prop "name" (str h.name) (
        prop "closed" (bool h.closed)
          (optional "open_time" h.open_time (optional "close_time" h.close_time Props.end)))))

abbrev pub override_json : ScheduleOverride → Json
override_json o = obj (override_props o)

unfoldable pub elems_of {ℓ} : {A : Type ℓ} → (A → Json) → List A → Elems
elems_of f [] = nil
elems_of f (x ∷ xs) = cons (f x) (elems_of f xs)

abbrev pub array_json {ℓ} : {A : Type ℓ} → (A → Json) → List A → Json
array_json f xs = arr (elems_of f xs)

-- A stable sort by the day.
unfoldable pub insert_rule : WeeklyRule → List WeeklyRule → List WeeklyRule
insert_rule r [] = r ∷ []
insert_rule r (s ∷ ss) =
    let rest = insert_rule r ss in if ltb s.day_of_week r.day_of_week then s ∷ rest else r ∷ s ∷ ss

unfoldable pub sort_rules : List WeeklyRule → List WeeklyRule
unfolding insert_rule
sort_rules [] = []
sort_rules (r ∷ rs) = insert_rule r (sort_rules rs)

abbrev pub over {ℓ κ} : {A : Type ℓ} {B : Type κ} → (A → B) → Option A → Option B
over f none = none
over f (some a) = some (f a)

unfoldable pub normalize_weekly_rules : Option (List WeeklyRule) → Option (List WeeklyRule)
normalize_weekly_rules rules = over sort_rules rules

abbrev pub trim_entry : HolidayCalendarEntry → HolidayCalendarEntry
trim_entry h = record h { name = trim h.name }

unfoldable pub normalize_holiday_calendar :
    Option (List HolidayCalendarEntry) → Option (List HolidayCalendarEntry)
normalize_holiday_calendar entries = over (map trim_entry) entries

unfoldable pub map_create_input : CreateScheduleInput → CreateScheduleInput
map_create_input input = record input {
  description = trimmed input.description;
  holiday_calendar_name = trimmed input.holiday_calendar_name;
  weekly_rules_json = normalize_weekly_rules input.weekly_rules_json;
  holiday_calendar_json = normalize_holiday_calendar input.holiday_calendar_json;
}

unfoldable pub map_update_input : UpdateScheduleInput → UpdateScheduleInput
map_update_input input = record input {
  description = over trimmed input.description;
  holiday_calendar_name = over trimmed input.holiday_calendar_name;
  weekly_rules_json = normalize_weekly_rules input.weekly_rules_json;
  holiday_calendar_json = normalize_holiday_calendar input.holiday_calendar_json;
}

-- `if (value !== undefined) { const err = check(value); … }`.
abbrev pub when_given {ℓ} : {A : Type ℓ} → (A → Option String) → Option A → Option String
when_given check none = none
when_given check (some a) = check a

unfoldable pub is_row : String → String → Schedule → Bool
is_row id tenant_id s = str_eq s.id id && str_eq s.tenant_id tenant_id

unfoldable pub find_by_id : String → String → List Schedule → Option Schedule
find_by_id id tenant_id rows = find (is_row id tenant_id) rows

-- `UPDATE schedules SET … WHERE id = … AND tenant_id = … RETURNING …`.
unfoldable pub update_rows : String → String → (Schedule → Schedule) → List Schedule → List Schedule
update_rows id tenant_id f rows = map (λ s. if is_row id tenant_id s then f s else s) rows

unfoldable pub inserted : String → CreateScheduleInput → Schedule
inserted id input = record {
  id = id;
  tenant_id = input.tenant_id;
  name = input.name;
  status = ScheduleStatus.active;
  description = input.description;
  timezone = input.timezone;
  weekly_rules_json = or_default input.weekly_rules_json [];
  holiday_calendar_name = input.holiday_calendar_name;
  holiday_calendar_json = or_default input.holiday_calendar_json [];
  override_windows_json = [];
}

unfoldable pub set_fields : UpdateScheduleInput → Schedule → Schedule
set_fields input s = record s {
  name = or_default input.name s.name;
  description = or_default input.description s.description;
  timezone = or_default input.timezone s.timezone;
  status = or_default input.status s.status;
  weekly_rules_json = or_default input.weekly_rules_json s.weekly_rules_json;
  holiday_calendar_name = or_default input.holiday_calendar_name s.holiday_calendar_name;
  holiday_calendar_json = or_default input.holiday_calendar_json s.holiday_calendar_json;
}

unfoldable pub deactivated : Schedule → Schedule
deactivated s = record s { status = ScheduleStatus.inactive }

unfoldable pub with_overrides : List ScheduleOverride → Schedule → Schedule
with_overrides overrides s = record s { override_windows_json = overrides }

-- The row before the update tells whether there is one.
unfoldable pub updated_row :
    String
    → String
    → (Schedule → Schedule)
    → Option Schedule
    → List Schedule
    → Result (List Schedule)
updated_row id tenant_id f none rows = err schedule_not_found
updated_row id tenant_id f (some s) rows = ok (update_rows id tenant_id f rows)

unfoldable pub update_found :
    String → String → (Schedule → Schedule) → List Schedule → Result (List Schedule)
update_found id tenant_id f rows = updated_row id tenant_id f (find_by_id id tenant_id rows) rows

abbrev pub unless {ℓ} : {A : Type ℓ} → Option String → Result A → Result A
unless none r = r
unless (some message) r = err (validation message)

unfoldable pub deactivate : String → String → List Schedule → Result (List Schedule)
deactivate id tenant_id rows = update_found id tenant_id deactivated rows

pub record Host : Type 0 where
  -- `Date.parse` is a field of `intl`; whether `Intl.DateTimeFormat` takes a time zone, and
  -- `a.localeCompare(b) <= 0`.
  pub intl : Intl
  pub accepts_zone : String → Bool
  pub locale_le : String → String → Bool

module _ (host : Host) where
  open host use {intl, accepts_zone, locale_le}

  abbrev pub parse : String → Option ℕ
  parse = intl.parse

  -- Neither input has overrides.
  unfoldable pub validate_schedule_mutation : Mutation → Option String
  validate_schedule_mutation m = or_then (when_given (validate_timezone accepts_zone) m.timezone) (
      or_then (when_given (λ rs. validate_rules (array_json rule_json rs)) m.weekly_rules_json) (
        when_given (λ hs. validate_holiday_calendar (array_json entry_json hs))
          m.holiday_calendar_json))

  abbrev pub mutation_of_create : CreateScheduleInput → Mutation
  mutation_of_create input = record {
    timezone = some input.timezone;
    weekly_rules_json = input.weekly_rules_json;
    holiday_calendar_json = input.holiday_calendar_json;
  }

  abbrev pub mutation_of_update : UpdateScheduleInput → Mutation
  mutation_of_update input = record {
    timezone = input.timezone;
    weekly_rules_json = input.weekly_rules_json;
    holiday_calendar_json = input.holiday_calendar_json;
  }

  unfoldable pub create : String → CreateScheduleInput → List Schedule → Result (List Schedule)
  create id input rows =
      let normalized = map_create_input input in
      unless (validate_schedule_mutation (mutation_of_create normalized))
        (ok (push rows (inserted id normalized)))

  unfoldable pub update :
      String → String → UpdateScheduleInput → List Schedule → Result (List Schedule)
  update id tenant_id input rows =
      let normalized = map_update_input input in
      unless (validate_schedule_mutation (mutation_of_update normalized))
        (update_found id tenant_id (set_fields normalized) rows)

  module _ (id tenant_id : String) where
    unfoldable pub replace_overrides :
        List ScheduleOverride → List Schedule → Result (List Schedule)
    replace_overrides overrides rows =
        update_found id tenant_id (with_overrides (normalize_overrides parse locale_le overrides))
          rows

    unfoldable pub add_unless :
        Option ScheduleOverride → List ScheduleOverride → List Schedule → Result (List Schedule)
    add_unless none overrides rows = replace_overrides overrides rows
    add_unless (some existing) overrides rows = err (override_overlap existing)

    unfoldable pub add_to :
        ScheduleOverride → Option Schedule → List Schedule → Result (List Schedule)
    add_to override none rows = err schedule_not_found
    add_to override (some s) rows =
        if is_active_schedule s.status
        then add_unless (has_overlap parse s.override_windows_json override)
            (push s.override_windows_json override) rows
        else err inactive_schedule

    unfoldable pub add_override :
        String → String → CreateScheduleOverrideInput → List Schedule → Result (List Schedule)
    add_override override_id now input rows =
        unless (validate_create_override_input parse input)
          (add_to (build_override override_id now input) (find_by_id id tenant_id rows) rows)

    unfoldable pub replace_revoked :
        Option (List ScheduleOverride) → List Schedule → Result (List Schedule)
    replace_revoked none rows = err override_not_found
    replace_revoked (some overrides) rows = replace_overrides overrides rows

    unfoldable pub revoke_in :
        String → Option String → String → Option Schedule → List Schedule → Result (List Schedule)
    revoke_in override_id by now none rows = err schedule_not_found
    revoke_in override_id by now (some s) rows =
        replace_revoked (revoke_override s.override_windows_json override_id by now) rows

    unfoldable pub revoke : String → Option String → String → List Schedule → Result (List Schedule)
    revoke override_id by now rows =
        revoke_in override_id by now (find_by_id id tenant_id rows) rows

  -- An error of `validate`, with its field.
  abbrev pub issue : String → Option String → List (String × String)
  issue field none = []
  issue field (some message) = (field, message) ∷ []

  unfoldable pub validation_errors : Schedule → List (String × String)
  validation_errors s =
      issue "timezone" (validate_timezone accepts_zone s.timezone)
      ++ issue "weekly_rules_json" (validate_rules (array_json rule_json s.weekly_rules_json))
      ++ issue "override_windows_json"
          (validate_persisted_overrides parse (array_json override_json s.override_windows_json))
