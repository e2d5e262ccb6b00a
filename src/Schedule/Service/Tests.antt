-- ===== src/Schedule/Service/Tests.antt =====
-- A tenant's schedule is created, and a meeting that closes it is added and revoked.
use mathlib.Core.List.{Memᴰ}
use manage_call_ai.Base.{
  ℕ, String, ◌≡◌, refl, true, false, not, ◌&&◌, any, List, [], ◌∷◌, All, Option, none, some, str_eq,
  if◌then◌else◌, ltb,
}
use manage_call_ai.Schedule.Types.{
  WeeklyRule, OverrideMode, ScheduleOverride, Schedule, is_active_schedule, is_active_override,
}
use manage_call_ai.Schedule.Hours.{Intl, covers, resolve_active_override}
use manage_call_ai.Schedule.Overrides.{
  CreateScheduleOverrideInput, build_override, overlaps, validate_create_override_input,
}
use manage_call_ai.Schedule.Overrides.Apart.{IsApart}
use manage_call_ai.Schedule.Service.{
  CreateScheduleInput, Result, ok, err, Host, parse, inserted, find_by_id, create, add_override,
}
use manage_call_ai.Schedule.Service.Sound.{IsSound}
use manage_call_ai.Schedule.Service.Revoke.{IsRestored, revoke-add_override}
use manage_call_ai.Schedule.Service.Outcome.{is_ok, is_none, is_ok-add_override}
use manage_call_ai.Schedule.Service.Trace.{
  Reached, no_rows, then_step, creates, adds, Reached-IsSound,
  resolve_active_override-covering-Reached,
}
use manage_call_ai.Schedule.Checks
use manage_call_ai.Schedule.Hours
use manage_call_ai.Schedule.Overrides
use manage_call_ai.Schedule.Service as ScheduleService
use manage_call_ai.Text

abbrev parse_hour : String → Option ℕ
parse_hour s = if str_eq s "12:00" then some 12 else if str_eq s "13:00" then some 13 else some 8

abbrev intl : Intl
intl = record {
  format_date = λ zone now. some "2026-03-02";
  format_time = λ zone now. some (if ltb now 9 then "08:00" else "12:00");
  format_weekday = λ zone now. some "Mon";
  parse = parse_hour;
}

abbrev host : Host
host = record { intl = intl; accepts_zone = λ zone. true; locale_le = λ a b. true }

abbrev monday : WeeklyRule
monday = record { day_of_week = 1; open_time = "09:00"; close_time = "17:00" }

abbrev office : CreateScheduleInput
office = record {
  tenant_id = "t";
  name = "Office";
  description = none;
  timezone = "Europe/Berlin";
  weekly_rules_json = some (monday ∷ []);
  holiday_calendar_name = none;
  holiday_calendar_json = none;
}

abbrev meeting : CreateScheduleOverrideInput
meeting = record {
  name = "Meeting";
  reason = none;
  starts_at = "12:00";
  ends_at = "13:00";
  mode = OverrideMode.closed;
  open_time = none;
  close_time = none;
  actor_user_id = some "u";
}

abbrev rows_of : Result (List Schedule) → List Schedule
rows_of (ok rows) = rows
rows_of (err e) = []

abbrev created : List Schedule
created = rows_of (create host "s" office [])

create-created : create host "s" office [] ≡ ok created
unfolding Checks.first_failure Text.is_digit Text.is_letter Checks.is_zone_char Checks.fits
    Checks.zone_from Checks.is_zone_name Checks.rule_error Checks.rules_error Checks.validate_rules
    Checks.entry_error Checks.calendar_error Checks.validate_holiday_calendar
    Checks.validate_timezone Checks.validate_override_window Checks.persisted_error
    Checks.overrides_error Checks.validate_persisted_overrides Overrides.input_props
    Overrides.override_props Overrides.trimmed Overrides.build_override Overrides.revoke_row
    Overrides.revoke_override Overrides.validate_create_override_input Overrides.overlaps
    Overrides.has_overlap Overrides.stays_before Overrides.insert_earliest
    Overrides.normalize_overrides ScheduleService.elems_of ScheduleService.insert_rule
    ScheduleService.sort_rules ScheduleService.normalize_weekly_rules
    ScheduleService.normalize_holiday_calendar ScheduleService.map_create_input
    ScheduleService.map_update_input ScheduleService.is_row ScheduleService.find_by_id
    ScheduleService.update_rows ScheduleService.inserted ScheduleService.set_fields
    ScheduleService.deactivated ScheduleService.with_overrides ScheduleService.updated_row
    ScheduleService.update_found ScheduleService.deactivate
    ScheduleService.validate_schedule_mutation ScheduleService.create ScheduleService.update
    ScheduleService.replace_overrides ScheduleService.add_unless ScheduleService.add_to
    ScheduleService.add_override ScheduleService.replace_revoked ScheduleService.revoke_in
    ScheduleService.revoke ScheduleService.validation_errors Hours.index_of Hours.midnight
    Hours.within Hours.get_local_parts Hours.contains Hours.covers Hours.starts Hours.insert_latest
    Hours.sort_latest Hours.resolve_active_override Hours.in_override Hours.in_holiday Hours.in_rule
    Hours.in_week Hours.after_override Hours.at_local Hours.is_in_business_hours Text.trim
    Text.strip_prefix Text.strip_suffix Text.has_line_end
create-created = refl

abbrev added : List Schedule
added = rows_of (add_override host "s" "t" "o" "08:00" meeting created)

add_override-added : add_override host "s" "t" "o" "08:00" meeting created ≡ ok added
unfolding Checks.first_failure Text.is_digit Text.is_letter Checks.is_zone_char Checks.fits
    Checks.zone_from Checks.is_zone_name Checks.rule_error Checks.rules_error Checks.validate_rules
    Checks.entry_error Checks.calendar_error Checks.validate_holiday_calendar
    Checks.validate_timezone Checks.validate_override_window Checks.persisted_error
    Checks.overrides_error Checks.validate_persisted_overrides Overrides.input_props
    Overrides.override_props Overrides.trimmed Overrides.build_override Overrides.revoke_row
    Overrides.revoke_override Overrides.validate_create_override_input Overrides.overlaps
    Overrides.has_overlap Overrides.stays_before Overrides.insert_earliest
    Overrides.normalize_overrides ScheduleService.elems_of ScheduleService.insert_rule
    ScheduleService.sort_rules ScheduleService.normalize_weekly_rules
    ScheduleService.normalize_holiday_calendar ScheduleService.map_create_input
    ScheduleService.map_update_input ScheduleService.is_row ScheduleService.find_by_id
    ScheduleService.update_rows ScheduleService.inserted ScheduleService.set_fields
    ScheduleService.deactivated ScheduleService.with_overrides ScheduleService.updated_row
    ScheduleService.update_found ScheduleService.deactivate
    ScheduleService.validate_schedule_mutation ScheduleService.create ScheduleService.update
    ScheduleService.replace_overrides ScheduleService.add_unless ScheduleService.add_to
    ScheduleService.add_override ScheduleService.replace_revoked ScheduleService.revoke_in
    ScheduleService.revoke ScheduleService.validation_errors Hours.index_of Hours.midnight
    Hours.within Hours.get_local_parts Hours.contains Hours.covers Hours.starts Hours.insert_latest
    Hours.sort_latest Hours.resolve_active_override Hours.in_override Hours.in_holiday Hours.in_rule
    Hours.in_week Hours.after_override Hours.at_local Hours.is_in_business_hours Text.trim
    Text.strip_prefix Text.strip_suffix Text.has_line_end
add_override-added = refl

abbrev first_of : List Schedule → Schedule
first_of [] = inserted "" office
first_of (s ∷ rows) = s

abbrev first_override : List ScheduleOverride → ScheduleOverride
first_override [] = build_override "" "" meeting
first_override (o ∷ os) = o

Reached-added : Reached host added
Reached-added =
    then_step (then_step no_rows (creates "s" office create-created))
      (adds "s" "t" "o" "08:00" meeting add_override-added)

Reached-IsSound_example : All (IsSound host) added
Reached-IsSound_example = Reached-IsSound host added Reached-added

found_created : find_by_id "s" "t" created ≡ some (first_of created)
unfolding Checks.first_failure Text.is_digit Text.is_letter Checks.is_zone_char Checks.fits
    Checks.zone_from Checks.is_zone_name Checks.rule_error Checks.rules_error Checks.validate_rules
    Checks.entry_error Checks.calendar_error Checks.validate_holiday_calendar
    Checks.validate_timezone Checks.validate_override_window Checks.persisted_error
    Checks.overrides_error Checks.validate_persisted_overrides Overrides.input_props
    Overrides.override_props Overrides.trimmed Overrides.build_override Overrides.revoke_row
    Overrides.revoke_override Overrides.validate_create_override_input Overrides.overlaps
    Overrides.has_overlap Overrides.stays_before Overrides.insert_earliest
    Overrides.normalize_overrides ScheduleService.elems_of ScheduleService.insert_rule
    ScheduleService.sort_rules ScheduleService.normalize_weekly_rules
    ScheduleService.normalize_holiday_calendar ScheduleService.map_create_input
    ScheduleService.map_update_input ScheduleService.is_row ScheduleService.find_by_id
    ScheduleService.update_rows ScheduleService.inserted ScheduleService.set_fields
    ScheduleService.deactivated ScheduleService.with_overrides ScheduleService.updated_row
    ScheduleService.update_found ScheduleService.deactivate
    ScheduleService.validate_schedule_mutation ScheduleService.create ScheduleService.update
    ScheduleService.replace_overrides ScheduleService.add_unless ScheduleService.add_to
    ScheduleService.add_override ScheduleService.replace_revoked ScheduleService.revoke_in
    ScheduleService.revoke ScheduleService.validation_errors Hours.index_of Hours.midnight
    Hours.within Hours.get_local_parts Hours.contains Hours.covers Hours.starts Hours.insert_latest
    Hours.sort_latest Hours.resolve_active_override Hours.in_override Hours.in_holiday Hours.in_rule
    Hours.in_week Hours.after_override Hours.at_local Hours.is_in_business_hours Text.trim
    Text.strip_prefix Text.strip_suffix Text.has_line_end
found_created = refl

row_added : Memᴰ (first_of added) added
unfolding Checks.first_failure Text.is_digit Text.is_letter Checks.is_zone_char Checks.fits
    Checks.zone_from Checks.is_zone_name Checks.rule_error Checks.rules_error Checks.validate_rules
    Checks.entry_error Checks.calendar_error Checks.validate_holiday_calendar
    Checks.validate_timezone Checks.validate_override_window Checks.persisted_error
    Checks.overrides_error Checks.validate_persisted_overrides Overrides.input_props
    Overrides.override_props Overrides.trimmed Overrides.build_override Overrides.revoke_row
    Overrides.revoke_override Overrides.validate_create_override_input Overrides.overlaps
    Overrides.has_overlap Overrides.stays_before Overrides.insert_earliest
    Overrides.normalize_overrides ScheduleService.elems_of ScheduleService.insert_rule
    ScheduleService.sort_rules ScheduleService.normalize_weekly_rules
    ScheduleService.normalize_holiday_calendar ScheduleService.map_create_input
    ScheduleService.map_update_input ScheduleService.is_row ScheduleService.find_by_id
    ScheduleService.update_rows ScheduleService.inserted ScheduleService.set_fields
    ScheduleService.deactivated ScheduleService.with_overrides ScheduleService.updated_row
    ScheduleService.update_found ScheduleService.deactivate
    ScheduleService.validate_schedule_mutation ScheduleService.create ScheduleService.update
    ScheduleService.replace_overrides ScheduleService.add_unless ScheduleService.add_to
    ScheduleService.add_override ScheduleService.replace_revoked ScheduleService.revoke_in
    ScheduleService.revoke ScheduleService.validation_errors Hours.index_of Hours.midnight
    Hours.within Hours.get_local_parts Hours.contains Hours.covers Hours.starts Hours.insert_latest
    Hours.sort_latest Hours.resolve_active_override Hours.in_override Hours.in_holiday Hours.in_rule
    Hours.in_week Hours.after_override Hours.at_local Hours.is_in_business_hours Text.trim
    Text.strip_prefix Text.strip_suffix Text.has_line_end
row_added = Memᴰ.head refl

override_added :
    Memᴰ
      (first_override (first_of added).override_windows_json)
      (first_of added).override_windows_json
unfolding Checks.first_failure Text.is_digit Text.is_letter Checks.is_zone_char Checks.fits
    Checks.zone_from Checks.is_zone_name Checks.rule_error Checks.rules_error Checks.validate_rules
    Checks.entry_error Checks.calendar_error Checks.validate_holiday_calendar
    Checks.validate_timezone Checks.validate_override_window Checks.persisted_error
    Checks.overrides_error Checks.validate_persisted_overrides Overrides.input_props
    Overrides.override_props Overrides.trimmed Overrides.build_override Overrides.revoke_row
    Overrides.revoke_override Overrides.validate_create_override_input Overrides.overlaps
    Overrides.has_overlap Overrides.stays_before Overrides.insert_earliest
    Overrides.normalize_overrides ScheduleService.elems_of ScheduleService.insert_rule
    ScheduleService.sort_rules ScheduleService.normalize_weekly_rules
    ScheduleService.normalize_holiday_calendar ScheduleService.map_create_input
    ScheduleService.map_update_input ScheduleService.is_row ScheduleService.find_by_id
    ScheduleService.update_rows ScheduleService.inserted ScheduleService.set_fields
    ScheduleService.deactivated ScheduleService.with_overrides ScheduleService.updated_row
    ScheduleService.update_found ScheduleService.deactivate
    ScheduleService.validate_schedule_mutation ScheduleService.create ScheduleService.update
    ScheduleService.replace_overrides ScheduleService.add_unless ScheduleService.add_to
    ScheduleService.add_override ScheduleService.replace_revoked ScheduleService.revoke_in
    ScheduleService.revoke ScheduleService.validation_errors Hours.index_of Hours.midnight
    Hours.within Hours.get_local_parts Hours.contains Hours.covers Hours.starts Hours.insert_latest
    Hours.sort_latest Hours.resolve_active_override Hours.in_override Hours.in_holiday Hours.in_rule
    Hours.in_week Hours.after_override Hours.at_local Hours.is_in_business_hours Text.trim
    Text.strip_prefix Text.strip_suffix Text.has_line_end
override_added = Memᴰ.head refl

covers-added : covers intl 12 (first_override (first_of added).override_windows_json) ≡ true
unfolding Checks.first_failure Text.is_digit Text.is_letter Checks.is_zone_char Checks.fits
    Checks.zone_from Checks.is_zone_name Checks.rule_error Checks.rules_error Checks.validate_rules
    Checks.entry_error Checks.calendar_error Checks.validate_holiday_calendar
    Checks.validate_timezone Checks.validate_override_window Checks.persisted_error
    Checks.overrides_error Checks.validate_persisted_overrides Overrides.input_props
    Overrides.override_props Overrides.trimmed Overrides.build_override Overrides.revoke_row
    Overrides.revoke_override Overrides.validate_create_override_input Overrides.overlaps
    Overrides.has_overlap Overrides.stays_before Overrides.insert_earliest
    Overrides.normalize_overrides ScheduleService.elems_of ScheduleService.insert_rule
    ScheduleService.sort_rules ScheduleService.normalize_weekly_rules
    ScheduleService.normalize_holiday_calendar ScheduleService.map_create_input
    ScheduleService.map_update_input ScheduleService.is_row ScheduleService.find_by_id
    ScheduleService.update_rows ScheduleService.inserted ScheduleService.set_fields
    ScheduleService.deactivated ScheduleService.with_overrides ScheduleService.updated_row
    ScheduleService.update_found ScheduleService.deactivate
    ScheduleService.validate_schedule_mutation ScheduleService.create ScheduleService.update
    ScheduleService.replace_overrides ScheduleService.add_unless ScheduleService.add_to
    ScheduleService.add_override ScheduleService.replace_revoked ScheduleService.revoke_in
    ScheduleService.revoke ScheduleService.validation_errors Hours.index_of Hours.midnight
    Hours.within Hours.get_local_parts Hours.contains Hours.covers Hours.starts Hours.insert_latest
    Hours.sort_latest Hours.resolve_active_override Hours.in_override Hours.in_holiday Hours.in_rule
    Hours.in_week Hours.after_override Hours.at_local Hours.is_in_business_hours Text.trim
    Text.strip_prefix Text.strip_suffix Text.has_line_end
covers-added = refl

IsApart-created : IsApart intl (first_of created).override_windows_json
unfolding Checks.first_failure Text.is_digit Text.is_letter Checks.is_zone_char Checks.fits
    Checks.zone_from Checks.is_zone_name Checks.rule_error Checks.rules_error Checks.validate_rules
    Checks.entry_error Checks.calendar_error Checks.validate_holiday_calendar
    Checks.validate_timezone Checks.validate_override_window Checks.persisted_error
    Checks.overrides_error Checks.validate_persisted_overrides Overrides.input_props
    Overrides.override_props Overrides.trimmed Overrides.build_override Overrides.revoke_row
    Overrides.revoke_override Overrides.validate_create_override_input Overrides.overlaps
    Overrides.has_overlap Overrides.stays_before Overrides.insert_earliest
    Overrides.normalize_overrides ScheduleService.elems_of ScheduleService.insert_rule
    ScheduleService.sort_rules ScheduleService.normalize_weekly_rules
    ScheduleService.normalize_holiday_calendar ScheduleService.map_create_input
    ScheduleService.map_update_input ScheduleService.is_row ScheduleService.find_by_id
    ScheduleService.update_rows ScheduleService.inserted ScheduleService.set_fields
    ScheduleService.deactivated ScheduleService.with_overrides ScheduleService.updated_row
    ScheduleService.update_found ScheduleService.deactivate
    ScheduleService.validate_schedule_mutation ScheduleService.create ScheduleService.update
    ScheduleService.replace_overrides ScheduleService.add_unless ScheduleService.add_to
    ScheduleService.add_override ScheduleService.replace_revoked ScheduleService.revoke_in
    ScheduleService.revoke ScheduleService.validation_errors Hours.index_of Hours.midnight
    Hours.within Hours.get_local_parts Hours.contains Hours.covers Hours.starts Hours.insert_latest
    Hours.sort_latest Hours.resolve_active_override Hours.in_override Hours.in_holiday Hours.in_rule
    Hours.in_week Hours.after_override Hours.at_local Hours.is_in_business_hours Text.trim
    Text.strip_prefix Text.strip_suffix Text.has_line_end
IsApart-created = tt

fresh_created : any (λ o. str_eq o.id "o") (first_of created).override_windows_json ≡ false
unfolding Checks.first_failure Text.is_digit Text.is_letter Checks.is_zone_char Checks.fits
    Checks.zone_from Checks.is_zone_name Checks.rule_error Checks.rules_error Checks.validate_rules
    Checks.entry_error Checks.calendar_error Checks.validate_holiday_calendar
    Checks.validate_timezone Checks.validate_override_window Checks.persisted_error
    Checks.overrides_error Checks.validate_persisted_overrides Overrides.input_props
    Overrides.override_props Overrides.trimmed Overrides.build_override Overrides.revoke_row
    Overrides.revoke_override Overrides.validate_create_override_input Overrides.overlaps
    Overrides.has_overlap Overrides.stays_before Overrides.insert_earliest
    Overrides.normalize_overrides ScheduleService.elems_of ScheduleService.insert_rule
    ScheduleService.sort_rules ScheduleService.normalize_weekly_rules
    ScheduleService.normalize_holiday_calendar ScheduleService.map_create_input
    ScheduleService.map_update_input ScheduleService.is_row ScheduleService.find_by_id
    ScheduleService.update_rows ScheduleService.inserted ScheduleService.set_fields
    ScheduleService.deactivated ScheduleService.with_overrides ScheduleService.updated_row
    ScheduleService.update_found ScheduleService.deactivate
    ScheduleService.validate_schedule_mutation ScheduleService.create ScheduleService.update
    ScheduleService.replace_overrides ScheduleService.add_unless ScheduleService.add_to
    ScheduleService.add_override ScheduleService.replace_revoked ScheduleService.revoke_in
    ScheduleService.revoke ScheduleService.validation_errors Hours.index_of Hours.midnight
    Hours.within Hours.get_local_parts Hours.contains Hours.covers Hours.starts Hours.insert_latest
    Hours.sort_latest Hours.resolve_active_override Hours.in_override Hours.in_holiday Hours.in_rule
    Hours.in_week Hours.after_override Hours.at_local Hours.is_in_business_hours Text.trim
    Text.strip_prefix Text.strip_suffix Text.has_line_end
fresh_created = refl

resolve_active_override-covering-Reached_example :
    resolve_active_override intl (first_of added).override_windows_json 12
    ≡ some (first_override (first_of added).override_windows_json)
resolve_active_override-covering-Reached_example =
    resolve_active_override-covering-Reached host added (first_of added)
      (first_override (first_of added).override_windows_json) 12 Reached-added row_added
      override_added covers-added

revoke-add_override_example :
    IsRestored host "o" (some "u") "09:00" "s" "t" (first_of created) 12 added
revoke-add_override_example =
    revoke-add_override host "o" (some "u") "09:00" "s" "t" "08:00" meeting created added
      (first_of created) 12 found_created IsApart-created fresh_created add_override-added

is_ok-add_override_example : is_ok (add_override host "s" "t" "o" "08:00" meeting created) ≡ (
    is_none (validate_create_override_input (parse host) meeting)
    && (is_active_schedule (first_of created).status
        && not (
            any
              (λ o.
                is_active_override o.status
                && overlaps (parse host) o (build_override "o" "08:00" meeting))
              (first_of created).override_windows_json)))
is_ok-add_override_example =
    is_ok-add_override host "s" "t" "o" "08:00" meeting created (first_of created) found_created
