-- ===== src/Schedule/Tests.antt =====
-- Two overrides that cover a time, of which the one that starts later is chosen.
use manage_call_ai.Base.{ℕ, String, List, [], ◌∷◌, Option, none, some, str_eq, if◌then◌else◌}
use manage_call_ai.Schedule.Types.{OverrideMode, OverrideStatus, ScheduleOverride}
use manage_call_ai.Schedule.Hours.{Intl, resolve_active_override}
use manage_call_ai.Schedule.Hours.Override.{IsChosen, resolve_active_override-IsChosen}

abbrev parse : String → Option ℕ
parse s = if str_eq s "09:00" then some 9 else if str_eq s "10:00" then some 10 else some 20

abbrev intl : Intl
intl = record {
  format_date = λ zone now. none;
  format_time = λ zone now. none;
  format_weekday = λ zone now. none;
  parse = parse;
}

abbrev override_from : String → ScheduleOverride
override_from starts_at = record {
  id = starts_at;
  name = "staff meeting";
  reason = none;
  starts_at = starts_at;
  ends_at = "20:00";
  mode = OverrideMode.closed;
  open_time = none;
  close_time = none;
  status = OverrideStatus.active;
  created_by_user_id = none;
  created_at = "08:00";
  revoked_by_user_id = none;
  revoked_at = none;
}

abbrev overrides : List ScheduleOverride
overrides = override_from "09:00" ∷ override_from "10:00" ∷ []

resolve_active_override-IsChosen_example :
    IsChosen intl 12 overrides (resolve_active_override intl overrides 12)
resolve_active_override-IsChosen_example = resolve_active_override-IsChosen intl 12 overrides
