-- ===== src/Schedule/Types.antt =====
-- apps/api/src/modules/schedules/schedule.types.ts. A time of day is a text, an instant a text that
-- `Date.parse` reads.
use manage_call_ai.Base.{ℕ, String, Bool, true, false, List, Option}

pub record WeeklyRule : Type 0 where
  pub day_of_week : ℕ
  pub open_time : String
  pub close_time : String

pub record HolidayCalendarEntry : Type 0 where
  pub date : String
  pub name : String
  pub closed : Bool
  pub open_time : Option String
  pub close_time : Option String

pub data OverrideMode : Type 0 where
  closed custom_hours : OverrideMode

pub data OverrideStatus : Type 0 where
  active revoked : OverrideStatus

pub record ScheduleOverride : Type 0 where
  pub id : String
  pub name : String
  pub reason : Option String
  pub starts_at : String
  pub ends_at : String
  pub mode : OverrideMode
  pub open_time : Option String
  pub close_time : Option String
  pub status : OverrideStatus
  pub created_by_user_id : Option String
  pub created_at : String
  pub revoked_by_user_id : Option String
  pub revoked_at : Option String

pub data ScheduleStatus : Type 0 where
  active inactive : ScheduleStatus

pub record Schedule : Type 0 where
  pub id : String
  pub tenant_id : String
  pub name : String
  pub status : ScheduleStatus
  pub description : Option String
  pub timezone : String
  pub weekly_rules_json : List WeeklyRule
  pub holiday_calendar_name : Option String
  pub holiday_calendar_json : List HolidayCalendarEntry
  pub override_windows_json : List ScheduleOverride

abbrev pub is_active_override : OverrideStatus → Bool
is_active_override OverrideStatus.active = true
is_active_override revoked = false

abbrev pub is_active_schedule : ScheduleStatus → Bool
is_active_schedule ScheduleStatus.active = true
is_active_schedule inactive = false
