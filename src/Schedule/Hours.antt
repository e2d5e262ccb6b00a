-- ===== src/Schedule/Hours.antt =====
-- apps/api/src/modules/schedules/schedule.util.ts. ECMAScript's `Intl.DateTimeFormat` and
-- `Date.parse` are parameters. Instants are counted from an origin before all that occur; the code
-- only compares them.
pub mod Override
use Prim.Native.String
use manage_call_ai.Base.{
  ℕ, suc, String, Bool, false, not, ◌&&◌, List, [], ◌∷◌, Option, none, some, if◌then◌else◌, str_eq,
  leb, ltb, ◌==◌, keep, find,
}
use manage_call_ai.Text.{strip_prefix, text_lt, text_ge}
use manage_call_ai.Schedule.Types.{
  WeeklyRule, HolidayCalendarEntry, OverrideMode, closed, custom_hours, ScheduleOverride, Schedule,
  is_active_override,
}

-- The formatters of `getLocalParts`, by time zone and instant, `none` where they throw, and
-- `Date.parse`, `none` for `NaN`.
pub record Intl : Type 0 where
  pub format_date : String → ℕ → Option String
  pub format_time : String → ℕ → Option String
  pub format_weekday : String → ℕ → Option String
  pub parse : String → Option ℕ

abbrev pub day_names : List String
day_names = "Sun" ∷ "Mon" ∷ "Tue" ∷ "Wed" ∷ "Thu" ∷ "Fri" ∷ "Sat" ∷ []

-- `DAY_NAMES.indexOf`, `none` for -1.
unfoldable pub index_of : String → List String → ℕ → Option ℕ
index_of name [] i = none
index_of name (x ∷ xs) i = if str_eq x name then some i else index_of name xs (suc i)

pub record LocalParts : Type 0 where
  pub date : String
  pub day_of_week : Option ℕ
  pub time : String

-- "24:05" is "00:05".
unfoldable pub midnight : String → String
midnight raw = elim (strip_prefix "24" raw) [ none ↦ raw | some rest ↦ String.◌++◌ "00" rest ]

infixl 5 ◌>>=◌
abbrev ◌>>=◌ {ℓ κ} : {A : Type ℓ} {B : Type κ} → Option A → (A → Option B) → Option B
none >>= f = none
some a >>= f = f a

abbrev pub is_at : Option ℕ → ℕ → Bool
is_at none n = false
is_at (some m) n = m == n

-- Either bound missing, or empty, means closed.
abbrev pub text_given : Option String → Bool
text_given none = false
text_given (some s) = not (str_eq s "")

unfoldable pub within : String → Option String → Option String → Bool
within time (some open_time) (some close_time) =
    (not (str_eq open_time "") && not (str_eq close_time ""))
    && (text_ge time open_time && text_lt time close_time)
within time _ _ = false

module _ (intl : Intl) where
  open intl use {format_date, format_time, format_weekday, parse}

  unfoldable pub get_local_parts : ℕ → String → Option LocalParts
  get_local_parts now timezone = do
    date ← format_date timezone now
    raw ← format_time timezone now
    day ← format_weekday timezone now
    some (record { date = date; day_of_week = index_of day day_names 0; time = midnight raw })

  unfoldable pub contains : Option ℕ → Option ℕ → ℕ → Bool
  contains (some starts_at) (some ends_at) now = leb starts_at now && ltb now ends_at
  contains _ _ now = false

  unfoldable pub covers : ℕ → ScheduleOverride → Bool
  covers now o = is_active_override o.status && contains (parse o.starts_at) (parse o.ends_at) now

  unfoldable pub starts : ScheduleOverride → ℕ
  starts o = elim (parse o.starts_at) [ none ↦ 0 | some n ↦ n ]

  -- A stable sort by `starts_at`, the latest first.
  unfoldable pub insert_latest : ScheduleOverride → List ScheduleOverride → List ScheduleOverride
  insert_latest o [] = o ∷ []
  insert_latest o (p ∷ ps) =
      let rest = insert_latest o ps in if leb (starts p) (starts o) then o ∷ p ∷ ps else p ∷ rest

  unfoldable pub sort_latest : List ScheduleOverride → List ScheduleOverride
  sort_latest [] = []
  sort_latest (o ∷ os) = insert_latest o (sort_latest os)

  abbrev pub head : List ScheduleOverride → Option ScheduleOverride
  head [] = none
  head (o ∷ os) = some o

  unfoldable pub resolve_active_override : List ScheduleOverride → ℕ → Option ScheduleOverride
  resolve_active_override overrides now = head (sort_latest (keep (covers now) overrides))

  unfoldable pub in_override : LocalParts → OverrideMode → ScheduleOverride → Bool
  in_override local closed o = false
  in_override local custom_hours o = within local.time o.open_time o.close_time

  unfoldable pub in_holiday : LocalParts → HolidayCalendarEntry → Bool
  in_holiday local h = if h.closed then false else within local.time h.open_time h.close_time

  unfoldable pub in_rule : LocalParts → Option WeeklyRule → Bool
  in_rule local none = false
  in_rule local (some r) = text_ge local.time r.open_time && text_lt local.time r.close_time

  unfoldable pub in_week : LocalParts → Schedule → Bool
  in_week local s =
      in_rule local (find (λ r. is_at local.day_of_week r.day_of_week) s.weekly_rules_json)

  unfoldable pub after_override : LocalParts → Schedule → Option HolidayCalendarEntry → Bool
  after_override local s none = in_week local s
  after_override local s (some h) = in_holiday local h

  unfoldable pub at_local : LocalParts → Schedule → Option ScheduleOverride → Bool
  at_local local s (some o) = in_override local o.mode o
  at_local local s none =
      after_override local s (find (λ h. str_eq h.date local.date) s.holiday_calendar_json)

  unfoldable pub is_in_business_hours : Schedule → ℕ → Bool
  is_in_business_hours s now = elim (get_local_parts now s.timezone) [
    | none ↦ false
    | some local ↦ at_local local s (resolve_active_override s.override_windows_json now)
  ]
