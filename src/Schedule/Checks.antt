-- ===== src/Schedule/Checks.antt =====
-- The validators of apps/api/src/modules/schedules/schedule.service.ts: each `if (…) return message` is a
-- pair of a test and a message, and the first test that holds is the answer, `none` for `null`.
-- `Intl.DateTimeFormat` and `Date.parse` are parameters.
use Prim.Native.Char.{Char, code}
use Prim.Native.String
use Prim.Native.String.{[] as empty, ◌∷◌ as char}
use manage_call_ai.Base.{
  ℕ, String, Bool, true, false, not, ◌&&◌, ◌||◌, List, [], ◌∷◌, ◌++◌, Option, none, some,
  if◌then◌else◌, str_eq, leb, ◌==◌, has, any,
}
use manage_call_ai.Json.{
  Json, obj, arr, str, num, bool, null, nat, Props, get, array_of, string_or_empty,
}
use manage_call_ai.Text.{trim, text_ge, is_digit, is_letter}

-- The first test that holds.
unfoldable pub first_failure : List (Bool × String) → Option String
first_failure [] = none
first_failure ((failed, message) ∷ rest) = if failed then some message else first_failure rest

abbrev pub or_then {ℓ} : {A : Type ℓ} → Option A → Option A → Option A
or_then none rest = rest
or_then (some a) rest = some a

-- The characters of a time zone's later parts: `[A-Za-z0-9_+-]`.
unfoldable pub is_zone_char : Char → Bool
unfolding is_digit is_letter
is_zone_char c = is_letter c || (is_digit c || (code c == 95 || (code c == 43 || code c == 45)))

-- A text of a shape, in which '0' stands for a digit.
unfoldable pub fits : String → String → Bool
fits empty empty = true
fits (char c shape) (char d s) =
    (if code c == 48 then is_digit d else code c == code d) && fits shape s
fits _ _ = false

-- `TIME_HHMM`, and the shape of a date.
abbrev pub is_hhmm : String → Bool
is_hhmm s = fits "00:00" s

abbrev pub is_date : String → Bool
is_date s = fits "0000-00-00" s

-- Where the matching of `VALID_IANA_TIMEZONE` stands.
pub data ZonePart : Type 0 where
  at_start in_first after_slash in_part : ZonePart

abbrev pub ends_zone : ZonePart → Bool
ends_zone in_first = true
ends_zone in_part = true
ends_zone _ = false

abbrev pub slash_or : Char → Option ZonePart → Option ZonePart
slash_or c other = if code c == 47 then some after_slash else other

abbrev pub zone_part : ZonePart → Char → Option ZonePart
zone_part at_start c = if is_letter c then some in_first else none
zone_part in_first c = if is_letter c then some in_first else slash_or c none
zone_part after_slash c = if is_zone_char c then some in_part else none
zone_part in_part c = if is_zone_char c then some in_part else slash_or c none

unfoldable pub zone_from : Option ZonePart → String → Bool
zone_from none s = false
zone_from (some part) empty = ends_zone part
zone_from (some part) (char c s) = zone_from (zone_part part c) s

unfoldable pub is_zone_name : String → Bool
unfolding zone_from is_zone_char is_letter is_digit
is_zone_name tz = zone_from (some at_start) tz

-- `typeof value === 'object' && value !== null`; an array has none of the properties that are read.
abbrev pub props_of : Json → Option Props
props_of (obj ps) = some ps
props_of (arr items) = some Props.end
props_of _ = none

-- An integer from 0 to 6.
abbrev pub day_of : Option Json → Option ℕ
day_of (some (num (nat n))) = if leb n 6 then some n else none
day_of _ = none

abbrev pub is_given {ℓ} : {A : Type ℓ} → Option A → Bool
is_given none = false
is_given (some a) = true

-- `typeof value === 'string' && p(value)`.
abbrev pub is_string_with : (String → Bool) → Option Json → Bool
is_string_with p (some (str s)) = p s
is_string_with p _ = false

abbrev pub has_day : Option ℕ → List ℕ → Bool
has_day none seen = false
has_day (some d) seen = any (λ e. e == d) seen

abbrev pub add_day : Option ℕ → List ℕ → List ℕ
add_day none seen = seen
add_day (some d) seen = d ∷ seen

-- Both bounds, as the messages' owner names them.
abbrev pub time_checks : Bool → Props → String → String → String → List (Bool × String)
time_checks asked ps open_message close_message order_message =
    (asked && not (is_string_with is_hhmm (get "open_time" ps)), open_message)
    ∷ (asked && not (is_string_with is_hhmm (get "close_time" ps)), close_message)
    ∷ (
      asked && text_ge (string_or_empty "open_time" ps) (string_or_empty "close_time" ps),
      order_message,
    )
    ∷ []

abbrev pub rule_checks : List ℕ → Props → List (Bool × String)
rule_checks seen ps =
    (not (is_given (day_of (get "day_of_week" ps))), "day_of_week must be an integer 0-6")
      ∷ time_checks true ps "open_time must be HH:MM" "close_time must be HH:MM"
          "open_time must be before close_time"
    ++ (
      has_day (day_of (get "day_of_week" ps)) seen,
      "weekly_rules_json may only contain one rule per day_of_week",
    )
      ∷ []

unfoldable pub rule_error : List ℕ → Option Props → Option String
rule_error seen none = some "Each weekly rule must be an object"
rule_error seen (some ps) = first_failure (rule_checks seen ps)

abbrev pub seen_day : Option Props → List ℕ → List ℕ
seen_day none seen = seen
seen_day (some ps) seen = add_day (day_of (get "day_of_week" ps)) seen

unfoldable pub rules_error : List Json → List ℕ → Option String
rules_error [] seen = none
rules_error (j ∷ js) seen =
    let rest = rules_error js (seen_day (props_of j) seen) in
    or_then (rule_error seen (props_of j)) rest

abbrev pub of_array : String → (List Json → Option String) → Option (List Json) → Option String
of_array message check none = some message
of_array message check (some items) = check items

unfoldable pub validate_rules : Json → Option String
validate_rules rules =
    of_array "weekly_rules_json must be an array" (λ items. rules_error items [])
      (array_of (some rules))

abbrev pub is_bool : Option Json → Bool
is_bool (some (bool b)) = true
is_bool _ = false

-- `!item.closed`, of a boolean.
abbrev pub is_open : Option Json → Bool
is_open (some (bool b)) = not b
is_open _ = false

abbrev pub is_named : String → Bool
is_named s = not (str_eq (trim s) "")

abbrev pub entry_checks : List String → Props → List (Bool × String)
entry_checks seen ps =
    (not (is_string_with is_date (get "date" ps)), "holiday calendar date must be YYYY-MM-DD")
    ∷ (not (is_string_with is_named (get "name" ps)), "holiday calendar name is required")
    ∷ (
      has (string_or_empty "date" ps) seen,
      "holiday_calendar_json may only contain one entry per date",
    )
    ∷ (not (is_bool (get "closed" ps)), "holiday calendar closed must be a boolean")
    ∷ time_checks (is_open (get "closed" ps)) ps
        "holiday calendar open_time must be HH:MM when not closed"
        "holiday calendar close_time must be HH:MM when not closed"
        "holiday calendar open_time must be before close_time"

unfoldable pub entry_error : List String → Option Props → Option String
entry_error seen none = some "Each holiday calendar entry must be an object"
entry_error seen (some ps) = first_failure (entry_checks seen ps)

abbrev pub seen_date : Option Props → List String → List String
seen_date none seen = seen
seen_date (some ps) seen = string_or_empty "date" ps ∷ seen

unfoldable pub calendar_error : List Json → List String → Option String
calendar_error [] seen = none
calendar_error (j ∷ js) seen =
    let rest = calendar_error js (seen_date (props_of j) seen) in
    or_then (entry_error seen (props_of j)) rest

unfoldable pub validate_holiday_calendar : Json → Option String
validate_holiday_calendar entries =
    of_array "holiday_calendar_json must be an array" (λ items. calendar_error items [])
      (array_of (some entries))

-- `accepts_zone tz`: `Intl.DateTimeFormat` does not throw.
unfoldable pub validate_timezone : (String → Bool) → String → Option String
validate_timezone accepts_zone tz = first_failure (
    (not (is_zone_name tz), "timezone must be a valid IANA timezone string")
    ∷ (not (accepts_zone tz), String.◌++◌ "Unknown timezone: " tz)
    ∷ [])

-- `value !== null && value !== undefined && typeof value !== 'string'`, negated.
abbrev pub is_nullable_string : Option Json → Bool
is_nullable_string none = true
is_nullable_string (some null) = true
is_nullable_string (some (str s)) = true
is_nullable_string _ = false

module _ (parse : String → Option ℕ) where
  abbrev pub is_instant : String → Bool
  is_instant s = is_given (parse s)

  abbrev pub is_nullable_instant : Option Json → Bool
  is_nullable_instant none = true
  is_nullable_instant (some null) = true
  is_nullable_instant o = is_string_with is_instant o

  -- `Date.parse(a) >= Date.parse(b)`.
  abbrev pub not_before : Option ℕ → Option ℕ → Bool
  not_before (some a) (some b) = leb b a
  not_before _ _ = false

  abbrev pub is_text : String → Option Json → Bool
  is_text text o = is_string_with (λ s. str_eq s text) o

  abbrev pub window_checks : Props → List (Bool × String)
  window_checks ps =
      (not (is_string_with is_named (get "name" ps)), "override name is required")
      ∷ (
        not (is_string_with is_instant (get "starts_at" ps)),
        "override starts_at must be an ISO datetime",
      )
      ∷ (
        not (is_string_with is_instant (get "ends_at" ps)),
        "override ends_at must be an ISO datetime",
      )
      ∷ (
        not_before (parse (string_or_empty "starts_at" ps)) (parse (string_or_empty "ends_at" ps)),
        "override ends_at must be after starts_at",
      )
      ∷ (
        not (is_text "closed" (get "mode" ps) || is_text "custom_hours" (get "mode" ps)),
        "override mode must be closed or custom_hours",
      )
      ∷ time_checks (is_text "custom_hours" (get "mode" ps)) ps
          "override open_time must be HH:MM when mode is custom_hours"
          "override close_time must be HH:MM when mode is custom_hours"
          "override open_time must be before close_time"

  abbrev pub audit_checks : Props → List (Bool × String)
  audit_checks ps =
      (not (is_string_with (λ s. not (str_eq s "")) (get "id" ps)), "override id is required")
      ∷ (
        not (is_text "active" (get "status" ps) || is_text "revoked" (get "status" ps)),
        "override status must be active or revoked",
      )
      ∷ (
        not (is_string_with is_instant (get "created_at" ps)),
        "override created_at must be an ISO datetime",
      )
      ∷ (
        not (is_nullable_string (get "created_by_user_id" ps)),
        "override created_by_user_id must be a string or null",
      )
      ∷ (
        not (is_nullable_string (get "revoked_by_user_id" ps)),
        "override revoked_by_user_id must be a string or null",
      )
      ∷ (
        not (is_nullable_instant (get "revoked_at" ps)),
        "override revoked_at must be an ISO datetime or null",
      )
      ∷ []

  unfoldable pub validate_override_window : Props → Bool → Option String
  validate_override_window ps allow_audit_fields =
      first_failure (window_checks ps ++ (if allow_audit_fields then audit_checks ps else []))

  unfoldable pub persisted_error : Option Props → Option String
  persisted_error none = some "Each override window must be an object"
  persisted_error (some ps) = validate_override_window ps true

  unfoldable pub overrides_error : List Json → Option String
  overrides_error [] = none
  overrides_error (j ∷ js) =
      let rest = overrides_error js in or_then (persisted_error (props_of j)) rest

  unfoldable pub validate_persisted_overrides : Json → Option String
  validate_persisted_overrides overrides =
      of_array "override_windows_json must be an array" overrides_error (array_of (some overrides))
