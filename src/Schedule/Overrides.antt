-- ===== src/Schedule/Overrides.antt =====
-- The override windows of apps/api/src/modules/schedules/schedule.service.ts: building, ordering, revoking
-- and comparing them. `Date.parse`, `localeCompare` and what `randomUUID` and the clock give are parameters.
pub mod Apart
pub mod Order
use manage_call_ai.Base.{
  ℕ, String, Bool, true, false, ◌&&◌, ◌||◌, List, [], ◌∷◌, Option, none, some, if◌then◌else◌,
  str_eq, ltb, ◌==◌, map, any,
}
use manage_call_ai.Json.{Json, str, null, Props, prop}
use manage_call_ai.Text.{trim}
use manage_call_ai.Schedule.Types.{
  OverrideMode, closed, custom_hours, OverrideStatus, ScheduleOverride, is_active_override,
}
use manage_call_ai.Schedule.Checks.{validate_override_window}

pub record CreateScheduleOverrideInput : Type 0 where
  pub name : String
  pub reason : Option String
  pub starts_at : String
  pub ends_at : String
  pub mode : OverrideMode
  pub open_time : Option String
  pub close_time : Option String
  pub actor_user_id : Option String

abbrev pub mode_text : OverrideMode → String
mode_text closed = "closed"
mode_text custom_hours = "custom_hours"

abbrev pub status_text : OverrideStatus → String
status_text OverrideStatus.active = "active"
status_text OverrideStatus.revoked = "revoked"

-- A property that may be missing.
abbrev pub optional : String → Option String → Props → Props
optional key none ps = ps
optional key (some s) ps = prop key (str s) ps

abbrev pub nullable : Option String → Json
nullable none = null
nullable (some s) = str s

-- `input as unknown as Record<string, unknown>`.
unfoldable pub input_props : CreateScheduleOverrideInput → Props
input_props input = prop "name" (str input.name) (
    prop "starts_at" (str input.starts_at) (
      prop "ends_at" (str input.ends_at) (
        prop "mode" (str (mode_text input.mode)) (
          optional "open_time" input.open_time
            (optional "close_time" input.close_time Props.end)))))

-- An override as `jsonb` holds it.
unfoldable pub override_props : ScheduleOverride → Props
override_props o = prop "id" (str o.id) (
    prop "name" (str o.name) (
      prop "reason" (nullable o.reason) (
        prop "starts_at" (str o.starts_at) (
          prop "ends_at" (str o.ends_at) (
            prop "mode" (str (mode_text o.mode)) (
              optional "open_time" o.open_time (
                optional "close_time" o.close_time (
                  prop "status" (str (status_text o.status)) (
                    prop "created_by_user_id" (nullable o.created_by_user_id) (
                      prop "created_at" (str o.created_at) (
                        prop "revoked_by_user_id" (nullable o.revoked_by_user_id)
                          (prop "revoked_at" (nullable o.revoked_at) Props.end))))))))))))

-- `s?.trim() || null`.
unfoldable pub trimmed : Option String → Option String
trimmed none = none
trimmed (some s) = if str_eq (trim s) "" then none else some (trim s)

abbrev pub when_custom : OverrideMode → Option String → Option String
when_custom closed time = none
when_custom custom_hours time = time

unfoldable pub build_override : String → String → CreateScheduleOverrideInput → ScheduleOverride
build_override id created_at input = record {
  id = id;
  name = trim input.name;
  reason = trimmed input.reason;
  starts_at = input.starts_at;
  ends_at = input.ends_at;
  mode = input.mode;
  open_time = when_custom input.mode input.open_time;
  close_time = when_custom input.mode input.close_time;
  status = OverrideStatus.active;
  created_by_user_id = input.actor_user_id;
  created_at = created_at;
  revoked_by_user_id = none;
  revoked_at = none;
}

unfoldable pub revoke_row : String → Option String → String → ScheduleOverride → ScheduleOverride
revoke_row override_id actor_user_id revoked_at o =
    if str_eq o.id override_id && is_active_override o.status
    then record o {
      status = OverrideStatus.revoked;
      revoked_by_user_id = actor_user_id;
      revoked_at = some revoked_at;
    }
    else o

unfoldable pub revoke_override :
    List ScheduleOverride → String → Option String → String → Option (List ScheduleOverride)
revoke_override overrides override_id actor_user_id revoked_at =
    if any (λ o. str_eq o.id override_id) overrides
    then some (map (revoke_row override_id actor_user_id revoked_at) overrides)
    else none

-- `a < b` of two dates, false for `NaN`.
abbrev pub precedes : Option ℕ → Option ℕ → Bool
precedes (some a) (some b) = ltb a b
precedes _ _ = false

abbrev pub is_same : Option ℕ → Option ℕ → Bool
is_same (some a) (some b) = a == b
is_same _ _ = true

module _ (parse : String → Option ℕ) where
  unfoldable pub validate_create_override_input : CreateScheduleOverrideInput → Option String
  validate_create_override_input input = validate_override_window parse (input_props input) false

  unfoldable pub overlaps : ScheduleOverride → ScheduleOverride → Bool
  overlaps o candidate =
      precedes (parse candidate.starts_at) (parse o.ends_at)
      && precedes (parse o.starts_at) (parse candidate.ends_at)

  -- The first active override that overlaps the candidate; the source returns a message with its name.
  unfoldable pub has_overlap : List ScheduleOverride → ScheduleOverride → Option ScheduleOverride
  has_overlap [] candidate = none
  has_overlap (o ∷ os) candidate =
      if is_active_override o.status && overlaps o candidate
      then some o
      else has_overlap os candidate

  -- `locale_le a b`: `a.localeCompare(b) <= 0`. The comparison is 0 or `NaN`, both falsy, for equal
  -- or unreadable starts.
  module _ (locale_le : String → String → Bool) where
    unfoldable pub stays_before : ScheduleOverride → ScheduleOverride → Bool
    stays_before o p =
        precedes (parse o.starts_at) (parse p.starts_at)
        || (is_same (parse o.starts_at) (parse p.starts_at) && locale_le o.created_at p.created_at)

    unfoldable pub insert_earliest :
        ScheduleOverride → List ScheduleOverride → List ScheduleOverride
    insert_earliest o [] = o ∷ []
    insert_earliest o (p ∷ ps) =
        let rest = insert_earliest o ps in if stays_before o p then o ∷ p ∷ ps else p ∷ rest

    -- A stable sort, the earliest first.
    unfoldable pub normalize_overrides : List ScheduleOverride → List ScheduleOverride
    normalize_overrides [] = []
    normalize_overrides (o ∷ os) = insert_earliest o (normalize_overrides os)
