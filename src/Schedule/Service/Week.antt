-- ===== src/Schedule/Service/Week.antt =====
-- What the validators promise of the weekly rules and of an override window that they accept.
use manage_call_ai.Base.{
  ℕ, String, ◌≡◌, refl, Bool, true, false, not, ◌&&◌, List, [], ◌∷◌, All, any, ◌++◌, if◌then◌else◌,
  Option, none, some, inl, inr, Bool-cases, arith, leb, ◌==◌,
}
use manage_call_ai.Json.{elems, num, nat, str, or_default, Props}
use manage_call_ai.Text.{text_ge}
use manage_call_ai.Schedule.Types.{WeeklyRule, ScheduleOverride, OverrideMode, closed, custom_hours}
use manage_call_ai.Schedule.Checks.{
  first_failure, or_then, is_hhmm, is_given, day_of, has_day, add_day, seen_day, props_of,
  rule_checks, time_checks, window_checks, is_text, not_before, rule_error, rules_error,
  validate_rules, validate_override_window,
}
use manage_call_ai.Schedule.Overrides.{
  CreateScheduleOverrideInput, input_props, optional, mode_text, when_custom, precedes,
  build_override, validate_create_override_input,
}
use manage_call_ai.Schedule.Service.{rule_json, elems_of, array_json}

pub first_failure-none :
    (tests : List (Bool × String)) → first_failure tests ≡ none → All (λ t. t.0 ≡ false) tests
unfolding first_failure
first_failure-none [] h = tt
first_failure-none ((true, m) ∷ rest) h = cc
first_failure-none ((false, m) ∷ rest) h = (refl, first_failure-none rest h)

pub or_then-none_left : (a b : Option String) → or_then a b ≡ none → a ≡ none
or_then-none_left none b h = refl
or_then-none_left (some m) b h = cc

pub or_then-none_right : (a b : Option String) → or_then a b ≡ none → b ≡ none
or_then-none_right none b h = h
or_then-none_right (some m) b h = cc

-- A day of the week, and hours that end after they begin.
pub record IsRule (r : WeeklyRule) : Type 0 where
  pub day : leb r.day_of_week 6 ≡ true
  pub opens : is_hhmm r.open_time ≡ true
  pub closes : is_hhmm r.close_time ≡ true
  pub ordered : text_ge r.open_time r.close_time ≡ false

-- Rules, each for another day than the others and those already seen.
abbrev pub IsWeek : List ℕ → List WeeklyRule → Type 0
IsWeek seen [] = Unit
IsWeek seen (r ∷ rs) =
    IsRule r × (any (λ e. e == r.day_of_week) seen ≡ false) × IsWeek (r.day_of_week ∷ seen) rs

accepted_day : (n : ℕ) → not (is_given (day_of (some (num (nat n))))) ≡ false → leb n 6 ≡ true
accepted_day n h = elim (Bool-cases (leb n 6)) [
  | inl e ↦ e
  | inr ne ↦ let x : true ≡ false = rw ne at h in cc
]

rule_error-IsRule :
    (r : WeeklyRule) (seen : List ℕ)
    → rule_error seen (props_of (rule_json r)) ≡ none
    → IsRule r × (any (λ e. e == r.day_of_week) seen ≡ false)
unfolding rule_error
rule_error-IsRule r seen h =
    let tests =
      first_failure-none (rule_checks seen (or_default (props_of (rule_json r)) Props.end)) h in
    let day : leb r.day_of_week 6 ≡ true = accepted_day r.day_of_week tests.0 in
    let new : has_day (if leb r.day_of_week 6 then some r.day_of_week else none) seen ≡ false =
      tests.1.1.1.1.0 in
    (
      record {
        day = day;
        opens = ground (arith, tests.1.0);
        closes = ground (arith, tests.1.1.0);
        ordered = tests.1.1.1.0;
      },
      rw day at new,
    )

rules_error-IsWeek :
    (rs : List WeeklyRule) (seen : List ℕ)
    → rules_error (elems (elems_of rule_json rs)) seen ≡ none
    → IsWeek seen rs
unfolding rules_error elems_of
rules_error-IsWeek [] seen h = tt
rules_error-IsWeek (r ∷ rs) seen h =
    let first = rule_error seen (props_of (rule_json r)) in
    let days = seen_day (props_of (rule_json r)) seen in
    let rest = rules_error (elems (elems_of rule_json rs)) days in
    let rule = rule_error-IsRule r seen (or_then-none_left first rest h) in
    let later : rules_error (elems (elems_of rule_json rs))
          (add_day (if leb r.day_of_week 6 then some r.day_of_week else none) seen)
        ≡ none =
      or_then-none_right first rest h in
    (rule.0, rule.1, rules_error-IsWeek rs (r.day_of_week ∷ seen) (rw rule.0.day at later))

pub validate_rules-IsWeek :
    (rs : List WeeklyRule) → validate_rules (array_json rule_json rs) ≡ none → IsWeek [] rs
unfolding validate_rules
validate_rules-IsWeek rs h = rules_error-IsWeek rs [] h

-- A window that ends after it starts; custom hours are given, and end after they begin.
abbrev pub has_hours : Option String → Option String → Bool
has_hours (some open_time) (some close_time) =
    is_hhmm open_time && (is_hhmm close_time && not (text_ge open_time close_time))
has_hours _ _ = false

abbrev pub hours_if_custom : OverrideMode → Option String → Option String → Bool
hours_if_custom closed open_time close_time = true
hours_if_custom custom_hours open_time close_time = has_hours open_time close_time

module _ (parse : String → Option ℕ) where
  pub record IsWindow (o : ScheduleOverride) : Type 0 where
    pub ordered : precedes (parse o.starts_at) (parse o.ends_at) ≡ true
    pub hours : hours_if_custom o.mode o.open_time o.close_time ≡ true

  ordered_instants :
      (a b : Option ℕ)
      → not (is_given a) ≡ false
      → not (is_given b) ≡ false
      → not_before parse a b ≡ false
      → precedes a b ≡ true
  ordered_instants (some a) (some b) g h l = ground (arith, l)
  ordered_instants none b g h l = cc
  ordered_instants (some a) none g h l = cc

  input_hours :
      (mode : OverrideMode) (open_time close_time : Option String)
      → All
          (λ t. t.0 ≡ false)
          (time_checks
            (is_text parse "custom_hours" (some (str (mode_text mode))))
            (optional "open_time" open_time (optional "close_time" close_time Props.end))
            ""
            ""
            "")
      → hours_if_custom mode (when_custom mode open_time) (when_custom mode close_time) ≡ true
  input_hours closed open_time close_time h = refl
  input_hours custom_hours none none h = let x : true ≡ false = h.0 in cc
  input_hours custom_hours none (some b) h = let x : true ≡ false = h.0 in cc
  input_hours custom_hours (some a) none h = let x : true ≡ false = h.1.0 in cc
  input_hours custom_hours (some a) (some b) h = ground (arith, h.0, h.1.0, h.1.1.0)

  pub build_override-IsWindow :
      (id now : String) (input : CreateScheduleOverrideInput)
      → validate_create_override_input parse input ≡ none
      → IsWindow (build_override id now input)
  unfolding validate_create_override_input validate_override_window build_override input_props
  build_override-IsWindow id now input h =
      let tests = first_failure-none (window_checks parse (input_props input) ++ []) h in
      record {
        ordered =
            ordered_instants (parse input.starts_at) (parse input.ends_at) tests.1.0 tests.1.1.0
              tests.1.1.1.0;
        hours = input_hours input.mode input.open_time input.close_time tests.1.1.1.1.1;
      }
