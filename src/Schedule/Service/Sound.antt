-- ===== src/Schedule/Service/Sound.antt =====
-- What each operation of the schedules' service keeps of the schedules.
use manage_call_ai.Base.{
  String, ◌≡◌, refl, ◌&&◌, List, [], ◌∷◌, push, map, All, All-append, Option, none, some,
  Option-cases, inl, inr, if_elim, Bool-cases, arith, subst, str_eq, any,
}
use manage_call_ai.Json.{or_default}
use manage_call_ai.Schedule.Types.{
  WeeklyRule, ScheduleOverride, Schedule, is_active_schedule, is_active_override,
}
use manage_call_ai.Schedule.Checks.{validate_timezone, validate_rules}
use manage_call_ai.Schedule.Overrides.{
  CreateScheduleOverrideInput, build_override, revoke_row, revoke_override, has_overlap,
  normalize_overrides, validate_create_override_input,
}
use manage_call_ai.Schedule.Overrides.Apart.{
  conflict, NoConflict, IsApart, IsApart-push, has_overlap-none,
}
use manage_call_ai.Schedule.Overrides.Order.{All-normalize_overrides, IsApart-normalize_overrides}
use manage_call_ai.Schedule.Service.{
  CreateScheduleInput, UpdateScheduleInput, ok, err, schedule_not_found, inactive_schedule,
  override_overlap, override_not_found, Host, parse, is_row, find_by_id, inserted, set_fields,
  deactivated, with_overrides, deactivate, when_given, Mutation, rule_json, array_json,
  validate_schedule_mutation, create, update, replace_overrides, add_unless, add_to, add_override,
  replace_revoked, revoke_in, revoke, map_create_input, map_update_input, mutation_of_create,
  mutation_of_update,
}
use manage_call_ai.Schedule.Service.Week.{
  IsWeek, validate_rules-IsWeek, IsWindow, build_override-IsWindow, or_then-none_left,
  or_then-none_right,
}
use manage_call_ai.Schedule.Service.Rows.{unless-ok, ok-same, All-find, All-update_found}

module _ (host : Host) where
  -- The rules are for different days, with hours that end after they begin; the overrides are windows
  -- that end after they start, and no two active ones overlap.
  pub record IsSound (s : Schedule) : Type 0 where
    pub week : IsWeek [] s.weekly_rules_json
    pub windows : All (IsWindow host.intl.parse) s.override_windows_json
    pub apart : IsApart host.intl s.override_windows_json

  pub IsWeek-kept :
      (o : Option (List WeeklyRule)) (old : List WeeklyRule)
      → when_given (λ rs. validate_rules (array_json rule_json rs)) o ≡ none
      → IsWeek [] old
      → IsWeek [] (or_default o old)
  IsWeek-kept none old h w = w
  IsWeek-kept (some rs) old h w = validate_rules-IsWeek rs h

  accepted_rules :
      (m : Mutation) (old : List WeeklyRule)
      → validate_schedule_mutation host m ≡ none
      → IsWeek [] old
      → IsWeek [] (or_default m.weekly_rules_json old)
  unfolding validate_schedule_mutation
  accepted_rules m old h w =
      let zone = when_given (validate_timezone host.accepts_zone) m.timezone in
      let rules = when_given (λ rs. validate_rules (array_json rule_json rs)) m.weekly_rules_json in
      IsWeek-kept m.weekly_rules_json old (or_then-none_left rules _ (or_then-none_right zone _ h))
        w

  pub create-IsSound :
      (id : String) (input : CreateScheduleInput) (rows after : List Schedule)
      → create host id input rows ≡ ok after
      → All IsSound rows
      → All IsSound after
  unfolding create inserted
  create-IsSound id input rows after h a =
      let n = map_create_input input in
      let accepted =
        unless-ok (validate_schedule_mutation host (mutation_of_create host n)) _ after h in
      let row : IsSound (inserted id n) = record {
        week = accepted_rules (mutation_of_create host n) [] accepted.0 tt;
        windows = tt;
        apart = tt;
      } in
      let e : ok (push rows (inserted id n)) ≡ ok after = accepted.1 in
      subst (All IsSound) (ok-same _ _ e) (All-append IsSound rows _ a (row, tt))

  pub update-IsSound :
      (id tenant_id : String) (input : UpdateScheduleInput) (rows after : List Schedule)
      → update host id tenant_id input rows ≡ ok after
      → All IsSound rows
      → All IsSound after
  unfolding update set_fields
  update-IsSound id tenant_id input rows after h a =
      let n = map_update_input input in
      let accepted =
        unless-ok (validate_schedule_mutation host (mutation_of_update host n)) _ after h in
      let keeps : (s : Schedule) → IsSound s → IsSound (set_fields n s) = λ s i. record {
        week = accepted_rules (mutation_of_update host n) s.weekly_rules_json accepted.0 i.week;
        windows = i.windows;
        apart = i.apart;
      } in
      All-update_found IsSound id tenant_id (set_fields n) keeps rows after accepted.1 a

  pub deactivate-IsSound :
      (id tenant_id : String) (rows after : List Schedule)
      → deactivate id tenant_id rows ≡ ok after
      → All IsSound rows
      → All IsSound after
  unfolding deactivate deactivated
  deactivate-IsSound id tenant_id rows after h a =
      let keeps : (s : Schedule) → IsSound s → IsSound (deactivated s) =
        λ s i. record { week = i.week; windows = i.windows; apart = i.apart } in
      All-update_found IsSound id tenant_id deactivated keeps rows after h a

  pub replace_overrides-IsSound :
      (id tenant_id : String) (os : List ScheduleOverride) (rows after : List Schedule)
      → replace_overrides host id tenant_id os rows ≡ ok after
      → All (IsWindow host.intl.parse) os
      → IsApart host.intl os
      → All IsSound rows
      → All IsSound after
  unfolding replace_overrides with_overrides
  replace_overrides-IsSound id tenant_id os rows after h w apart a =
      let sorted = normalize_overrides (parse host) host.locale_le os in
      let keeps : (s : Schedule) → IsSound s → IsSound (with_overrides sorted s) = λ s i. record {
        week = i.week;
        windows = All-normalize_overrides host.intl host.locale_le _ os w;
        apart = IsApart-normalize_overrides host.intl host.locale_le os apart;
      } in
      All-update_found IsSound id tenant_id (with_overrides sorted) keeps rows after h a

  pub add_to-IsSound :
      (id tenant_id : String) (o : ScheduleOverride) (s : Schedule) (rows after : List Schedule)
      → add_to host id tenant_id o (some s) rows ≡ ok after
      → IsWindow host.intl.parse o
      → IsSound s
      → All IsSound rows
      → All IsSound after
  unfolding add_to add_unless
  add_to-IsSound id tenant_id o s rows after h w i a =
      elim (Bool-cases (is_active_schedule s.status)) [
        | inr ne ↦ let x : err inactive_schedule ≡ ok after = rw ne at h in cc
        | inl e ↦ elim (Option-cases (has_overlap (parse host) s.override_windows_json o)) [
          | inr (p, f) ↦ let x : err (override_overlap p) ≡ ok after = rw (e, f) at h in cc
          | inl f ↦
              replace_overrides-IsSound id tenant_id (push s.override_windows_json o) rows after
                (rw (e, f) at h)
                (All-append (IsWindow host.intl.parse) s.override_windows_json _ i.windows (w, tt))
                (IsApart-push host.intl s.override_windows_json o i.apart
                  (has_overlap-none host.intl s.override_windows_json o f))
                a
        ]
      ]

  pub add_override-IsSound :
      (id tenant_id override_id now : String) (input : CreateScheduleOverrideInput)
      (rows after : List Schedule)
      → add_override host id tenant_id override_id now input rows ≡ ok after
      → All IsSound rows
      → All IsSound after
  unfolding add_override add_to find_by_id
  add_override-IsSound id tenant_id override_id now input rows after h a =
      let o = build_override override_id now input in
      let valid =
        unless-ok (validate_create_override_input (parse host) input)
          (add_to host id tenant_id o (find_by_id id tenant_id rows) rows) after h in
      let w = build_override-IsWindow (parse host) override_id now input valid.0 in
      elim (Option-cases (find_by_id id tenant_id rows)) [
        | inl e ↦ let x : err schedule_not_found ≡ ok after = rw e at valid.1 in cc
        | inr (s, e) ↦
            add_to-IsSound id tenant_id o s rows after (rw e at valid.1) w
              (All-find IsSound (is_row id tenant_id) rows s e a) a
      ]

  module _ (override_id : String) (by : Option String) (now : String) where
    pub NoConflict-revoke_row :
        (o p : ScheduleOverride)
        → NoConflict host.intl o p
        → NoConflict host.intl (revoke_row override_id by now o) (revoke_row override_id by now p)
    unfolding revoke_row conflict
    NoConflict-revoke_row o p h =
        if_elim (λ x. NoConflict host.intl x (revoke_row override_id by now p))
          (str_eq o.id override_id && is_active_override o.status) refl
          (if_elim (NoConflict host.intl o) (str_eq p.id override_id && is_active_override p.status)
            (ground arith) h)

    pub IsWindow-revoke_row :
        (o : ScheduleOverride)
        → IsWindow host.intl.parse o
        → IsWindow host.intl.parse (revoke_row override_id by now o)
    unfolding revoke_row
    IsWindow-revoke_row o h =
        if_elim (IsWindow host.intl.parse) (str_eq o.id override_id && is_active_override o.status)
          (record { ordered = h.ordered; hours = h.hours }) h

    pub All-map_at {κ ι} :
        (P : ScheduleOverride → Type κ) (Q : ScheduleOverride → Type ι)
        (f : ScheduleOverride → ScheduleOverride) (g : (o : ScheduleOverride) → P o → Q (f o))
        (os : List ScheduleOverride)
        → All P os
        → All Q (map f os)
    All-map_at P Q f g [] a = tt
    All-map_at P Q f g (o ∷ os) a = (g o a.0, All-map_at P Q f g os a.1)

    pub IsApart-revoke :
        (os : List ScheduleOverride)
        → IsApart host.intl os
        → IsApart host.intl (map (revoke_row override_id by now) os)
    IsApart-revoke [] a = tt
    IsApart-revoke (o ∷ os) a = (
      All-map_at (NoConflict host.intl o) _ (revoke_row override_id by now)
          (NoConflict-revoke_row o) os a.0,
      IsApart-revoke os a.1,
    )

    pub replace_revoked-IsSound :
        (id tenant_id : String) (s : Schedule) (rows after : List Schedule)
        → replace_revoked host id tenant_id
            (revoke_override s.override_windows_json override_id by now)
            rows
          ≡ ok after
        → IsSound s
        → All IsSound rows
        → All IsSound after
    unfolding replace_revoked revoke_override
    replace_revoked-IsSound id tenant_id s rows after h i a =
        let os = s.override_windows_json in
        elim (Bool-cases (any (λ o. str_eq o.id override_id) os)) [
          | inr ne ↦ let x : err override_not_found ≡ ok after = rw ne at h in cc
          | inl e ↦
              replace_overrides-IsSound id tenant_id (map (revoke_row override_id by now) os) rows
                after (rw e at h)
                (All-map_at (IsWindow host.intl.parse) _ (revoke_row override_id by now)
                  IsWindow-revoke_row os i.windows)
                (IsApart-revoke os i.apart) a
        ]

    pub revoke-IsSound :
        (id tenant_id : String) (rows after : List Schedule)
        → revoke host id tenant_id override_id by now rows ≡ ok after
        → All IsSound rows
        → All IsSound after
    unfolding revoke revoke_in find_by_id
    revoke-IsSound id tenant_id rows after h a =
        elim (Option-cases (find_by_id id tenant_id rows)) [
          | inl e ↦ let x : err schedule_not_found ≡ ok after = rw e at h in cc
          | inr (s, e) ↦
              replace_revoked-IsSound id tenant_id s rows after (rw e at h)
                (All-find IsSound (is_row id tenant_id) rows s e a) a
        ]
