-- ===== src/Schedule/Service/Revoke.antt =====
-- Adding an override and revoking it again.
use mathlib.Core.List.{Memᴰ}
use manage_call_ai.Base.{
  ℕ, String, ◌≡◌, refl, sym, ◌∙◌, subst, true, false, List, [], ◌∷◌, push, map, any, Option, some,
  Option-cases, inl, inr, Bool-cases, arith, str_eq, eq_refl,
}
use manage_call_ai.Schedule.Types.{ScheduleOverride, Schedule, is_active_schedule}
use manage_call_ai.Schedule.Hours.{is_in_business_hours}
use manage_call_ai.Schedule.Overrides.{
  CreateScheduleOverrideInput, build_override, revoke_row, revoke_override, has_overlap,
  normalize_overrides, validate_create_override_input,
}
use manage_call_ai.Schedule.Overrides.Apart.{IsApart, IsApart-push, has_overlap-none}
use manage_call_ai.Schedule.Overrides.Order.{Mem-normalize_overrides}
use manage_call_ai.Schedule.Service.{
  ok, err, Host, parse, is_row, find_by_id, update_rows, with_overrides, replace_overrides,
  update_found, updated_row, add_unless, add_to, add_override, replace_revoked, revoke_in, revoke,
  inactive_schedule, override_overlap,
}
use manage_call_ai.Schedule.Service.Rows.{unless-ok, ok-same, find_by_id-update_rows}
use manage_call_ai.Schedule.Service.Agree.{is_in_business_hours-with_overrides}
use manage_call_ai.Schedule.Service.Left.{left_of, resolve_active_override-left_of, Mem-push_last}

module _ (host : Host) (override_id : String) (by : Option String) (revoked_at : String) where
  any-of_member :
      (o : ScheduleOverride) (os : List ScheduleOverride)
      → Memᴰ o os
      → o.id ≡ override_id
      → any (λ p. str_eq p.id override_id) os ≡ true
  any-of_member o [] m e = elim m [ ]
  any-of_member o (p ∷ os) (Memᴰ.head h) e = rw (← h, e, eq_refl) refl
  any-of_member o (p ∷ os) (Memᴰ.tail m) e = ground (arith, any-of_member o os m e)

  module _ (id tenant_id : String) where
    replace_overrides-found :
        (os : List ScheduleOverride) (rows : List Schedule) (s : Schedule)
        → find_by_id id tenant_id rows ≡ some s
        → replace_overrides host id tenant_id os rows
          ≡ ok (
              update_rows id tenant_id
                (with_overrides (normalize_overrides (parse host) host.locale_le os))
                rows)
    unfolding replace_overrides update_found updated_row
    replace_overrides-found os rows s h = rw h refl

    find_by_id-with_overrides :
        (os : List ScheduleOverride) (rows : List Schedule) (s : Schedule)
        → find_by_id id tenant_id rows ≡ some s
        → find_by_id id tenant_id (update_rows id tenant_id (with_overrides os) rows)
          ≡ some (with_overrides os s)
    unfolding with_overrides is_row
    find_by_id-with_overrides os rows s h =
        find_by_id-update_rows id tenant_id (with_overrides os) (λ r. refl) rows s h

    revoke-found :
        (os : List ScheduleOverride) (rows : List Schedule) (s : Schedule)
        → find_by_id id tenant_id rows ≡ some s
        → s.override_windows_json ≡ os
        → any (λ p. str_eq p.id override_id) os ≡ true
        → revoke host id tenant_id override_id by revoked_at rows
          ≡ replace_overrides host id tenant_id (map (revoke_row override_id by revoked_at) os) rows
    unfolding revoke revoke_in replace_revoked revoke_override
    revoke-found os rows s h e m = rw (h, e, m) refl

    -- The table after the revocation, with the schedule of the ids.
    pub record IsRestored (s : Schedule) (now : ℕ) (after : List Schedule) : Type 0 where
      pub back : List Schedule
      pub revoked : revoke host id tenant_id override_id by revoked_at after ≡ ok back
      pub row : Schedule
      pub found : find_by_id id tenant_id back ≡ some row
      pub hours : is_in_business_hours host.intl row now ≡ is_in_business_hours host.intl s now

    restored :
        (o : ScheduleOverride) (rows : List Schedule) (s : Schedule) (now : ℕ)
        → find_by_id id tenant_id rows ≡ some s
        → IsApart host.intl (push s.override_windows_json o)
        → o.id ≡ override_id
        → any (λ p. str_eq p.id override_id) s.override_windows_json ≡ false
        → IsRestored s now (
            update_rows id tenant_id
              (with_overrides
                (normalize_overrides (parse host) host.locale_le (push s.override_windows_json o)))
              rows)
    unfolding with_overrides
    restored o rows s now h a e f =
        let added =
          normalize_overrides (parse host) host.locale_le (push s.override_windows_json o) in
        let after = update_rows id tenant_id (with_overrides added) rows in
        let found = find_by_id-with_overrides added rows s h in
        let m =
          any-of_member o added
            (Mem-normalize_overrides host.intl host.locale_le o (push s.override_windows_json o)
              (Mem-push_last host override_id by revoked_at o s.override_windows_json))
            e in
        let left = left_of host override_id by revoked_at o s.override_windows_json in
        record {
          back = update_rows id tenant_id (with_overrides left) after;
          revoked =
              revoke-found added after (with_overrides added s) found refl m
              ∙ replace_overrides-found (map (revoke_row override_id by revoked_at) added) after
                  (with_overrides added s) found;
          row = with_overrides left (with_overrides added s);
          found = find_by_id-with_overrides left after (with_overrides added s) found;
          hours = is_in_business_hours-with_overrides host.intl s left now (
              resolve_active_override-left_of host override_id by revoked_at o
                s.override_windows_json now a e f);
        }

    added_to :
        (o : ScheduleOverride) (rows after : List Schedule) (s : Schedule)
        → find_by_id id tenant_id rows ≡ some s
        → IsApart host.intl s.override_windows_json
        → add_to host id tenant_id o (some s) rows ≡ ok after
        → IsApart host.intl (push s.override_windows_json o)
          × (update_rows id tenant_id
                (with_overrides (
                  normalize_overrides (parse host) host.locale_le (push s.override_windows_json o)))
                rows
              ≡ after)
    unfolding add_to add_unless
    added_to o rows after s h a k = elim (Bool-cases (is_active_schedule s.status)) [
      | inr ne ↦ let x : err inactive_schedule ≡ ok after = rw ne at k in cc
      | inl e ↦ elim (Option-cases (has_overlap (parse host) s.override_windows_json o)) [
        | inr (p, f) ↦ let x : err (override_overlap p) ≡ ok after = rw (e, f) at k in cc
        | inl f ↦
            let x : replace_overrides host id tenant_id (push s.override_windows_json o) rows
                ≡ ok after =
              rw (e, f) at k in
            (
              IsApart-push host.intl s.override_windows_json o a
                  (has_overlap-none host.intl s.override_windows_json o f),
              ok-same _ _
                  (sym (replace_overrides-found (push s.override_windows_json o) rows s h) ∙ x),
            )
      ]
    ]

    -- An override that was added under a new id, to a schedule whose active overrides do not overlap, can be
    -- revoked, and the schedule's business hours are then at every instant what they were before.
    pub revoke-add_override :
        (now : String) (input : CreateScheduleOverrideInput) (rows after : List Schedule)
        (s : Schedule) (instant : ℕ)
        → find_by_id id tenant_id rows ≡ some s
        → IsApart host.intl s.override_windows_json
        → any (λ p. str_eq p.id override_id) s.override_windows_json ≡ false
        → add_override host id tenant_id override_id now input rows ≡ ok after
        → IsRestored s instant after
    unfolding add_override build_override
    revoke-add_override now input rows after s instant h a f k =
        let o = build_override override_id now input in
        let accepted =
          unless-ok (validate_create_override_input (parse host) input)
            (add_to host id tenant_id o (find_by_id id tenant_id rows) rows) after k in
        let added = added_to o rows after s h a (rw h at accepted.1) in
        subst (IsRestored s instant) added.1 (restored o rows s instant h added.0 refl f)
