-- ===== src/Schedule/Service/Outcome.antt =====
-- When adding an override succeeds.
use manage_call_ai.Base.{
  ℕ, String, ◌≡◌, refl, Bool, true, false, not, ◌&&◌, List, [], ◌∷◌, push, any, Option, none, some,
  inl, inr, Bool-cases, arith,
}
use manage_call_ai.Schedule.Types.{
  ScheduleOverride, Schedule, is_active_schedule, is_active_override,
}
use manage_call_ai.Schedule.Overrides.{
  CreateScheduleOverrideInput, build_override, overlaps, has_overlap,
  validate_create_override_input,
}
use manage_call_ai.Schedule.Service.{
  Result, ok, err, Host, parse, unless, find_by_id, replace_overrides, update_found, updated_row,
  add_unless, add_to, add_override,
}

abbrev pub is_ok {ℓ} : {A : Type ℓ} → Result A → Bool
is_ok (ok a) = true
is_ok (err e) = false

abbrev pub is_none {ℓ} : {A : Type ℓ} → Option A → Bool
is_none none = true
is_none (some a) = false

is_none-has_overlap :
    (read : String → Option ℕ) (os : List ScheduleOverride) (c : ScheduleOverride)
    → is_none (has_overlap read os c)
      ≡ not (any (λ o. is_active_override o.status && overlaps read o c) os)
unfolding has_overlap
is_none-has_overlap read [] c = refl
is_none-has_overlap read (o ∷ os) c = ground (arith, is_none-has_overlap read os c)

is_ok-unless {ℓ} :
    {A : Type ℓ} (o : Option String) (r : Result A) → is_ok (unless o r) ≡ (is_none o && is_ok r)
is_ok-unless none r = refl
is_ok-unless (some m) r = refl

module _ (host : Host) (id tenant_id : String) where
  is_ok-add_unless :
      (o : Option ScheduleOverride) (os : List ScheduleOverride) (rows : List Schedule)
      (s : Schedule)
      → find_by_id id tenant_id rows ≡ some s
      → is_ok (add_unless host id tenant_id o os rows) ≡ is_none o
  unfolding add_unless replace_overrides update_found updated_row
  is_ok-add_unless none os rows s h = rw h refl
  is_ok-add_unless (some p) os rows s h = refl

  is_ok-add_to :
      (c : ScheduleOverride) (rows : List Schedule) (s : Schedule)
      → find_by_id id tenant_id rows ≡ some s
      → is_ok (add_to host id tenant_id c (some s) rows) ≡ (
          is_active_schedule s.status
          && is_none (has_overlap (parse host) s.override_windows_json c))
  unfolding add_to
  is_ok-add_to c rows s h = elim (Bool-cases (is_active_schedule s.status)) [
    | inl e ↦ rw e (
        is_ok-add_unless (has_overlap (parse host) s.override_windows_json c)
          (push s.override_windows_json c) rows s h)
    | inr ne ↦ rw ne refl
  ]

  -- Adding an override to a schedule succeeds just if the input is valid, the schedule is active and no active
  -- override of it overlaps the new one.
  pub is_ok-add_override :
      (override_id now : String) (input : CreateScheduleOverrideInput) (rows : List Schedule)
      (s : Schedule)
      → find_by_id id tenant_id rows ≡ some s
      → is_ok (add_override host id tenant_id override_id now input rows) ≡ (
          is_none (validate_create_override_input (parse host) input)
          && (is_active_schedule s.status
              && not (
                  any
                    (λ o.
                      is_active_override o.status
                      && overlaps (parse host) o (build_override override_id now input))
                    s.override_windows_json)))
  unfolding add_override
  is_ok-add_override override_id now input rows s h =
      let c = build_override override_id now input in
      rw
        (
          is_ok-unless,
          h,
          is_ok-add_to c rows s h,
          is_none-has_overlap (parse host) s.override_windows_json c,
        )
        refl
