-- ===== src/Schedule/Service/Agree.antt =====
-- Override lists that give a schedule the same business hours.
use mathlib.Core.List.{Memᴰ}
use manage_call_ai.Base.{
  ℕ, ◌≡◌, refl, Bool, true, false, List, find, All, Option, none, some, str_eq,
}
use manage_call_ai.Schedule.Types.{HolidayCalendarEntry, ScheduleOverride, Schedule}
use manage_call_ai.Schedule.Hours.{
  Intl, covers, LocalParts, get_local_parts, in_week, after_override, at_local,
  resolve_active_override, is_in_business_hours,
}
use manage_call_ai.Schedule.Hours.Override.{IsChosen, resolve_active_override-IsChosen}
use manage_call_ai.Schedule.Overrides.Apart.{IsApart, All-at, resolve_active_override-covering}
use manage_call_ai.Schedule.Service.{with_overrides}

module _ (intl : Intl) where
  pub at_local-with_overrides :
      (local : LocalParts) (s : Schedule) (os : List ScheduleOverride) (c : Option ScheduleOverride)
      → at_local intl local (with_overrides os s) c ≡ at_local intl local s c
  unfolding at_local with_overrides after_override in_week
  at_local-with_overrides local s os (some o) = refl
  at_local-with_overrides local s os none =
      after_holiday (find (λ h. str_eq h.date local.date) s.holiday_calendar_json)
    where
      after_holiday :
          (h : Option HolidayCalendarEntry)
          → after_override intl local (with_overrides os s) h ≡ after_override intl local s h
      after_holiday none = refl
      after_holiday (some h) = refl

  at_parts :
      (parts : Option LocalParts) (f g : LocalParts → Bool)
      → ((local : LocalParts) → f local ≡ g local)
      → (elim parts [ none ↦ false | some local ↦ f local ])
        ≡ (elim parts [ none ↦ false | some local ↦ g local ])
  at_parts none f g h = refl
  at_parts (some local) f g h = h local

  -- The overrides count by the active one only.
  pub is_in_business_hours-with_overrides :
      (s : Schedule) (os : List ScheduleOverride) (now : ℕ)
      → resolve_active_override intl os now
        ≡ resolve_active_override intl s.override_windows_json now
      → is_in_business_hours intl (with_overrides os s) now ≡ is_in_business_hours intl s now
  unfolding is_in_business_hours with_overrides
  is_in_business_hours-with_overrides s os now h =
      at_parts (get_local_parts intl now s.timezone)
        (λ local. at_local intl local (with_overrides os s) (resolve_active_override intl os now))
        (λ local. at_local intl local s (resolve_active_override intl s.override_windows_json now))
        λ local. rw h (at_local-with_overrides local s os _)

  -- Lists with the same overrides that cover an instant, none of which overlap.
  pub resolve_active_override-agrees :
      (os ms : List ScheduleOverride) (now : ℕ)
      → IsApart intl ms
      → ((p : ScheduleOverride) → Memᴰ p os → covers intl now p ≡ true → Memᴰ p ms)
      → (All (λ p. covers intl now p ≡ false) os → All (λ p. covers intl now p ≡ false) ms)
      → resolve_active_override intl ms now ≡ resolve_active_override intl os now
  resolve_active_override-agrees os ms now a into out =
      from_chosen (resolve_active_override intl os now)
        (resolve_active_override-IsChosen intl now os)
    where
      nothing :
          (c : Option ScheduleOverride)
          → IsChosen intl now ms c
          → All (λ p. covers intl now p ≡ false) ms
          → c ≡ none
      nothing none f g = refl
      nothing (some q) f g =
          let x : covers intl now q ≡ false =
            All-at intl (λ p. covers intl now p ≡ false) q ms f.0 g in
          cc

      from_chosen :
          (c : Option ScheduleOverride)
          → IsChosen intl now os c
          → resolve_active_override intl ms now ≡ c
      from_chosen (some p) f = resolve_active_override-covering intl p ms now a (into p f.0 f.1) f.1
      from_chosen none f =
          nothing (resolve_active_override intl ms now)
            (resolve_active_override-IsChosen intl now ms) (out f)
