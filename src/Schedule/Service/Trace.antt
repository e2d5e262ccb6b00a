-- ===== src/Schedule/Service/Trace.antt =====
-- Every operation of the schedules' service, in any order.
use mathlib.Core.List.{Memᴰ}
use manage_call_ai.Base.{ℕ, String, ◌≡◌, true, List, [], All, Option, some}
use manage_call_ai.Schedule.Types.{ScheduleOverride, Schedule}
use manage_call_ai.Schedule.Hours.{covers, resolve_active_override}
use manage_call_ai.Schedule.Overrides.{CreateScheduleOverrideInput}
use manage_call_ai.Schedule.Overrides.Apart.{resolve_active_override-covering}
use manage_call_ai.Schedule.Service.{
  CreateScheduleInput, UpdateScheduleInput, ok, Host, deactivate, create, update, add_override,
  revoke,
}
use manage_call_ai.Schedule.Service.Rows.{All-row}
use manage_call_ai.Schedule.Service.Sound.{
  IsSound, create-IsSound, update-IsSound, deactivate-IsSound, add_override-IsSound, revoke-IsSound,
}

module _ (host : Host) where
  pub data Step (rows : List Schedule) : List Schedule → Type 0 where
    creates :
        (id : String) (input : CreateScheduleInput) {after : List Schedule}
        → create host id input rows ≡ ok after
        → Step rows after
    updates :
        (id tenant_id : String) (input : UpdateScheduleInput) {after : List Schedule}
        → update host id tenant_id input rows ≡ ok after
        → Step rows after
    deactivates :
        (id tenant_id : String) {after : List Schedule}
        → deactivate id tenant_id rows ≡ ok after
        → Step rows after
    adds :
        (id tenant_id override_id now : String) (input : CreateScheduleOverrideInput)
        {after : List Schedule}
        → add_override host id tenant_id override_id now input rows ≡ ok after
        → Step rows after
    revokes :
        (id tenant_id override_id : String) (by : Option String) (now : String)
        {after : List Schedule}
        → revoke host id tenant_id override_id by now rows ≡ ok after
        → Step rows after

  pub data Reached : List Schedule → Type 0 where
    no_rows : Reached []
    then_step : {rows after : List Schedule} → Reached rows → Step rows after → Reached after

  step-IsSound :
      (rows after : List Schedule)
      → Step rows after
      → All (IsSound host) rows
      → All (IsSound host) after
  step-IsSound rows after (creates id input h) a = create-IsSound host id input rows after h a
  step-IsSound rows after (updates id t input h) a = update-IsSound host id t input rows after h a
  step-IsSound rows after (deactivates id t h) a = deactivate-IsSound host id t rows after h a
  step-IsSound rows after (adds id t o now input h) a =
      add_override-IsSound host id t o now input rows after h a
  step-IsSound rows after (revokes id t o by now h) a =
      revoke-IsSound host o by now id t rows after h a

  -- Whatever the service does from the empty table, in any order: for each schedule the weekly rules are for
  -- different days and open before they close, the windows of the overrides end after they start, and no two
  -- active overrides overlap.
  pub Reached-IsSound : (rows : List Schedule) → Reached rows → All (IsSound host) rows
  Reached-IsSound rows no_rows = tt
  Reached-IsSound after (then_step {rows} before s) =
      step-IsSound rows after s (Reached-IsSound rows before)

  -- In a table that the service reached, an override of a schedule that covers an instant is the active one
  -- at that instant.
  pub resolve_active_override-covering-Reached :
      (rows : List Schedule) (s : Schedule) (o : ScheduleOverride) (now : ℕ)
      → Reached rows
      → Memᴰ s rows
      → Memᴰ o s.override_windows_json
      → covers host.intl now o ≡ true
      → resolve_active_override host.intl s.override_windows_json now ≡ some o
  resolve_active_override-covering-Reached rows s o now r m n h =
      resolve_active_override-covering host.intl o s.override_windows_json now
        (All-row (IsSound host) rows s m (Reached-IsSound rows r)).apart n h
