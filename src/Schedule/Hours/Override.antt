-- ===== src/Schedule/Hours/Override.antt =====
-- Which override `resolveActiveOverride` chooses.
use mathlib.Core.List.{Memᴰ}
use manage_call_ai.Base.{
  ℕ, ◌≤◌, ◌≡◌, refl, ◌⊎◌, inl, inr, true, false, List, [], ◌∷◌, keep, All, All-map, Option, none,
  some, if◌then◌else◌, arith, leb, Bool-cases,
}
use manage_call_ai.Schedule.Types.{ScheduleOverride}
use manage_call_ai.Schedule.Hours.{
  Intl, covers, starts, insert_latest, sort_latest, head, resolve_active_override,
}

module _ (intl : Intl) (now : ℕ) where
  -- An override that does not cover the time, or starts no later than `o`.
  abbrev IsBefore : ScheduleOverride → ScheduleOverride → Type 0
  IsBefore o p = (covers intl now p ≡ false) ⊎ (starts intl p ≤ starts intl o)

  -- `none`: no override covers the time. `some o`: `o` is one that does, and none that does starts later.
  abbrev pub IsChosen : List ScheduleOverride → Option ScheduleOverride → Type 0
  IsChosen overrides none = All (λ p. covers intl now p ≡ false) overrides
  IsChosen overrides (some o) =
      Memᴰ o overrides × (covers intl now o ≡ true) × All (IsBefore o) overrides

  abbrev later_of : ScheduleOverride → Option ScheduleOverride → Option ScheduleOverride
  later_of o none = some o
  later_of o (some p) = if leb (starts intl p) (starts intl o) then some o else some p

  head-insert_latest :
      (o : ScheduleOverride) (xs : List ScheduleOverride)
      → head intl (insert_latest intl o xs) ≡ later_of o (head intl xs)
  unfolding insert_latest
  head-insert_latest o [] = refl
  head-insert_latest o (p ∷ ps) = ground arith

  IsChosen-covering :
      (o : ScheduleOverride) (overrides : List ScheduleOverride) (c : Option ScheduleOverride)
      → covers intl now o ≡ true
      → IsChosen overrides c
      → IsChosen (o ∷ overrides) (later_of o c)
  IsChosen-covering o overrides none v h =
      (Memᴰ.head refl, v, (inr (omega arith), All-map (λ p e. inl e) overrides h))
  IsChosen-covering o overrides (some p) v h =
      elim (Bool-cases (leb (starts intl p) (starts intl o))) [
        | inl e ↦ rw e (Memᴰ.head refl, v, (inr (omega arith), All-map (weaken e) overrides h.2))
        | inr ne ↦ rw ne (Memᴰ.tail h.0, h.1, (inr (ground (arith, ne)), h.2))
      ]
    where
      weaken :
          leb (starts intl p) (starts intl o) ≡ true
          → (q : ScheduleOverride) → IsBefore p q
          → IsBefore o q
      weaken e q (inl f) = inl f
      weaken e q (inr l) = inr (ground (arith, e, l))

  IsChosen-other :
      (o : ScheduleOverride) (overrides : List ScheduleOverride) (c : Option ScheduleOverride)
      → covers intl now o ≡ false
      → IsChosen overrides c
      → IsChosen (o ∷ overrides) c
  IsChosen-other o overrides none v h = (v, h)
  IsChosen-other o overrides (some p) v h = (Memᴰ.tail h.0, h.1, (inl v, h.2))

-- The active override is one that covers the time, and no override that covers the time starts later; there is
-- none just if no override covers the time.
pub resolve_active_override-IsChosen :
    (intl : Intl) (now : ℕ) (overrides : List ScheduleOverride)
    → IsChosen intl now overrides (resolve_active_override intl overrides now)
unfolding resolve_active_override sort_latest
resolve_active_override-IsChosen intl now [] = tt
resolve_active_override-IsChosen intl now (o ∷ overrides) =
    let rest = resolve_active_override-IsChosen intl now overrides in
    elim (Bool-cases (covers intl now o)) [
      | inl e ↦
          rw
            (e, head-insert_latest intl now o (sort_latest intl (keep (covers intl now) overrides)))
            (IsChosen-covering intl now o overrides _ e rest)
      | inr ne ↦ rw ne (IsChosen-other intl now o overrides _ ne rest)
    ]
