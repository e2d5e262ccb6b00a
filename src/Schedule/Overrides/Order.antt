-- ===== src/Schedule/Overrides/Order.antt =====
-- The sorting of the overrides changes their order only.
use mathlib.Core.List.{Memᴰ}
use manage_call_ai.Base.{String, refl, sym, Bool, List, [], ◌∷◌, All, if_elim, subst}
use manage_call_ai.Schedule.Types.{ScheduleOverride}
use manage_call_ai.Schedule.Hours.{Intl}
use manage_call_ai.Schedule.Overrides.{stays_before, insert_earliest, normalize_overrides}
use manage_call_ai.Schedule.Overrides.Apart.{parse, NoConflict, NoConflict-swap, IsApart}

module _ (intl : Intl) (le : String → String → Bool) where
  -- A list whose elements are those of `o ∷ ps`, in another order.
  All-insert_earliest {κ} :
      (P : ScheduleOverride → Type κ) (o : ScheduleOverride) (ps : List ScheduleOverride)
      → P o
      → All P ps
      → All P (insert_earliest (parse intl) le o ps)
  unfolding insert_earliest
  All-insert_earliest P o [] h a = (h, tt)
  All-insert_earliest P o (p ∷ ps) h a =
      let rest = All-insert_earliest P o ps h a.1 in
      if_elim (All P) (stays_before (parse intl) le o p) (h, a) (a.0, rest)

  pub All-normalize_overrides {κ} :
      (P : ScheduleOverride → Type κ) (os : List ScheduleOverride)
      → All P os
      → All P (normalize_overrides (parse intl) le os)
  unfolding normalize_overrides
  All-normalize_overrides P [] a = tt
  All-normalize_overrides P (o ∷ os) a =
      All-insert_earliest P o _ a.0 (All-normalize_overrides P os a.1)

  IsApart-insert_earliest :
      (o : ScheduleOverride) (ps : List ScheduleOverride)
      → All (NoConflict intl o) ps
      → IsApart intl ps
      → IsApart intl (insert_earliest (parse intl) le o ps)
  unfolding insert_earliest
  IsApart-insert_earliest o [] f a = (tt, tt)
  IsApart-insert_earliest o (p ∷ ps) f a =
      let rest = IsApart-insert_earliest o ps f.1 a.1 in
      if_elim (IsApart intl) (stays_before (parse intl) le o p) (f, a)
        (All-insert_earliest (NoConflict intl p) o ps (NoConflict-swap intl o p f.0) a.0, rest)

  pub IsApart-normalize_overrides :
      (os : List ScheduleOverride)
      → IsApart intl os
      → IsApart intl (normalize_overrides (parse intl) le os)
  unfolding normalize_overrides
  IsApart-normalize_overrides [] a = tt
  IsApart-normalize_overrides (o ∷ os) a =
      IsApart-insert_earliest o _ (All-normalize_overrides (NoConflict intl o) os a.0)
        (IsApart-normalize_overrides os a.1)

  Mem-insert_earliest_head :
      (o : ScheduleOverride) (ps : List ScheduleOverride)
      → Memᴰ o (insert_earliest (parse intl) le o ps)
  unfolding insert_earliest
  Mem-insert_earliest_head o [] = Memᴰ.head refl
  Mem-insert_earliest_head o (p ∷ ps) =
      let rest = Mem-insert_earliest_head o ps in
      if_elim (Memᴰ o) (stays_before (parse intl) le o p) (Memᴰ.head refl) (Memᴰ.tail rest)

  Mem-insert_earliest_tail :
      (q o : ScheduleOverride) (ps : List ScheduleOverride)
      → Memᴰ q ps
      → Memᴰ q (insert_earliest (parse intl) le o ps)
  unfolding insert_earliest
  Mem-insert_earliest_tail q o [] m = elim m [ ]
  Mem-insert_earliest_tail q o (p ∷ ps) (Memᴰ.head e) =
      if_elim (Memᴰ q) (stays_before (parse intl) le o p) (Memᴰ.tail (Memᴰ.head e)) (Memᴰ.head e)
  Mem-insert_earliest_tail q o (p ∷ ps) (Memᴰ.tail m) =
      let rest = Mem-insert_earliest_tail q o ps m in
      if_elim (Memᴰ q) (stays_before (parse intl) le o p) (Memᴰ.tail (Memᴰ.tail m)) (Memᴰ.tail rest)

  pub Mem-normalize_overrides :
      (q : ScheduleOverride) (os : List ScheduleOverride)
      → Memᴰ q os
      → Memᴰ q (normalize_overrides (parse intl) le os)
  unfolding normalize_overrides
  Mem-normalize_overrides q [] m = elim m [ ]
  Mem-normalize_overrides q (o ∷ os) (Memᴰ.head e) =
      subst
        (λ x. Memᴰ x (insert_earliest (parse intl) le o (normalize_overrides (parse intl) le os)))
        (sym e) (Mem-insert_earliest_head o _)
  Mem-normalize_overrides q (o ∷ os) (Memᴰ.tail m) =
      Mem-insert_earliest_tail q o _ (Mem-normalize_overrides q os m)
