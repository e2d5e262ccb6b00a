-- ===== src/Schedule/Overrides/Apart.antt =====
-- Lists of overrides of which no two that are active overlap, whatever their order.
use mathlib.Core.List.{Memᴰ}
use manage_call_ai.Base.{
  ℕ, String, ◌≡◌, sym, ◌∙◌, Bool, true, false, ◌&&◌, List, [], ◌∷◌, push, All, Option, none, some,
  inl, inr, Bool-cases, arith, subst, ap,
}
use manage_call_ai.Schedule.Types.{ScheduleOverride, is_active_override}
use manage_call_ai.Schedule.Hours.{Intl, covers, contains, resolve_active_override}
use manage_call_ai.Schedule.Hours.Override.{IsChosen, resolve_active_override-IsChosen}
use manage_call_ai.Schedule.Overrides.{precedes, overlaps, has_overlap}

module _ (intl : Intl) where
  abbrev pub parse : String → Option ℕ
  parse = intl.parse

  -- Both active, and with a common instant.
  unfoldable pub conflict : ScheduleOverride → ScheduleOverride → Bool
  conflict o p = is_active_override o.status && (is_active_override p.status && overlaps parse o p)

  abbrev pub NoConflict : ScheduleOverride → ScheduleOverride → Type 0
  NoConflict o p = conflict o p ≡ false

  abbrev pub IsApart : List ScheduleOverride → Type 0
  IsApart [] = Unit
  IsApart (o ∷ os) = All (NoConflict o) os × IsApart os

  pub conflict_comm : (o p : ScheduleOverride) → conflict o p ≡ conflict p o
  unfolding conflict overlaps
  conflict_comm o p = ground arith

  pub NoConflict-swap : (o p : ScheduleOverride) → NoConflict o p → NoConflict p o
  NoConflict-swap o p h = conflict_comm p o ∙ h

  pub IsApart-push :
      (os : List ScheduleOverride) (c : ScheduleOverride)
      → IsApart os
      → All (NoConflict c) os
      → IsApart (push os c)
  IsApart-push [] c h f = (tt, tt)
  IsApart-push (o ∷ os) c h f =
      (All-push os c (NoConflict-swap c o f.0) h.0, IsApart-push os c h.1 f.1)
    where
      All-push :
          (ps : List ScheduleOverride) (q : ScheduleOverride)
          → NoConflict o q
          → All (NoConflict o) ps
          → All (NoConflict o) (push ps q)
      All-push [] q n a = (n, tt)
      All-push (p ∷ ps) q n a = (a.0, All-push ps q n a.1)

  -- What `hasOverlap` finds no fault with.
  pub has_overlap-none :
      (os : List ScheduleOverride) (c : ScheduleOverride)
      → has_overlap parse os c ≡ none
      → All (NoConflict c) os
  unfolding has_overlap conflict overlaps
  has_overlap-none [] c h = tt
  has_overlap-none (o ∷ os) c h =
      elim (Bool-cases (is_active_override o.status && overlaps parse o c)) [
        | inl e ↦ let x : some o ≡ none = rw e at h in cc
        | inr ne ↦ (ground (arith, ne), has_overlap-none os c (rw ne at h))
      ]

  contains-precedes :
      (a b c d : Option ℕ) (now : ℕ)
      → contains intl a b now ≡ true
      → contains intl c d now ≡ true
      → (precedes c b && precedes a d) ≡ true
  unfolding contains
  contains-precedes (some a) (some b) (some c) (some d) now h k = ground (arith, h, k)
  contains-precedes none b c d now h k = cc
  contains-precedes (some a) none c d now h k = cc
  contains-precedes (some a) (some b) none d now h k = cc
  contains-precedes (some a) (some b) (some c) none now h k = cc

  covers-conflict :
      (o p : ScheduleOverride) (now : ℕ)
      → covers intl now o ≡ true
      → covers intl now p ≡ true
      → conflict o p ≡ true
  unfolding covers conflict overlaps
  covers-conflict o p now h k =
      let apart =
        contains-precedes (parse o.starts_at) (parse o.ends_at) (parse p.starts_at)
          (parse p.ends_at) now (ground (arith, h)) (ground (arith, k)) in
      ground (arith, h, k, apart)

  pub All-at {κ} :
      (P : ScheduleOverride → Type κ) (p : ScheduleOverride) (os : List ScheduleOverride)
      → Memᴰ p os
      → All P os
      → P p
  All-at P p [] m a = elim m [ ]
  All-at P p (o ∷ os) (Memᴰ.head e) a = subst P (sym e) a.0
  All-at P p (o ∷ os) (Memᴰ.tail m) a = All-at P p os m a.1

  -- At most one of them covers a time.
  pub covers_unique :
      (p q : ScheduleOverride) (os : List ScheduleOverride) (now : ℕ)
      → IsApart os
      → Memᴰ p os
      → Memᴰ q os
      → covers intl now p ≡ true
      → covers intl now q ≡ true
      → p ≡ q
  covers_unique p q [] now a m n h k = elim m [ ]
  covers_unique p q (o ∷ os) now a (Memᴰ.head e) (Memᴰ.head f) h k = e ∙ sym f
  covers_unique p q (o ∷ os) now a (Memᴰ.head e) (Memᴰ.tail n) h k =
      let apart : conflict o q ≡ false = All-at (NoConflict o) q os n a.0 in
      let both : conflict o q ≡ true = covers-conflict o q now (rw e at h) k in cc
  covers_unique p q (o ∷ os) now a (Memᴰ.tail m) (Memᴰ.head f) h k =
      let apart : conflict o p ≡ false = All-at (NoConflict o) p os m a.0 in
      let both : conflict o p ≡ true = covers-conflict o p now (rw f at k) h in cc
  covers_unique p q (o ∷ os) now a (Memᴰ.tail m) (Memᴰ.tail n) h k =
      covers_unique p q os now a.1 m n h k

  -- The order of the overrides then does not matter: the one that covers a time is the active one.
  pub resolve_active_override-covering :
      (p : ScheduleOverride) (os : List ScheduleOverride) (now : ℕ)
      → IsApart os
      → Memᴰ p os
      → covers intl now p ≡ true
      → resolve_active_override intl os now ≡ some p
  resolve_active_override-covering p os now a m h =
      from_chosen (resolve_active_override intl os now)
        (resolve_active_override-IsChosen intl now os)
    where
      from_chosen : (c : Option ScheduleOverride) → IsChosen intl now os c → c ≡ some p
      from_chosen none f =
          let x : covers intl now p ≡ false = All-at (λ o. covers intl now o ≡ false) p os m f in cc
      from_chosen (some q) f = ap (λ o. some o) (covers_unique q p os now a f.0 m f.1 h)
