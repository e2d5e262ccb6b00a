-- ===== src/Schedule/Service/Left.antt =====
-- What an added and revoked override leaves of a list.
use mathlib.Core.List.{Memᴰ}
use manage_call_ai.Base.{
  ℕ, String, ◌≡◌, refl, sym, ◌∙◌, ap, false, ◌&&◌, List, [], ◌∷◌, push, map, any, All-append,
  Option, if_elim, if_split, eq_iff, All-map, arith, str_eq,
}
use manage_call_ai.Schedule.Types.{ScheduleOverride, is_active_override}
use manage_call_ai.Schedule.Hours.{covers, resolve_active_override}
use manage_call_ai.Schedule.Overrides.{revoke_row, normalize_overrides}
use manage_call_ai.Schedule.Overrides.Apart.{IsApart}
use manage_call_ai.Schedule.Overrides.Order.{
  All-normalize_overrides, IsApart-normalize_overrides, Mem-normalize_overrides,
}
use manage_call_ai.Schedule.Service.{Host, parse}
use manage_call_ai.Schedule.Service.Sound.{IsApart-revoke, All-map_at}
use manage_call_ai.Schedule.Service.Agree.{resolve_active_override-agrees}

module _ (host : Host) (override_id : String) (by : Option String) (revoked_at : String) where
  -- What revoking leaves of the list that adding `o` made.
  abbrev pub left_of : ScheduleOverride → List ScheduleOverride → List ScheduleOverride
  left_of o os = normalize_overrides (parse host) host.locale_le (
      map (revoke_row override_id by revoked_at)
        (normalize_overrides (parse host) host.locale_le (push os o)))

  pub revoke_row-fresh :
      (p : ScheduleOverride)
      → str_eq p.id override_id ≡ false
      → revoke_row override_id by revoked_at p ≡ p
  unfolding revoke_row
  revoke_row-fresh p h = rw h refl

  -- A revoked override covers nothing.
  pub covers-revoke_row :
      (p : ScheduleOverride) (now : ℕ)
      → covers host.intl now p ≡ false
      → covers host.intl now (revoke_row override_id by revoked_at p) ≡ false
  unfolding revoke_row covers
  covers-revoke_row p now h =
      if_elim (λ x. covers host.intl now x ≡ false)
        (str_eq p.id override_id && is_active_override p.status) refl h

  pub covers-revoke_row_added :
      (p : ScheduleOverride) (now : ℕ)
      → p.id ≡ override_id
      → covers host.intl now (revoke_row override_id by revoked_at p) ≡ false
  unfolding revoke_row covers
  covers-revoke_row_added p now e =
      if_split (λ x. covers host.intl now x ≡ false)
        (str_eq p.id override_id && is_active_override p.status) (λ t. refl)
        λ f. ground (arith, f, eq_iff p.id override_id)

  pub Mem-map_revoke :
      (p : ScheduleOverride) (os : List ScheduleOverride)
      → str_eq p.id override_id ≡ false
      → Memᴰ p os
      → Memᴰ p (map (revoke_row override_id by revoked_at) os)
  Mem-map_revoke p [] f m = elim m [ ]
  Mem-map_revoke p (o ∷ os) f (Memᴰ.head e) =
      Memᴰ.head (sym (revoke_row-fresh p f) ∙ ap (revoke_row override_id by revoked_at) e)
  Mem-map_revoke p (o ∷ os) f (Memᴰ.tail m) = Memᴰ.tail (Mem-map_revoke p os f m)

  pub Mem-push :
      (p o : ScheduleOverride) (os : List ScheduleOverride) → Memᴰ p os → Memᴰ p (push os o)
  Mem-push p o [] m = elim m [ ]
  Mem-push p o (q ∷ os) (Memᴰ.head e) = Memᴰ.head e
  Mem-push p o (q ∷ os) (Memᴰ.tail m) = Memᴰ.tail (Mem-push p o os m)

  pub Mem-push_last : (o : ScheduleOverride) (os : List ScheduleOverride) → Memᴰ o (push os o)
  Mem-push_last o [] = Memᴰ.head refl
  Mem-push_last o (q ∷ os) = Memᴰ.tail (Mem-push_last o os)

  pub fresh-at :
      (p : ScheduleOverride) (os : List ScheduleOverride)
      → any (λ o. str_eq o.id override_id) os ≡ false
      → Memᴰ p os
      → str_eq p.id override_id ≡ false
  fresh-at p [] f m = elim m [ ]
  fresh-at p (q ∷ os) f (Memᴰ.head e) = rw e (ground (arith, f))
  fresh-at p (q ∷ os) f (Memᴰ.tail m) = fresh-at p os (ground (arith, f)) m

  -- At any instant the override that was active before is active again.
  pub resolve_active_override-left_of :
      (o : ScheduleOverride) (os : List ScheduleOverride) (now : ℕ)
      → IsApart host.intl (push os o)
      → o.id ≡ override_id
      → any (λ p. str_eq p.id override_id) os ≡ false
      → resolve_active_override host.intl (left_of o os) now
        ≡ resolve_active_override host.intl os now
  resolve_active_override-left_of o os now a e f =
      let le = host.locale_le in
      let rev = revoke_row override_id by revoked_at in
      let added = normalize_overrides (parse host) le (push os o) in
      let apart = IsApart-normalize_overrides host.intl le (map rev added) (
        IsApart-revoke host override_id by revoked_at added
          (IsApart-normalize_overrides host.intl le (push os o) a)) in
      resolve_active_override-agrees host.intl os (left_of o os) now apart
        (λ p m h. Mem-normalize_overrides host.intl le p (map rev added) (
          Mem-map_revoke p added (fresh-at p os f m)
            (Mem-normalize_overrides host.intl le p (push os o) (Mem-push p o os m))))
        (λ h.
          All-normalize_overrides host.intl le (λ p. covers host.intl now p ≡ false) (map rev added)
            (All-map_at host override_id by revoked_at (λ p. covers host.intl now (rev p) ≡ false)
              (λ p. covers host.intl now p ≡ false) rev (λ p c. c) added
              (All-normalize_overrides host.intl le (λ p. covers host.intl now (rev p) ≡ false)
                (push os o)
                (All-append (λ p. covers host.intl now (rev p) ≡ false) os (o ∷ [])
                  (All-map (λ p. covers-revoke_row p now) os h)
                  (covers-revoke_row_added o now e, tt)))))
