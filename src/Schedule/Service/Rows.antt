-- ===== src/Schedule/Service/Rows.antt =====
-- Rows that are found or updated, and results of the service's operations.
use mathlib.Core.List.{Memᴰ}
use manage_call_ai.Base.{
  String, ◌≡◌, refl, sym, Bool, List, [], ◌∷◌, find, All, Option, none, some, Option-cases, inl,
  inr, if_elim, Bool-cases, subst, ap,
}
use manage_call_ai.Schedule.Types.{Schedule}
use manage_call_ai.Schedule.Service.{
  Result, ok, err, schedule_not_found, is_row, find_by_id, update_rows, updated_row, update_found,
  unless,
}

pub ok-same {ℓ} : {A : Type ℓ} (a b : A) → ok a ≡ ok b → a ≡ b
ok-same a b h = cc

pub unless-ok {ℓ} :
    {A : Type ℓ} (o : Option String) (r : Result A) (a : A)
    → unless o r ≡ ok a
    → (o ≡ none) × (r ≡ ok a)
unless-ok none r a h = (refl, h)
unless-ok (some m) r a h = cc

pub All-find {κ} :
    (P : Schedule → Type κ) (p : Schedule → Bool) (rows : List Schedule) (s : Schedule)
    → find p rows ≡ some s
    → All P rows
    → P s
All-find P p [] s h a = cc
All-find P p (r ∷ rows) s h a = elim (Bool-cases (p r)) [
  | inl e ↦ let x : some r ≡ some s = rw e at h in subst P (cc) a.0
  | inr ne ↦ All-find P p rows s (rw ne at h) a.1
]

pub All-update_rows {κ} :
    (P : Schedule → Type κ) (id tenant_id : String) (f : Schedule → Schedule)
    (keeps : (s : Schedule) → P s → P (f s)) (rows : List Schedule)
    → All P rows
    → All P (update_rows id tenant_id f rows)
unfolding update_rows
All-update_rows P id tenant_id f keeps [] a = tt
All-update_rows P id tenant_id f keeps (s ∷ rows) a = (
  if_elim P (is_row id tenant_id s) (keeps s a.0) a.0,
  All-update_rows P id tenant_id f keeps rows a.1,
)

pub All-update_found {κ} :
    (P : Schedule → Type κ) (id tenant_id : String) (f : Schedule → Schedule)
    (keeps : (s : Schedule) → P s → P (f s)) (rows after : List Schedule)
    → update_found id tenant_id f rows ≡ ok after
    → All P rows
    → All P after
unfolding update_found updated_row
All-update_found P id tenant_id f keeps rows after h a =
    elim (Option-cases (find_by_id id tenant_id rows)) [
      | inl e ↦ let x : err schedule_not_found ≡ ok after = rw e at h in cc
      | inr (s, e) ↦
          let x : ok (update_rows id tenant_id f rows) ≡ ok after = rw e at h in
          subst (All P) (ok-same _ _ x) (All-update_rows P id tenant_id f keeps rows a)
    ]

pub All-row {κ} :
    (P : Schedule → Type κ) (rows : List Schedule) (s : Schedule) → Memᴰ s rows → All P rows → P s
All-row P [] s m a = elim m [ ]
All-row P (r ∷ rows) s (Memᴰ.head e) a = subst P (sym e) a.0
All-row P (r ∷ rows) s (Memᴰ.tail m) a = All-row P rows s m a.1

-- An update that keeps the ids is found again.
pub find_by_id-update_rows :
    (id tenant_id : String) (f : Schedule → Schedule)
    (keeps : (r : Schedule) → is_row id tenant_id (f r) ≡ is_row id tenant_id r)
    (rows : List Schedule) (s : Schedule)
    → find_by_id id tenant_id rows ≡ some s
    → find_by_id id tenant_id (update_rows id tenant_id f rows) ≡ some (f s)
unfolding find_by_id update_rows
find_by_id-update_rows id tenant_id f keeps [] s h = cc
find_by_id-update_rows id tenant_id f keeps (r ∷ rows) s h =
    elim (Bool-cases (is_row id tenant_id r)) [
      | inl e ↦
          let x : some r ≡ some s = rw e at h in
          let y : r ≡ s = cc in rw (e, keeps r, e) (ap (λ t. some (f t)) y)
      | inr ne ↦ rw (ne, ne) (find_by_id-update_rows id tenant_id f keeps rows s (rw ne at h))
    ]
