-- ===== src/Ivr/Runtime/Session/Rows.antt =====
-- What `INSERT` and `UPDATE` do to the rows of the runtime's tables, and the steps of a session.
use manage_call_ai.Base.{
  String, ◌≡◌, refl, sym, ap, subst, true, false, Bool, List, [], ◌∷◌, push, Option, none, some,
  if◌then◌else◌, arith, str_eq, eq_iff, str_eq_sym, has, has-push_iff, All, Bool-cases, inl, inr,
}
use manage_call_ai.Ivr.Runtime.Types.{IvrRuntimeSession, IvrRuntimeSessionStep}
use manage_call_ai.Ivr.Runtime.Session.{find_session, SessionUpdate, set_state, update_rows}

abbrev pub session_ids : List IvrRuntimeSession → List String
session_ids [] = []
session_ids (s ∷ rows) = s.id ∷ session_ids rows

-- The primary key.
abbrev pub IsDistinct : List String → Type 0
IsDistinct [] = Unit
IsDistinct (x ∷ xs) = (has x xs ≡ false) × IsDistinct xs

pub IsDistinct-push :
    (xs : List String) (x : String) → IsDistinct xs → has x xs ≡ false → IsDistinct (push xs x)
IsDistinct-push [] x d h = (refl, tt)
IsDistinct-push (y ∷ ys) x d h = (
  ground (arith, has-push_iff y x ys, str_eq_sym x y, d.0, h),
  IsDistinct-push ys x d.1 (ground (arith, h)),
)

pub session_ids-push :
    (rows : List IvrRuntimeSession) (s : IvrRuntimeSession)
    → session_ids (push rows s) ≡ push (session_ids rows) s.id
session_ids-push [] s = refl
session_ids-push (r ∷ rows) s = ap (λ xs. r.id ∷ xs) (session_ids-push rows s)

module _ (id : String) (u : SessionUpdate) where
  pub session_ids-update_rows :
      (rows : List IvrRuntimeSession) → session_ids (update_rows id u rows) ≡ session_ids rows
  unfolding update_rows set_state
  session_ids-update_rows [] = refl
  session_ids-update_rows (r ∷ rows) = ground (arith, session_ids-update_rows rows)

  module _ (P Q : IvrRuntimeSession → Type 0)
      (keep : (r : IvrRuntimeSession) → str_eq r.id id ≡ false → P r → Q r) where
    All-absent :
        (rows : List IvrRuntimeSession)
        → has id (session_ids rows) ≡ false
        → All P rows
        → All Q (update_rows id u rows)
    unfolding update_rows
    All-absent [] h a = tt
    All-absent (r ∷ rows) h a = elim (Bool-cases (str_eq r.id id)) [
      | inl e ↦ absurd (ground (arith, h, e))
      | inr ne ↦ rw ne (keep r ne a.0, All-absent rows (rw ne at h) a.1)
    ]

    -- An update of the row that `find_session` finds, in rows with distinct ids.
    pub All-update_rows :
        (rows : List IvrRuntimeSession) (s : IvrRuntimeSession)
        → IsDistinct (session_ids rows)
        → find_session id rows ≡ some s
        → All P rows
        → Q (set_state u s)
        → All Q (update_rows id u rows)
    unfolding update_rows
    All-update_rows [] s d f a q = cc
    All-update_rows (r ∷ rows) s d f a q = elim (Bool-cases (str_eq r.id id)) [
      | inl e ↦
          let same : some r ≡ some s = rw e at f in
          let r-s : r ≡ s = cc in
          rw e (
            subst (λ x. Q (set_state u x)) (sym r-s) q,
            All-absent rows
                (subst (λ x. has x (session_ids rows) ≡ false) ((eq_iff r.id id).0 e) d.0) a.1,
          )
      | inr ne ↦ rw ne (keep r ne a.0, All-update_rows rows s d.1 (rw ne at f) a.1 q)
    ]

pub All-push {ℓ} :
    {A : Type ℓ} (P Q : A → Type 0) (f : (a : A) → P a → Q a) (xs : List A) (x : A)
    → All P xs
    → Q x
    → All Q (push xs x)
All-push P Q f [] x a q = (q, tt)
All-push P Q f (y ∷ ys) x a q = (f y a.0, All-push P Q f ys x a.1 q)

abbrev last_of :
    Option IvrRuntimeSessionStep → Option IvrRuntimeSessionStep → Option IvrRuntimeSessionStep
last_of none o = o
last_of (some t) o = some t

-- The last recorded step of a session.
unfoldable pub latest_step : String → List IvrRuntimeSessionStep → Option IvrRuntimeSessionStep
latest_step id [] = none
latest_step id (t ∷ steps) =
    last_of (latest_step id steps) (if str_eq t.session_id id then some t else none)

pub latest_step-push :
    (id : String) (steps : List IvrRuntimeSessionStep) (t : IvrRuntimeSessionStep)
    → latest_step id (push steps t)
      ≡ (if str_eq t.session_id id then some t else latest_step id steps)
unfolding latest_step
latest_step-push id [] t = refl
latest_step-push id (x ∷ steps) t =
    rw (latest_step-push id steps t) (split (str_eq t.session_id id))
  where
    split :
        (b : Bool)
        → last_of
            (if b then some t else latest_step id steps)
            (if str_eq x.session_id id then some x else none)
          ≡ (if b
              then some t
              else last_of (latest_step id steps) (if str_eq x.session_id id then some x else none))
    split true = refl
    split false = refl
