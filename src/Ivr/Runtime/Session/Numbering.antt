-- ===== src/Ivr/Runtime/Session/Numbering.antt =====
-- The numbers of the steps of a session.
use manage_call_ai.Base.{
  ℕ, zero, suc, ◌<◌, String, ◌≡◌, refl, ap, ◌∙◌, false, List, [], ◌∷◌, push, if◌then◌else◌, arith,
  str_eq, eq_iff, str_eq-cases, ◌⊎◌, inl, inr, ltb,
}
use manage_call_ai.Ivr.Runtime.Types.{IvrRuntimeSessionStep}
use manage_call_ai.Ivr.Runtime.Session.{Store, max_step_index, record_session_step}

-- The numbers of the steps of a session, in the order of recording.
abbrev pub step_numbers : String → List IvrRuntimeSessionStep → List ℕ
step_numbers id [] = []
step_numbers id (t ∷ steps) =
    let rest = step_numbers id steps in if str_eq t.session_id id then t.step_index ∷ rest else rest

abbrev pub up_to : ℕ → List ℕ
up_to zero = []
up_to (suc n) = push (up_to n) (suc n)

-- The steps of every session are numbered 1, 2, 3, … in the order of recording.
abbrev pub IsNumbered : List IvrRuntimeSessionStep → Type 0
IsNumbered steps = (id : String) → (n : ℕ) × (step_numbers id steps ≡ up_to n)

greatest : List ℕ → ℕ
greatest [] = 0
greatest (x ∷ xs) = let rest = greatest xs in if ltb rest x then x else rest

max_step_index_lem :
    (id : String) (steps : List IvrRuntimeSessionStep)
    → max_step_index id steps ≡ greatest (step_numbers id steps)
unfolding max_step_index greatest
max_step_index_lem id [] = refl
max_step_index_lem id (t ∷ steps) = ground (arith, max_step_index_lem id steps)

greatest-push : (xs : List ℕ) (x : ℕ) → greatest xs < x → greatest (push xs x) ≡ x
unfolding greatest
greatest-push [] x h = ground (arith, h)
greatest-push (y ∷ ys) x h = ground (arith, greatest-push ys x, h)

greatest-up_to : (n : ℕ) → greatest (up_to n) ≡ n
unfolding greatest
greatest-up_to zero = refl
greatest-up_to (suc n) = greatest-push (up_to n) (suc n) (ground (arith, greatest-up_to n))

step_numbers-push :
    (id : String) (steps : List IvrRuntimeSessionStep) (t : IvrRuntimeSessionStep)
    → step_numbers id (push steps t) ≡ (
        if str_eq t.session_id id
        then push (step_numbers id steps) t.step_index
        else step_numbers id steps)
step_numbers-push id [] t = refl
step_numbers-push id (x ∷ steps) t = ground (arith, step_numbers-push id steps t)

last_number :
    (id : String) (steps : List IvrRuntimeSessionStep) (n : ℕ)
    → step_numbers id steps ≡ up_to n
    → max_step_index id steps ≡ n
last_number id steps n h = max_step_index_lem id steps ∙ ap greatest h ∙ greatest-up_to n

abbrev recorded : IvrRuntimeSessionStep → Store → IvrRuntimeSessionStep
recorded t st = record t { step_index = suc (max_step_index t.session_id st.session_steps) }

pub record_session_step-IsNumbered :
    (t : IvrRuntimeSessionStep) (st : Store)
    → IsNumbered st.session_steps
    → IsNumbered (record_session_step t st).session_steps
unfolding record_session_step
record_session_step-IsNumbered t st h id = split (str_eq-cases t.session_id id)
  where
    split :
        (t.session_id ≡ id) ⊎ (str_eq t.session_id id ≡ false)
        → (n : ℕ) × (step_numbers id (push st.session_steps (recorded t st)) ≡ up_to n)
    split (inl e) =
        let (n, numbers) = h id in
        let next : max_step_index t.session_id st.session_steps ≡ n =
          ap (λ x. max_step_index x st.session_steps) e
          ∙ last_number id st.session_steps n numbers in
        (
          suc n,
          step_numbers-push id st.session_steps (recorded t st)
              ∙ ground (arith, (eq_iff t.session_id id).1 e, numbers, next),
        )
    split (inr ne) =
        let (n, numbers) = h id in
        (n, step_numbers-push id st.session_steps (recorded t st) ∙ ground (arith, ne, numbers))
