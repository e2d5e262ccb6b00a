-- ===== src/Ivr/Validation/Visit/Closure.antt =====
-- A traversal that reports nothing ends with a set that is closed: `visit` marks a node before it
-- follows its targets, so the claim is proved for the nodes marked since the call.
use manage_call_ai.Base.{
  ℕ, suc, zero, String, ◌≡◌, refl, subst, ◌⊎◌, inl, inr, true, false, List, [], ◌∷◌, arith, eq_refl,
  push, push-ne-nil, has, All, All-map, Bool-cases, str_eq-cases,
}
use manage_call_ai.Ivr.Graph.{GraphNode}
use manage_call_ai.Ivr.Validation.Visit.{Task, report, go, Traversal, run_tasks, tasks_of, visit}

-- A task that needs nothing more: it reports nothing and its target is marked.
abbrev pub IsDone : List String → Task → Type 0
IsDone reachable (report e) = ⊥
IsDone reachable (go target) = has target reachable ≡ true

abbrev pub IsSubset : List String → List String → Type 0
IsSubset xs ys = (x : String) → has x xs ≡ true → has x ys ≡ true

IsDone-mono : (xs ys : List String) → IsSubset xs ys → (t : Task) → IsDone xs t → IsDone ys t
IsDone-mono xs ys sub (report e) d = d
IsDone-mono xs ys sub (go target) d = sub target d

module _ (nodes : List GraphNode) where
  abbrev pub IsClosed : List String → String → Type 0
  IsClosed reachable id = All (IsDone reachable) (tasks_of nodes id)

  pub record Grows (s t : Traversal) : Type 0 where
    pub clean : s.errors ≡ []
    pub keeps : IsSubset s.reachable t.reachable
    pub fresh :
        (x : String)
        → has x t.reachable ≡ true
        → (has x s.reachable ≡ true) ⊎ IsClosed t.reachable x

  Grows-refl : (s : Traversal) → s.errors ≡ [] → Grows s s
  Grows-refl s e = record { clean = e; keeps = λ x h. h; fresh = λ x h. inl h }

  Grows-trans : {s t u : Traversal} → Grows s t → Grows t u → Grows s u
  Grows-trans {s} {t} {u} g h = record {
    clean = g.clean;
    keeps = λ x p. h.keeps x (g.keeps x p);
    fresh = λ x p. step x (h.fresh x p);
  }
    where
      old :
          (x : String)
          → (has x s.reachable ≡ true) ⊎ IsClosed t.reachable x
          → (has x s.reachable ≡ true) ⊎ IsClosed u.reachable x
      old x (inl p) = inl p
      old x (inr c) = inr (All-map (IsDone-mono _ _ h.keeps) (tasks_of nodes x) c)

      step :
          (x : String)
          → (has x t.reachable ≡ true) ⊎ IsClosed u.reachable x
          → (has x s.reachable ≡ true) ⊎ IsClosed u.reachable x
      step x (inl p) = old x (g.fresh x p)
      step x (inr c) = inr c

  abbrev Visits : (String → Traversal → Traversal) → Type 0
  Visits f =
      (id : String) (s : Traversal)
      → (f id s).errors ≡ []
      → Grows s (f id s) × (has id (f id s).reachable ≡ true)

  run_tasks-Grows :
      (f : String → Traversal → Traversal)
      → Visits f
      → (ts : List Task) (s : Traversal) → (run_tasks f ts s).errors ≡ []
      → Grows s (run_tasks f ts s) × All (IsDone (run_tasks f ts s).reachable) ts
  unfolding run_tasks
  run_tasks-Grows f v [] s e = (Grows-refl s e, tt)
  run_tasks-Grows f v (report i ∷ ts) s e =
      let rest = run_tasks-Grows f v ts (record s { errors = push s.errors i }) e in
      absurd (push-ne-nil s.errors i (rest.0).clean)
  run_tasks-Grows f v (go target ∷ ts) s e =
      let rest = run_tasks-Grows f v ts (f target s) e in
      let first = v target s (rest.0).clean in
      (Grows-trans first.0 rest.0, ((rest.0).keeps target first.1, rest.1))

  marked : String → Traversal → Traversal
  marked id s = record s { reachable = id ∷ s.reachable }

  -- The visit of a new node, from the run of its tasks.
  Grows-marked :
      (id : String) (s t : Traversal)
      → Grows (marked id s) t
      → IsClosed t.reachable id
      → Grows s t × (has id t.reachable ≡ true)
  unfolding marked
  Grows-marked id s t g c = (
    record {
      clean = g.clean;
      keeps = λ x p. g.keeps x (ground (arith, p));
      fresh = λ x p. split x (g.fresh x p);
    },
    g.keeps id (rw eq_refl refl),
  )
    where
      split :
          (x : String)
          → (has x (id ∷ s.reachable) ≡ true) ⊎ IsClosed t.reachable x
          → (has x s.reachable ≡ true) ⊎ IsClosed t.reachable x
      split x (inr d) = inr d
      split x (inl p) = elim (str_eq-cases id x) [
        | inl e ↦ inr (subst (IsClosed t.reachable) e c)
        | inr ne ↦ inl (ground (arith, p, ne))
      ]

  visit_old :
      (levels : ℕ) (id : String) (s : Traversal)
      → has id s.reachable ≡ true
      → visit nodes (suc levels) id s ≡ s
  unfolding visit
  visit_old levels id s h = rw (h, visit)

  visit_new :
      (levels : ℕ) (id : String) (s : Traversal)
      → has id s.reachable ≡ false
      → visit nodes (suc levels) id s
        ≡ run_tasks (visit nodes levels) (tasks_of nodes id) (marked id s)
  unfolding visit marked
  visit_new levels id s h = rw (h, visit)

  visit-zero-ne : (id : String) (s : Traversal) → (visit nodes zero id s).errors ≡ [] → ⊥
  unfolding visit
  visit-zero-ne id s e = push-ne-nil s.errors _ e

  pub visit-Grows : (levels : ℕ) → Visits (visit nodes levels)
  visit-Grows zero id s e = absurd (visit-zero-ne id s e)
  visit-Grows (suc levels) id s e = elim (Bool-cases (has id s.reachable)) [
    | inl old ↦ let same = visit_old levels id s old in rw same (Grows-refl s (rw same at e), old)
    | inr new ↦
        let same = visit_new levels id s new in
        let g =
          run_tasks-Grows (visit nodes levels) (visit-Grows levels) (tasks_of nodes id)
            (marked id s) (rw same at e) in
        rw same (Grows-marked id s _ g.0 g.1)
  ]
