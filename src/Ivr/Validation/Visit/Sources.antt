-- ===== src/Ivr/Validation/Visit/Sources.antt =====
-- The visit follows edges only, so it marks nothing but what a call can come to.
use mathlib.Core.List.{Memᴰ}
use manage_call_ai.Base.{
  ℕ, zero, suc, String, ◌≡◌, refl, true, List, [], ◌∷◌, ◌++◌, Option, none, some, arith, str_eq,
  push, has, inl, inr, Bool-cases, if_elim, All-map, str_eq-cases, All, All-append, flat_map, subst,
  sym, ap,
}
use manage_call_ai.Json.{Json, str, Props, get, entries, object_of, string_field}
use manage_call_ai.Ivr.Graph.{GraphNode, ids_of, find_node}
use manage_call_ai.Ivr.Edges.{
  Link, next, timeout, invalid, default, fallback, in_hours, out_of_hours, match, no_match,
  link_field, HasLink, Edge, by_link, by_case, Reach, step,
}
use manage_call_ai.Ivr.Validation.Issues.{Issue}
use manage_call_ai.Ivr.Validation.Visit.{
  common_fields, Task, report, go, push_missing_reference, visit_found, visit_target, linked_tasks,
  special_tasks, node_tasks, case_task, case_tasks, switch_tasks, hours_tasks, caller_tasks,
  variable_tasks, queue_tasks, voicemail_tasks, of_type, require_text, require_prefixes,
  require_string, Traversal, run_tasks, found_tasks, tasks_of, visit,
}

-- The targets of a list of tasks satisfy `P`.
abbrev Targets {ℓ} : (String → Type ℓ) → Task → Type ℓ
Targets P (report e) = Unit
Targets P (go target) = P target

module _ (ids : List String) (n : GraphNode) where
  abbrev Follows : Task → Type 0
  Follows = Targets (Edge n)

  Follows-check : (key : String) → All Follows (push_missing_reference ids n key)
  unfolding push_missing_reference
  Follows-check key = ground arith

  Follows-found :
      (o : Option String)
      → ((target : String) → o ≡ some target → Edge n target)
      → All Follows (visit_found ids o)
  unfolding visit_found
  Follows-found none f = tt
  Follows-found (some target) f = if_elim (All Follows) (has target ids) (f target refl, tt) tt

  Follows-visit :
      (key : String)
      → ((target : String) → string_field key n.raw ≡ some target → Edge n target)
      → All Follows (visit_target ids n key)
  unfolding visit_target
  Follows-visit key f = Follows-found (string_field key n.raw) f

  Follows-checks :
      (fields : List String) → All Follows (flat_map (push_missing_reference ids n) fields)
  Follows-checks [] = tt
  Follows-checks (key ∷ keys) =
      All-append Follows (push_missing_reference ids n key) _ (Follows-check key)
        (Follows-checks keys)

  abbrev fields_of : List Link → List String
  fields_of [] = []
  fields_of (l ∷ ls) = link_field l ∷ fields_of ls

  Follows-visits :
      (ls : List Link)
      → All (HasLink n.type) ls
      → All Follows (flat_map (visit_target ids n) (fields_of ls))
  Follows-visits [] h = tt
  Follows-visits (l ∷ ls) h =
      All-append Follows (visit_target ids n (link_field l)) _
        (Follows-visit (link_field l) (λ target e. by_link l h.0 e)) (Follows-visits ls h.1)

  Follows-linked :
      (ls : List Link) → All (HasLink n.type) ls → All Follows (linked_tasks ids n (fields_of ls))
  unfolding linked_tasks
  Follows-linked ls h =
      All-append Follows (flat_map (push_missing_reference ids n) (fields_of ls)) _
        (Follows-checks (fields_of ls)) (Follows-visits ls h)

  Follows-case :
      (key : String) (v : Json)
      → ((target : String) → v ≡ str target → Edge n target)
      → Follows (case_task ids n key v)
  unfolding case_task
  Follows-case key (str target) f = if_elim Follows (has target ids) (f target refl) tt
  Follows-case key _ f = tt

  Follows-cases :
      (cases : List (String × Json))
      → ((key target : String) → Memᴰ (key, str target) cases → Edge n target)
      → All Follows (case_tasks ids n cases)
  unfolding case_tasks
  Follows-cases [] f = tt
  Follows-cases ((key, v) ∷ rest) f = (
    Follows-case key v (λ t e. f key t (Memᴰ.head (ap (λ w. (key, w)) (sym e)))),
    Follows-cases rest (λ k t m. f k t (Memᴰ.tail m)),
  )

  Follows-switch :
      n.type ≡ "switch"
      → (o : Option Props) → object_of (get "cases" n.raw) ≡ o
      → All Follows (switch_tasks ids n o)
  unfolding switch_tasks
  Follows-switch t none e = (tt, tt)
  Follows-switch t (some cases) e =
      Follows-cases (entries cases) (λ key target m. by_case t cases e key m)

  Follows-of_type :
      (type : String) (ts : List Task)
      → (n.type ≡ type → All Follows ts)
      → All Follows (of_type ids n type ts)
  Follows-of_type type ts f = elim (str_eq-cases n.type type) [
    | inl e ↦ if_elim (All Follows) (str_eq n.type type) (f e) tt
    | inr ne ↦ rw ne tt
  ]

  Follows-text : (e : Issue) (o : Option String) → All Follows (require_text ids e o)
  unfolding require_text
  Follows-text e none = (tt, tt)
  Follows-text e (some s) = ground arith

  Follows-string : (e : Issue) (o : Option String) → All Follows (require_string ids e o)
  unfolding require_string
  Follows-string e none = (tt, tt)
  Follows-string e (some s) = tt

  Follows-prefixes : (e : Issue) (o : Option (List Json)) → All Follows (require_prefixes ids e o)
  unfolding require_prefixes
  Follows-prefixes e none = (tt, tt)
  Follows-prefixes e (some []) = (tt, tt)
  Follows-prefixes e (some (p ∷ ps)) = tt

  abbrev join : (xs ys : List Task) → All Follows xs → All Follows ys → All Follows (xs ++ ys)
  join = All-append Follows

  -- Every node that the visit of a node goes on to is at the end of an edge.
  pub Follows-node : All Follows (node_tasks ids n)
  unfolding node_tasks special_tasks hours_tasks caller_tasks variable_tasks queue_tasks
      voicemail_tasks
  Follows-node =
      join (linked_tasks ids n common_fields) _
        (Follows-linked (next ∷ timeout ∷ invalid ∷ default ∷ fallback ∷ []) (omega arith))
        (join (of_type ids n "switch" _) _
          (Follows-of_type "switch" _ (λ t. Follows-switch t _ refl))
          (join (of_type ids n "business_hours" _) _
            (Follows-of_type "business_hours" _ λ t.
              join (require_text ids _ _) _ (Follows-text _ _)
                (Follows-linked (in_hours ∷ out_of_hours ∷ []) (t, (t, tt))))
            (join (of_type ids n "caller_id_match" _) _
              (Follows-of_type "caller_id_match" _ λ t.
                join (require_prefixes ids _ _) _ (Follows-prefixes _ _)
                  (Follows-linked (match ∷ no_match ∷ []) (t, (t, tt))))
              (join (of_type ids n "set_variable" _) _
                (Follows-of_type "set_variable" _
                  λ t. join (require_text ids _ _) _ (Follows-text _ _) (Follows-string _ _))
                (join (of_type ids n "queue" _) _ (Follows-of_type "queue" _ λ t. Follows-text _ _)
                  (Follows-of_type "voicemail_drop" _ λ t. Follows-text _ _))))))

module _ (nodes : List GraphNode) (entry : String) where
  abbrev AllReached : List String → Type 0
  AllReached xs = (x : String) → has x xs ≡ true → Reach nodes entry x

  Follows-tasks :
      (id : String) (o : Option GraphNode)
      → find_node id nodes ≡ o
      → Reach nodes entry id
      → All (Targets (Reach nodes entry)) (found_tasks nodes o)
  unfolding found_tasks
  Follows-tasks id none e r = tt
  Follows-tasks id (some n) e r =
      All-map widen (node_tasks (ids_of nodes) n) (Follows-node (ids_of nodes) n)
    where
      widen : (t : Task) → Targets (Edge n) t → Targets (Reach nodes entry) t
      widen (report i) h = tt
      widen (go target) h = step n target r e h

  abbrev VisitsReached : (String → Traversal → Traversal) → Type 0
  VisitsReached f =
      (id : String) (s : Traversal)
      → Reach nodes entry id
      → AllReached s.reachable
      → AllReached (f id s).reachable

  run_tasks-AllReached :
      (f : String → Traversal → Traversal)
      → VisitsReached f
      → (ts : List Task) (s : Traversal) → All (Targets (Reach nodes entry)) ts
      → AllReached s.reachable
      → AllReached (run_tasks f ts s).reachable
  unfolding run_tasks
  run_tasks-AllReached f v [] s h a = a
  run_tasks-AllReached f v (report i ∷ ts) s h a =
      run_tasks-AllReached f v ts (record s { errors = push s.errors i }) h.1 a
  run_tasks-AllReached f v (go target ∷ ts) s h a =
      run_tasks-AllReached f v ts (f target s) h.1 (v target s h.0 a)

  AllReached-cons :
      (id : String) (xs : List String) → Reach nodes entry id → AllReached xs → AllReached (id ∷ xs)
  AllReached-cons id xs r a x h = elim (str_eq-cases id x) [
    | inl e ↦ subst (Reach nodes entry) e r
    | inr ne ↦ a x (rw ne at h)
  ]

  pub visit-AllReached : (levels : ℕ) → VisitsReached (visit nodes levels)
  unfolding visit tasks_of
  visit-AllReached zero id s r a = a
  visit-AllReached (suc levels) id s r a = elim (Bool-cases (has id s.reachable)) [
    | inl old ↦ rw (old, visit) a
    | inr new ↦
        rw (new, visit)
          (run_tasks-AllReached (visit nodes levels) (visit-AllReached levels) (tasks_of nodes id)
            (record s { reachable = id ∷ s.reachable })
            (Follows-tasks id (find_node id nodes) refl r) (AllReached-cons id s.reachable r a))
  ]
