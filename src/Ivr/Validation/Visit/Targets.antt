-- ===== src/Ivr/Validation/Visit/Targets.antt =====
-- The tasks of a node against its edges.
use mathlib.Core.List.{Memᴰ}
use manage_call_ai.Base.{
  String, ◌≡◌, refl, ap, true, false, List, [], ◌∷◌, ◌++◌, Option, none, some, arith, str_eq,
  eq_refl, has, All, All-append_left, All-append_right, All-flat_map_at, flat_map,
}
use manage_call_ai.Json.{Json, str, Props, get, entries, object_of, string_field}
use manage_call_ai.Ivr.Graph.{GraphNode}
use manage_call_ai.Ivr.Edges.{
  next, timeout, invalid, default, fallback, in_hours, out_of_hours, match, no_match, Edge, by_link,
  by_case,
}
use manage_call_ai.Ivr.Validation.Issues.{Issue}
use manage_call_ai.Ivr.Validation.Visit.{
  common_fields, hours_fields, caller_fields, Task, push_missing_reference, visit_found,
  visit_target, linked_tasks, special_tasks, node_tasks, case_task, case_tasks, switch_tasks,
  hours_tasks, caller_tasks, queue_tasks, voicemail_tasks, of_type, require_prefixes, require_text,
}
use manage_call_ai.Ivr.Validation.Visit.Closure.{IsDone}

-- A field that holds a text which is not empty.
abbrev pub HasText : GraphNode → String → Type 0
HasText n key = (s : String) × (string_field key n.raw ≡ some s) × (str_eq s "" ≡ false)

-- If all tasks of a node are done, each of its edges leads to a marked node.
module _ (ids : List String) (reachable : List String) where
  abbrev Done : List Task → Type 0
  Done = All (IsDone reachable)

  -- Among the nodes, and marked.
  abbrev pub IsMarked : String → Type 0
  IsMarked target = (has target ids ≡ true) × (has target reachable ≡ true)

  link_done :
      (n : GraphNode) (key target : String)
      → string_field key n.raw ≡ some target
      → Done (push_missing_reference ids n key)
      → Done (visit_target ids n key)
      → IsMarked target
  unfolding push_missing_reference visit_target visit_found
  link_done n key target e checked visited = ground arith

  linked_done :
      (n : GraphNode) (fields : List String) (key target : String)
      → has key fields ≡ true
      → string_field key n.raw ≡ some target
      → Done (linked_tasks ids n fields)
      → IsMarked target
  unfolding linked_tasks
  linked_done n fields key target h e d =
      let checks = flat_map (push_missing_reference ids n) fields in
      let visits = flat_map (visit_target ids n) fields in
      link_done n key target e
        (All-flat_map_at (IsDone reachable) (push_missing_reference ids n) key fields h
          (All-append_left (IsDone reachable) checks visits d))
        (All-flat_map_at (IsDone reachable) (visit_target ids n) key fields h
          (All-append_right (IsDone reachable) checks visits d))

  of_type_done :
      (n : GraphNode) (type : String) (ts : List Task)
      → n.type ≡ type
      → Done (of_type ids n type ts)
      → Done ts
  of_type_done n type ts e d = rw (e, eq_refl) at d

  case_done :
      (n : GraphNode) (key target : String) (cases : List (String × Json))
      → Memᴰ (key, str target) cases
      → Done (case_tasks ids n cases)
      → IsMarked target
  unfolding case_tasks case_task
  case_done n key target [] m d = elim m [ ]
  case_done n key target ((k, v) ∷ rest) (Memᴰ.head e) d =
      ground (arith, e, d.0, ap (λ (p : String × Json). p.1) e)
  case_done n key target (c ∷ rest) (Memᴰ.tail m) d = case_done n key target rest m d.1

  switch_done :
      (n : GraphNode) (cases : Props) (key target : String)
      → object_of (get "cases" n.raw) ≡ some cases
      → Memᴰ (key, str target) (entries cases)
      → Done (switch_tasks ids n (object_of (get "cases" n.raw)))
      → IsMarked target
  unfolding switch_tasks
  switch_done n cases key target e m d = case_done n key target (entries cases) m (rw e at d)

  text_done :
      (e : Issue) (o : Option String)
      → Done (require_text ids e o)
      → (s : String) × (o ≡ some s) × (str_eq s "" ≡ false)
  unfolding require_text
  text_done e none d = absurd d.0
  text_done e (some s) d = (s, refl, ground arith)

  -- What the visit has established of a node when its tasks are done.
  pub record Checked (n : GraphNode) : Type 0 where
    pub edges : (target : String) → Edge n target → IsMarked target
    pub schedule : n.type ≡ "business_hours" → HasText n "schedule_id"
    pub queue : n.type ≡ "queue" → HasText n "queue_id"
    pub voicemail_box : n.type ≡ "voicemail_drop" → HasText n "voicemail_box_id"

  Edge-done :
      (n : GraphNode) (target : String)
      → Done (linked_tasks ids n common_fields)
      → (n.type ≡ "switch" → Done (switch_tasks ids n (object_of (get "cases" n.raw))))
      → (n.type ≡ "business_hours" → Done (linked_tasks ids n hours_fields))
      → (n.type ≡ "caller_id_match" → Done (linked_tasks ids n caller_fields))
      → Edge n target
      → IsMarked target
  Edge-done n target c s h m (by_link next _ e) = linked_done n common_fields _ target refl e c
  Edge-done n target c s h m (by_link timeout _ e) = linked_done n common_fields _ target refl e c
  Edge-done n target c s h m (by_link invalid _ e) = linked_done n common_fields _ target refl e c
  Edge-done n target c s h m (by_link default _ e) = linked_done n common_fields _ target refl e c
  Edge-done n target c s h m (by_link fallback _ e) = linked_done n common_fields _ target refl e c
  Edge-done n target c s h m (by_link in_hours t e) =
      linked_done n hours_fields _ target refl e (h t)
  Edge-done n target c s h m (by_link out_of_hours t e) =
      linked_done n hours_fields _ target refl e (h t)
  Edge-done n target c s h m (by_link match t e) = linked_done n caller_fields _ target refl e (m t)
  Edge-done n target c s h m (by_link no_match t e) =
      linked_done n caller_fields _ target refl e (m t)
  Edge-done n target c s h m (by_case t cases o key mem) =
      switch_done n cases key target o mem (s t)

  abbrev left : (xs ys : List Task) → Done (xs ++ ys) → Done xs
  left = All-append_left (IsDone reachable)

  abbrev right : (xs ys : List Task) → Done (xs ++ ys) → Done ys
  right = All-append_right (IsDone reachable)

  pub node_done : (n : GraphNode) → Done (node_tasks ids n) → Checked n
  unfolding node_tasks special_tasks hours_tasks caller_tasks queue_tasks voicemail_tasks
  node_done n d =
      let s = right (linked_tasks ids n common_fields) _ d in
      let s1 = right (of_type ids n "switch" _) _ s in
      let s2 = right (of_type ids n "business_hours" _) _ s1 in
      let s3 = right (of_type ids n "caller_id_match" _) _ s2 in
      let s4 = right (of_type ids n "set_variable" _) _ s3 in
      let hours =
        λ (t : n.type ≡ "business_hours"). of_type_done n _ (hours_tasks ids n) t (left _ _ s1) in
      let caller =
        λ (t : n.type ≡ "caller_id_match"). of_type_done n _ (caller_tasks ids n) t (left _ _ s2) in
      record {
        edges = λ target.
            Edge-done n target (left _ _ d) (λ t. of_type_done n _ _ t (left _ _ s))
              (λ t. right (require_text ids _ _) _ (hours t))
              (λ t. right (require_prefixes ids _ _) _ (caller t));
        schedule = λ t. text_done _ _ (left (require_text ids _ _) _ (hours t));
        queue = λ t. text_done _ _ (of_type_done n _ (queue_tasks ids n) t (left _ _ s4));
        voicemail_box =
            λ t. text_done _ _ (of_type_done n _ (voicemail_tasks ids n) t (right _ _ s4));
      }
