-- ===== src/Ivr/Validation/Visit/Marks.antt =====
-- The marks that a traversal without errors leaves: the nodes that a call can come to, and no
-- other, each of them in the graph and with the fields that it needs.
use manage_call_ai.Base.{suc, String, ◌≡◌, inl, inr, ◌⊎◌, true, List, [], some, has}
use manage_call_ai.Ivr.Graph.{GraphNode, ids_of, find_node}
use manage_call_ai.Ivr.Edges.{Reach, start, step}
use manage_call_ai.Ivr.Validation.Visit.{max_traversal_depth, found_tasks, tasks_of, traverse}
use manage_call_ai.Ivr.Validation.Visit.Closure.{IsClosed, Grows, visit-Grows}
use manage_call_ai.Ivr.Validation.Visit.Targets.{Checked, node_done}
use manage_call_ai.Ivr.Validation.Visit.Sources.{visit-AllReached}

module _ (nodes : List GraphNode) (entry : String) where
  abbrev pub reachable : List String
  reachable = (traverse nodes entry).reachable

  module _ (clean : (traverse nodes entry).errors ≡ []) where
    traverse_lem :
        Grows nodes (record { errors = []; reachable = [] }) (traverse nodes entry)
        × (has entry reachable ≡ true)
    unfolding traverse
    traverse_lem =
        visit-Grows nodes (suc max_traversal_depth) entry (record { errors = []; reachable = [] })
          clean

    closed : (x : String) → has x reachable ≡ true → IsClosed nodes reachable x
    closed x h = old ((traverse_lem.0).fresh x h)
      where
        old : (has x [] ≡ true) ⊎ IsClosed nodes reachable x → IsClosed nodes reachable x
        old (inl p) = cc
        old (inr c) = c

    pub checked :
        (x : String) (n : GraphNode)
        → has x reachable ≡ true
        → find_node x nodes ≡ some n
        → Checked (ids_of nodes) reachable n
    unfolding tasks_of found_tasks
    checked x n h e = node_done (ids_of nodes) reachable n (rw e at (closed x h))

    -- A node that a call can come to is marked and in the graph.
    pub Reach-marked :
        {x : String}
        → has entry (ids_of nodes) ≡ true
        → Reach nodes entry x
        → (has x (ids_of nodes) ≡ true) × (has x reachable ≡ true)
    Reach-marked e start = (e, traverse_lem.1)
    Reach-marked e (step n target r f edge) = (checked _ n (Reach-marked e r).1 f).edges target edge

    pub marked-Reach : (x : String) → has x reachable ≡ true → Reach nodes entry x
    unfolding traverse
    marked-Reach =
        visit-AllReached nodes entry (suc max_traversal_depth) entry
          (record { errors = []; reachable = [] }) start (λ x h. cc)
