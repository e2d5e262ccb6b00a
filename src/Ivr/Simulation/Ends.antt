-- ===== src/Ivr/Simulation/Ends.antt =====
-- The simulation of a graph that passed the validation, and how long its walk is.
use manage_call_ai.Base.{
  ℕ, suc, ◌+◌, ◌≤◌, ◌<◌, String, ◌≡◌, refl, sym, ap, subst, ◌∙◌, true, false, if_split, List, [],
  length, some, arith, str_eq,
}
use manage_call_ai.Json.{Json, obj, Props, get, array_of, or_default}
use manage_call_ai.Schedule.Types.{Schedule}
use manage_call_ai.Schedule.Hours.{Intl}
use manage_call_ai.Ivr.Graph.{GraphNode, find_node, graph_nodes, nodes_of, entry_of}
use manage_call_ai.Ivr.Edges.{Edge, Reach, start, step}
use manage_call_ai.Ivr.Planner.{build_planner_graph}
use manage_call_ai.Ivr.Planner.Nodes.{map_get-build_planner_graph}
use manage_call_ai.Ivr.Validation.{passed, validate_ivr_graph}
use manage_call_ai.Ivr.Validation.Sound.{
  IsSound, validate_ivr_graph-array, validate_ivr_graph-IsSound,
}
use manage_call_ai.Ivr.Simulation.{
  SimulationScenario, SimulationOutcome, passes, fails, start_walk, simulate_planned,
  simulate_valid, simulate_graph,
}
use manage_call_ai.Ivr.Simulation.Walks.{
  Visits, begins, goes_on, IsAt, Ended, arrives, lacks_schedule, lacks_target, lacks_hours_target,
  meets_empty_target, exceeds, length-push, run-Ended,
}

Visits-Reach :
    (nodes : List GraphNode) (entry : String) (path : List String) (id : String)
    → Visits nodes entry path id
    → Reach nodes entry id
Visits-Reach nodes entry path id begins = start
Visits-Reach nodes entry path id (goes_on {path = before} {id = at} n target v f e) =
    step n target (Visits-Reach nodes entry before at v) f e

module _ (s : SimulationScenario) (intl : Intl) (clock : ℕ)
    (schedules : List (String × Schedule)) where
  planned-Ended :
      (g : Props) (vs : List Json)
      → array_of (get "nodes" g) ≡ some vs
      → IsSound g vs
      → Ended
          (graph_nodes vs)
          (entry_of g)
          s
          intl
          clock
          schedules
          (simulate_planned s intl clock schedules (build_planner_graph g))
  unfolding simulate_planned build_planner_graph
  planned-Ended g vs a sound =
      let nodes = graph_nodes vs in
      let planner = build_planner_graph g in
      let entry : entry_of g ≡ sound.entry = ap (λ o. or_default o "") sound.entry_given in
      let exists : (path : List String) (id : String)
          → Visits nodes (entry_of g) path id
          → (n : GraphNode) × (find_node id nodes ≡ some n) =
        λ path id v.
          let x =
            sound.executable id
              (subst (λ e. Reach nodes e id) entry (Visits-Reach nodes (entry_of g) path id v)) in
          (x.node, x.found) in
      if_split (Ended nodes (entry_of g) s intl clock schedules) (str_eq (entry_of g) "")
        (λ e.
          let nonempty : str_eq (entry_of g) "" ≡ false =
            subst (λ x. str_eq x "" ≡ false) (sym entry) sound.entry_nonempty in
          absurd (true_false (sym e ∙ nonempty)))
        (λ _.
          run-Ended nodes (entry_of g) s intl clock schedules planner
            (λ id. map_get-build_planner_graph g vs id a sound.distinct) exists 100
            (some (entry_of g)) (start_walk s intl clock schedules) begins refl)
    where
      true_false : true ≡ false → ⊥
      true_false h = cc

  pub simulate_graph-Ended :
      (g : Props)
      → (validate_ivr_graph (obj g)).status ≡ passed
      → Ended
          (nodes_of g)
          (entry_of g)
          s
          intl
          clock
          schedules
          (simulate_graph s intl clock schedules g)
  unfolding simulate_graph simulate_valid
  simulate_graph-Ended g h =
      let (vs, a) = validate_ivr_graph-array g h in
      let nodes : graph_nodes vs ≡ nodes_of g = sym (ap (λ o. graph_nodes (or_default o [])) a) in
      rw h (
        subst
          (λ ns.
            Ended ns (entry_of g) s intl clock schedules
              (simulate_planned s intl clock schedules (build_planner_graph g)))
          nodes (planned-Ended g vs a (validate_ivr_graph-IsSound g vs a h)))

-- An order in which every node comes before those that it leads to.
abbrev pub IsOrdered : List GraphNode → (String → ℕ) → Type 0
IsOrdered nodes rank =
    (id : String) (n : GraphNode) (target : String)
    → find_node id nodes ≡ some n
    → Edge n target
    → rank target < rank id

module _ (nodes : List GraphNode) (entry : String) (rank : String → ℕ)
    (ordered : IsOrdered nodes rank) where
  Visits-length :
      (path : List String) (id : String)
      → Visits nodes entry path id
      → length path + rank id ≤ rank entry
  Visits-length path id begins = omega arith
  Visits-length path id (goes_on {path = before} {id = at} n target v f e) =
      rw (length-push before at) (omega (arith, Visits-length before at v, ordered at n target f e))

  IsAt-length :
      (n : GraphNode) (id : String) (path : List String)
      → IsAt nodes entry n id path
      → length path ≤ suc (rank entry)
  IsAt-length n id path a =
      rw (a.path_is, length-push a.before id) (omega (arith, Visits-length a.before id a.walked))

  Ended-length :
      (s : SimulationScenario) (intl : Intl) (clock : ℕ) (schedules : List (String × Schedule))
      (o : SimulationOutcome)
      → Ended nodes entry s intl clock schedules o
      → length o.path ≤ suc (rank entry)
  unfolding passes fails
  Ended-length s intl clock schedules o (arrives n id a w at t) = IsAt-length n id w.path at
  Ended-length s intl clock schedules o (lacks_schedule n id w at t e) = IsAt-length n id w.path at
  Ended-length s intl clock schedules o (lacks_target n id w at t b takes) =
      IsAt-length n id w.path at
  Ended-length s intl clock schedules o (lacks_hours_target n id w at t) =
      IsAt-length n id w.path at
  Ended-length s intl clock schedules o (meets_empty_target w v) =
      omega (arith, Visits-length w.path "" v)
  Ended-length s intl clock schedules o (exceeds id w v l) =
      omega (arith, Visits-length w.path id v)

-- If the nodes of a graph that passed the validation are ranked, so that every edge leads to a lower rank, a
-- simulation goes through at most as many nodes as the rank of the entry node and one.
pub simulate_graph-path_bound :
    (s : SimulationScenario) (intl : Intl) (clock : ℕ) (schedules : List (String × Schedule))
    (g : Props) (rank : String → ℕ)
    → (validate_ivr_graph (obj g)).status ≡ passed
    → IsOrdered (nodes_of g) rank
    → length (simulate_graph s intl clock schedules g).path ≤ suc (rank (entry_of g))
simulate_graph-path_bound s intl clock schedules g rank h ordered =
    Ended-length (nodes_of g) (entry_of g) rank ordered s intl clock schedules _
      (simulate_graph-Ended s intl clock schedules g h)
