-- ===== src/Ivr/Simulation/Tests.antt =====
-- The simulation of a menu that hangs up after it has collected digits.
use manage_call_ai.Base.{
  ℕ, suc, ◌≤◌, String, ◌≡◌, refl, sym, subst, inl, inr, false, [], ◌∷◌, length, none, some, arith,
  str_eq, eq_iff, if◌then◌else◌, Bool-cases,
}
use manage_call_ai.Json.{str, arr, obj, nil, cons, Props, end, prop}
use manage_call_ai.Schedule.Hours.{Intl}
use manage_call_ai.Ivr.Graph.{GraphNode, nodes_of, entry_of, find_node}
use manage_call_ai.Ivr.Edges.{Link, Edge, by_link, by_case}
use manage_call_ai.Ivr.Validation.{passed, validate_ivr_graph}
use manage_call_ai.Ivr.Simulation.{SimulationScenario, simulate_graph}
use manage_call_ai.Ivr.Simulation.Ends.{IsOrdered, simulate_graph-path_bound}
use manage_call_ai.Ivr.Graph
use manage_call_ai.Ivr.Validation
use manage_call_ai.Ivr.Validation.NodeScan
use manage_call_ai.Ivr.Validation.Visit

abbrev menu_props : Props
menu_props = prop "id" (str "menu") (
    prop "type" (str "play_collect") (
      prop "prompt_id" (str "p1")
        (prop "next_node_id" (str "bye") (prop "timeout_node_id" (str "bye") end))))

abbrev bye_props : Props
bye_props = prop "id" (str "bye") (prop "type" (str "hangup") end)

abbrev menu_node : GraphNode
menu_node = record { id = "menu"; type = "play_collect"; raw = menu_props }

abbrev bye_node : GraphNode
bye_node = record { id = "bye"; type = "hangup"; raw = bye_props }

abbrev menu_graph : Props
menu_graph =
    prop "entry_node_id" (str "menu")
      (prop "nodes" (arr (cons (obj menu_props) (cons (obj bye_props) nil))) end)

abbrev scenario : SimulationScenario
scenario = record {
  digits = some ("4" ∷ "2" ∷ []);
  collected_digits = none;
  caller_number = none;
  now = none;
  force_timeout = false;
  force_timeout_nodes = none;
  force_invalid = false;
  force_invalid_nodes = none;
  variables = none;
}

abbrev intl : Intl
intl = record {
  format_date = λ zone now. none;
  format_time = λ zone now. none;
  format_weekday = λ zone now. none;
  parse = λ s. none;
}

menu_graph-passed : (validate_ivr_graph (obj menu_graph)).status ≡ passed
unfolding Validation.traverse_entry Validation.finish Validation.traverse_scan
    Validation.validate_nodes Validation.validate_ivr_graph NodeScan.check_type
    NodeScan.check_retries NodeScan.check_prompt NodeScan.scan_node NodeScan.scan_nodes
    NodeScan.graph_model_errors NodeScan.bpmn_field_errors NodeScan.entry_errors
    NodeScan.entry_exists NodeScan.graph_errors NodeScan.scan_graph Visit.push_missing_reference
    Visit.visit_found Visit.visit_target Visit.case_task Visit.case_tasks Visit.switch_tasks
    Visit.require_text Visit.require_string Visit.require_prefixes Visit.linked_tasks
    Visit.hours_tasks Visit.caller_tasks Visit.variable_tasks Visit.queue_tasks
    Visit.voicemail_tasks Visit.special_tasks Visit.node_tasks Visit.run_tasks Visit.found_tasks
    Visit.tasks_of Visit.visit Visit.traverse Visit.unreachable_warnings Graph.as_graph_node
    Graph.find_node Graph.graph_nodes
menu_graph-passed = refl

-- The menu comes first.
abbrev rank : String → ℕ
rank id = if str_eq id "menu" then 1 else 0

menu-Edge : (target : String) → Edge menu_node target → target ≡ "bye"
menu-Edge target (by_link Link.next h e) = cc
menu-Edge target (by_link Link.timeout h e) = cc
menu-Edge target (by_link Link.invalid h e) = cc
menu-Edge target (by_link Link.default h e) = cc
menu-Edge target (by_link Link.fallback h e) = cc
menu-Edge target (by_link Link.in_hours h e) = cc
menu-Edge target (by_link Link.out_of_hours h e) = cc
menu-Edge target (by_link Link.match h e) = cc
menu-Edge target (by_link Link.no_match h e) = cc
menu-Edge target (by_case t cases e key m) = cc

bye-Edge : (target : String) → Edge bye_node target → ⊥
bye-Edge target (by_link Link.next h e) = cc
bye-Edge target (by_link Link.timeout h e) = cc
bye-Edge target (by_link Link.invalid h e) = cc
bye-Edge target (by_link Link.default h e) = cc
bye-Edge target (by_link Link.fallback h e) = cc
bye-Edge target (by_link Link.in_hours h e) = cc
bye-Edge target (by_link Link.out_of_hours h e) = cc
bye-Edge target (by_link Link.match h e) = cc
bye-Edge target (by_link Link.no_match h e) = cc
bye-Edge target (by_case _ cases e key m) = cc

menu_graph-IsOrdered : IsOrdered (nodes_of menu_graph) rank
unfolding Graph.as_graph_node Graph.find_node Graph.graph_nodes
menu_graph-IsOrdered id n target f e = elim (Bool-cases (str_eq "menu" id)) [
  | inl s ↦
      let same : some menu_node ≡ some n = rw s at f in
      let menu-n : menu_node ≡ n = cc in
      let to_bye = menu-Edge target (subst (λ x. Edge x target) (sym menu-n) e) in
      rw (to_bye, ← (eq_iff "menu" id).0 s) (omega arith)
  | inr ns ↦ elim (Bool-cases (str_eq "bye" id)) [
    | inl b ↦
        let same : some bye_node ≡ some n = rw (ns, b) at f in
        let bye-n : bye_node ≡ n = cc in
        absurd (bye-Edge target (subst (λ x. Edge x target) (sym bye-n) e))
    | inr nb ↦ let missing : none ≡ some n = rw (ns, nb) at f in cc
  ]
]

simulate_graph-path_bound_example :
    length (simulate_graph scenario intl 0 [] menu_graph).path ≤ suc (rank (entry_of menu_graph))
simulate_graph-path_bound_example =
    simulate_graph-path_bound scenario intl 0 [] menu_graph rank menu_graph-passed
      menu_graph-IsOrdered
