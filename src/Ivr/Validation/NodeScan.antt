-- ===== src/Ivr/Validation/NodeScan.antt =====
-- The first phase of `validateIvrGraph` (apps/api/src/modules/ivr-flows/ivr-flow.validation.ts): the
-- checks of the graph's own fields and of each node.
pub mod Clean
use manage_call_ai.Base.{
  ℕ, suc, String, Bool, true, false, not, ◌&&◌, ◌||◌, List, [], ◌∷◌, ◌++◌, Option, none, some,
  if◌then◌else◌, str_eq, push, has,
}
use manage_call_ai.Json.{Json, num, str, Props, nat, get, truthy, string_field}
use manage_call_ai.Ivr.NodeType.{ivr_node_types, bpmn_only_node_types, graph_model_version}
use manage_call_ai.Ivr.Graph.{GraphNode, ids_of, as_graph_node}
use manage_call_ai.Ivr.Validation.Issues.{
  Issue, unsupported_graph_model, entry_required, bpmn_field, not_a_node, duplicate_id, bpmn_type,
  unsupported_type, bad_max_retries, no_prompt, entry_missing,
}

-- The first phase: `nodesValue.forEach`.
pub record Scan : Type 0 where
  pub errors : List Issue
  pub warnings : List Issue
  pub nodes : List GraphNode

abbrev pub add_error : Issue → Scan → Scan
add_error e s = record s { errors = push s.errors e }

unfoldable pub check_type : ℕ → GraphNode → Scan → Scan
check_type index n s =
    if has n.type ivr_node_types
    then s
    else if has n.type bpmn_only_node_types
    then add_error (bpmn_type index n.type) s
    else add_error (unsupported_type index n.type) s

-- A non-negative integer, or absent.
abbrev retries_ok : Option Json → Bool
retries_ok none = true
retries_ok (some (num (nat k))) = true
retries_ok _ = false

unfoldable pub check_retries : GraphNode → Scan → Scan
check_retries n s =
    if retries_ok (get "max_retries" n.raw) then s else add_error (bad_max_retries n.id) s

unfoldable pub check_prompt : GraphNode → Scan → Scan
check_prompt n s =
    if (str_eq n.type "play_prompt" || str_eq n.type "play_collect")
      && not (truthy (get "prompt_id" n.raw))
      && not (truthy (get "prompt_uri" n.raw))
    then record s { warnings = push s.warnings (no_prompt n.id) }
    else s

abbrev check_node : ℕ → GraphNode → Scan → Scan
check_node index n s =
    check_prompt n (check_retries n (check_type index n (record s { nodes = push s.nodes n })))

unfoldable pub scan_node : ℕ → Option GraphNode → Scan → Scan
scan_node index none s = add_error (not_a_node index) s
scan_node index (some n) s =
    if has n.id (ids_of s.nodes)
    then add_error (duplicate_id index n.id) s
    else check_node index n s

unfoldable pub scan_nodes : ℕ → List Json → Scan → Scan
scan_nodes index [] s = s
scan_nodes index (v ∷ vs) s = scan_nodes (suc index) vs (scan_node index (as_graph_node v) s)

abbrev bpmn_only_graph_fields : List String
bpmn_only_graph_fields = "bpmn_xml" ∷ "lanes" ∷ "pools" ∷ "collaboration" ∷ "xml" ∷ []

unfoldable pub graph_model_errors : Option Json → List Issue
graph_model_errors none = []
graph_model_errors (some (str s)) =
    if str_eq s graph_model_version then [] else unsupported_graph_model ∷ []
graph_model_errors (some _) = unsupported_graph_model ∷ []

unfoldable pub bpmn_field_errors : Props → List String → List Issue
bpmn_field_errors g [] = []
bpmn_field_errors g (f ∷ fs) =
    let rest = bpmn_field_errors g fs in
    elim (get f g) [ none ↦ rest | some v ↦ bpmn_field f ∷ rest ]

unfoldable pub entry_errors : Option String → List Issue
entry_errors none = entry_required ∷ []
entry_errors (some id) = if str_eq id "" then entry_required ∷ [] else []

unfoldable pub entry_exists : Option String → Scan → Scan
entry_exists none s = s
entry_exists (some id) s = if has id (ids_of s.nodes) then s else add_error (entry_missing id) s

unfoldable pub graph_errors : Props → List Issue
graph_errors g =
    graph_model_errors (get "graph_model" g)
    ++ (bpmn_field_errors g bpmn_only_graph_fields ++ entry_errors (string_field "entry_node_id" g))

-- Everything before the traversal.
unfoldable pub scan_graph : Props → List Json → Scan
scan_graph g vs =
    entry_exists (string_field "entry_node_id" g)
      (scan_nodes 0 vs (record { errors = graph_errors g; warnings = []; nodes = [] }))
