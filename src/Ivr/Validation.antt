-- ===== src/Ivr/Validation.antt =====
-- `validateIvrGraph` of apps/api/src/modules/ivr-flows/ivr-flow.validation.ts, from its two phases.
pub mod Issues
pub mod NodeScan
pub mod Visit
pub mod Sound
use manage_call_ai.Base.{
  String, Bool, true, false, List, [], ◌∷◌, ◌++◌, Option, none, some, if◌then◌else◌, has, is_empty,
}
use manage_call_ai.Json.{Json, obj, Props, get, array_of, string_field}
use manage_call_ai.Ivr.Graph.{GraphNode, ids_of}
use Issues.{Issue, not_an_object, nodes_not_array, nodes_empty}
use NodeScan.{Scan, graph_errors, scan_graph}
use Visit.{Traversal, traverse, unreachable_warnings}

pub data Status : Type 0 where
  passed failed : Status

pub record ValidationOutcome : Type 0 where
  pub status : Status
  pub errors : List Issue
  pub warnings : List Issue

abbrev status_of : List Issue → Status
status_of [] = passed
status_of (e ∷ es) = failed

abbrev outcome : List Issue → List Issue → ValidationOutcome
outcome errors warnings = record { status = status_of errors; errors = errors; warnings = warnings }

unfoldable pub traverse_entry : String → List GraphNode → Traversal
traverse_entry entry nodes =
    if has entry (ids_of nodes)
    then traverse nodes entry
    else record { errors = []; reachable = [] }

unfoldable pub finish : Option String → Scan → ValidationOutcome
finish none s = outcome [] (s.warnings ++ unreachable_warnings [] s.nodes)
finish (some entry) s =
    let t = traverse_entry entry s.nodes in
    outcome t.errors (s.warnings ++ unreachable_warnings t.reachable s.nodes)

unfoldable pub traverse_scan : Option String → Scan → ValidationOutcome
traverse_scan entry s = if is_empty s.errors then finish entry s else outcome s.errors s.warnings

unfoldable pub validate_nodes : Props → Option (List Json) → ValidationOutcome
validate_nodes g none = outcome (graph_errors g ++ nodes_not_array ∷ []) []
validate_nodes g (some []) = outcome (graph_errors g ++ nodes_empty ∷ []) []
validate_nodes g (some (v ∷ vs)) =
    traverse_scan (string_field "entry_node_id" g) (scan_graph g (v ∷ vs))

unfoldable pub validate_ivr_graph : Json → ValidationOutcome
validate_ivr_graph (obj g) = validate_nodes g (array_of (get "nodes" g))
validate_ivr_graph _ = outcome (not_an_object ∷ []) []
