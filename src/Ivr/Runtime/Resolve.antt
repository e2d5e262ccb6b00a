-- ===== src/Ivr/Runtime/Resolve.antt =====
-- `resolveNextAction` of apps/api/src/modules/runtime/ivr-runtime.service.ts. `rounds` is 100 less the
-- source's `guard`.
pub mod Lookup
pub mod Safe
pub mod Calls
use manage_call_ai.Base.{ℕ, zero, suc, String, Option, none, some, if◌then◌else◌, str_eq, map_get}
use manage_call_ai.Json.{obj, Props, or_default}
use manage_call_ai.Ivr.Graph.{GraphNode, as_graph_node}
use manage_call_ai.Ivr.Planner.{PlannerNode, PlannerGraph, build_planner_graph}
use manage_call_ai.Ivr.Runtime.Types.{
  IvrRuntimeAction, action_node, Variables, AdvanceInput, step_limit, current_node_missing,
  node_missing, Result, ok, err, ◌>>=◌,
}
use manage_call_ai.Ivr.Runtime.Directory.{Directory}
use manage_call_ai.Ivr.Runtime.Leave.{Position, leave}
use manage_call_ai.Ivr.Runtime.Turn.{Environment, Turn, goto, act, fail, turn}

-- `transition`: `none` starts the flow.
pub record ResolveInput : Type 0 where
  pub tenant_id : String
  pub graph_json : Props
  pub current_node_id : Option String
  pub caller_number : Option String
  pub last_digits : Option String
  pub variables : Variables
  pub transition : Option AdvanceInput

pub record Resolution : Type 0 where
  pub action : Option IvrRuntimeAction
  pub current_node_id : Option String
  pub last_digits : Option String
  pub variables : Variables

abbrev max_rounds : ℕ
max_rounds = 100

abbrev done : Option String → Variables → Resolution
done last vars = record {
  action = none;
  current_node_id = none;
  last_digits = last;
  variables = vars;
}

-- `nodes.get(id)`, through `isGraphNode(pNode.raw)`.
unfoldable pub raw_node : Option PlannerNode → Option GraphNode
raw_node none = none
raw_node (some p) = as_graph_node (obj p.raw)

unfoldable pub node_at : PlannerGraph → String → Option GraphNode
node_at planner id = raw_node (map_get id planner.nodes)

abbrev at_action : IvrRuntimeAction → Option String → Variables → Resolution
at_action a last vars = record {
  action = some a;
  current_node_id = some (action_node a);
  last_digits = last;
  variables = vars;
}

-- The loop goes on with `more`, or ends.
unfoldable pub after_turn :
    Option String → Variables → (String → Variables → Result Resolution) → Turn → Result Resolution
after_turn last vars more (goto target vars') = more target vars'
after_turn last vars more (act a) = ok (at_action a last vars)
after_turn last vars more (fail e) = err e

module _ (env : Environment) (dir : Directory) (tenant_id : String) where
  unfoldable pub found_turn :
      Option GraphNode → String → Option String → Option String → Variables → Turn
  found_turn none id caller last vars = fail (node_missing id)
  found_turn (some n) id caller last vars = turn env dir tenant_id n caller last vars

  -- The loop; `current_node_id` is the node of the action.
  unfoldable pub run :
      ℕ → PlannerGraph → Option String → Option String → String → Variables → Result Resolution
  run zero planner caller last next vars = err step_limit
  run (suc rounds) planner caller last next vars =
      if str_eq next ""
      then ok (done last vars)
      else after_turn last vars (run rounds planner caller last)
          (found_turn (node_at planner next) next caller last vars)

  unfoldable pub continue :
      PlannerGraph → Option String → Option Position → ResolveInput → Result Resolution
  continue planner caller none input = ok (done input.last_digits input.variables)
  continue planner caller (some p) input =
      run max_rounds planner caller p.last_digits p.next_node_id p.variables

  unfoldable pub from_current :
      PlannerGraph → Option GraphNode → AdvanceInput → ResolveInput → Result Resolution
  from_current planner none t input =
      err (current_node_missing (or_default input.current_node_id "null"))
  from_current planner (some n) t input = do
    p ← leave n t input.last_digits input.variables
    continue planner input.caller_number p input

  unfoldable pub resolve_from : Option AdvanceInput → ResolveInput → Result Resolution
  resolve_from none input =
      let planner = build_planner_graph input.graph_json in
      run max_rounds planner input.caller_number input.last_digits planner.entry_node_id
        input.variables
  resolve_from (some t) input =
      let planner = build_planner_graph input.graph_json in
      from_current planner (node_at planner (or_default input.current_node_id "")) t input

unfoldable pub resolve_next_action : Environment → Directory → ResolveInput → Result Resolution
resolve_next_action env dir input = resolve_from env dir input.tenant_id input.transition input
