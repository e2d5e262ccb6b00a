-- ===== src/Ivr/Planner.antt =====
-- apps/api/src/modules/ivr-flows/ivr-graph-planner.ts.
pub mod Follows
mod Prefixes
pub mod Takes
pub mod Nodes
use Prim.Native.String
use manage_call_ai.Base.{
  String, Bool, true, false, not, ◌&&◌, ◌||◌, List, [], ◌∷◌, Option, none, some, if◌then◌else◌,
  str_eq, any, map_get, map_set,
}
use manage_call_ai.Json.{
  Json, str, Props, get, string_of, array_of, object_of, string_field, string_or_empty, or_default,
}
use manage_call_ai.Text.{trim, strip_prefix, strip_suffix, has_line_end}
use manage_call_ai.Ivr.NodeType.{Category, get_node_category}
use manage_call_ai.Ivr.Graph.{GraphNode, as_graph_node}
use manage_call_ai.Ivr.Edges.{Link, link_field}

pub record PlannerNode : Type 0 where
  pub id : String
  pub type : String
  pub category : Option Category
  pub raw : Props

pub record PlannerGraph : Type 0 where
  pub entry_node_id : String
  pub nodes : List (String × PlannerNode)

pub record PlannerContext : Type 0 where
  pub last_digits : Option String
  pub caller_number : Option String
  pub scenario_hour : Option String
  pub variables : List (String × String)
  pub resolve_business_hours : Option (String → Option Bool)

pub record PlannerStepResult : Type 0 where
  pub next_node_id : Option String
  pub edge_id : Option String
  pub branch_label : Option String

abbrev pub planner_node : GraphNode → PlannerNode
planner_node n = record {
  id = n.id;
  type = n.type;
  category = get_node_category n.type;
  raw = n.raw;
}

unfoldable pub add_raw :
    Option GraphNode → List (String × PlannerNode) → List (String × PlannerNode)
add_raw none nodes = nodes
add_raw (some n) nodes = map_set n.id (planner_node n) nodes

unfoldable pub add_nodes : List Json → List (String × PlannerNode) → List (String × PlannerNode)
add_nodes [] nodes = nodes
add_nodes (v ∷ vs) nodes = add_nodes vs (add_raw (as_graph_node v) nodes)

unfoldable pub build_planner_graph : Props → PlannerGraph
build_planner_graph g = record {
  entry_node_id = string_or_empty "entry_node_id" g;
  nodes = add_nodes (or_default (array_of (get "nodes" g)) []) [];
}

infixl 5 ◌>>=◌
abbrev ◌>>=◌ {ℓ κ} : {A : Type ℓ} {B : Type κ} → Option A → (A → Option B) → Option B
none >>= f = none
some a >>= f = f a

-- The match of `/^\{\{(.+)\}\}$/`, its group.
unfoldable pub token_match : String → Option String
token_match raw = do
  rest ← strip_prefix "{{" raw
  token ← strip_suffix "}}" rest
  if str_eq token "" || has_line_end token then none else some token

unfoldable pub resolve_token : String → PlannerContext → Option String
resolve_token token ctx =
    if str_eq token ""
    then none
    else if str_eq token "last_digits"
    then ctx.last_digits
    else if str_eq token "caller_number"
    then ctx.caller_number
    else if str_eq token "now.hour"
    then ctx.scenario_hour
    else elim (strip_prefix "var." token) [
      | some name ↦ map_get name ctx.variables
      | none ↦ map_get token ctx.variables
    ]

unfoldable pub resolve_input : String → PlannerContext → Option String
resolve_input raw ctx = elim (token_match raw) [
  | none ↦ some raw
  | some token ↦ resolve_token (trim token) ctx
]

unfoldable pub resolve_switch_input : Props → PlannerContext → Option String
resolve_switch_input raw ctx =
    resolve_input (or_default (string_field "input" raw) "{{last_digits}}") ctx

-- `input ? cases[input] : undefined`, if it is a string.
unfoldable pub selected_case : Option String → Props → Option String
selected_case none cases = none
selected_case (some input) cases = if str_eq input "" then none else string_field input cases

abbrev pub is_given : Option String → Bool
is_given none = false
is_given (some s) = true

-- `typeof p === 'string' && callerNum.startsWith(p)`.
unfoldable pub has_prefix : String → Json → Bool
has_prefix caller (str p) = is_given (strip_prefix p caller)
has_prefix caller _ = false

unfoldable pub caller_matches : Option String → Props → Bool
unfolding has_prefix
caller_matches caller raw =
    any (has_prefix (or_default caller "")) (or_default (array_of (get "prefixes" raw)) [])

pub data OutcomeKind : Type 0 where
  timeout invalid digits : OutcomeKind

pub record CollectOutcome : Type 0 where
  pub kind : OutcomeKind
  pub digits : Option String

infixr 65 ◌<>◌
abbrev ◌<>◌ : String → String → String
a <> b = String.◌++◌ a b

abbrev nowhere : PlannerStepResult
nowhere = record { next_node_id = none; edge_id = none; branch_label = none }

module _ (node : PlannerNode) where
  unfoldable pub edge_to : String → Option String → Option String
  edge_to handle none = none
  edge_to handle (some target) =
      if str_eq target "" then none else some (node.id <> ":" <> handle <> ":" <> target)

  unfoldable pub along : Link → String → String → PlannerStepResult
  along link handle label =
      let target = string_field (link_field link) node.raw in
      record { next_node_id = target; edge_id = edge_to handle target; branch_label = some label }

  unfoldable pub invalid_or_default : Option String → PlannerStepResult
  invalid_or_default (some target) = along Link.invalid "invalid" "invalid"
  invalid_or_default none = along Link.default "default" "default"

  unfoldable pub after_invalid : PlannerStepResult
  after_invalid = invalid_or_default (string_field "invalid_node_id" node.raw)

  -- `!outcome?.digits`.
  unfoldable pub after_digits : Option String → PlannerStepResult
  after_digits none = after_invalid
  after_digits (some d) = if str_eq d "" then after_invalid else along Link.next "next" "digits"

  unfoldable pub after_kind : OutcomeKind → Option String → PlannerStepResult
  after_kind timeout d = along Link.timeout "timeout" "timeout"
  after_kind invalid d = after_invalid
  after_kind digits d = after_digits d

  unfoldable pub after_collect : Option CollectOutcome → PlannerStepResult
  after_collect none = after_invalid
  after_collect (some o) = after_kind o.kind o.digits

  unfoldable pub case_or_default : String → Option String → PlannerStepResult
  case_or_default input none = along Link.default "default" "default"
  case_or_default input (some target) = record {
    next_node_id = some target;
    edge_id = some (node.id <> ":case:" <> input <> ":" <> target);
    branch_label = some ("case:" <> input);
  }

  unfoldable pub after_switch : Props → Option String → PlannerStepResult
  after_switch cases input = case_or_default (or_default input "") (selected_case input cases)

  unfoldable pub after_hours : Option Bool → PlannerStepResult
  after_hours none = nowhere
  after_hours (some true) = along Link.in_hours "in_hours" "in_hours"
  after_hours (some false) = along Link.out_of_hours "out_of_hours" "out_of_hours"

  abbrev hours_of : Option (String → Option Bool) → String → Option Bool
  hours_of none id = none
  hours_of (some f) id = f id

  unfoldable pub resolve_next_node : PlannerContext → Option CollectOutcome → PlannerStepResult
  resolve_next_node ctx outcome =
      if str_eq node.type "start"
        || (str_eq node.type "play_prompt" || str_eq node.type "set_variable")
      then along Link.next "next" "next"
      else if str_eq node.type "play_collect"
      then after_collect outcome
      else if str_eq node.type "switch"
      then after_switch (or_default (object_of (get "cases" node.raw)) Props.end)
          (resolve_switch_input node.raw ctx)
      else if str_eq node.type "business_hours"
      then after_hours
          (hours_of ctx.resolve_business_hours (string_or_empty "schedule_id" node.raw))
      else if str_eq node.type "caller_id_match"
      then if caller_matches ctx.caller_number node.raw
        then along Link.match "match" "match"
        else along Link.no_match "no_match" "no_match"
      else nowhere
