-- ===== src/Ivr/Graph.antt =====
-- The nodes of an IVR graph: `isGraphNode` and `defaultIvrGraph` of
-- apps/api/src/modules/ivr-flows/ivr-flow.validation.ts (the runtime has the same `isGraphNode`).
use manage_call_ai.Base.{String, ◌≡◌, false, has, List, [], ◌∷◌, Option, none, some, str_eq, find}
use manage_call_ai.Json.{
  Json, str, arr, obj, Elems, nil, cons, Props, end, prop, get, array_of, or_default,
  string_or_empty, string_field,
}
use manage_call_ai.Ivr.NodeType.{graph_model_version}

pub record GraphNode : Type 0 where
  pub id : String
  pub type : String
  pub raw : Props

abbrev pub ids_of : List GraphNode → List String
ids_of [] = []
ids_of (n ∷ ns) = n.id ∷ ids_of ns

abbrev pub make_node : Option String → Option String → Props → Option GraphNode
make_node (some id) (some type) ps = some (record { id = id; type = type; raw = ps })
make_node _ _ ps = none

-- `isGraphNode(value)`, with the narrowed value.
unfoldable pub as_graph_node : Json → Option GraphNode
as_graph_node (obj ps) = make_node (string_field "id" ps) (string_field "type" ps) ps
as_graph_node _ = none

pub default_ivr_graph : Props
default_ivr_graph =
    prop "graph_model" (str graph_model_version)
      (prop "entry_node_id" (str "start") (prop "nodes" (arr nodes) end))
  where
    start_node : Json
    start_node =
        obj (
          prop "id" (str "start") (prop "type" (str "start") (prop "next_node_id" (str "end") end)))

    end_node : Json
    end_node = obj (prop "id" (str "end") (prop "type" (str "hangup") end))

    nodes : Elems
    nodes = cons start_node (cons end_node nil)

unfoldable pub find_node : String → List GraphNode → Option GraphNode
find_node id ns = find (λ n. str_eq n.id id) ns

abbrev pub with_node : Option GraphNode → List GraphNode → List GraphNode
with_node none ns = ns
with_node (some n) ns = n ∷ ns

-- The values among those given that are nodes.
unfoldable pub graph_nodes : List Json → List GraphNode
graph_nodes [] = []
graph_nodes (v ∷ vs) = with_node (as_graph_node v) (graph_nodes vs)

abbrev pub IsDistinct : List GraphNode → Type 0
IsDistinct [] = Unit
IsDistinct (n ∷ ns) = (has n.id (ids_of ns) ≡ false) × IsDistinct ns

-- `definition.nodes`, those of them that are nodes, and `definition.entry_node_id`.
abbrev pub nodes_of : Props → List GraphNode
nodes_of g = graph_nodes (or_default (array_of (get "nodes" g)) [])

abbrev pub entry_of : Props → String
entry_of g = string_or_empty "entry_node_id" g
