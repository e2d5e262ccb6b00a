-- ===== src/Ivr/Planner/Nodes.antt =====
-- `nodes.get(id)` of the planner's graph against the list of the graph's nodes.
use manage_call_ai.Base.{
  String, ◌≡◌, refl, ◌∙◌, ◌⊎◌, subst, true, false, List, [], ◌∷◌, Option, none, some, if◌then◌else◌,
  arith, str_eq, eq_iff, has, Bool-cases, inl, inr, map_get, map_set, map_get-map_set,
}
use manage_call_ai.Json.{Json, Props, get, array_of}
use manage_call_ai.Ivr.Graph.{
  GraphNode, ids_of, as_graph_node, find_node, graph_nodes, with_node, IsDistinct,
}
use manage_call_ai.Ivr.Planner.{PlannerNode, planner_node, add_raw, add_nodes, build_planner_graph}

abbrev add_all : List GraphNode → List (String × PlannerNode) → List (String × PlannerNode)
add_all [] m = m
add_all (n ∷ ns) m = add_all ns (map_set n.id (planner_node n) m)

abbrev pub planned : Option GraphNode → Option PlannerNode → Option PlannerNode
planned none o = o
planned (some n) o = some (planner_node n)

add_nodes_all :
    (vs : List Json) (m : List (String × PlannerNode)) → add_nodes vs m ≡ add_all (graph_nodes vs) m
unfolding add_nodes add_raw graph_nodes
add_nodes_all [] m = refl
add_nodes_all (v ∷ vs) m = split (as_graph_node v) (add_nodes_all vs)
  where
    split :
        (o : Option GraphNode)
        → ((m' : List (String × PlannerNode)) → add_nodes vs m' ≡ add_all (graph_nodes vs) m')
        → add_nodes vs (add_raw o m) ≡ add_all (with_node o (graph_nodes vs)) m
    split none rest = rest m
    split (some n) rest = rest (map_set n.id (planner_node n) m)

find_node-absent :
    (id : String) (ns : List GraphNode) → has id (ids_of ns) ≡ false → find_node id ns ≡ none
unfolding find_node
find_node-absent id [] h = refl
find_node-absent id (n ∷ ns) h = ground (arith, find_node-absent id ns, h)

map_get-add_all :
    (id : String) (ns : List GraphNode) (m : List (String × PlannerNode))
    → IsDistinct ns
    → map_get id (add_all ns m) ≡ planned (find_node id ns) (map_get id m)
unfolding find_node
map_get-add_all id [] m d = refl
map_get-add_all id (n ∷ ns) m d =
    map_get-add_all id ns (map_set n.id (planner_node n) m) d.1
    ∙ rw (map_get-map_set n.id id (planner_node n) m) (split (Bool-cases (str_eq n.id id)))
  where
    absent : str_eq n.id id ≡ true → find_node id ns ≡ none
    absent e =
        find_node-absent id ns (subst (λ x. has x (ids_of ns) ≡ false) ((eq_iff n.id id).0 e) d.0)

    split :
        (str_eq n.id id ≡ true) ⊎ (str_eq n.id id ≡ false)
        → planned (find_node id ns) (if str_eq n.id id then some (planner_node n) else map_get id m)
          ≡ planned (find_node id (n ∷ ns)) (map_get id m)
    split (inl e) = rw (absent e, e) refl
    split (inr ne) = rw ne refl

-- With distinct ids, the planner finds the nodes of the graph.
pub map_get-build_planner_graph :
    (g : Props) (vs : List Json) (id : String)
    → array_of (get "nodes" g) ≡ some vs
    → IsDistinct (graph_nodes vs)
    → map_get id (build_planner_graph g).nodes ≡ planned (find_node id (graph_nodes vs)) none
unfolding build_planner_graph map_get
map_get-build_planner_graph g vs id a d =
    rw (a, add_nodes_all vs []) (map_get-add_all id (graph_nodes vs) [] d)
