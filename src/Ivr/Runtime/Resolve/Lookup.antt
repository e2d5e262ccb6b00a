-- ===== src/Ivr/Runtime/Resolve/Lookup.antt =====
-- `nodes.get(id)` of the planner's map against the list of the graph's nodes.
use manage_call_ai.Base.{
  String, ◌≡◌, refl, ◌∙◌, ◌⊎◌, subst, true, false, List, [], ◌∷◌, Option, none, some, if◌then◌else◌,
  arith, str_eq, eq_iff, has, All, Bool-cases, inl, inr, map_get, map_set, map_get-map_set,
}
use manage_call_ai.Json.{Json, obj, Props, get, array_of, string_field}
use manage_call_ai.Ivr.Graph.{
  GraphNode, make_node, ids_of, as_graph_node, find_node, graph_nodes, with_node, IsDistinct,
}
use manage_call_ai.Ivr.Planner.{PlannerNode, planner_node, add_raw, add_nodes, build_planner_graph}
use manage_call_ai.Ivr.Runtime.Resolve.{raw_node, node_at}

abbrev add_all : List GraphNode → List (String × PlannerNode) → List (String × PlannerNode)
add_all [] m = m
add_all (n ∷ ns) m = add_all ns (map_set n.id (planner_node n) m)

add_nodes_lem :
    (vs : List Json) (m : List (String × PlannerNode)) → add_nodes vs m ≡ add_all (graph_nodes vs) m
unfolding add_nodes add_raw graph_nodes
add_nodes_lem [] m = refl
add_nodes_lem (v ∷ vs) m = split (as_graph_node v) (add_nodes_lem vs)
  where
    split :
        (o : Option GraphNode)
        → ((m' : List (String × PlannerNode)) → add_nodes vs m' ≡ add_all (graph_nodes vs) m')
        → add_nodes vs (add_raw o m) ≡ add_all (with_node o (graph_nodes vs)) m
    split none rest = rest m
    split (some n) rest = rest (map_set n.id (planner_node n) m)

abbrev IsRaw : GraphNode → Type 0
IsRaw n = as_graph_node (obj n.raw) ≡ some n

make_node-IsRaw :
    (id type : Option String) (ps : Props) (n : GraphNode)
    → string_field "id" ps ≡ id
    → string_field "type" ps ≡ type
    → make_node id type ps ≡ some n
    → IsRaw n
unfolding as_graph_node
make_node-IsRaw none type ps n e f h = cc
make_node-IsRaw (some id) none ps n e f h = cc
make_node-IsRaw (some id) (some type) ps n e f h =
    let same : record { id = id; type = type; raw = ps } ≡ n = cc in
    subst IsRaw same (rw (e, f) refl)

as_graph_node-IsRaw : (v : Json) (n : GraphNode) → as_graph_node v ≡ some n → IsRaw n
unfolding as_graph_node
as_graph_node-IsRaw (obj ps) n h = make_node-IsRaw _ _ ps n refl refl h
as_graph_node-IsRaw _ n h = cc

graph_nodes-IsRaw : (vs : List Json) → All IsRaw (graph_nodes vs)
unfolding graph_nodes
graph_nodes-IsRaw [] = tt
graph_nodes-IsRaw (v ∷ vs) = split (as_graph_node v) refl (graph_nodes-IsRaw vs)
  where
    split :
        (o : Option GraphNode)
        → as_graph_node v ≡ o
        → All IsRaw (graph_nodes vs)
        → All IsRaw (with_node o (graph_nodes vs))
    split none e rest = rest
    split (some n) e rest = (as_graph_node-IsRaw v n e, rest)

abbrev first_of : Option GraphNode → Option GraphNode → Option GraphNode
first_of none o = o
first_of (some n) o = some n

find_node-missing :
    (id : String) (ns : List GraphNode) → has id (ids_of ns) ≡ false → find_node id ns ≡ none
unfolding find_node
find_node-missing id [] h = refl
find_node-missing id (n ∷ ns) h = ground (arith, find_node-missing id ns, h)

add_node_lem :
    (id : String) (n : GraphNode) (ns : List GraphNode) (m : List (String × PlannerNode))
    → has n.id (ids_of ns) ≡ false
    → IsRaw n
    → first_of (find_node id ns) (raw_node (map_get id (map_set n.id (planner_node n) m)))
      ≡ first_of (find_node id (n ∷ ns)) (raw_node (map_get id m))
unfolding find_node raw_node
add_node_lem id n ns m d r =
    rw (map_get-map_set n.id id (planner_node n) m) (split (Bool-cases (str_eq n.id id)))
  where
    missing : str_eq n.id id ≡ true → find_node id ns ≡ none
    missing e =
        find_node-missing id ns (subst (λ x. has x (ids_of ns) ≡ false) ((eq_iff n.id id).0 e) d)

    split :
        (str_eq n.id id ≡ true) ⊎ (str_eq n.id id ≡ false)
        → first_of
            (find_node id ns)
            (raw_node (if str_eq n.id id then some (planner_node n) else map_get id m))
          ≡ first_of (find_node id (n ∷ ns)) (raw_node (map_get id m))
    split (inl e) = rw (missing e, e) r
    split (inr ne) = rw ne refl

add_all_lem :
    (id : String) (ns : List GraphNode) (m : List (String × PlannerNode))
    → IsDistinct ns
    → All IsRaw ns
    → raw_node (map_get id (add_all ns m)) ≡ first_of (find_node id ns) (raw_node (map_get id m))
unfolding find_node
add_all_lem id [] m d a = refl
add_all_lem id (n ∷ ns) m d a =
    add_all_lem id ns (map_set n.id (planner_node n) m) d.1 a.1 ∙ add_node_lem id n ns m d.0 a.0

-- With distinct ids, the runtime finds the nodes of the graph.
pub node_at_lem :
    (g : Props) (vs : List Json) (id : String)
    → array_of (get "nodes" g) ≡ some vs
    → IsDistinct (graph_nodes vs)
    → node_at (build_planner_graph g) id ≡ find_node id (graph_nodes vs)
unfolding node_at build_planner_graph raw_node map_get
node_at_lem g vs id a d =
    rw (a, add_nodes_lem vs [], add_all_lem id (graph_nodes vs) [] d (graph_nodes-IsRaw vs))
      (or_none (find_node id (graph_nodes vs)))
  where
    or_none : (o : Option GraphNode) → first_of o none ≡ o
    or_none none = refl
    or_none (some n) = refl
