-- ===== src/Ivr/Validation/Sound.antt =====
-- What a passed validation promises of a graph.
use manage_call_ai.Base.{
  String, ◌≡◌, refl, sym, ap, subst, inl, inr, true, false, List, [], ◌∷◌, Option, none, some,
  arith, str_eq, has, All, Bool-cases, append-nil_right,
}
use manage_call_ai.Json.{Json, obj, Props, get, array_of, or_default, string_field}
use manage_call_ai.Ivr.Graph.{
  GraphNode, ids_of, graph_nodes, nodes_of, entry_of, find_node, IsDistinct,
}
use manage_call_ai.Ivr.Edges.{Reach}
use manage_call_ai.Ivr.Validation.{
  passed, failed, status_of, traverse_entry, traverse_scan, finish, validate_nodes,
  validate_ivr_graph,
}
use manage_call_ai.Ivr.Validation.Issues.{Issue, nodes_empty, nodes_not_array}
use manage_call_ai.Ivr.Validation.NodeScan.{Scan, scan_graph, graph_errors}
use manage_call_ai.Ivr.Validation.NodeScan.Clean.{IsSupported, IsClean, scan_graph-IsClean}
use manage_call_ai.Ivr.Validation.Visit.{traverse}
use manage_call_ai.Ivr.Validation.Visit.Targets.{HasText}
use manage_call_ai.Ivr.Validation.Visit.Marks.{checked, Reach-marked}

pub find_node_of_has :
    (x : String) (ns : List GraphNode)
    → has x (ids_of ns) ≡ true
    → (n : GraphNode) × (find_node x ns ≡ some n)
unfolding find_node
find_node_of_has x [] h = cc
find_node_of_has x (n ∷ ns) h = elim (Bool-cases (str_eq n.id x)) [
  | inl e ↦ (n, rw e)
  | inr ne ↦ let rest = find_node_of_has x ns (rw ne at h) in (rest.0, rw ne rest.1)
]

-- A node that the runtime can execute: it exists, and its required references are given.
pub record IsExecutable (nodes : List GraphNode) (id : String) : Type 0 where
  pub node : GraphNode
  pub found : find_node id nodes ≡ some node
  pub supported : IsSupported node
  pub schedule : node.type ≡ "business_hours" → HasText node "schedule_id"
  pub queue : node.type ≡ "queue" → HasText node "queue_id"
  pub voicemail_box : node.type ≡ "voicemail_drop" → HasText node "voicemail_box_id"

-- A graph that the runtime can execute from its entry node, wherever the call goes.
pub record IsSound (g : Props) (vs : List Json) : Type 0 where
  pub entry : String
  pub entry_given : string_field "entry_node_id" g ≡ some entry
  pub entry_nonempty : str_eq entry "" ≡ false
  pub distinct : IsDistinct (graph_nodes vs)
  pub executable :
      (id : String) → Reach (graph_nodes vs) entry id → IsExecutable (graph_nodes vs) id

find_node-IsSupported :
    (x : String) (ns : List GraphNode) (n : GraphNode)
    → find_node x ns ≡ some n
    → All IsSupported ns
    → IsSupported n
unfolding find_node
find_node-IsSupported x [] n e h = cc
find_node-IsSupported x (m ∷ ns) n e h = elim (Bool-cases (str_eq m.id x)) [
  | inl y ↦
      let same : some m ≡ some n = rw y at e in let m-n : m ≡ n = cc in subst IsSupported m-n h.0
  | inr ne ↦ find_node-IsSupported x ns n (rw ne at e) h.1
]

passed_errors : (es : List Issue) → status_of es ≡ passed → es ≡ []
passed_errors [] h = refl
passed_errors (e ∷ es) h = cc

failed_passed : failed ≡ passed → ⊥
failed_passed h = cc

module _ (g : Props) (vs : List Json) (c : IsClean g vs) where
  traversed-IsSound : (traverse (graph_nodes vs) c.entry).errors ≡ [] → IsSound g vs
  traversed-IsSound clean = record {
    entry = c.entry;
    entry_given = c.entry_given;
    entry_nonempty = c.entry_nonempty;
    distinct = c.distinct;
    executable = λ id r.
        let m = Reach-marked (graph_nodes vs) c.entry clean c.entry_found r in
        let (n, found) = find_node_of_has id (graph_nodes vs) m.0 in
        let k = checked (graph_nodes vs) c.entry clean id n m.1 found in
        record {
          node = n;
          found = found;
          supported = find_node-IsSupported id (graph_nodes vs) n found c.supported;
          schedule = k.schedule;
          queue = k.queue;
          voicemail_box = k.voicemail_box;
        };
  }

  finish-IsSound :
      (finish (string_field "entry_node_id" g) (scan_graph g vs)).status ≡ passed → IsSound g vs
  unfolding finish traverse_entry
  finish-IsSound h =
      traversed-IsSound (passed_errors _ (rw (c.entry_given, c.nodes, c.entry_found) at h))

traverse_scan_passed :
    (entry : Option String) (s : Scan)
    → (traverse_scan entry s).status ≡ passed
    → (s.errors ≡ []) × ((finish entry s).status ≡ passed)
unfolding traverse_scan
traverse_scan_passed entry s h = split s.errors refl
  where
    split : (es : List Issue) → s.errors ≡ es → (s.errors ≡ []) × ((finish entry s).status ≡ passed)
    split [] e = (e, ground arith)
    split (x ∷ xs) e = absurd (failed_passed (rw e at h))

traverse_scan-IsSound :
    (g : Props) (vs : List Json)
    → (traverse_scan (string_field "entry_node_id" g) (scan_graph g vs)).status ≡ passed
    → IsSound g vs
traverse_scan-IsSound g vs h =
    let p = traverse_scan_passed _ (scan_graph g vs) h in
    finish-IsSound g vs (scan_graph-IsClean g vs p.0) p.1

pub validate_ivr_graph-IsSound :
    (g : Props) (vs : List Json)
    → array_of (get "nodes" g) ≡ some vs
    → (validate_ivr_graph (obj g)).status ≡ passed
    → IsSound g vs
unfolding validate_ivr_graph validate_nodes
validate_ivr_graph-IsSound g [] a h =
    let e = append-nil_right (graph_errors g) (nodes_empty ∷ []) (passed_errors _ (rw a at h)) in cc
validate_ivr_graph-IsSound g (v ∷ vs) a h = traverse_scan-IsSound g (v ∷ vs) (rw a at h)

validate_nodes-array :
    (g : Props) (o : Option (List Json))
    → array_of (get "nodes" g) ≡ o
    → (validate_nodes g o).status ≡ passed
    → (vs : List Json) × (array_of (get "nodes" g) ≡ some vs)
unfolding validate_nodes
validate_nodes-array g none e h =
    let no_errors = append-nil_right (graph_errors g) (nodes_not_array ∷ []) (passed_errors _ h) in
    cc
validate_nodes-array g (some vs) e h = (vs, e)

-- A graph that passes validation has an array of nodes.
pub validate_ivr_graph-array :
    (g : Props)
    → (validate_ivr_graph (obj g)).status ≡ passed
    → (vs : List Json) × (array_of (get "nodes" g) ≡ some vs)
unfolding validate_ivr_graph
validate_ivr_graph-array g h = validate_nodes-array g (array_of (get "nodes" g)) refl h

-- A graph that passes validation can be executed wherever a call goes from its entry node: every node
-- that is reachable along the edges exists, has a supported type and has the schedule, queue or voicemail
-- box that its type requires.
pub validate_ivr_graph-IsExecutable :
    (g : Props) (id : String)
    → (validate_ivr_graph (obj g)).status ≡ passed
    → Reach (nodes_of g) (entry_of g) id
    → IsExecutable (nodes_of g) id
validate_ivr_graph-IsExecutable g id h r =
    let (vs, a) = validate_ivr_graph-array g h in
    let s = validate_ivr_graph-IsSound g vs a h in
    let nodes : graph_nodes vs ≡ nodes_of g = sym (ap (λ o. graph_nodes (or_default o [])) a) in
    let entry : entry_of g ≡ s.entry = ap (λ o. or_default o "") s.entry_given in
    let r' : Reach (graph_nodes vs) s.entry id =
      subst (λ e. Reach (graph_nodes vs) e id) entry
        (subst (λ ns. Reach ns (entry_of g) id) (sym nodes) r) in
    subst (λ ns. IsExecutable ns id) nodes (s.executable id r')

-- The nodes of a graph that passes validation have distinct ids, and its entry node is one of them.
pub validate_ivr_graph-IsDistinct :
    (g : Props)
    → (validate_ivr_graph (obj g)).status ≡ passed
    → IsDistinct (nodes_of g) × ((n : GraphNode) × (find_node (entry_of g) (nodes_of g) ≡ some n))
validate_ivr_graph-IsDistinct g h =
    let (vs, a) = validate_ivr_graph-array g h in
    let s = validate_ivr_graph-IsSound g vs a h in
    let x = validate_ivr_graph-IsExecutable g (entry_of g) h Reach.start in
    (
      subst IsDistinct (sym (ap (λ o. graph_nodes (or_default o [])) a)) s.distinct,
      (x.node, x.found),
    )
