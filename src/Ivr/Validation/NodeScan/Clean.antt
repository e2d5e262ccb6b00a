-- ===== src/Ivr/Validation/NodeScan/Clean.antt =====
-- What a scan without errors has established.
use manage_call_ai.Base.{
  ℕ, suc, String, ◌≡◌, refl, sym, subst, ap, ◌∙◌, inl, inr, ◌||◌, true, false, List, [], ◌∷◌, ◌++◌,
  Option, none, some, arith, str_eq, eq_iff, push, push-ne-nil, append-nil_right, has, All,
  All-append, Bool-cases, Option-cases,
}
use mathlib.Core.List.{append_assoc, append-nil}
use manage_call_ai.Json.{Json, Props, string_field}
use manage_call_ai.Ivr.NodeType.{ivr_node_types, bpmn_only_node_types}
use manage_call_ai.Ivr.Graph.{GraphNode, ids_of, as_graph_node, graph_nodes, IsDistinct}
use manage_call_ai.Ivr.Validation.Issues.{bad_max_retries}
use manage_call_ai.Ivr.Validation.NodeScan.{
  Scan, bpmn_field_errors, graph_model_errors, check_type, check_retries, check_prompt, check_node,
  scan_node, scan_nodes, entry_errors, entry_exists, graph_errors, scan_graph,
}

abbrev pub IsSupported : GraphNode → Type 0
IsSupported n = has n.type ivr_node_types ≡ true

-- `t` has the nodes of `s` and those of `ns`, and there was no error.
pub record Adds (ns : List GraphNode) (s t : Scan) : Type 0 where
  pub clean : s.errors ≡ []
  pub nodes : t.nodes ≡ s.nodes ++ ns
  pub distinct : IsDistinct s.nodes → IsDistinct t.nodes
  pub supported : All IsSupported ns

check_prompt_same :
    (n : GraphNode) (s : Scan)
    → ((check_prompt n s).errors ≡ s.errors) × ((check_prompt n s).nodes ≡ s.nodes)
unfolding check_prompt
check_prompt_same n s = ground arith

check_retries_clean :
    (n : GraphNode) (s : Scan)
    → (check_retries n s).errors ≡ []
    → (s.errors ≡ []) × ((check_retries n s).nodes ≡ s.nodes)
unfolding check_retries
check_retries_clean n s h = ground (arith, push-ne-nil s.errors (bad_max_retries n.id))

check_type_clean :
    (index : ℕ) (n : GraphNode) (s : Scan)
    → (check_type index n s).errors ≡ []
    → (s.errors ≡ []) × ((check_type index n s).nodes ≡ s.nodes) × IsSupported n
unfolding check_type
check_type_clean index n s h = elim (Bool-cases (has n.type ivr_node_types)) [
  | inl e ↦ rw e (rw e at h, refl, refl)
  | inr ne ↦ elim (Bool-cases (has n.type bpmn_only_node_types)) [
    | inl b ↦ absurd (push-ne-nil s.errors _ (rw (ne, b) at h))
    | inr b ↦ absurd (push-ne-nil s.errors _ (rw (ne, b) at h))
  ]
]

has-ids_of-push :
    (x : String) (ns : List GraphNode) (n : GraphNode)
    → has x (ids_of (push ns n)) ≡ (has x (ids_of ns) || str_eq n.id x)
has-ids_of-push x [] n = ground arith
has-ids_of-push x (m ∷ ns) n = ground (arith, has-ids_of-push x ns n)

IsDistinct-push :
    (ns : List GraphNode) (n : GraphNode)
    → has n.id (ids_of ns) ≡ false
    → IsDistinct ns
    → IsDistinct (push ns n)
IsDistinct-push [] n h d = (refl, tt)
IsDistinct-push (m ∷ ns) n h d =
    ground
      (arith, has-ids_of-push m.id ns n, eq_iff m.id n.id, eq_iff n.id m.id, IsDistinct-push ns n)

check_node-Adds :
    (index : ℕ) (n : GraphNode) (s : Scan)
    → has n.id (ids_of s.nodes) ≡ false
    → (check_node index n s).errors ≡ []
    → Adds (n ∷ []) s (check_node index n s)
check_node-Adds index n s new h = record {
  clean = typed.0;
  nodes = same;
  distinct = λ d. rw same (IsDistinct-push s.nodes n new d);
  supported = (typed.2, tt);
}
  where
    s1 : Scan
    s1 = record s { nodes = push s.nodes n }

    s2 : Scan
    s2 = check_type index n s1

    retried : (s2.errors ≡ []) × ((check_retries n s2).nodes ≡ s2.nodes)
    retried = check_retries_clean n s2 (sym (check_prompt_same n (check_retries n s2)).0 ∙ h)

    typed : (s1.errors ≡ []) × (s2.nodes ≡ s1.nodes) × IsSupported n
    typed = check_type_clean index n s1 retried.0

    same : (check_node index n s).nodes ≡ push s.nodes n
    same = (check_prompt_same n (check_retries n s2)).1 ∙ (retried.1 ∙ typed.1)

abbrev of_option : Option GraphNode → List GraphNode
of_option none = []
of_option (some n) = n ∷ []

scan_node-Adds :
    (index : ℕ) (o : Option GraphNode) (s : Scan)
    → (scan_node index o s).errors ≡ []
    → Adds (of_option o) s (scan_node index o s)
unfolding scan_node
scan_node-Adds index none s h = absurd (push-ne-nil s.errors _ h)
scan_node-Adds index (some n) s h = elim (Bool-cases (has n.id (ids_of s.nodes))) [
  | inl old ↦ absurd (push-ne-nil s.errors _ (rw old at h))
  | inr new ↦ rw new (check_node-Adds index n s new (rw new at h))
]

Adds-trans :
    {ns ms : List GraphNode} {s t u : Scan} → Adds ns s t → Adds ms t u → Adds (ns ++ ms) s u
Adds-trans {ns} {ms} a b = record {
  clean = a.clean;
  nodes = b.nodes ∙ (ap (λ l. l ++ ms) a.nodes ∙ append_assoc _ ns ms);
  distinct = λ d. b.distinct (a.distinct d);
  supported = All-append IsSupported ns ms a.supported b.supported;
}

graph_nodes-cons :
    (v : Json) (vs : List Json)
    → graph_nodes (v ∷ vs) ≡ of_option (as_graph_node v) ++ graph_nodes vs
unfolding graph_nodes
graph_nodes-cons v vs = elim (Option-cases (as_graph_node v)) [ inl e ↦ rw e | inr (n, e) ↦ rw e ]

graph_nodes-nil : graph_nodes [] ≡ []
unfolding graph_nodes
graph_nodes-nil = refl

scan_nodes-Adds :
    (index : ℕ) (vs : List Json) (s : Scan)
    → (scan_nodes index vs s).errors ≡ []
    → Adds (graph_nodes vs) s (scan_nodes index vs s)
unfolding scan_nodes
scan_nodes-Adds index [] s h =
    rw graph_nodes-nil
      (record { clean = h; nodes = sym (append-nil _); distinct = λ d. d; supported = tt })
scan_nodes-Adds index (v ∷ vs) s h =
    let s' = scan_node index (as_graph_node v) s in
    let later = scan_nodes-Adds (suc index) vs s' h in
    let first = scan_node-Adds index (as_graph_node v) s later.clean in
    rw (graph_nodes-cons v vs) (Adds-trans first later)

entry_exists_clean :
    (o : Option String) (s : Scan)
    → (entry_exists o s).errors ≡ []
    → (entry_exists o s ≡ s) × ((e : String) → o ≡ some e → has e (ids_of s.nodes) ≡ true)
unfolding entry_exists
entry_exists_clean none s h = (refl, λ e p. cc)
entry_exists_clean (some id) s h = elim (Bool-cases (has id (ids_of s.nodes))) [
  | inl e ↦ (rw e, λ x p. subst (λ y. has y (ids_of s.nodes) ≡ true) (ground (arith, p)) e)
  | inr ne ↦ absurd (push-ne-nil s.errors _ (rw ne at h))
]

entry_errors_clean :
    (o : Option String) → entry_errors o ≡ [] → (e : String) × (o ≡ some e) × (str_eq e "" ≡ false)
unfolding entry_errors
entry_errors_clean none h = cc
entry_errors_clean (some e) h = (e, refl, ground arith)

-- What holds of a graph whose scan reports nothing.
pub record IsClean (g : Props) (vs : List Json) : Type 0 where
  pub nodes : (scan_graph g vs).nodes ≡ graph_nodes vs
  pub entry : String
  pub entry_given : string_field "entry_node_id" g ≡ some entry
  pub entry_found : has entry (ids_of (graph_nodes vs)) ≡ true
  pub entry_nonempty : str_eq entry "" ≡ false
  pub distinct : IsDistinct (graph_nodes vs)
  pub supported : All IsSupported (graph_nodes vs)

pub scan_graph-IsClean : (g : Props) (vs : List Json) → (scan_graph g vs).errors ≡ [] → IsClean g vs
unfolding scan_graph graph_errors
scan_graph-IsClean g vs h = record {
  nodes = scanned;
  entry = entry.0;
  entry_given = entry.1;
  entry_found = rw (← added.nodes) (exists.1 entry.0 entry.1);
  entry_nonempty = entry.2;
  distinct = rw (← added.nodes) (added.distinct tt);
  supported = added.supported;
}
  where
    s0 : Scan
    s0 = record { errors = graph_errors g; warnings = []; nodes = [] }

    s1 : Scan
    s1 = scan_nodes 0 vs s0

    exists :
        (entry_exists (string_field "entry_node_id" g) s1 ≡ s1)
        × ((e : String) → string_field "entry_node_id" g ≡ some e → has e (ids_of s1.nodes) ≡ true)
    exists = entry_exists_clean (string_field "entry_node_id" g) s1 h

    added : Adds (graph_nodes vs) s0 s1
    added = scan_nodes-Adds 0 vs s0 (rw exists.0 at h)

    scanned : (scan_graph g vs).nodes ≡ graph_nodes vs
    scanned = ap (λ (s : Scan). s.nodes) exists.0 ∙ added.nodes

    entry : (e : String) × (string_field "entry_node_id" g ≡ some e) × (str_eq e "" ≡ false)
    entry = entry_errors_clean (string_field "entry_node_id" g) (
        append-nil_right (bpmn_field_errors g _) _
          (append-nil_right (graph_model_errors _) _ added.clean))
