-- ===== src/Ivr/Runtime/Resolve/Safe.antt =====
-- The runtime on a graph that passed the validation.
use manage_call_ai.Base.{
  ℕ, zero, suc, ◌+◌, ◌≤◌, ◌<◌, String, ◌≡◌, refl, sym, ◌∙◌, subst, ◌⊎◌, inl, inr, List, [], ◌∷◌,
  Option, none, some, arith, str_eq, eq_iff, if_elim, Bool-cases,
}
use manage_call_ai.Json.{Json, Props, get, array_of}
use manage_call_ai.Ivr.Graph.{GraphNode, graph_nodes, find_node}
use manage_call_ai.Ivr.Edges.{Edge, Reach}
use manage_call_ai.Ivr.Planner.{PlannerGraph, build_planner_graph}
use manage_call_ai.Ivr.Validation.Sound.{IsExecutable, IsSound}
use manage_call_ai.Ivr.Runtime.Types.{
  IvrRuntimeAction, action_node, Variables, RuntimeError, step_limit, Result, ok, err, IsAssetError,
}
use manage_call_ai.Ivr.Runtime.Directory.{Directory}
use manage_call_ai.Ivr.Runtime.Turn.{Environment, Turn, goto, act, fail}
use manage_call_ai.Ivr.Runtime.Turn.Follows.{
  HasReferences, IsTarget, IsSilent, Follows, turn-Follows,
}
use manage_call_ai.Ivr.Runtime.Resolve.{Resolution, node_at, after_turn, found_turn, run}
use manage_call_ai.Ivr.Runtime.Resolve.Lookup.{node_at_lem}

find_node-id :
    (id : String) (ns : List GraphNode) (n : GraphNode) → find_node id ns ≡ some n → n.id ≡ id
unfolding find_node
find_node-id id [] n h = cc
find_node-id id (m ∷ ns) n h = elim (Bool-cases (str_eq m.id id)) [
  | inl e ↦
      let same : some m ≡ some n = rw e at h in
      let m-n : m ≡ n = cc in subst (λ x. x.id ≡ id) m-n ((eq_iff m.id id).0 e)
  | inr ne ↦ find_node-id id ns n (rw ne at h)
]

-- The node that a call is at, if it is at one, is reachable.
abbrev pub IsPlaced : List GraphNode → String → Option String → Type 0
IsPlaced nodes entry none = Unit
IsPlaced nodes entry (some id) = Reach nodes entry id

-- An order on the nodes in which every silent node comes before those that it leads to.
abbrev pub IsRanked : List GraphNode → (String → ℕ) → Type 0
IsRanked nodes rank =
    (id : String) (n : GraphNode) (target : String)
    → find_node id nodes ≡ some n
    → IsSilent n
    → Edge n target
    → rank target < rank id

abbrev pub node_of : Option IvrRuntimeAction → Option String
node_of none = none
node_of (some a) = some (action_node a)

-- `Ends E`: the call is placed, at the node of its action if it has one, or the error is one of `E`.
abbrev pub Ends : List GraphNode → String → (RuntimeError → Type 0) → Result Resolution → Type 0
Ends nodes entry E (ok r) =
    IsPlaced nodes entry r.current_node_id × (r.current_node_id ≡ node_of r.action)
Ends nodes entry E (err e) = E e

module _ (g : Props) (vs : List Json) (a : array_of (get "nodes" g) ≡ some vs)
    (s : IsSound g vs) where
  abbrev nodes : List GraphNode
  nodes = graph_nodes vs

  abbrev planner : PlannerGraph
  planner = build_planner_graph g

  abbrev Arrives : String → Type 0
  Arrives next = (next ≡ "") ⊎ Reach nodes s.entry next

  references : {id : String} → (x : IsExecutable nodes id) → HasReferences x.node
  references x = record {
    supported = x.supported;
    schedule = x.schedule;
    queue = x.queue;
    voicemail_box = x.voicemail_box;
  }

  pub node_at_found :
      (id : String) (n : GraphNode) → find_node id nodes ≡ some n → node_at planner id ≡ some n
  node_at_found id n f = node_at_lem g vs id a s.distinct ∙ f

  pub arrives :
      {id : String} (n : GraphNode) (target : String)
      → Reach nodes s.entry id
      → find_node id nodes ≡ some n
      → IsTarget n target
      → Arrives target
  arrives n target r f (inl e) = inl e
  arrives n target r f (inr edge) = inr (Reach.step n target r f edge)

  module _ (env : Environment) (dir : Directory) (tenant_id : String)
      (caller last : Option String) where
    -- The loop from a node that is reachable.
    at_node :
        (E : RuntimeError → Type 0) (next : String) (n : GraphNode) (t : Turn)
        (more : String → Variables → Result Resolution)
        → ((e : RuntimeError) → IsAssetError e → E e)
        → Reach nodes s.entry next
        → find_node next nodes ≡ some n
        → Follows n t
        → ((target : String) (vars : Variables)
            → IsSilent n
            → IsTarget n target
            → Ends nodes s.entry E (more target vars))
        → (vars : Variables) → Ends nodes s.entry E (after_turn last vars more t)
    unfolding after_turn
    at_node E next n (goto target vars') more k r f h rest vars = rest target vars' h.0 h.1
    at_node E next n (act x) more k r f h rest vars =
        (subst (Reach nodes s.entry) (sym (h ∙ find_node-id next nodes n f)) r, refl)
    at_node E next n (fail e) more k r f h rest vars = k e h

    abbrev pub run_from : ℕ → String → Variables → Result Resolution
    run_from rounds next vars = run env dir tenant_id rounds planner caller last next vars

    found_turn-Follows :
        (next : String) (x : IsExecutable nodes next) (vars : Variables)
        → Follows x.node (found_turn env dir tenant_id (node_at planner next) next caller last vars)
    unfolding found_turn
    found_turn-Follows next x vars =
        rw (node_at_found next x.node x.found)
          (turn-Follows x.node env dir tenant_id caller last vars (references x))

    -- A round at a reachable node, if the rounds after it end well.
    round-Ends :
        (E : RuntimeError → Type 0) (rounds : ℕ) (next : String) (vars : Variables)
        → ((e : RuntimeError) → IsAssetError e → E e)
        → Reach nodes s.entry next
        → ((n : GraphNode) (target : String) (vars' : Variables)
            → find_node next nodes ≡ some n
            → IsSilent n
            → IsTarget n target
            → Ends nodes s.entry E (run_from rounds target vars'))
        → Ends nodes s.entry E (run_from (suc rounds) next vars)
    unfolding run
    round-Ends E rounds next vars k r rest =
        let x = s.executable next r in
        if_elim (Ends nodes s.entry E) (str_eq next "") (tt, refl)
          (at_node E next x.node _ (run env dir tenant_id rounds planner caller last) k r x.found
            (found_turn-Follows next x vars) (λ target vars'. rest x.node target vars' x.found)
            vars)

    run_end :
        (E : RuntimeError → Type 0) (rounds : ℕ) (vars : Variables)
        → Ends nodes s.entry E (run_from (suc rounds) "" vars)
    unfolding run
    run_end E rounds vars = (tt, refl)

    abbrev IsRunError : RuntimeError → Type 0
    IsRunError e = IsAssetError e ⊎ (e ≡ step_limit)

    pub run-Ends :
        (rounds : ℕ) (next : String) (vars : Variables)
        → Arrives next
        → Ends nodes s.entry IsRunError (run_from rounds next vars)
    unfolding run
    run-Ends zero next vars h = inr refl
    run-Ends (suc rounds) next vars (inl e) = rw e (run_end IsRunError rounds vars)
    run-Ends (suc rounds) next vars (inr r) =
        round-Ends IsRunError rounds next vars (λ e. inl) r
          λ n target vars' f q t. run-Ends rounds target vars' (arrives n target r f t)

    -- The rounds that are left are enough.
    abbrev IsEnough : (String → ℕ) → ℕ → String → Type 0
    IsEnough rank rounds next =
        ((next ≡ "") × (1 ≤ rounds)) ⊎ (Reach nodes s.entry next × (rank next + 2 ≤ rounds))

    IsEnough-after :
        (rank : String → ℕ) (rounds : ℕ) (next : String) (n : GraphNode) (target : String)
        → IsRanked nodes rank
        → Reach nodes s.entry next
        → rank next + 2 ≤ suc rounds
        → find_node next nodes ≡ some n
        → IsSilent n
        → IsTarget n target
        → IsEnough rank rounds target
    IsEnough-after rank rounds next n target o r b f q (inl e) = inl (e, omega arith)
    IsEnough-after rank rounds next n target o r b f q (inr edge) =
        let lower = o next n target f q edge in inr (Reach.step n target r f edge, omega arith)

    pub run-Completes :
        (rank : String → ℕ)
        → IsRanked nodes rank
        → (rounds : ℕ) (next : String) (vars : Variables) → IsEnough rank rounds next
        → Ends nodes s.entry IsAssetError (run_from rounds next vars)
    run-Completes rank o zero next vars (inl h) = absurd (omega arith)
    run-Completes rank o zero next vars (inr h) = absurd (omega arith)
    run-Completes rank o (suc rounds) next vars (inl h) = rw h.0 (run_end IsAssetError rounds vars)
    run-Completes rank o (suc rounds) next vars (inr (r, b)) =
        round-Ends IsAssetError rounds next vars (λ e h. h) r
          λ n target vars' f q t.
            run-Completes rank o rounds target vars'
              (IsEnough-after rank rounds next n target o r b f q t)
