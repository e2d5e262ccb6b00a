-- ===== src/Ivr/Runtime/Resolve/Calls.antt =====
-- `resolveNextAction` as a whole on a graph that passed the validation: the start of a flow, and its
-- resumption at a reachable node.
use manage_call_ai.Base.{
  ℕ, ◌+◌, ◌≤◌, String, ◌≡◌, refl, sym, ap, ◌∙◌, subst, ◌⊎◌, inl, inr, List, [], Option, none, some,
  arith,
}
use manage_call_ai.Json.{Json, obj, Props, get, array_of, or_default}
use manage_call_ai.Ivr.Graph.{GraphNode, graph_nodes, nodes_of, entry_of}
use manage_call_ai.Ivr.Edges.{Reach}
use manage_call_ai.Ivr.Planner.{PlannerGraph, build_planner_graph}
use manage_call_ai.Ivr.Validation.{passed, validate_ivr_graph}
use manage_call_ai.Ivr.Validation.Sound.{
  IsSound, IsExecutable, validate_ivr_graph-IsSound, validate_ivr_graph-array,
}
use manage_call_ai.Ivr.Runtime.Types.{
  Variables, AdvanceInput, RuntimeError, step_limit, Result, ok, err, ◌>>=◌, IsAssetError,
}
use manage_call_ai.Ivr.Runtime.Directory.{Directory}
use manage_call_ai.Ivr.Runtime.Leave.{Position}
use manage_call_ai.Ivr.Runtime.Leave.Follows.{IsLeaveError, Leads, leave-Leads}
use manage_call_ai.Ivr.Runtime.Turn.{Environment}
use manage_call_ai.Ivr.Runtime.Resolve.{
  ResolveInput, Resolution, max_rounds, node_at, run, continue, from_current, resolve_from,
  resolve_next_action,
}
use manage_call_ai.Ivr.Runtime.Resolve.Safe.{
  IsRanked, Ends, node_at_found, arrives, run-Ends, run-Completes,
}

-- A flow is started, or resumed at a node that a call can come to.
abbrev pub IsResumable : List GraphNode → String → Option String → Option AdvanceInput → Type 0
IsResumable nodes entry current none = Unit
IsResumable nodes entry current (some t) =
    (id : String) × (current ≡ some id) × Reach nodes entry id

-- `E`, or the completion that the caller reports does not fit the node.
abbrev pub IsErrorOf : (RuntimeError → Type 0) → Option AdvanceInput → RuntimeError → Type 0
IsErrorOf E none e = E e
IsErrorOf E (some t) e = E e ⊎ IsLeaveError e

abbrev pub IsRunError : RuntimeError → Type 0
IsRunError e = IsAssetError e ⊎ (e ≡ step_limit)

pub Ends-weaken :
    (nodes : List GraphNode) (entry : String) (E F : RuntimeError → Type 0) (r : Result Resolution)
    → ((e : RuntimeError) → E e → F e)
    → Ends nodes entry E r
    → Ends nodes entry F r
Ends-weaken nodes entry E F (ok r) k h = h
Ends-weaken nodes entry E F (err e) k h = k e h

module _ (env : Environment) (dir : Directory) (input : ResolveInput) (vs : List Json) where
  abbrev nodes : List GraphNode
  nodes = graph_nodes vs

  abbrev g : Props
  g = input.graph_json

  abbrev planner : PlannerGraph
  planner = build_planner_graph g

  module _ (a : array_of (get "nodes" g) ≡ some vs) (s : IsSound g vs)
      (E : RuntimeError → Type 0) where
    abbrev Arrives : String → Type 0
    Arrives next = (next ≡ "") ⊎ Reach nodes s.entry next

    -- That the loop ends well from wherever a call comes to.
    abbrev Runs : Type 0
    Runs =
        (caller last : Option String) (next : String) (vars : Variables)
        → Arrives next
        → Ends nodes s.entry E
            (run env dir input.tenant_id max_rounds planner caller last next vars)

    continue-Ends :
        (id : String) (x : IsExecutable nodes id) (o : Option Position)
        → Runs
        → Reach nodes s.entry id
        → Leads x.node (ok o)
        → Ends nodes s.entry E
            (continue env dir input.tenant_id planner input.caller_number o input)
    unfolding continue
    continue-Ends id x none h r l = (tt, refl)
    continue-Ends id x (some p) h r l =
        h input.caller_number p.last_digits p.next_node_id p.variables
          (arrives g vs a s x.node p.next_node_id r x.found l)

    left-Ends :
        (id : String) (x : IsExecutable nodes id) (t : AdvanceInput) (r : Result (Option Position))
        → Runs
        → Reach nodes s.entry id
        → Leads x.node r
        → Ends nodes s.entry
            (IsErrorOf E (some t))
            (r >>= (λ p. continue env dir input.tenant_id planner input.caller_number p input))
    left-Ends id x t (ok o) h r l =
        Ends-weaken nodes s.entry E (IsErrorOf E (some t)) _ (λ e. inl) (continue-Ends id x o h r l)
    left-Ends id x t (err e) h r l = inr l

    from_current-Ends :
        (id : String) (t : AdvanceInput)
        → Runs
        → Reach nodes s.entry id
        → input.current_node_id ≡ some id
        → Ends nodes s.entry
            (IsErrorOf E (some t))
            (resolve_from env dir input.tenant_id (some t) input)
    unfolding resolve_from from_current
    from_current-Ends id t h r c =
        let x = s.executable id r in
        let e : node_at planner (or_default input.current_node_id "") ≡ some x.node =
          ap (λ o. node_at planner (or_default o "")) c
          ∙ node_at_found g vs a s id x.node x.found in
        rw e (left-Ends id x t _ h r (leave-Leads x.node t input.last_digits input.variables))

    entry_lem : planner.entry_node_id ≡ s.entry
    unfolding build_planner_graph
    entry_lem = rw s.entry_given refl

    start-Ends : Runs → Ends nodes s.entry E (resolve_from env dir input.tenant_id none input)
    unfolding resolve_from
    start-Ends h =
        h input.caller_number input.last_digits planner.entry_node_id input.variables
          (inr (subst (Reach nodes s.entry) (sym entry_lem) Reach.start))

    -- Whatever is started or resumed ends well if the loop does.
    resolve_from-Ends :
        (t : Option AdvanceInput)
        → Runs
        → IsResumable nodes s.entry input.current_node_id t
        → Ends nodes s.entry (IsErrorOf E t) (resolve_from env dir input.tenant_id t input)
    resolve_from-Ends none h r = start-Ends h
    resolve_from-Ends (some t) h (id, c, r) = from_current-Ends id t h r c

  sound_entry : (s : IsSound g vs) → s.entry ≡ entry_of g
  sound_entry s = sym (ap (λ o. or_default o "") s.entry_given)

  resolved-Ends :
      (E : RuntimeError → Type 0) (a : array_of (get "nodes" g) ≡ some vs) (s : IsSound g vs)
      → Runs a s E
      → IsResumable nodes (entry_of g) input.current_node_id input.transition
      → Ends nodes (entry_of g) (IsErrorOf E input.transition) (resolve_next_action env dir input)
  unfolding resolve_next_action
  resolved-Ends E a s h r =
      let e = sound_entry s in
      subst (λ x. Ends nodes x (IsErrorOf E input.transition) (resolve_next_action env dir input)) e
        (resolve_from-Ends a s E input.transition h
          (subst (λ x. IsResumable nodes x input.current_node_id input.transition) (sym e) r))

  passed-Ends :
      array_of (get "nodes" g) ≡ some vs
      → (validate_ivr_graph (obj g)).status ≡ passed
      → IsResumable nodes (entry_of g) input.current_node_id input.transition
      → Ends nodes
          (entry_of g)
          (IsErrorOf IsRunError input.transition)
          (resolve_next_action env dir input)
  passed-Ends a v =
      let s = validate_ivr_graph-IsSound g vs a v in
      resolved-Ends IsRunError a s λ caller last next vars.
        run-Ends g vs a s env dir input.tenant_id caller last max_rounds next vars

  passed-Completes :
      (rank : String → ℕ)
      → array_of (get "nodes" g) ≡ some vs
      → (validate_ivr_graph (obj g)).status ≡ passed
      → IsResumable nodes (entry_of g) input.current_node_id input.transition
      → IsRanked nodes rank
      → ((id : String) → rank id ≤ 98)
      → Ends nodes
          (entry_of g)
          (IsErrorOf IsAssetError input.transition)
          (resolve_next_action env dir input)
  passed-Completes rank a v r o b =
      let s = validate_ivr_graph-IsSound g vs a v in
      resolved-Ends IsAssetError a s
        (λ caller last next vars h.
          run-Completes g vs a s env dir input.tenant_id caller last rank o max_rounds next vars
            (enough s next h))
        r
    where
      enough :
          (s : IsSound g vs)
          → (next : String) → (next ≡ "") ⊎ Reach nodes s.entry next
          → ((next ≡ "") × (1 ≤ 100)) ⊎ (Reach nodes s.entry next × (rank next + 2 ≤ 100))
      enough s next (inl e) = inl (e, omega arith)
      enough s next (inr r) = let low = b next in inr (r, omega arith)

-- On a graph that passed the validation, the start of a flow, and its resumption at a reachable node
-- (whatever the environment, the assets, the digits and the variables), stop at a reachable node, at
-- the node of the action if there is one, or end the flow. Otherwise the error is that of an asset, or
-- the step limit, or, on a resumption, a completion that does not fit the node: no node is missing, of
-- an unsupported type or without a required reference.
pub resolve_next_action-Ends :
    (env : Environment) (dir : Directory) (input : ResolveInput)
    → (validate_ivr_graph (obj input.graph_json)).status ≡ passed
    → IsResumable
        (nodes_of input.graph_json)
        (entry_of input.graph_json)
        input.current_node_id
        input.transition
    → Ends
        (nodes_of input.graph_json)
        (entry_of input.graph_json)
        (IsErrorOf IsRunError input.transition)
        (resolve_next_action env dir input)
resolve_next_action-Ends env dir input v =
    let (vs, a) = validate_ivr_graph-array input.graph_json v in
    let nodes : graph_nodes vs ≡ nodes_of input.graph_json =
      sym (ap (λ o. graph_nodes (or_default o [])) a) in
    subst
      (λ ns.
        IsResumable ns (entry_of input.graph_json) input.current_node_id input.transition
        → Ends ns (entry_of input.graph_json) (IsErrorOf IsRunError input.transition)
            (resolve_next_action env dir input))
      nodes (passed-Ends env dir input vs a v)

-- If, in addition, the silent nodes of the graph can be ranked below 99 so that each of them comes before
-- those it leads to (so they form no cycle), the step limit is not met either.
pub resolve_next_action-Completes :
    (env : Environment) (dir : Directory) (input : ResolveInput) (rank : String → ℕ)
    → (validate_ivr_graph (obj input.graph_json)).status ≡ passed
    → IsResumable
        (nodes_of input.graph_json)
        (entry_of input.graph_json)
        input.current_node_id
        input.transition
    → IsRanked (nodes_of input.graph_json) rank
    → ((id : String) → rank id ≤ 98)
    → Ends
        (nodes_of input.graph_json)
        (entry_of input.graph_json)
        (IsErrorOf IsAssetError input.transition)
        (resolve_next_action env dir input)
resolve_next_action-Completes env dir input rank v =
    let (vs, a) = validate_ivr_graph-array input.graph_json v in
    let nodes : graph_nodes vs ≡ nodes_of input.graph_json =
      sym (ap (λ o. graph_nodes (or_default o [])) a) in
    subst
      (λ ns.
        IsResumable ns (entry_of input.graph_json) input.current_node_id input.transition
        → IsRanked ns rank
        → ((id : String) → rank id ≤ 98)
        → Ends ns (entry_of input.graph_json) (IsErrorOf IsAssetError input.transition)
            (resolve_next_action env dir input))
      nodes (passed-Completes env dir input vs rank a v)
