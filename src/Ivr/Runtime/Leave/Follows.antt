-- ===== src/Ivr/Runtime/Leave/Follows.antt =====
-- A call leaves its node along an edge of the graph.
use manage_call_ai.Base.{String, ◌≡◌, refl, inr, Option, none, some, str_eq, if_elim}
use manage_call_ai.Json.{string_field, string_or_empty}
use manage_call_ai.Ivr.Graph.{GraphNode}
use manage_call_ai.Ivr.Edges.{Link, link_field, HasLink, by_link}
use manage_call_ai.Ivr.Runtime.Types.{
  Outcome, Variables, AdvanceInput, RuntimeError, digits_required, unsupported_completion, Result,
  ok, err,
}
use manage_call_ai.Ivr.Runtime.Turn.Follows.{IsTarget, link-IsTarget}
use manage_call_ai.Ivr.Runtime.Leave.{
  Position, or_else, timeout_target, invalid_target, collected, after_collect, is_end, position,
  leave,
}

-- What can go wrong on leaving a node.
abbrev pub IsLeaveError : RuntimeError → Type 0
IsLeaveError digits_required = Unit
IsLeaveError (unsupported_completion type) = Unit
IsLeaveError _ = ⊥

module _ (n : GraphNode) where
  abbrev pub Leads : Result (Option Position) → Type 0
  Leads (ok none) = Unit
  Leads (ok (some p)) = IsTarget n p.next_node_id
  Leads (err e) = IsLeaveError e

  or_default-IsTarget :
      (l : Link) (o : Option String)
      → HasLink n.type l
      → string_field (link_field l) n.raw ≡ o
      → IsTarget n (or_else o (string_or_empty "default_node_id" n.raw))
  or_default-IsTarget l none h e = link-IsTarget n Link.default tt
  or_default-IsTarget l (some target) h e = inr (by_link l h e)

  collected-Leads :
      (digits : String) (vars : Variables) → Leads (position (collected n digits vars))
  unfolding collected
  collected-Leads digits vars =
      if_elim (λ r. Leads (position r)) (str_eq digits "") tt (link-IsTarget n Link.next tt)

  after_collect-Leads :
      (t : AdvanceInput) (o : Outcome) (last : Option String) (vars : Variables)
      → Leads (position (after_collect n t o last vars))
  unfolding after_collect timeout_target invalid_target
  after_collect-Leads t Outcome.timeout last vars = or_default-IsTarget Link.timeout _ tt refl
  after_collect-Leads t Outcome.invalid last vars = or_default-IsTarget Link.invalid _ tt refl
  after_collect-Leads t Outcome.start last vars = collected-Leads _ vars
  after_collect-Leads t Outcome.completed last vars = collected-Leads _ vars
  after_collect-Leads t Outcome.digits last vars = collected-Leads _ vars

  -- A call goes on along an edge, or is over, or the caller's completion is refused.
  pub leave-Leads :
      (t : AdvanceInput) (last : Option String) (vars : Variables) → Leads (leave n t last vars)
  unfolding leave
  leave-Leads t last vars =
      if_elim Leads (str_eq n.type "play_prompt") (link-IsTarget n Link.next tt) (
        if_elim Leads (str_eq n.type "play_collect") (after_collect-Leads t t.outcome last vars)
          (if_elim Leads (is_end n.type) tt tt))
