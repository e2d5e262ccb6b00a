-- ===== src/Ivr/Planner/Follows.antt =====
-- The planner goes along edges of the graph only.
use manage_call_ai.Base.{
  String, ◌≡◌, refl, inl, inr, true, false, Bool, Option, none, some, arith, str_eq, eq_iff,
  if_elim, if_split, Bool-cases,
}
use manage_call_ai.Json.{Json, str, Props, end, get, object_of, string_field, or_default}
use manage_call_ai.Ivr.Graph.{GraphNode}
use manage_call_ai.Ivr.Edges.{Link, HasLink, Edge, by_link, by_case, get-Memᴰ}
use manage_call_ai.Ivr.Planner.{
  PlannerContext, PlannerStepResult, CollectOutcome, OutcomeKind, timeout, invalid, digits,
  planner_node, along, nowhere, after_invalid, after_digits, after_collect, after_switch,
  case_or_default, invalid_or_default, after_kind, after_hours, resolve_switch_input, selected_case,
  caller_matches, resolve_next_node,
}

pub string_field_str :
    (key target : String) (ps : Props)
    → string_field key ps ≡ some target
    → get key ps ≡ some (str target)
string_field_str key target ps h = of_json (get key ps) refl
  where
    of_json : (o : Option Json) → get key ps ≡ o → get key ps ≡ some (str target)
    of_json o e = ground (arith, h)

string_field-end : (key target : String) → string_field key end ≡ some target → ⊥
string_field-end key target h = cc

chosen-Edge :
    (n : GraphNode) (key target : String)
    → n.type ≡ "switch"
    → (o : Option Props) → object_of (get "cases" n.raw) ≡ o
    → string_field key (or_default o end) ≡ some target
    → Edge n target
chosen-Edge n key target t none e h = absurd (string_field-end key target h)
chosen-Edge n key target t (some cases) e h =
    by_case t cases e key (get-Memᴰ key (str target) cases (string_field_str key target cases h))

-- The target of a selected case is at the end of an edge.
pub selected_case-Edge :
    (n : GraphNode) (input : Option String) (target : String)
    → n.type ≡ "switch"
    → selected_case input (or_default (object_of (get "cases" n.raw)) end) ≡ some target
    → Edge n target
unfolding selected_case
selected_case-Edge n none target t h = cc
selected_case-Edge n (some key) target t h = elim (Bool-cases (str_eq key "")) [
  | inl e ↦ let no_target : none ≡ some target = rw e at h in cc
  | inr ne ↦ chosen-Edge n key target t _ refl (rw ne at h)
]

module _ (n : GraphNode) where
  abbrev Leads : PlannerStepResult → Type 0
  Leads r = (target : String) → r.next_node_id ≡ some target → Edge n target

  along-Leads :
      (l : Link) (handle label : String)
      → HasLink n.type l
      → Leads (along (planner_node n) l handle label)
  unfolding along
  along-Leads l handle label h target e = by_link l h e

  nowhere-Leads : Leads nowhere
  nowhere-Leads target e = cc

  after_invalid-Leads : (o : Option String) → Leads (invalid_or_default (planner_node n) o)
  unfolding invalid_or_default
  after_invalid-Leads none = along-Leads Link.default _ _ tt
  after_invalid-Leads (some x) = along-Leads Link.invalid _ _ tt

  after_digits-Leads : (o : Option String) → Leads (after_digits (planner_node n) o)
  unfolding after_digits after_invalid
  after_digits-Leads none = after_invalid-Leads (string_field "invalid_node_id" n.raw)
  after_digits-Leads (some d) =
      if_elim Leads (str_eq d "") (after_invalid-Leads (string_field "invalid_node_id" n.raw))
        (along-Leads Link.next _ _ tt)

  after_kind-Leads : (k : OutcomeKind) (d : Option String) → Leads (after_kind (planner_node n) k d)
  unfolding after_kind after_invalid
  after_kind-Leads timeout d = along-Leads Link.timeout _ _ tt
  after_kind-Leads invalid d = after_invalid-Leads (string_field "invalid_node_id" n.raw)
  after_kind-Leads digits d = after_digits-Leads d

  after_collect-Leads : (o : Option CollectOutcome) → Leads (after_collect (planner_node n) o)
  unfolding after_collect after_invalid
  after_collect-Leads none = after_invalid-Leads (string_field "invalid_node_id" n.raw)
  after_collect-Leads (some o) = after_kind-Leads o.kind o.digits

  case_or_default-Leads :
      (input : String) (o : Option String)
      → ((target : String) → o ≡ some target → Edge n target)
      → Leads (case_or_default (planner_node n) input o)
  unfolding case_or_default
  case_or_default-Leads input none f = along-Leads Link.default _ _ tt
  case_or_default-Leads input (some x) f = f

  after_hours-Leads :
      (o : Option Bool) → n.type ≡ "business_hours" → Leads (after_hours (planner_node n) o)
  unfolding after_hours
  after_hours-Leads none t = nowhere-Leads
  after_hours-Leads (some true) t = along-Leads Link.in_hours _ _ t
  after_hours-Leads (some false) t = along-Leads Link.out_of_hours _ _ t

  abbrev is_type : (type : String) → str_eq n.type type ≡ true → n.type ≡ type
  is_type type = (eq_iff n.type type).0

  resolve_next_node-Leads :
      (ctx : PlannerContext) (outcome : Option CollectOutcome)
      → Leads (resolve_next_node (planner_node n) ctx outcome)
  unfolding resolve_next_node after_switch
  resolve_next_node-Leads ctx outcome = if_elim Leads _ (along-Leads Link.next _ _ tt) (
      if_elim Leads (str_eq n.type "play_collect") (after_collect-Leads outcome) (
        if_split Leads (str_eq n.type "switch")
          (λ t. case_or_default-Leads _ _ λ target.
            selected_case-Edge n (resolve_switch_input n.raw ctx) target (is_type "switch" t))
          λ _.
            if_split Leads (str_eq n.type "business_hours")
              (λ t. after_hours-Leads _ (is_type "business_hours" t))
              λ _.
                if_split Leads (str_eq n.type "caller_id_match")
                  (λ t.
                    if_elim Leads (caller_matches ctx.caller_number n.raw)
                      (along-Leads Link.match _ _ (is_type "caller_id_match" t))
                      (along-Leads Link.no_match _ _ (is_type "caller_id_match" t)))
                  (λ _. nowhere-Leads)))

-- Whatever the context and the collected outcome, the planner's next node, if it has one, is at the end
-- of an edge of the graph.
pub resolve_next_node-Edge :
    (n : GraphNode) (ctx : PlannerContext) (outcome : Option CollectOutcome) (target : String)
    → (resolve_next_node (planner_node n) ctx outcome).next_node_id ≡ some target
    → Edge n target
resolve_next_node-Edge n ctx outcome = resolve_next_node-Leads n ctx outcome
