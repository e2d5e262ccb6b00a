-- ===== src/Ivr/Planner/Takes.antt =====
-- Which field of a node the next node is read from, by the node's type, the context and the collected outcome:
-- the table that `resolveNextNode` of apps/api/src/modules/ivr-flows/ivr-graph-planner.ts stands for.
use mathlib.Core.List.{Memᴰ}
use manage_call_ai.Base.{
  List, [], any, if◌then◌else◌, String, ◌≡◌, ◌⊎◌, refl, ap, ◌∙◌, inl, inr, true, false, Bool,
  Option, none, some, arith, str_eq, eq_iff, if_split, Bool-cases, ◌||◌,
}
use manage_call_ai.Json.{
  Json, str, array_of, Props, end, get, object_of, string_field, string_or_empty, or_default,
}
use manage_call_ai.Text.{strip_prefix}
use manage_call_ai.Ivr.Edges.{Link}
use manage_call_ai.Ivr.Graph.{GraphNode}
use manage_call_ai.Ivr.Planner.{
  PlannerContext, PlannerStepResult, CollectOutcome, OutcomeKind, timeout, invalid, digits,
  planner_node, along, nowhere, after_invalid, after_digits, after_collect, after_switch,
  case_or_default, invalid_or_default, after_kind, after_hours, resolve_switch_input, selected_case,
  caller_matches, has_prefix, hours_of, resolve_next_node,
}
use manage_call_ai.Ivr.Planner.Prefixes.{any-has_prefix, any-has_no_prefix}

abbrev pub cases_of : GraphNode → Props
cases_of n = or_default (object_of (get "cases" n.raw)) end

abbrev pub prefixes_of : GraphNode → List Json
prefixes_of n = or_default (array_of (get "prefixes" n.raw)) []

-- No digits came, though the caller did not let the time pass.
abbrev pub IsInvalid : Option CollectOutcome → Type 0
IsInvalid none = Unit
IsInvalid (some o) =
    (o.kind ≡ invalid) ⊎ ((o.kind ≡ digits) × ((o.digits ≡ none) ⊎ (o.digits ≡ some "")))

abbrev pub hours_at : GraphNode → PlannerContext → Option Bool
hours_at n ctx =
    hours_of (planner_node n) ctx.resolve_business_hours (string_or_empty "schedule_id" n.raw)

-- The next node that a node takes in a context, after an outcome.
pub data Takes (n : GraphNode) (ctx : PlannerContext) (outcome : Option CollectOutcome)
    : Option String → Type 0 where
  goes_on :
      (n.type ≡ "start") ⊎ ((n.type ≡ "play_prompt") ⊎ (n.type ≡ "set_variable"))
      → Takes n ctx outcome (string_field "next_node_id" n.raw)
  collects :
      n.type ≡ "play_collect"
      → (o : CollectOutcome) (d : String) → outcome ≡ some o
      → o.kind ≡ digits
      → o.digits ≡ some d
      → str_eq d "" ≡ false
      → Takes n ctx outcome (string_field "next_node_id" n.raw)
  times_out :
      n.type ≡ "play_collect"
      → (o : CollectOutcome) → outcome ≡ some o
      → o.kind ≡ timeout
      → Takes n ctx outcome (string_field "timeout_node_id" n.raw)
  is_invalid :
      n.type ≡ "play_collect"
      → IsInvalid outcome
      → (target : String) → string_field "invalid_node_id" n.raw ≡ some target
      → Takes n ctx outcome (some target)
  falls_back :
      n.type ≡ "play_collect"
      → IsInvalid outcome
      → string_field "invalid_node_id" n.raw ≡ none
      → Takes n ctx outcome (string_field "default_node_id" n.raw)
  chooses :
      n.type ≡ "switch"
      → (input target : String) → resolve_switch_input n.raw ctx ≡ some input
      → str_eq input "" ≡ false
      → string_field input (cases_of n) ≡ some target
      → Takes n ctx outcome (some target)
  has_no_case :
      n.type ≡ "switch"
      → ((input : String)
          → resolve_switch_input n.raw ctx ≡ some input
          → str_eq input "" ≡ false
          → string_field input (cases_of n) ≡ none)
      → Takes n ctx outcome (string_field "default_node_id" n.raw)
  is_open :
      n.type ≡ "business_hours"
      → hours_at n ctx ≡ some true
      → Takes n ctx outcome (string_field "in_hours_node_id" n.raw)
  is_closed :
      n.type ≡ "business_hours"
      → hours_at n ctx ≡ some false
      → Takes n ctx outcome (string_field "out_of_hours_node_id" n.raw)
  knows_no_hours : n.type ≡ "business_hours" → hours_at n ctx ≡ none → Takes n ctx outcome none
  matches :
      n.type ≡ "caller_id_match"
      → (p rest : String) → Memᴰ (str p) (prefixes_of n)
      → strip_prefix p (or_default ctx.caller_number "") ≡ some rest
      → Takes n ctx outcome (string_field "match_node_id" n.raw)
  differs :
      n.type ≡ "caller_id_match"
      → ((p : String)
          → Memᴰ (str p) (prefixes_of n)
          → strip_prefix p (or_default ctx.caller_number "") ≡ none)
      → Takes n ctx outcome (string_field "no_match_node_id" n.raw)
  is_other :
      (str_eq n.type "start" ≡ false)
        × (str_eq n.type "play_prompt" ≡ false)
        × (str_eq n.type "set_variable" ≡ false)
        × (str_eq n.type "play_collect" ≡ false)
        × (str_eq n.type "switch" ≡ false)
        × (str_eq n.type "business_hours" ≡ false)
        × (str_eq n.type "caller_id_match" ≡ false)
      → Takes n ctx outcome none

module _ (n : GraphNode) (ctx : PlannerContext) (outcome : Option CollectOutcome) where
  abbrev Taken : PlannerStepResult → Type 0
  Taken r = Takes n ctx outcome r.next_node_id

  abbrev is_type : (type : String) → str_eq n.type type ≡ true → n.type ≡ type
  is_type type = (eq_iff n.type type).0

  invalid-Taken :
      n.type ≡ "play_collect"
      → IsInvalid outcome
      → (o : Option String) → string_field "invalid_node_id" n.raw ≡ o
      → Taken (invalid_or_default (planner_node n) o)
  unfolding invalid_or_default along
  invalid-Taken t i none e = falls_back t i e
  invalid-Taken t i (some x) e = rw e (is_invalid t i x e)

  digits-Taken :
      n.type ≡ "play_collect"
      → (o : CollectOutcome) → outcome ≡ some o
      → o.kind ≡ digits
      → (d : Option String) → o.digits ≡ d
      → Taken (after_digits (planner_node n) d)
  unfolding after_digits after_invalid along
  digits-Taken t o e k none g = invalid-Taken t (rw e (inr (k, inl g))) _ refl
  digits-Taken t o e k (some d) g =
      if_split Taken (str_eq d "")
        (λ x. invalid-Taken t (rw e (inr (k, inr (g ∙ ap some ((eq_iff d "").0 x))))) _ refl)
        (λ x. collects t o d e k g x)

  kind-Taken :
      n.type ≡ "play_collect"
      → (o : CollectOutcome) → outcome ≡ some o
      → (k : OutcomeKind) → o.kind ≡ k
      → Taken (after_kind (planner_node n) k o.digits)
  unfolding after_kind after_invalid along
  kind-Taken t o e timeout k = times_out t o e k
  kind-Taken t o e invalid k = invalid-Taken t (rw e (inl k)) _ refl
  kind-Taken t o e digits k = digits-Taken t o e k o.digits refl

  collect-Taken :
      n.type ≡ "play_collect"
      → (o : Option CollectOutcome) → outcome ≡ o
      → Taken (after_collect (planner_node n) o)
  unfolding after_collect after_invalid
  collect-Taken t none e = invalid-Taken t (rw e tt) _ refl
  collect-Taken t (some o) e = kind-Taken t o e o.kind refl

  case-Taken :
      n.type ≡ "switch"
      → (input : String) → resolve_switch_input n.raw ctx ≡ some input
      → str_eq input "" ≡ false
      → (o : Option String) → string_field input (cases_of n) ≡ o
      → Taken (case_or_default (planner_node n) input o)
  unfolding case_or_default along
  case-Taken t input e g none h = has_no_case t λ i f _. rw (same i f) h
    where
      same : (i : String) → resolve_switch_input n.raw ctx ≡ some i → i ≡ input
      same i f = cc
  case-Taken t input e g (some target) h = chooses t input target e g h

  switch-Taken :
      n.type ≡ "switch"
      → (o : Option String) → resolve_switch_input n.raw ctx ≡ o
      → Taken (after_switch (planner_node n) (cases_of n) o)
  unfolding after_switch selected_case case_or_default along
  switch-Taken t none e = has_no_case t λ i f g. let x : none ≡ some i = rw e at f in cc
  switch-Taken t (some input) e = elim (Bool-cases (str_eq input "")) [
    | inl g ↦ rw g (
        has_no_case t λ i f ne.
          let x : some input ≡ some i = rw e at f in
          let same : input ≡ i = cc in let y : str_eq i "" ≡ true = rw same at g in cc)
    | inr ne ↦ rw ne (case-Taken t input e ne _ refl)
  ]

  hours-Taken :
      n.type ≡ "business_hours"
      → (o : Option Bool) → hours_at n ctx ≡ o
      → Taken (after_hours (planner_node n) o)
  unfolding after_hours along
  hours-Taken t none e = knows_no_hours t e
  hours-Taken t (some true) e = is_open t e
  hours-Taken t (some false) e = is_closed t e

  caller-Taken :
      n.type ≡ "caller_id_match"
      → Taken (
          if caller_matches ctx.caller_number n.raw
          then along (planner_node n) Link.match "match" "match"
          else along (planner_node n) Link.no_match "no_match" "no_match")
  unfolding along caller_matches
  caller-Taken t =
      let caller = or_default ctx.caller_number "" in
      if_split Taken (any (has_prefix caller) (prefixes_of n))
        (λ h.
          let x = any-has_prefix caller (prefixes_of n) h in matches t x.0 x.1.0 x.1.1.0 x.1.1.1)
        (λ h. differs t λ p m. any-has_no_prefix caller p (prefixes_of n) h m)

  plain-type :
      (str_eq n.type "start" || (str_eq n.type "play_prompt" || str_eq n.type "set_variable"))
        ≡ true
      → (n.type ≡ "start") ⊎ ((n.type ≡ "play_prompt") ⊎ (n.type ≡ "set_variable"))
  plain-type h = elim (Bool-cases (str_eq n.type "start")) [
    | inl e ↦ inl (is_type "start" e)
    | inr ne ↦ elim (Bool-cases (str_eq n.type "play_prompt")) [
      | inl e ↦ inr (inl (is_type "play_prompt" e))
      | inr nf ↦ inr (inr (is_type "set_variable" (rw (ne, nf) at h)))
    ]
  ]

  other-Taken :
      (str_eq n.type "start" || (str_eq n.type "play_prompt" || str_eq n.type "set_variable"))
        ≡ false
      → str_eq n.type "play_collect" ≡ false
      → str_eq n.type "switch" ≡ false
      → str_eq n.type "business_hours" ≡ false
      → str_eq n.type "caller_id_match" ≡ false
      → Taken nowhere
  other-Taken p c s b i =
      is_other (ground (arith, p), ground (arith, p), ground (arith, p), c, s, b, i)

  -- Whatever the context and the collected outcome, the planner's next node is the one that the node takes: of
  -- the field that goes with its type, the hours, the caller, the collected digits or the case of the input.
  pub resolve_next_node-Takes :
      Takes n ctx outcome (resolve_next_node (planner_node n) ctx outcome).next_node_id
  unfolding resolve_next_node along
  resolve_next_node-Takes =
      if_split Taken _ (λ p. goes_on (plain-type p))
        λ p.
          if_split Taken (str_eq n.type "play_collect")
            (λ t. collect-Taken (is_type "play_collect" t) outcome refl)
            λ c.
              if_split Taken (str_eq n.type "switch")
                (λ t. switch-Taken (is_type "switch" t) _ refl)
                λ s.
                  if_split Taken (str_eq n.type "business_hours")
                    (λ t. hours-Taken (is_type "business_hours" t) _ refl)
                    λ b.
                      if_split Taken (str_eq n.type "caller_id_match")
                        (λ t. caller-Taken (is_type "caller_id_match" t))
                        (λ i. other-Taken p c s b i)
