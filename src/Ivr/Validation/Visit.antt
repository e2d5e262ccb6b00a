-- ===== src/Ivr/Validation/Visit.antt =====
-- The second phase of `validateIvrGraph` (apps/api/src/modules/ivr-flows/ivr-flow.validation.ts):
-- `visit`, which counts the levels left instead of the depth reached.
pub mod Closure
pub mod Targets
pub mod Sources
pub mod Marks
use manage_call_ai.Base.{
  ℕ, suc, zero, String, true, false, List, [], ◌∷◌, ◌++◌, Option, none, some, if◌then◌else◌, str_eq,
  push, has, flat_map,
}
use manage_call_ai.Json.{Json, str, Props, get, entries, array_of, object_of, string_field}
use manage_call_ai.Ivr.Graph.{GraphNode, ids_of, find_node}
use manage_call_ai.Ivr.Validation.Issues.{
  Issue, loop_detected, missing_reference, missing_case, case_not_string, no_cases, no_schedule_id,
  no_prefixes, no_variable_name, no_value, no_queue_id, no_voicemail_box_id, unreachable,
}

abbrev max_traversal_depth : ℕ
max_traversal_depth = 50

abbrev pub common_fields : List String
common_fields =
    "next_node_id" ∷ "timeout_node_id" ∷ "invalid_node_id" ∷ "default_node_id" ∷ "fallback_node_id"
    ∷ []

abbrev pub hours_fields : List String
hours_fields = "in_hours_node_id" ∷ "out_of_hours_node_id" ∷ []

abbrev pub caller_fields : List String
caller_fields = "match_node_id" ∷ "no_match_node_id" ∷ []

-- What the visit of a node does, in order: it reports an error or visits another node.
pub data Task : Type 0 where
  report : Issue → Task
  go : String → Task

module _ (ids : List String) where
  -- `pushMissingReference`.
  unfoldable pub push_missing_reference : GraphNode → String → List Task
  push_missing_reference n field = elim (string_field field n.raw) [
    | none ↦ []
    | some target ↦ if has target ids then [] else report (missing_reference n.id field target) ∷ []
  ]

  unfoldable pub visit_found : Option String → List Task
  visit_found none = []
  visit_found (some target) = if has target ids then go target ∷ [] else []

  unfoldable pub visit_target : GraphNode → String → List Task
  visit_target n field = visit_found (string_field field n.raw)

  unfoldable pub case_task : GraphNode → String → Json → Task
  case_task n key (str target) =
      if has target ids then go target else report (missing_case n.id key target)
  case_task n key _ = report (case_not_string n.id key)

  unfoldable pub case_tasks : GraphNode → List (String × Json) → List Task
  case_tasks n [] = []
  case_tasks n ((key, v) ∷ rest) = case_task n key v ∷ case_tasks n rest

  unfoldable pub switch_tasks : GraphNode → Option Props → List Task
  switch_tasks n none = report (no_cases n.id) ∷ []
  switch_tasks n (some cases) = case_tasks n (entries cases)

  -- `typeof value !== 'string' || value.length === 0` reports.
  unfoldable pub require_text : Issue → Option String → List Task
  require_text e none = report e ∷ []
  require_text e (some s) = if str_eq s "" then report e ∷ [] else []

  unfoldable pub require_string : Issue → Option String → List Task
  require_string e none = report e ∷ []
  require_string e (some s) = []

  unfoldable pub require_prefixes : Issue → Option (List Json) → List Task
  require_prefixes e none = report e ∷ []
  require_prefixes e (some []) = report e ∷ []
  require_prefixes e (some (p ∷ ps)) = []

  -- The references of some fields are checked first, and then followed.
  unfoldable pub linked_tasks : GraphNode → List String → List Task
  linked_tasks n fields =
      flat_map (push_missing_reference n) fields ++ flat_map (visit_target n) fields

  abbrev of_type : GraphNode → String → List Task → List Task
  of_type n type ts = if str_eq n.type type then ts else []

  unfoldable pub hours_tasks : GraphNode → List Task
  hours_tasks n =
      require_text (no_schedule_id n.id) (string_field "schedule_id" n.raw)
      ++ linked_tasks n hours_fields

  unfoldable pub caller_tasks : GraphNode → List Task
  caller_tasks n =
      require_prefixes (no_prefixes n.id) (array_of (get "prefixes" n.raw))
      ++ linked_tasks n caller_fields

  unfoldable pub variable_tasks : GraphNode → List Task
  variable_tasks n =
      require_text (no_variable_name n.id) (string_field "variable_name" n.raw)
      ++ require_string (no_value n.id) (string_field "value" n.raw)

  unfoldable pub queue_tasks : GraphNode → List Task
  queue_tasks n = require_text (no_queue_id n.id) (string_field "queue_id" n.raw)

  unfoldable pub voicemail_tasks : GraphNode → List Task
  voicemail_tasks n =
      require_text (no_voicemail_box_id n.id) (string_field "voicemail_box_id" n.raw)

  unfoldable pub special_tasks : GraphNode → List Task
  special_tasks n =
      of_type n "switch" (switch_tasks n (object_of (get "cases" n.raw)))
      ++ (of_type n "business_hours" (hours_tasks n)
          ++ (of_type n "caller_id_match" (caller_tasks n)
              ++ (of_type n "set_variable" (variable_tasks n)
                  ++ (of_type n "queue" (queue_tasks n)
                      ++ of_type n "voicemail_drop" (voicemail_tasks n)))))

  unfoldable pub node_tasks : GraphNode → List Task
  node_tasks n = linked_tasks n common_fields ++ special_tasks n

-- The second phase: `errors` and `reachable`, which `visit` fills.
pub record Traversal : Type 0 where
  pub errors : List Issue
  pub reachable : List String

unfoldable pub run_tasks : (String → Traversal → Traversal) → List Task → Traversal → Traversal
run_tasks go_to [] s = s
run_tasks go_to (report e ∷ ts) s = run_tasks go_to ts (record s { errors = push s.errors e })
run_tasks go_to (go target ∷ ts) s = run_tasks go_to ts (go_to target s)

module _ (nodes : List GraphNode) where
  unfoldable pub found_tasks : Option GraphNode → List Task
  found_tasks none = []
  found_tasks (some n) = node_tasks (ids_of nodes) n

  unfoldable pub tasks_of : String → List Task
  tasks_of id = found_tasks (find_node id nodes)

  -- `visit(id, depth)` with `levels = MAX_TRAVERSAL_DEPTH + 1 - depth`.
  unfoldable pub visit : ℕ → String → Traversal → Traversal
  visit zero id s = record s { errors = push s.errors loop_detected }
  visit (suc levels) id s = elim (has id s.reachable) [
    | true ↦ s
    | false ↦ run_tasks (visit levels) (tasks_of id) (record s { reachable = id ∷ s.reachable })
  ]

  unfoldable pub traverse : String → Traversal
  traverse entry = visit (suc max_traversal_depth) entry (record { errors = []; reachable = [] })

unfoldable pub unreachable_warnings : List String → List GraphNode → List Issue
unreachable_warnings reachable [] = []
unreachable_warnings reachable (n ∷ ns) =
    let rest = unreachable_warnings reachable ns in
    if has n.id reachable then rest else unreachable n.id ∷ rest
