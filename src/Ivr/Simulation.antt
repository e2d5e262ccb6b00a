-- ===== src/Ivr/Simulation.antt =====
-- `simulateGraph` of apps/api/src/modules/ivr-flows/ivr-flow.service.ts. Its loop has 100 rounds, which are
-- the fuel of `run`. The schedules are those that the service has read; the clock and ECMAScript's `Intl`
-- are parameters.
pub mod Walks
pub mod Ends
pub mod Tests
use Prim.Native.Char.{code}
use Prim.Native.String
use Prim.Native.String.{[] as empty, ◌∷◌ as char}
use manage_call_ai.Base.{
  ℕ, zero, suc, String, Bool, true, false, not, ◌&&◌, ◌||◌, List, [], ◌∷◌, push, Option, none, some,
  if◌then◌else◌, str_eq, ◌==◌, has, map_get, map_set,
}
use manage_call_ai.Json.{Props, obj, string_field, string_or_empty, or_default}
use manage_call_ai.Text.{is_digit}
use manage_call_ai.Schedule.Types.{Schedule}
use manage_call_ai.Schedule.Hours.{Intl, is_in_business_hours}
use manage_call_ai.Ivr.NodeType.{Category}
use manage_call_ai.Ivr.Validation.{Status, passed, failed, ValidationOutcome, validate_ivr_graph}
use manage_call_ai.Ivr.Validation.Issues.{Issue}
use manage_call_ai.Ivr.Planner.{
  PlannerNode, PlannerGraph, PlannerContext, PlannerStepResult, CollectOutcome, OutcomeKind,
  build_planner_graph, resolve_next_node,
}

-- A flag that is missing is false.
pub record SimulationScenario : Type 0 where
  pub digits : Option (List String)
  pub collected_digits : Option (List (String × String))
  pub caller_number : Option String
  pub now : Option String
  pub force_timeout : Bool
  pub force_timeout_nodes : Option (List String)
  pub force_invalid : Bool
  pub force_invalid_nodes : Option (List String)
  pub variables : Option (List (String × String))

pub data FinalAction : Type 0 where
  transfer_extension : (extension_id extension_number : Option String) → FinalAction
  queue : (queue_id : Option String) → FinalAction
  voicemail : (voicemail_box_id : Option String) → FinalAction
  hangup : FinalAction

pub record SimulationStep : Type 0 where
  pub node_id : String
  pub category : Category
  pub edge_id : Option String

-- A constructor for each error, which determines its field and message.
pub data SimulationError : Type 0 where
  invalid_graph : Issue → SimulationError
  no_entry traversal_exceeded : SimulationError
  node_not_loaded : (id : String) → SimulationError
  schedule_not_found : (id schedule_id : String) → SimulationError
  unsupported_type : (id type : String) → SimulationError

pub record SimulationOutcome : Type 0 where
  pub status : Status
  pub path : List String
  pub steps : List SimulationStep
  pub final_action : Option FinalAction
  pub errors : List SimulationError

abbrev pub join : List String → String
join [] = ""
join (s ∷ ss) = String.◌++◌ s (join ss)

unfoldable pub normalize_digits : SimulationScenario → Option String
normalize_digits scenario = elim scenario.digits [
  | none ↦ none
  | some [] ↦ none
  | some (d ∷ ds) ↦ some (join (d ∷ ds))
]

-- The hour, where `T(\d{2}):\d{2}` matches at the start.
unfoldable pub hour_at : String → Option String
hour_at (char t (char a (char b (char colon (char c (char d rest)))))) =
    if (code t == 84 && code colon == 58)
      && (is_digit a && (is_digit b && (is_digit c && is_digit d)))
    then some (char a (char b empty))
    else none
hour_at _ = none

abbrev pub first_of {ℓ} : {A : Type ℓ} → Option A → Option A → Option A
first_of none o = o
first_of (some a) o = some a

unfoldable pub find_hour : String → Option String
unfolding hour_at
find_hour empty = none
find_hour (char c s) = first_of (hour_at (char c s)) (find_hour s)

unfoldable pub resolve_scenario_hour : Option String → Option String
unfolding find_hour
resolve_scenario_hour none = none
resolve_scenario_hour (some now) = find_hour now

unfoldable pub has_node_flag : String → Bool → Option (List String) → Bool
has_node_flag id global none = global
has_node_flag id global (some ids) = global || has id ids

abbrev pub nonempty : Option String → Option String
nonempty none = none
nonempty (some s) = if str_eq s "" then none else some s

unfoldable pub get_collected_digits_for_node : String → SimulationScenario → Option String
get_collected_digits_for_node id scenario =
    first_of (nonempty (map_get id (or_default scenario.collected_digits [])))
      (normalize_digits scenario)

-- The variables of the loop.
pub record Walk : Type 0 where
  pub path : List String
  pub steps : List SimulationStep
  pub last_digits : Option String
  pub variables : List (String × String)
  pub edge_id : Option String

-- A round of the loop returns an outcome, or goes to a node.
pub data Turn : Type 0 where
  done : SimulationOutcome → Turn
  goto : Option String → Walk → Turn

unfoldable pub fails : SimulationError → Walk → SimulationOutcome
fails e w = record {
  status = failed;
  path = w.path;
  steps = w.steps;
  final_action = none;
  errors = e ∷ [];
}

unfoldable pub passes : FinalAction → Walk → SimulationOutcome
passes a w = record {
  status = passed;
  path = w.path;
  steps = w.steps;
  final_action = some a;
  errors = [];
}

unfoldable pub terminal_action : PlannerNode → Option FinalAction
terminal_action n =
    if str_eq n.type "transfer_extension"
    then some (
        transfer_extension (string_field "extension_id" n.raw)
          (string_field "extension_number" n.raw))
    else if str_eq n.type "queue"
    then some (queue (string_field "queue_id" n.raw))
    else if str_eq n.type "voicemail_drop"
    then some (voicemail (string_field "voicemail_box_id" n.raw))
    else if str_eq n.type "hangup"
    then some hangup
    else none

abbrev pub step_category : Option Category → Category
step_category none = Category.task
step_category (some c) = c

-- `path.push` and `traceSteps.push`.
unfoldable pub enter : PlannerNode → String → Walk → Walk
enter n id w = record w {
  steps =
      push w.steps
        (record { node_id = id; category = step_category n.category; edge_id = w.edge_id });
}

abbrev pub at_node : String → Walk → Walk
at_node id w = record w { path = push w.path id }

abbrev pub outcome_of : OutcomeKind → Option String → Option CollectOutcome
outcome_of k d = some (record { kind = k; digits = d })

unfoldable pub take_digits : String → Option String → Walk → Walk
take_digits id none w = w
take_digits id (some d) w = record w {
  last_digits = some d;
  variables =
      map_set (String.◌++◌ "node." (String.◌++◌ id ".digits")) d
        (map_set "last_digits" d w.variables);
}

module _ (scenario : SimulationScenario) where
  -- `!collected`.
  abbrev pub collected : String → Option String
  collected id = nonempty (get_collected_digits_for_node id scenario)

  abbrev pub times_out : String → Bool
  times_out id = has_node_flag id scenario.force_timeout scenario.force_timeout_nodes

  abbrev pub is_invalid : String → Bool
  is_invalid id = has_node_flag id scenario.force_invalid scenario.force_invalid_nodes

  abbrev pub digits_or_invalid : Option String → Option CollectOutcome
  digits_or_invalid none = outcome_of OutcomeKind.invalid none
  digits_or_invalid (some d) = outcome_of OutcomeKind.digits (some d)

  unfoldable pub collect_outcome : PlannerNode → String → Option CollectOutcome
  collect_outcome n id =
      if not (str_eq n.type "play_collect")
      then none
      else if times_out id
      then outcome_of OutcomeKind.timeout none
      else if is_invalid id
      then outcome_of OutcomeKind.invalid none
      else digits_or_invalid (collected id)

  unfoldable pub collect : PlannerNode → String → Walk → Walk
  collect n id w =
      if not (str_eq n.type "play_collect") || (times_out id || is_invalid id)
      then w
      else take_digits id (collected id) w

  unfoldable pub set_variable : PlannerNode → Walk → Walk
  set_variable n w =
      if not (str_eq n.type "set_variable") || str_eq (string_or_empty "variable_name" n.raw) ""
      then w
      else record w {
        variables =
            map_set (string_or_empty "variable_name" n.raw) (string_or_empty "value" n.raw)
              w.variables;
      }

  unfoldable pub context : Walk → Option (String → Option Bool) → PlannerContext
  context w hours = record {
    last_digits = w.last_digits;
    caller_number = scenario.caller_number;
    scenario_hour = resolve_scenario_hour scenario.now;
    variables = w.variables;
    resolve_business_hours = hours;
  }

  abbrev pub moved : PlannerStepResult → Walk → Turn
  moved r w = goto r.next_node_id (record w { edge_id = r.edge_id })

  abbrev pub is_end : Option Category → Bool
  is_end (some Category.end) = true
  is_end _ = false

  -- `nextNodeId === undefined && plannerNode.category !== 'end'`.
  unfoldable pub moved_or_unsupported :
      PlannerNode → String → Option String → PlannerStepResult → Walk → Turn
  moved_or_unsupported n id none r w =
      if is_end n.category then moved r w else done (fails (unsupported_type id n.type) w)
  moved_or_unsupported n id (some next) r w = moved r w

  unfoldable pub task_turn : PlannerNode → String → Walk → Turn
  task_turn n id w =
      let w' = set_variable n (collect n id w) in
      let r = resolve_next_node n (context w' none) (collect_outcome n id) in
      moved_or_unsupported n id r.next_node_id r w'

  module _ (intl : Intl) (clock : ℕ) (schedules : List (String × Schedule)) where
    -- `scenario.now ? new Date(scenario.now) : new Date()`; an invalid date makes the formatters throw.
    unfoldable pub eval_at : Option String → Option ℕ
    eval_at none = some clock
    eval_at (some now) = if str_eq now "" then some clock else intl.parse now

    abbrev pub in_hours : Schedule → Option ℕ → Bool
    in_hours s none = false
    in_hours s (some t) = is_in_business_hours intl s t

    unfoldable pub hours_turn : PlannerNode → String → String → Option Schedule → Walk → Turn
    hours_turn n id schedule_id none w = done (fails (schedule_not_found id schedule_id) w)
    hours_turn n id schedule_id (some s) w =
        let open_now = in_hours s (eval_at scenario.now) in
        let r = resolve_next_node n (context w (some λ x. some open_now)) none in moved r w

    unfoldable pub turn_unless : Option FinalAction → PlannerNode → String → Walk → Turn
    turn_unless (some a) n id w = done (passes a w)
    turn_unless none n id w =
        if str_eq n.type "business_hours"
        then hours_turn n id (string_or_empty "schedule_id" n.raw)
            (map_get (string_or_empty "schedule_id" n.raw) schedules) w
        else task_turn n id w

    -- The body of the loop, from the look-up of the node on.
    unfoldable pub turn : Option PlannerNode → String → Walk → Turn
    turn none id w = done (fails (node_not_loaded id) w)
    turn (some n) id w = turn_unless (terminal_action n) n id (enter n id w)

    unfoldable pub after_turn :
        Turn → (Option String → Walk → SimulationOutcome) → SimulationOutcome
    after_turn (done o) more = o
    after_turn (goto next w) more = more next w

    unfoldable pub run : PlannerGraph → ℕ → Option String → Walk → SimulationOutcome
    run planner fuel none w = fails traversal_exceeded w
    run planner zero (some id) w = fails traversal_exceeded w
    run planner (suc fuel) (some id) w =
        if str_eq id ""
        then fails traversal_exceeded w
        else after_turn (turn (map_get id planner.nodes) id (at_node id w)) (run planner fuel)

    abbrev pub start_walk : Walk
    start_walk = record {
      path = [];
      steps = [];
      last_digits = normalize_digits scenario;
      variables = or_default scenario.variables [];
      edge_id = none;
    }

    unfoldable pub simulate_planned : PlannerGraph → SimulationOutcome
    simulate_planned planner =
        if str_eq planner.entry_node_id ""
        then fails no_entry start_walk
        else run planner 100 (some planner.entry_node_id) start_walk

    abbrev pub as_simulation_errors : List Issue → List SimulationError
    as_simulation_errors [] = []
    as_simulation_errors (e ∷ es) = invalid_graph e ∷ as_simulation_errors es

    unfoldable pub simulate_valid : Props → ValidationOutcome → SimulationOutcome
    simulate_valid graph v = elim v.status [
      | failed ↦ record {
        status = failed;
        path = [];
        steps = [];
        final_action = none;
        errors = as_simulation_errors v.errors;
      }
      | passed ↦ simulate_planned (build_planner_graph graph)
    ]

    unfoldable pub simulate_graph : Props → SimulationOutcome
    simulate_graph graph = simulate_valid graph (validate_ivr_graph (obj graph))
