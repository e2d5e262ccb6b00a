-- ===== src/Ivr/Tests.antt =====
-- A flow that greets the caller and hangs up, under the validation, the planner and the runtime.
use manage_call_ai.Base.{
  ℕ, zero, suc, ◌+◌, ◌≤◌, ◌<◌, String, ◌≡◌, ◌≢◌, refl, sym, ap, ◌∙◌, subst, ◌⊎◌, inl, inr, true,
  false, List, [], ◌∷◌, Option, none, some, arith, str_eq, eq_iff, if◌then◌else◌, Bool-cases,
  str_eq-cases,
}
use manage_call_ai.Json.{str, arr, obj, nil, cons, Props, end, prop}
use manage_call_ai.Schedule.Hours.{Intl}
use manage_call_ai.Ivr.Graph.{GraphNode, nodes_of, entry_of, find_node, IsDistinct}
use manage_call_ai.Ivr.Edges.{Link, Edge, by_link, by_case, Reach}
use manage_call_ai.Ivr.Validation.{passed, validate_ivr_graph}
use manage_call_ai.Ivr.Validation.Sound.{
  IsExecutable, validate_ivr_graph-IsExecutable, validate_ivr_graph-IsDistinct,
}
use manage_call_ai.Ivr.Planner.{PlannerContext, planner_node, resolve_next_node}
use manage_call_ai.Ivr.Planner.Takes.{Takes, resolve_next_node-Takes}
use manage_call_ai.Ivr.Runtime.Types.{
  StartInput, AdvanceInput, Outcome, IsAssetError, Result, ok, err,
}
use manage_call_ai.Ivr.Runtime.Directory.{Directory}
use manage_call_ai.Ivr.Runtime.Turn.{Environment}
use manage_call_ai.Ivr.Runtime.Turn.Follows.{IsSilent}
use manage_call_ai.Ivr.Runtime.Resolve.{ResolveInput, resolve_next_action}
use manage_call_ai.Ivr.Runtime.Resolve.Safe.{IsRanked, Ends}
use manage_call_ai.Ivr.Runtime.Resolve.Calls.{
  IsErrorOf, IsRunError, resolve_next_action-Ends, resolve_next_action-Completes,
}
use manage_call_ai.Ivr.Runtime.Session.{
  Flow, FlowVersion, Store, SessionResult, find_version, start_session, advance_session,
}
use manage_call_ai.Ivr.Runtime.Session.Valid.{IsValid, IsValidated}
use manage_call_ai.Ivr.Runtime.Session.Trace.{Step, Reached, Reached-IsValid}
use manage_call_ai.Ivr.Graph
use manage_call_ai.Ivr.NodeType
use manage_call_ai.Ivr.Planner
use manage_call_ai.Ivr.Runtime.Assets
use manage_call_ai.Ivr.Runtime.Directory as Reads
use manage_call_ai.Ivr.Runtime.Leave
use manage_call_ai.Ivr.Runtime.Resolve
use manage_call_ai.Ivr.Runtime.Session
use manage_call_ai.Ivr.Runtime.Turn
use manage_call_ai.Ivr.Runtime.Types as RuntimeTypes
use manage_call_ai.Ivr.Validation
use manage_call_ai.Ivr.Validation.NodeScan
use manage_call_ai.Ivr.Validation.Visit

abbrev start_props : Props
start_props =
    prop "id" (str "start") (prop "type" (str "start") (prop "next_node_id" (str "welcome") end))

abbrev welcome_props : Props
welcome_props = prop "id" (str "welcome") (
    prop "type" (str "play_prompt")
      (prop "prompt_id" (str "p1") (prop "next_node_id" (str "bye") end)))

abbrev bye_props : Props
bye_props = prop "id" (str "bye") (prop "type" (str "hangup") end)

abbrev start_node : GraphNode
start_node = record { id = "start"; type = "start"; raw = start_props }

abbrev welcome_node : GraphNode
welcome_node = record { id = "welcome"; type = "play_prompt"; raw = welcome_props }

abbrev bye_node : GraphNode
bye_node = record { id = "bye"; type = "hangup"; raw = bye_props }

abbrev greeting_graph : Props
greeting_graph = prop "entry_node_id" (str "start") (
    prop "nodes"
      (arr (cons (obj start_props) (cons (obj welcome_props) (cons (obj bye_props) nil)))) end)

greeting_graph-passed : (validate_ivr_graph (obj greeting_graph)).status ≡ passed
unfolding Validation.traverse_entry Validation.finish Validation.traverse_scan
    Validation.validate_nodes Validation.validate_ivr_graph NodeScan.check_type
    NodeScan.check_retries NodeScan.check_prompt NodeScan.scan_node NodeScan.scan_nodes
    NodeScan.graph_model_errors NodeScan.bpmn_field_errors NodeScan.entry_errors
    NodeScan.entry_exists NodeScan.graph_errors NodeScan.scan_graph Visit.push_missing_reference
    Visit.visit_found Visit.visit_target Visit.case_task Visit.case_tasks Visit.switch_tasks
    Visit.require_text Visit.require_string Visit.require_prefixes Visit.linked_tasks
    Visit.hours_tasks Visit.caller_tasks Visit.variable_tasks Visit.queue_tasks
    Visit.voicemail_tasks Visit.special_tasks Visit.node_tasks Visit.run_tasks Visit.found_tasks
    Visit.tasks_of Visit.visit Visit.traverse Visit.unreachable_warnings Graph.as_graph_node
    Graph.find_node Graph.graph_nodes
greeting_graph-passed = refl

abbrev intl : Intl
intl = record {
  format_date = λ zone now. none;
  format_time = λ zone now. none;
  format_weekday = λ zone now. none;
  parse = λ s. none;
}

abbrev noon : Environment
noon = record { intl = intl; now = 1700000000; current_hour = "12" }

abbrev directory : Directory
directory = record {
  prompt_assets =
      record { id = "p1"; tenant_id = "t"; active = true; storage_uri = some "s3://welcome.wav" }
      ∷ [];
  extensions = [];
  queues = [];
  voicemail_boxes = [];
  schedules = [];
}

abbrev greeting_start : ResolveInput
greeting_start = record {
  tenant_id = "t";
  graph_json = greeting_graph;
  current_node_id = none;
  caller_number = some "+15550100";
  last_digits = none;
  variables = [];
  transition = none;
}

resolve_next_action-Ends_example :
    Ends
      (nodes_of greeting_graph)
      (entry_of greeting_graph)
      (IsErrorOf IsRunError none)
      (resolve_next_action noon directory greeting_start)
resolve_next_action-Ends_example =
    resolve_next_action-Ends noon directory greeting_start greeting_graph-passed tt

welcome_reached : Reach (nodes_of greeting_graph) (entry_of greeting_graph) "welcome"
unfolding Graph.as_graph_node Graph.find_node Graph.graph_nodes
welcome_reached = Reach.step start_node "welcome" Reach.start refl (by_link Link.next tt refl)

validate_ivr_graph-IsExecutable_example : IsExecutable (nodes_of greeting_graph) "welcome"
validate_ivr_graph-IsExecutable_example =
    validate_ivr_graph-IsExecutable greeting_graph "welcome" greeting_graph-passed welcome_reached

validate_ivr_graph-IsDistinct_example :
    IsDistinct (nodes_of greeting_graph)
    × ((n : GraphNode) × (find_node (entry_of greeting_graph) (nodes_of greeting_graph) ≡ some n))
validate_ivr_graph-IsDistinct_example =
    validate_ivr_graph-IsDistinct greeting_graph greeting_graph-passed

abbrev no_digits : PlannerContext
no_digits = record {
  last_digits = none;
  caller_number = some "+15550100";
  scenario_hour = none;
  variables = [];
  resolve_business_hours = none;
}

abbrev guest_props : Props
guest_props =
    prop "prefixes" (arr (cons (str "+1") nil))
      (prop "match_node_id" (str "welcome") (prop "no_match_node_id" (str "desk") Props.end))

abbrev guest_node : GraphNode
guest_node = record { id = "guest"; type = "caller_id_match"; raw = guest_props }

resolve_next_node-Takes_example :
    Takes guest_node no_digits none
      (resolve_next_node (planner_node guest_node) no_digits none).next_node_id
resolve_next_node-Takes_example = resolve_next_node-Takes guest_node no_digits none

-- The start node comes first.
abbrev rank : String → ℕ
rank id = if str_eq id "start" then 1 else 0

start-Edge : (target : String) → Edge start_node target → target ≡ "welcome"
start-Edge target (by_link Link.next h e) = cc
start-Edge target (by_link Link.timeout h e) = cc
start-Edge target (by_link Link.invalid h e) = cc
start-Edge target (by_link Link.default h e) = cc
start-Edge target (by_link Link.fallback h e) = cc
start-Edge target (by_link Link.in_hours h e) = cc
start-Edge target (by_link Link.out_of_hours h e) = cc
start-Edge target (by_link Link.match h e) = cc
start-Edge target (by_link Link.no_match h e) = cc
start-Edge target (by_case t cases e key m) = cc

not_true : false ≡ true → ⊥
not_true h = cc

greeting_graph-IsRanked : IsRanked (nodes_of greeting_graph) rank
unfolding Graph.as_graph_node Graph.find_node Graph.graph_nodes
greeting_graph-IsRanked id n target f q e = elim (Bool-cases (str_eq "start" id)) [
  | inl s ↦
      let same : some start_node ≡ some n = rw s at f in
      let start-n : start_node ≡ n = cc in
      let to_welcome = start-Edge target (subst (λ x. Edge x target) (sym start-n) e) in
      rw (to_welcome, ← (eq_iff "start" id).0 s) (omega arith)
  | inr ns ↦ elim (Bool-cases (str_eq "welcome" id)) [
    | inl w ↦
        let same : some welcome_node ≡ some n = rw (ns, w) at f in
        let welcome-n : welcome_node ≡ n = cc in
        let silent : IsSilent welcome_node = subst IsSilent (sym welcome-n) q in
        absurd (not_true silent)
    | inr nw ↦ elim (Bool-cases (str_eq "bye" id)) [
      | inl b ↦
          let same : some bye_node ≡ some n = rw (ns, nw, b) at f in
          let bye-n : bye_node ≡ n = cc in
          let silent : IsSilent bye_node = subst IsSilent (sym bye-n) q in absurd (not_true silent)
      | inr nb ↦ let missing : none ≡ some n = rw (ns, nw, nb) at f in cc
    ]
  ]
]

resolve_next_action-Completes_example :
    Ends
      (nodes_of greeting_graph)
      (entry_of greeting_graph)
      (IsErrorOf IsAssetError none)
      (resolve_next_action noon directory greeting_start)
resolve_next_action-Completes_example =
    resolve_next_action-Completes noon directory greeting_start rank greeting_graph-passed tt
      greeting_graph-IsRanked (λ id. ground arith)

abbrev greeting_version : FlowVersion
greeting_version = record { id = "v1"; published = true; definition = greeting_graph }

abbrev greeting_flow : Flow
greeting_flow = record { id = "f"; tenant_id = "t"; active = true; active_version_id = some "v1" }

abbrev empty_store : Store
empty_store = record {
  flows = greeting_flow ∷ [];
  flow_versions = greeting_version ∷ [];
  sessions = [];
  session_steps = [];
}

abbrev call : StartInput
call = record {
  call_id = "c1";
  flow_id = "f";
  caller_number = some "+15550100";
  destination_number = none;
  variables = none;
}

abbrev store_of : Result SessionResult → Store
store_of (ok r) = r.store
store_of (err e) = empty_store

abbrev started : Result SessionResult
started = start_session noon directory "s1" call empty_store

abbrev after_prompt : AdvanceInput
after_prompt = record {
  node_id = "welcome";
  outcome = Outcome.completed;
  digits = none;
  variables = none;
}

abbrev advanced : Result SessionResult
advanced = advance_session noon directory "s1" after_prompt (store_of started)

IsOk : Result SessionResult → Type 0
IsOk (ok r) = Unit
IsOk (err e) = ⊥

started-Reached :
    (r : Result SessionResult)
    → started ≡ r
    → IsOk r
    → Reached (greeting_flow ∷ []) (greeting_version ∷ []) (store_of r)
unfolding IsOk
started-Reached (ok r) e h =
    Reached.step Reached.empty (Step.start noon directory "s1" call r refl e)
started-Reached (err e') e h = absurd h

advanced-Reached :
    (r : Result SessionResult)
    → advanced ≡ r
    → IsOk started
    → IsOk r
    → Reached (greeting_flow ∷ []) (greeting_version ∷ []) (store_of r)
unfolding IsOk
advanced-Reached (ok r) e k h =
    Reached.step (started-Reached started refl k)
      (Step.advance noon directory "s1" after_prompt r e)
advanced-Reached (err e') e k h = absurd h

started-IsOk : IsOk started
unfolding IsOk Session.joined Session.version_of Session.joined_flow
    Session.find_active_flow_version Session.create_session Session.set_state Session.update_rows
    Session.update_session_state Session.max_step_index Session.record_session_step
    Session.new_session Session.status_after Session.completion_after Session.update_of
    Session.completed_update Session.start_step Session.advance_step Session.begin Session.started
    Session.start_input Session.advance_input Session.is_running Session.is_current
    Session.start_active Session.start_session Session.advanced Session.advance_loaded
    Session.advance_found Session.advance_session Resolve.raw_node Resolve.node_at
    Resolve.after_turn Resolve.found_turn Resolve.run Resolve.continue Resolve.from_current
    Resolve.resolve_from Resolve.resolve_next_action Turn.turn_of Turn.switch_target
    Turn.set_variable Turn.context Turn.found_schedule Turn.hours_turn Turn.caller_turn
    Turn.last_turn Turn.action_turn Turn.turn Assets.found_prompt Assets.require_prompt
    Assets.found_extension Assets.require_extension_target Assets.found_queue
    Assets.require_queue_target Assets.found_voicemail Assets.require_voicemail_target
    Assets.prompt_action Assets.collect_action Assets.extension_action Assets.queue_action
    Assets.voicemail_action Reads.find_active_prompt Reads.find_active_extension
    Reads.find_active_queue Reads.find_active_voicemail_box Reads.find_active_schedule
    Leave.timeout_target Leave.invalid_target Leave.digits_key Leave.collected Leave.after_collect
    Leave.is_end Leave.leave Planner.add_raw Planner.add_nodes Planner.build_planner_graph
    Planner.token_match Planner.resolve_token Planner.resolve_input Planner.resolve_switch_input
    Planner.selected_case Planner.has_prefix Planner.caller_matches Planner.edge_to Planner.along
    Planner.invalid_or_default Planner.after_invalid Planner.after_digits Planner.after_kind
    Planner.after_collect Planner.case_or_default Planner.after_switch Planner.after_hours
    Planner.resolve_next_node RuntimeTypes.action_node Graph.as_graph_node Graph.find_node
    Graph.graph_nodes manage_call_ai.Base.map_set manage_call_ai.Base.map_get
    manage_call_ai.Base.map_merge NodeType.get_node_category
started-IsOk = tt

advanced-IsOk : IsOk advanced
unfolding IsOk Session.joined Session.version_of Session.joined_flow
    Session.find_active_flow_version Session.create_session Session.set_state Session.update_rows
    Session.update_session_state Session.max_step_index Session.record_session_step
    Session.new_session Session.status_after Session.completion_after Session.update_of
    Session.completed_update Session.start_step Session.advance_step Session.begin Session.started
    Session.start_input Session.advance_input Session.is_running Session.is_current
    Session.start_active Session.start_session Session.advanced Session.advance_loaded
    Session.advance_found Session.advance_session Resolve.raw_node Resolve.node_at
    Resolve.after_turn Resolve.found_turn Resolve.run Resolve.continue Resolve.from_current
    Resolve.resolve_from Resolve.resolve_next_action Turn.turn_of Turn.switch_target
    Turn.set_variable Turn.context Turn.found_schedule Turn.hours_turn Turn.caller_turn
    Turn.last_turn Turn.action_turn Turn.turn Assets.found_prompt Assets.require_prompt
    Assets.found_extension Assets.require_extension_target Assets.found_queue
    Assets.require_queue_target Assets.found_voicemail Assets.require_voicemail_target
    Assets.prompt_action Assets.collect_action Assets.extension_action Assets.queue_action
    Assets.voicemail_action Reads.find_active_prompt Reads.find_active_extension
    Reads.find_active_queue Reads.find_active_voicemail_box Reads.find_active_schedule
    Leave.timeout_target Leave.invalid_target Leave.digits_key Leave.collected Leave.after_collect
    Leave.is_end Leave.leave Planner.add_raw Planner.add_nodes Planner.build_planner_graph
    Planner.token_match Planner.resolve_token Planner.resolve_input Planner.resolve_switch_input
    Planner.selected_case Planner.has_prefix Planner.caller_matches Planner.edge_to Planner.along
    Planner.invalid_or_default Planner.after_invalid Planner.after_digits Planner.after_kind
    Planner.after_collect Planner.case_or_default Planner.after_switch Planner.after_hours
    Planner.resolve_next_node RuntimeTypes.action_node Graph.as_graph_node Graph.find_node
    Graph.graph_nodes manage_call_ai.Base.map_set manage_call_ai.Base.map_get
    manage_call_ai.Base.map_merge NodeType.get_node_category
advanced-IsOk = tt

greeting_version-IsValidated : IsValidated (greeting_version ∷ [])
greeting_version-IsValidated id v f = elim (Bool-cases (str_eq "v1" id)) [
  | inl e ↦
      let same : some greeting_version ≡ some v = rw e at f in
      let version-v : greeting_version ≡ v = cc in
      subst (λ x. (validate_ivr_graph (obj x.definition)).status ≡ passed) version-v
        greeting_graph-passed
  | inr ne ↦ let missing : none ≡ some v = rw ne at f in cc
]

Reached-IsValid_example : IsValid (store_of advanced)
Reached-IsValid_example =
    Reached-IsValid (greeting_flow ∷ []) (greeting_version ∷ []) (store_of advanced)
      greeting_version-IsValidated (advanced-Reached advanced refl started-IsOk advanced-IsOk)
