-- ===== src/Flows/Tests.antt =====
-- A flow with three versions that a user publishes, rolls back and validates, and that an AI asks to publish.
use mathlib.Core.List.{Memᴰ}
use manage_call_ai.Base.{ℕ, String, ◌≡◌, refl, true, false, inl, [], ◌∷◌, none, some, find}
use manage_call_ai.Json.{str, arr, obj, nil, cons, Props, prop}
use manage_call_ai.Lifecycle.Types.{State, Version, ActorType, ActionType, Role}
use manage_call_ai.Lifecycle.Tables.{is_superseded}
use manage_call_ai.Lifecycle.Service.{Actor, published, can_publish}
use manage_call_ai.Lifecycle.Gate.{IsAi}
use manage_call_ai.Ivr.Graph.{GraphNode, as_graph_node}
use manage_call_ai.Ivr.Runtime.Directory.{Directory}
use manage_call_ai.Flows.References.{get_graph_nodes, reference_errors}
use manage_call_ai.Flows.References.Available.{can_read, reference_errors-can_read}
use manage_call_ai.Flows.Tables.{
  FlowStatus, Flow, Store, find_flow, versions_of, find_version_by_id,
}
use manage_call_ai.Flows.Service.{
  Attempt, Result, ok, err, is_passed, validation_outcome, validate, publish, rollback,
  dry_run_publish,
}
use manage_call_ai.Flows.Live.{live_version, served}
use manage_call_ai.Flows.Serves.{
  last_superseded, publish-Serves, rollback-Serves, validate-Withdraws,
}
use manage_call_ai.Flows.Gate.{
  OnlyAsks, Predicts, publish-OnlyAsks, rollback-OnlyAsks, dry_run_publish-Predicts,
}
use manage_call_ai.Flows.References
use manage_call_ai.Flows.Service as FlowService
use manage_call_ai.Flows.Tables as FlowTables
use manage_call_ai.Ivr.Graph
use manage_call_ai.Ivr.Runtime.Assets
use manage_call_ai.Ivr.Runtime.Directory as Reads
use manage_call_ai.Ivr.Validation
use manage_call_ai.Ivr.Validation.NodeScan
use manage_call_ai.Ivr.Validation.Visit
use manage_call_ai.Lifecycle.Lineage
use manage_call_ai.Lifecycle.Service
use manage_call_ai.Lifecycle.Tables
use manage_call_ai.Text

abbrev desk_props : Props
desk_props =
    prop "id" (str "desk")
      (prop "type" (str "transfer_extension") (prop "extension_id" (str "e1") Props.end))

abbrev desk_node : GraphNode
desk_node = record { id = "desk"; type = "transfer_extension"; raw = desk_props }

abbrev desk_graph : Props
desk_graph =
    prop "entry_node_id" (str "desk") (prop "nodes" (arr (cons (obj desk_props) nil)) Props.end)

abbrev directory : Directory
directory = record {
  prompt_assets = [];
  extensions =
      record {
        id = "e1";
        tenant_id = "t";
        active = true;
        extension_number = "100";
        directory_domain = none;
      }
      ∷ [];
  queues = [];
  voicemail_boxes = [];
  schedules = [];
}

abbrev version : String → ℕ → State → Version
version id number state = record {
  id = id;
  tenant_id = "t";
  object_id = "flow";
  version_number = number;
  state = state;
  definition = desk_graph;
  created_by = none;
  validated_at = none;
  simulated_at = none;
  published_at = none;
  metadata = Props.end;
}

abbrev v1 : Version
v1 = version "v1" 1 State.superseded

abbrev v2 : Version
v2 = version "v2" 2 State.published

abbrev v3 : Version
v3 = version "v3" 3 State.validated

abbrev flow : Flow
flow = record {
  id = "flow";
  tenant_id = "t";
  name = "Desk";
  description = none;
  status = FlowStatus.active;
  draft_version_id = none;
  active_version_id = some "v2";
}

abbrev store : Store
store = record {
  flows = flow ∷ [];
  versions = v1 ∷ v2 ∷ v3 ∷ [];
  policies =
      record {
        tenant_id = "t";
        policy_type = "ivr_publish_control";
        status = "active";
        created_at = 1;
        require_approval = true;
      }
      ∷ record {
        tenant_id = "t";
        policy_type = "ivr_publish_control";
        status = "active";
        created_at = 2;
        require_approval = false;
      }
      ∷ [];
  approval_requests = [];
  publish_records = [];
  audit_events = [];
  validation_results = [];
  simulation_results = [];
}

abbrev admin : Actor
admin = record { id = "u"; type = ActorType.user; role = some Role.platform_admin }

abbrev agent : Actor
agent = record { id = "a"; type = ActorType.ai_agent; role = none }

abbrev attempt_of : Result Attempt → Attempt
attempt_of (ok a) = a
attempt_of (err e) = record { status = published; store = store }

abbrev store_of : Result Store → Store
store_of (ok st) = st
store_of (err e) = store

abbrev attempt : Attempt
attempt = attempt_of (publish "flow" "t" "r" admin 5 "v3" store)

publish-attempt : publish "flow" "t" "r" admin 5 "v3" store ≡ ok attempt
unfolding FlowTables.is_flow FlowTables.find_flow FlowTables.of_flow FlowTables.versions_of
    FlowTables.find_version_by_id FlowTables.max_version_number FlowTables.next_version_number
    FlowTables.new_version FlowTables.set_draft FlowTables.insert_version FlowTables.create
    FlowTables.set_names FlowTables.update FlowTables.is_row FlowTables.edit_row
    FlowTables.is_editable FlowTables.update_version_definition FlowTables.validated_row
    FlowTables.mark_version_validated FlowTables.simulated_row FlowTables.mark_version_simulated
    FlowTables.check_result FlowTables.store_validation_result FlowTables.store_simulation_result
    FlowTables.supersede_row FlowTables.publish_row FlowTables.activate FlowTables.point_to
    FlowTables.publish_record FlowTables.audit_event FlowTables.switch_version FlowTables.publish
    FlowTables.rollback_target FlowTables.rollback_to FlowTables.rollback
    FlowTables.create_approval_request FlowTables.store_pending_publish_record
    FlowTables.is_publish_policy FlowTables.newest FlowTables.get_active_publish_policy
    FlowTables.policy_requires_approval FlowService.validation_outcome
    FlowService.find_active_schedule_refs FlowService.create_in FlowService.create_version
    FlowService.update FlowService.update_definition FlowService.validate_found FlowService.validate
    FlowService.with_draft FlowService.validate_current_draft FlowService.simulation_outcome
    FlowService.simulate_found FlowService.simulate FlowService.simulate_current_draft
    FlowService.dry_run_publish FlowService.pending_attempt FlowService.trigger_of
    FlowService.publish_found FlowService.publish FlowService.rollback_found FlowService.rollback_in
    FlowService.rollback Lineage.is_true Lineage.has_actor_type Lineage.is_ai_lineage_record
    Lineage.lineage_of Lineage.read_ai_lineage Tables.of_object Tables.is_row
    Tables.find_version_by_id Tables.insert_desc Tables.sort_desc Tables.find_versions_by_object
    Tables.max_version_number Tables.next_version_number Tables.can_validate Tables.can_simulate
    Tables.mark_validated_row Tables.mark_simulated_row Tables.publish_row Tables.retire_row
    Tables.is_object Tables.set_active Tables.set_draft Tables.publish_record Tables.audit_event
    Tables.switch_version Tables.publish_found Tables.publish_version Tables.rollback_target
    Tables.rollback_to Tables.rollback_version Tables.create_approval_request
    Tables.store_pending_publish_record Tables.policy_requires Tables.policy_requires_approval
    Service.should_require_approval Service.can_publish Service.approval_metadata
    Service.create_version Service.check_result Service.mark_version_validated
    Service.mark_version_simulated Service.validate_found Service.validate Service.simulate_found
    Service.simulate Service.dry_run_publish Service.pending_attempt Service.trigger_of
    Service.publish_found Service.publish Service.rollback_found Service.rollback
publish-attempt = refl

attempt-published : attempt.status ≡ published
unfolding FlowTables.is_flow FlowTables.find_flow FlowTables.of_flow FlowTables.versions_of
    FlowTables.find_version_by_id FlowTables.max_version_number FlowTables.next_version_number
    FlowTables.new_version FlowTables.set_draft FlowTables.insert_version FlowTables.create
    FlowTables.set_names FlowTables.update FlowTables.is_row FlowTables.edit_row
    FlowTables.is_editable FlowTables.update_version_definition FlowTables.validated_row
    FlowTables.mark_version_validated FlowTables.simulated_row FlowTables.mark_version_simulated
    FlowTables.check_result FlowTables.store_validation_result FlowTables.store_simulation_result
    FlowTables.supersede_row FlowTables.publish_row FlowTables.activate FlowTables.point_to
    FlowTables.publish_record FlowTables.audit_event FlowTables.switch_version FlowTables.publish
    FlowTables.rollback_target FlowTables.rollback_to FlowTables.rollback
    FlowTables.create_approval_request FlowTables.store_pending_publish_record
    FlowTables.is_publish_policy FlowTables.newest FlowTables.get_active_publish_policy
    FlowTables.policy_requires_approval FlowService.validation_outcome
    FlowService.find_active_schedule_refs FlowService.create_in FlowService.create_version
    FlowService.update FlowService.update_definition FlowService.validate_found FlowService.validate
    FlowService.with_draft FlowService.validate_current_draft FlowService.simulation_outcome
    FlowService.simulate_found FlowService.simulate FlowService.simulate_current_draft
    FlowService.dry_run_publish FlowService.pending_attempt FlowService.trigger_of
    FlowService.publish_found FlowService.publish FlowService.rollback_found FlowService.rollback_in
    FlowService.rollback Lineage.is_true Lineage.has_actor_type Lineage.is_ai_lineage_record
    Lineage.lineage_of Lineage.read_ai_lineage Tables.of_object Tables.is_row
    Tables.find_version_by_id Tables.insert_desc Tables.sort_desc Tables.find_versions_by_object
    Tables.max_version_number Tables.next_version_number Tables.can_validate Tables.can_simulate
    Tables.mark_validated_row Tables.mark_simulated_row Tables.publish_row Tables.retire_row
    Tables.is_object Tables.set_active Tables.set_draft Tables.publish_record Tables.audit_event
    Tables.switch_version Tables.publish_found Tables.publish_version Tables.rollback_target
    Tables.rollback_to Tables.rollback_version Tables.create_approval_request
    Tables.store_pending_publish_record Tables.policy_requires Tables.policy_requires_approval
    Service.should_require_approval Service.can_publish Service.approval_metadata
    Service.create_version Service.check_result Service.mark_version_validated
    Service.mark_version_simulated Service.validate_found Service.validate Service.simulate_found
    Service.simulate Service.dry_run_publish Service.pending_attempt Service.trigger_of
    Service.publish_found Service.publish Service.rollback_found Service.rollback
attempt-published = refl

publish-Serves_example : live_version "flow" attempt.store ≡ some (served flow v3)
publish-Serves_example =
    publish-Serves "flow" "t" "r" admin 5 "v3" store flow v3 attempt refl refl publish-attempt
      attempt-published

abbrev back : Attempt
back = attempt_of (rollback "flow" "t" "r" admin 5 store)

rollback-back : rollback "flow" "t" "r" admin 5 store ≡ ok back
unfolding FlowTables.is_flow FlowTables.find_flow FlowTables.of_flow FlowTables.versions_of
    FlowTables.find_version_by_id FlowTables.max_version_number FlowTables.next_version_number
    FlowTables.new_version FlowTables.set_draft FlowTables.insert_version FlowTables.create
    FlowTables.set_names FlowTables.update FlowTables.is_row FlowTables.edit_row
    FlowTables.is_editable FlowTables.update_version_definition FlowTables.validated_row
    FlowTables.mark_version_validated FlowTables.simulated_row FlowTables.mark_version_simulated
    FlowTables.check_result FlowTables.store_validation_result FlowTables.store_simulation_result
    FlowTables.supersede_row FlowTables.publish_row FlowTables.activate FlowTables.point_to
    FlowTables.publish_record FlowTables.audit_event FlowTables.switch_version FlowTables.publish
    FlowTables.rollback_target FlowTables.rollback_to FlowTables.rollback
    FlowTables.create_approval_request FlowTables.store_pending_publish_record
    FlowTables.is_publish_policy FlowTables.newest FlowTables.get_active_publish_policy
    FlowTables.policy_requires_approval FlowService.validation_outcome
    FlowService.find_active_schedule_refs FlowService.create_in FlowService.create_version
    FlowService.update FlowService.update_definition FlowService.validate_found FlowService.validate
    FlowService.with_draft FlowService.validate_current_draft FlowService.simulation_outcome
    FlowService.simulate_found FlowService.simulate FlowService.simulate_current_draft
    FlowService.dry_run_publish FlowService.pending_attempt FlowService.trigger_of
    FlowService.publish_found FlowService.publish FlowService.rollback_found FlowService.rollback_in
    FlowService.rollback Lineage.is_true Lineage.has_actor_type Lineage.is_ai_lineage_record
    Lineage.lineage_of Lineage.read_ai_lineage Tables.of_object Tables.is_row
    Tables.find_version_by_id Tables.insert_desc Tables.sort_desc Tables.find_versions_by_object
    Tables.max_version_number Tables.next_version_number Tables.can_validate Tables.can_simulate
    Tables.mark_validated_row Tables.mark_simulated_row Tables.publish_row Tables.retire_row
    Tables.is_object Tables.set_active Tables.set_draft Tables.publish_record Tables.audit_event
    Tables.switch_version Tables.publish_found Tables.publish_version Tables.rollback_target
    Tables.rollback_to Tables.rollback_version Tables.create_approval_request
    Tables.store_pending_publish_record Tables.policy_requires Tables.policy_requires_approval
    Service.should_require_approval Service.can_publish Service.approval_metadata
    Service.create_version Service.check_result Service.mark_version_validated
    Service.mark_version_simulated Service.validate_found Service.validate Service.simulate_found
    Service.simulate Service.dry_run_publish Service.pending_attempt Service.trigger_of
    Service.publish_found Service.publish Service.rollback_found Service.rollback
rollback-back = refl

back-published : back.status ≡ published
unfolding FlowTables.is_flow FlowTables.find_flow FlowTables.of_flow FlowTables.versions_of
    FlowTables.find_version_by_id FlowTables.max_version_number FlowTables.next_version_number
    FlowTables.new_version FlowTables.set_draft FlowTables.insert_version FlowTables.create
    FlowTables.set_names FlowTables.update FlowTables.is_row FlowTables.edit_row
    FlowTables.is_editable FlowTables.update_version_definition FlowTables.validated_row
    FlowTables.mark_version_validated FlowTables.simulated_row FlowTables.mark_version_simulated
    FlowTables.check_result FlowTables.store_validation_result FlowTables.store_simulation_result
    FlowTables.supersede_row FlowTables.publish_row FlowTables.activate FlowTables.point_to
    FlowTables.publish_record FlowTables.audit_event FlowTables.switch_version FlowTables.publish
    FlowTables.rollback_target FlowTables.rollback_to FlowTables.rollback
    FlowTables.create_approval_request FlowTables.store_pending_publish_record
    FlowTables.is_publish_policy FlowTables.newest FlowTables.get_active_publish_policy
    FlowTables.policy_requires_approval FlowService.validation_outcome
    FlowService.find_active_schedule_refs FlowService.create_in FlowService.create_version
    FlowService.update FlowService.update_definition FlowService.validate_found FlowService.validate
    FlowService.with_draft FlowService.validate_current_draft FlowService.simulation_outcome
    FlowService.simulate_found FlowService.simulate FlowService.simulate_current_draft
    FlowService.dry_run_publish FlowService.pending_attempt FlowService.trigger_of
    FlowService.publish_found FlowService.publish FlowService.rollback_found FlowService.rollback_in
    FlowService.rollback Lineage.is_true Lineage.has_actor_type Lineage.is_ai_lineage_record
    Lineage.lineage_of Lineage.read_ai_lineage Tables.of_object Tables.is_row
    Tables.find_version_by_id Tables.insert_desc Tables.sort_desc Tables.find_versions_by_object
    Tables.max_version_number Tables.next_version_number Tables.can_validate Tables.can_simulate
    Tables.mark_validated_row Tables.mark_simulated_row Tables.publish_row Tables.retire_row
    Tables.is_object Tables.set_active Tables.set_draft Tables.publish_record Tables.audit_event
    Tables.switch_version Tables.publish_found Tables.publish_version Tables.rollback_target
    Tables.rollback_to Tables.rollback_version Tables.create_approval_request
    Tables.store_pending_publish_record Tables.policy_requires Tables.policy_requires_approval
    Service.should_require_approval Service.can_publish Service.approval_metadata
    Service.create_version Service.check_result Service.mark_version_validated
    Service.mark_version_simulated Service.validate_found Service.validate Service.simulate_found
    Service.simulate Service.dry_run_publish Service.pending_attempt Service.trigger_of
    Service.publish_found Service.publish Service.rollback_found Service.rollback
back-published = refl

last_superseded-v1 : last_superseded "flow" "t" "r" admin 5 store ≡ some v1
unfolding FlowTables.is_flow FlowTables.find_flow FlowTables.of_flow FlowTables.versions_of
    FlowTables.find_version_by_id FlowTables.max_version_number FlowTables.next_version_number
    FlowTables.new_version FlowTables.set_draft FlowTables.insert_version FlowTables.create
    FlowTables.set_names FlowTables.update FlowTables.is_row FlowTables.edit_row
    FlowTables.is_editable FlowTables.update_version_definition FlowTables.validated_row
    FlowTables.mark_version_validated FlowTables.simulated_row FlowTables.mark_version_simulated
    FlowTables.check_result FlowTables.store_validation_result FlowTables.store_simulation_result
    FlowTables.supersede_row FlowTables.publish_row FlowTables.activate FlowTables.point_to
    FlowTables.publish_record FlowTables.audit_event FlowTables.switch_version FlowTables.publish
    FlowTables.rollback_target FlowTables.rollback_to FlowTables.rollback
    FlowTables.create_approval_request FlowTables.store_pending_publish_record
    FlowTables.is_publish_policy FlowTables.newest FlowTables.get_active_publish_policy
    FlowTables.policy_requires_approval FlowService.validation_outcome
    FlowService.find_active_schedule_refs FlowService.create_in FlowService.create_version
    FlowService.update FlowService.update_definition FlowService.validate_found FlowService.validate
    FlowService.with_draft FlowService.validate_current_draft FlowService.simulation_outcome
    FlowService.simulate_found FlowService.simulate FlowService.simulate_current_draft
    FlowService.dry_run_publish FlowService.pending_attempt FlowService.trigger_of
    FlowService.publish_found FlowService.publish FlowService.rollback_found FlowService.rollback_in
    FlowService.rollback Lineage.is_true Lineage.has_actor_type Lineage.is_ai_lineage_record
    Lineage.lineage_of Lineage.read_ai_lineage Tables.of_object Tables.is_row
    Tables.find_version_by_id Tables.insert_desc Tables.sort_desc Tables.find_versions_by_object
    Tables.max_version_number Tables.next_version_number Tables.can_validate Tables.can_simulate
    Tables.mark_validated_row Tables.mark_simulated_row Tables.publish_row Tables.retire_row
    Tables.is_object Tables.set_active Tables.set_draft Tables.publish_record Tables.audit_event
    Tables.switch_version Tables.publish_found Tables.publish_version Tables.rollback_target
    Tables.rollback_to Tables.rollback_version Tables.create_approval_request
    Tables.store_pending_publish_record Tables.policy_requires Tables.policy_requires_approval
    Service.should_require_approval Service.can_publish Service.approval_metadata
    Service.create_version Service.check_result Service.mark_version_validated
    Service.mark_version_simulated Service.validate_found Service.validate Service.simulate_found
    Service.simulate Service.dry_run_publish Service.pending_attempt Service.trigger_of
    Service.publish_found Service.publish Service.rollback_found Service.rollback
last_superseded-v1 = refl

rollback-Serves_example : live_version "flow" back.store ≡ some (served flow v1)
rollback-Serves_example =
    rollback-Serves "flow" "t" "r" admin 5 store flow v1 back refl refl refl last_superseded-v1
      rollback-back back-published

abbrev validated : Store
validated = store_of (validate "flow" "t" directory "v2" 5 store)

validate-validated : validate "flow" "t" directory "v2" 5 store ≡ ok validated
unfolding References.get_graph_nodes References.digits_up_to References.is_number
    References.is_caller_id_prefix References.prefix_errors References.variable_errors
    References.extension_errors References.prompt_errors References.schedule_errors
    References.queue_errors References.voicemail_errors References.reference_errors
    FlowTables.is_flow FlowTables.find_flow FlowTables.of_flow FlowTables.versions_of
    FlowTables.find_version_by_id FlowTables.max_version_number FlowTables.next_version_number
    FlowTables.new_version FlowTables.set_draft FlowTables.insert_version FlowTables.create
    FlowTables.set_names FlowTables.update FlowTables.is_row FlowTables.edit_row
    FlowTables.is_editable FlowTables.update_version_definition FlowTables.validated_row
    FlowTables.mark_version_validated FlowTables.simulated_row FlowTables.mark_version_simulated
    FlowTables.check_result FlowTables.store_validation_result FlowTables.store_simulation_result
    FlowTables.supersede_row FlowTables.publish_row FlowTables.activate FlowTables.point_to
    FlowTables.publish_record FlowTables.audit_event FlowTables.switch_version FlowTables.publish
    FlowTables.rollback_target FlowTables.rollback_to FlowTables.rollback
    FlowTables.create_approval_request FlowTables.store_pending_publish_record
    FlowTables.is_publish_policy FlowTables.newest FlowTables.get_active_publish_policy
    FlowTables.policy_requires_approval FlowService.validation_outcome
    FlowService.find_active_schedule_refs FlowService.create_in FlowService.create_version
    FlowService.update FlowService.update_definition FlowService.validate_found FlowService.validate
    FlowService.with_draft FlowService.validate_current_draft FlowService.simulation_outcome
    FlowService.simulate_found FlowService.simulate FlowService.simulate_current_draft
    FlowService.dry_run_publish FlowService.pending_attempt FlowService.trigger_of
    FlowService.publish_found FlowService.publish FlowService.rollback_found FlowService.rollback_in
    FlowService.rollback Lineage.is_true Lineage.has_actor_type Lineage.is_ai_lineage_record
    Lineage.lineage_of Lineage.read_ai_lineage Tables.of_object Tables.is_row
    Tables.find_version_by_id Tables.insert_desc Tables.sort_desc Tables.find_versions_by_object
    Tables.max_version_number Tables.next_version_number Tables.can_validate Tables.can_simulate
    Tables.mark_validated_row Tables.mark_simulated_row Tables.publish_row Tables.retire_row
    Tables.is_object Tables.set_active Tables.set_draft Tables.publish_record Tables.audit_event
    Tables.switch_version Tables.publish_found Tables.publish_version Tables.rollback_target
    Tables.rollback_to Tables.rollback_version Tables.create_approval_request
    Tables.store_pending_publish_record Tables.policy_requires Tables.policy_requires_approval
    Service.should_require_approval Service.can_publish Service.approval_metadata
    Service.create_version Service.check_result Service.mark_version_validated
    Service.mark_version_simulated Service.validate_found Service.validate Service.simulate_found
    Service.simulate Service.dry_run_publish Service.pending_attempt Service.trigger_of
    Service.publish_found Service.publish Service.rollback_found Service.rollback
    Reads.find_active_prompt Reads.find_active_extension Reads.find_active_queue
    Reads.find_active_voicemail_box Reads.find_active_schedule Assets.found_prompt
    Assets.require_prompt Assets.found_extension Assets.require_extension_target Assets.found_queue
    Assets.require_queue_target Assets.found_voicemail Assets.require_voicemail_target
    Assets.prompt_action Assets.collect_action Assets.extension_action Assets.queue_action
    Assets.voicemail_action Text.trim Text.strip_prefix Text.strip_suffix Text.has_line_end
    Text.is_digit Text.is_letter Validation.traverse_entry Validation.finish
    Validation.traverse_scan Validation.validate_nodes Validation.validate_ivr_graph
    NodeScan.check_type NodeScan.check_retries NodeScan.check_prompt NodeScan.scan_node
    NodeScan.scan_nodes NodeScan.graph_model_errors NodeScan.bpmn_field_errors NodeScan.entry_errors
    NodeScan.entry_exists NodeScan.graph_errors NodeScan.scan_graph Visit.push_missing_reference
    Visit.visit_found Visit.visit_target Visit.case_task Visit.case_tasks Visit.switch_tasks
    Visit.require_text Visit.require_string Visit.require_prefixes Visit.linked_tasks
    Visit.hours_tasks Visit.caller_tasks Visit.variable_tasks Visit.queue_tasks
    Visit.voicemail_tasks Visit.special_tasks Visit.node_tasks Visit.run_tasks Visit.found_tasks
    Visit.tasks_of Visit.visit Visit.traverse Visit.unreachable_warnings Graph.as_graph_node
    Graph.find_node Graph.graph_nodes
validate-validated = refl

found-v2 : find_version_by_id "v2" "flow" "t" store ≡ some v2
unfolding FlowTables.is_flow FlowTables.find_flow FlowTables.of_flow FlowTables.versions_of
    FlowTables.find_version_by_id FlowTables.max_version_number FlowTables.next_version_number
    FlowTables.new_version FlowTables.set_draft FlowTables.insert_version FlowTables.create
    FlowTables.set_names FlowTables.update FlowTables.is_row FlowTables.edit_row
    FlowTables.is_editable FlowTables.update_version_definition FlowTables.validated_row
    FlowTables.mark_version_validated FlowTables.simulated_row FlowTables.mark_version_simulated
    FlowTables.check_result FlowTables.store_validation_result FlowTables.store_simulation_result
    FlowTables.supersede_row FlowTables.publish_row FlowTables.activate FlowTables.point_to
    FlowTables.publish_record FlowTables.audit_event FlowTables.switch_version FlowTables.publish
    FlowTables.rollback_target FlowTables.rollback_to FlowTables.rollback
    FlowTables.create_approval_request FlowTables.store_pending_publish_record
    FlowTables.is_publish_policy FlowTables.newest FlowTables.get_active_publish_policy
    FlowTables.policy_requires_approval Tables.insert_desc Tables.sort_desc
found-v2 = refl

desk_graph-passed : is_passed (validation_outcome directory "t" desk_graph).status ≡ true
unfolding References.get_graph_nodes References.digits_up_to References.is_number
    References.is_caller_id_prefix References.prefix_errors References.variable_errors
    References.extension_errors References.prompt_errors References.schedule_errors
    References.queue_errors References.voicemail_errors References.reference_errors
    FlowTables.is_flow FlowTables.find_flow FlowTables.of_flow FlowTables.versions_of
    FlowTables.find_version_by_id FlowTables.max_version_number FlowTables.next_version_number
    FlowTables.new_version FlowTables.set_draft FlowTables.insert_version FlowTables.create
    FlowTables.set_names FlowTables.update FlowTables.is_row FlowTables.edit_row
    FlowTables.is_editable FlowTables.update_version_definition FlowTables.validated_row
    FlowTables.mark_version_validated FlowTables.simulated_row FlowTables.mark_version_simulated
    FlowTables.check_result FlowTables.store_validation_result FlowTables.store_simulation_result
    FlowTables.supersede_row FlowTables.publish_row FlowTables.activate FlowTables.point_to
    FlowTables.publish_record FlowTables.audit_event FlowTables.switch_version FlowTables.publish
    FlowTables.rollback_target FlowTables.rollback_to FlowTables.rollback
    FlowTables.create_approval_request FlowTables.store_pending_publish_record
    FlowTables.is_publish_policy FlowTables.newest FlowTables.get_active_publish_policy
    FlowTables.policy_requires_approval FlowService.validation_outcome
    FlowService.find_active_schedule_refs FlowService.create_in FlowService.create_version
    FlowService.update FlowService.update_definition FlowService.validate_found FlowService.validate
    FlowService.with_draft FlowService.validate_current_draft FlowService.simulation_outcome
    FlowService.simulate_found FlowService.simulate FlowService.simulate_current_draft
    FlowService.dry_run_publish FlowService.pending_attempt FlowService.trigger_of
    FlowService.publish_found FlowService.publish FlowService.rollback_found FlowService.rollback_in
    FlowService.rollback Lineage.is_true Lineage.has_actor_type Lineage.is_ai_lineage_record
    Lineage.lineage_of Lineage.read_ai_lineage Tables.of_object Tables.is_row
    Tables.find_version_by_id Tables.insert_desc Tables.sort_desc Tables.find_versions_by_object
    Tables.max_version_number Tables.next_version_number Tables.can_validate Tables.can_simulate
    Tables.mark_validated_row Tables.mark_simulated_row Tables.publish_row Tables.retire_row
    Tables.is_object Tables.set_active Tables.set_draft Tables.publish_record Tables.audit_event
    Tables.switch_version Tables.publish_found Tables.publish_version Tables.rollback_target
    Tables.rollback_to Tables.rollback_version Tables.create_approval_request
    Tables.store_pending_publish_record Tables.policy_requires Tables.policy_requires_approval
    Service.should_require_approval Service.can_publish Service.approval_metadata
    Service.create_version Service.check_result Service.mark_version_validated
    Service.mark_version_simulated Service.validate_found Service.validate Service.simulate_found
    Service.simulate Service.dry_run_publish Service.pending_attempt Service.trigger_of
    Service.publish_found Service.publish Service.rollback_found Service.rollback
    Reads.find_active_prompt Reads.find_active_extension Reads.find_active_queue
    Reads.find_active_voicemail_box Reads.find_active_schedule Assets.found_prompt
    Assets.require_prompt Assets.found_extension Assets.require_extension_target Assets.found_queue
    Assets.require_queue_target Assets.found_voicemail Assets.require_voicemail_target
    Assets.prompt_action Assets.collect_action Assets.extension_action Assets.queue_action
    Assets.voicemail_action Text.trim Text.strip_prefix Text.strip_suffix Text.has_line_end
    Text.is_digit Text.is_letter Validation.traverse_entry Validation.finish
    Validation.traverse_scan Validation.validate_nodes Validation.validate_ivr_graph
    NodeScan.check_type NodeScan.check_retries NodeScan.check_prompt NodeScan.scan_node
    NodeScan.scan_nodes NodeScan.graph_model_errors NodeScan.bpmn_field_errors NodeScan.entry_errors
    NodeScan.entry_exists NodeScan.graph_errors NodeScan.scan_graph Visit.push_missing_reference
    Visit.visit_found Visit.visit_target Visit.case_task Visit.case_tasks Visit.switch_tasks
    Visit.require_text Visit.require_string Visit.require_prefixes Visit.linked_tasks
    Visit.hours_tasks Visit.caller_tasks Visit.variable_tasks Visit.queue_tasks
    Visit.voicemail_tasks Visit.special_tasks Visit.node_tasks Visit.run_tasks Visit.found_tasks
    Visit.tasks_of Visit.visit Visit.traverse Visit.unreachable_warnings Graph.as_graph_node
    Graph.find_node Graph.graph_nodes
desk_graph-passed = refl

validate-Withdraws_example : live_version "flow" validated ≡ none
validate-Withdraws_example =
    validate-Withdraws "flow" "t" directory "v2" 5 store validated flow v2 refl refl refl found-v2
      refl desk_graph-passed validate-validated

found-v3 : find_version_by_id "v3" "flow" "t" store ≡ some v3
unfolding FlowTables.is_flow FlowTables.find_flow FlowTables.of_flow FlowTables.versions_of
    FlowTables.find_version_by_id FlowTables.max_version_number FlowTables.next_version_number
    FlowTables.new_version FlowTables.set_draft FlowTables.insert_version FlowTables.create
    FlowTables.set_names FlowTables.update FlowTables.is_row FlowTables.edit_row
    FlowTables.is_editable FlowTables.update_version_definition FlowTables.validated_row
    FlowTables.mark_version_validated FlowTables.simulated_row FlowTables.mark_version_simulated
    FlowTables.check_result FlowTables.store_validation_result FlowTables.store_simulation_result
    FlowTables.supersede_row FlowTables.publish_row FlowTables.activate FlowTables.point_to
    FlowTables.publish_record FlowTables.audit_event FlowTables.switch_version FlowTables.publish
    FlowTables.rollback_target FlowTables.rollback_to FlowTables.rollback
    FlowTables.create_approval_request FlowTables.store_pending_publish_record
    FlowTables.is_publish_policy FlowTables.newest FlowTables.get_active_publish_policy
    FlowTables.policy_requires_approval Tables.insert_desc Tables.sort_desc
found-v3 = refl

agent-IsAi : (v : Version) → IsAi agent v
agent-IsAi v = inl refl

publish-OnlyAsks_example :
    OnlyAsks "flow" "t" "r" agent 5 "v3" ActionType.publish
      (can_publish v3.state)
      store
      (publish "flow" "t" "r" agent 5 "v3" store)
publish-OnlyAsks_example =
    publish-OnlyAsks "flow" "t" "r" agent 5 "v3" store v3 found-v3 (agent-IsAi v3)

found-flow : find_flow "flow" "t" store.flows ≡ some flow
unfolding FlowTables.is_flow FlowTables.find_flow FlowTables.of_flow FlowTables.versions_of
    FlowTables.find_version_by_id FlowTables.max_version_number FlowTables.next_version_number
    FlowTables.new_version FlowTables.set_draft FlowTables.insert_version FlowTables.create
    FlowTables.set_names FlowTables.update FlowTables.is_row FlowTables.edit_row
    FlowTables.is_editable FlowTables.update_version_definition FlowTables.validated_row
    FlowTables.mark_version_validated FlowTables.simulated_row FlowTables.mark_version_simulated
    FlowTables.check_result FlowTables.store_validation_result FlowTables.store_simulation_result
    FlowTables.supersede_row FlowTables.publish_row FlowTables.activate FlowTables.point_to
    FlowTables.publish_record FlowTables.audit_event FlowTables.switch_version FlowTables.publish
    FlowTables.rollback_target FlowTables.rollback_to FlowTables.rollback
    FlowTables.create_approval_request FlowTables.store_pending_publish_record
    FlowTables.is_publish_policy FlowTables.newest FlowTables.get_active_publish_policy
    FlowTables.policy_requires_approval Tables.insert_desc Tables.sort_desc
found-flow = refl

superseded-v1 : find (λ x. is_superseded x.state) (versions_of "flow" store.versions) ≡ some v1
unfolding FlowTables.is_flow FlowTables.find_flow FlowTables.of_flow FlowTables.versions_of
    FlowTables.find_version_by_id FlowTables.max_version_number FlowTables.next_version_number
    FlowTables.new_version FlowTables.set_draft FlowTables.insert_version FlowTables.create
    FlowTables.set_names FlowTables.update FlowTables.is_row FlowTables.edit_row
    FlowTables.is_editable FlowTables.update_version_definition FlowTables.validated_row
    FlowTables.mark_version_validated FlowTables.simulated_row FlowTables.mark_version_simulated
    FlowTables.check_result FlowTables.store_validation_result FlowTables.store_simulation_result
    FlowTables.supersede_row FlowTables.publish_row FlowTables.activate FlowTables.point_to
    FlowTables.publish_record FlowTables.audit_event FlowTables.switch_version FlowTables.publish
    FlowTables.rollback_target FlowTables.rollback_to FlowTables.rollback
    FlowTables.create_approval_request FlowTables.store_pending_publish_record
    FlowTables.is_publish_policy FlowTables.newest FlowTables.get_active_publish_policy
    FlowTables.policy_requires_approval Tables.insert_desc Tables.sort_desc
superseded-v1 = refl

rollback-OnlyAsks_example :
    OnlyAsks "flow" "t" "r" agent 5 "v1" ActionType.rollback true store
      (rollback "flow" "t" "r" agent 5 store)
rollback-OnlyAsks_example =
    rollback-OnlyAsks "flow" "t" "r" agent 5 store flow v1 found-flow superseded-v1 (agent-IsAi v1)

dry_run_publish-Predicts_example :
    Predicts
      (dry_run_publish "flow" "t" "v3" agent store)
      (publish "flow" "t" "r" agent 5 "v3" store)
dry_run_publish-Predicts_example = dry_run_publish-Predicts "flow" "t" "r" agent 5 "v3" store

no_reference_errors : reference_errors directory "t" (get_graph_nodes desk_graph) ≡ []
unfolding References.get_graph_nodes References.digits_up_to References.is_number
    References.is_caller_id_prefix References.prefix_errors References.variable_errors
    References.extension_errors References.prompt_errors References.schedule_errors
    References.queue_errors References.voicemail_errors References.reference_errors
    Reads.find_active_prompt Reads.find_active_extension Reads.find_active_queue
    Reads.find_active_voicemail_box Reads.find_active_schedule Graph.as_graph_node Graph.find_node
    Graph.graph_nodes
no_reference_errors = refl

desk-among : Memᴰ desk_node.raw (get_graph_nodes desk_graph)
unfolding References.get_graph_nodes References.digits_up_to References.is_number
    References.is_caller_id_prefix References.prefix_errors References.variable_errors
    References.extension_errors References.prompt_errors References.schedule_errors
    References.queue_errors References.voicemail_errors References.reference_errors
    Reads.find_active_prompt Reads.find_active_extension Reads.find_active_queue
    Reads.find_active_voicemail_box Reads.find_active_schedule Graph.as_graph_node Graph.find_node
    Graph.graph_nodes
desk-among = Memᴰ.head refl

desk-node : as_graph_node (obj desk_node.raw) ≡ some desk_node
unfolding References.get_graph_nodes References.digits_up_to References.is_number
    References.is_caller_id_prefix References.prefix_errors References.variable_errors
    References.extension_errors References.prompt_errors References.schedule_errors
    References.queue_errors References.voicemail_errors References.reference_errors
    Reads.find_active_prompt Reads.find_active_extension Reads.find_active_queue
    Reads.find_active_voicemail_box Reads.find_active_schedule Graph.as_graph_node Graph.find_node
    Graph.graph_nodes
desk-node = refl

reference_errors-can_read_example : can_read directory "t" desk_node ≡ true
reference_errors-can_read_example =
    reference_errors-can_read directory "t" (get_graph_nodes desk_graph) desk_node
      no_reference_errors desk-among desk-node
