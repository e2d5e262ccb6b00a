-- ===== src/Flows/Service.antt =====
-- `IvrFlowService` on the tables of flows; every call runs as one step. Ids of new rows, the clock, the tenant's
-- assets and the operator `||` of `jsonb` are arguments. The reads are left out.
use manage_call_ai.Base.{
  ℕ, String, Bool, true, false, not, List, [], ◌∷◌, find, any, Option, none, some, if◌then◌else◌,
}
use manage_call_ai.Json.{Json, obj, null, Props, get, array_of, or_default}
use manage_call_ai.Schedule.Types.{Schedule}
use manage_call_ai.Schedule.Hours.{Intl}
use manage_call_ai.Lifecycle.Types.{State, Version, ActionType}
use manage_call_ai.Lifecycle.Tables.{is_superseded, Trigger}
use manage_call_ai.Lifecycle.Service.{
  Actor, AttemptStatus, published, pending_approval, DryRun, should_require_approval, can_publish,
  approval_metadata,
}
use manage_call_ai.Ivr.Graph.{default_ivr_graph}
use manage_call_ai.Ivr.Validation.{Status, passed, failed, ValidationOutcome, validate_ivr_graph}
use manage_call_ai.Ivr.Validation.Issues.{Issue}
use manage_call_ai.Ivr.Runtime.Directory.{Directory, find_active_schedule}
use manage_call_ai.Ivr.Simulation.{SimulationScenario, SimulationOutcome, simulate_graph}
use manage_call_ai.Flows.References.{
  ReferenceError, get_graph_nodes, is_type, reference, reference_errors,
}
use manage_call_ai.Flows.Tables.{
  Flow, Store, is_flow, find_flow, versions_of, find_version_by_id, next_version_number,
  new_version, insert_version, update_version_definition, mark_version_validated,
  mark_version_simulated, store_validation_result, store_simulation_result, create_approval_request,
  store_pending_publish_record, policy_requires_approval, is_draft,
}
use manage_call_ai.Flows.Tables

pub data FlowError : Type 0 where
  flow_not_found flow_version_not_found flow_version_state no_rollback_target : FlowError
  -- A `TypeError`, of a property of `null`.
  type_error : FlowError

pub data Result {ℓ} (A : Type ℓ) : Type ℓ where
  ok : A → Result A
  err : FlowError → Result A

pub record Attempt : Type 0 where
  pub status : AttemptStatus
  pub store : Store

-- The outcome of the graph's validation, with the errors that the references add.
pub record FlowOutcome : Type 0 where
  pub status : Status
  pub errors : List Issue
  pub warnings : List Issue
  pub references : List ReferenceError

abbrev pub is_passed : Status → Bool
is_passed passed = true
is_passed failed = false

abbrev pub status_of : List ReferenceError → Status
status_of [] = passed
status_of (e ∷ es) = failed

abbrev pub checked : ValidationOutcome → List ReferenceError → FlowOutcome
checked v references = record {
  status = status_of references;
  errors = v.errors;
  warnings = v.warnings;
  references = references;
}

-- The references are checked only of a graph that is valid otherwise.
unfoldable pub validation_outcome : Directory → String → Props → FlowOutcome
validation_outcome dir tenant_id graph =
    let v = validate_ivr_graph (obj graph) in
    if is_passed v.status
    then checked v (reference_errors dir tenant_id (get_graph_nodes graph))
    else record { status = failed; errors = v.errors; warnings = v.warnings; references = [] }

abbrev pub is_null : Json → Bool
is_null null = true
is_null _ = false

-- The schedules that the graph's nodes name and that are active.
abbrev pub scheduled :
    Directory → String → Option String → List (String × Schedule) → List (String × Schedule)
scheduled dir tenant_id none rest = rest
scheduled dir tenant_id (some id) rest = elim (find_active_schedule dir tenant_id id) [
  | none ↦ rest
  | some s ↦ (id, s) ∷ rest
]

unfoldable pub find_active_schedule_refs :
    Directory → String → List Props → List (String × Schedule)
find_active_schedule_refs dir tenant_id [] = []
find_active_schedule_refs dir tenant_id (n ∷ ns) =
    let rest = find_active_schedule_refs dir tenant_id ns in
    scheduled dir tenant_id (reference (is_type "business_hours" n) "schedule_id" n) rest

module _ (flow_id tenant_id : String) where
  -- `graphJson ?? flow.versions[0]?.graph_json ?? defaultIvrGraph()`.
  abbrev pub source_graph : Option Props → List Version → Props
  source_graph (some g) vs = g
  source_graph none [] = default_ivr_graph
  source_graph none (v ∷ vs) = v.definition

  unfoldable pub create_in :
      String → Option Props → Option String → Option Props → Option Flow → Store → Result Store
  create_in id graph created_by metadata none st = err flow_not_found
  create_in id graph created_by metadata (some f) st = ok (
      insert_version
        (new_version id tenant_id flow_id (next_version_number flow_id st)
          (source_graph graph (versions_of flow_id st.versions)) created_by metadata)
        st)

  unfoldable pub create_version :
      String → Option Props → Option String → Option Props → Store → Result Store
  create_version id graph created_by metadata st =
      create_in id graph created_by metadata (find_flow flow_id tenant_id st.flows) st

  -- The flow's status is not updated, whatever the input says.
  unfoldable pub update : Option String → Option (Option String) → Store → Result Store
  update name description st =
      if any (is_flow flow_id tenant_id) st.flows
      then ok (Tables.update flow_id tenant_id name description st)
      else err flow_not_found

  abbrev pub or_version_not_found : Option Store → Result Store
  or_version_not_found none = err flow_version_not_found
  or_version_not_found (some st) = ok st

  unfoldable pub update_definition :
      (Props → Props → Props) → String → Props → Option Props → Store → Result Store
  update_definition merge id graph metadata st =
      or_version_not_found (update_version_definition id flow_id tenant_id merge graph metadata st)

  unfoldable pub validate_found : Directory → String → ℕ → Option Version → Store → Result Store
  validate_found dir id now none st = err flow_version_not_found
  validate_found dir id now (some v) st =
      let o = validation_outcome dir tenant_id v.definition in
      let st' = store_validation_result id flow_id tenant_id (is_passed o.status) st in
      ok (if is_passed o.status then mark_version_validated id flow_id tenant_id now st' else st')

  unfoldable pub validate : Directory → String → ℕ → Store → Result Store
  validate dir id now st = validate_found dir id now (find_version_by_id id flow_id tenant_id st) st

  -- `flow.draft_version_id ?? flow.versions.find(…)?.id`.
  abbrev pub draft_of : (State → Bool) → Flow → List Version → Option String
  draft_of p f vs = elim f.draft_version_id [
    | some id ↦ some id
    | none ↦ elim (find (λ v. p v.state) vs) [ none ↦ none | some v ↦ some v.id ]
  ]

  unfoldable pub with_draft :
      (State → Bool) → (String → Result Store) → Option Flow → Store → Result Store
  with_draft p f none st = err flow_not_found
  with_draft p f (some flow) st = elim (draft_of p flow (versions_of flow_id st.versions)) [
    | none ↦ err flow_version_state
    | some id ↦ f id
  ]

  unfoldable pub validate_current_draft : Directory → ℕ → Store → Result Store
  validate_current_draft dir now st =
      with_draft (is_draft "" flow_id tenant_id) (λ id. validate dir id now st)
        (find_flow flow_id tenant_id st.flows) st

  module _ (dir : Directory) (intl : Intl) (scenario : SimulationScenario) where
    unfoldable pub simulation_outcome : ℕ → Props → SimulationOutcome
    simulation_outcome clock graph =
        simulate_graph scenario intl clock
          (find_active_schedule_refs dir tenant_id (get_graph_nodes graph)) graph

    unfoldable pub simulate_found : String → ℕ → Option Version → Store → Result Store
    simulate_found id now none st = err flow_version_not_found
    simulate_found id now (some v) st =
        let o = simulation_outcome now v.definition in
        let st' = store_simulation_result id flow_id tenant_id (is_passed o.status) st in
        if any is_null (or_default (array_of (get "nodes" v.definition)) [])
        then err type_error
        else ok (
            if is_passed o.status then mark_version_simulated id flow_id tenant_id now st' else st')

    unfoldable pub simulate : String → ℕ → Store → Result Store
    simulate id now st = simulate_found id now (find_version_by_id id flow_id tenant_id st) st

    abbrev pub can_be_simulated : State → Bool
    can_be_simulated State.draft = true
    can_be_simulated s = can_publish s

    unfoldable pub simulate_current_draft : ℕ → Store → Result Store
    simulate_current_draft now st =
        with_draft can_be_simulated (λ id. simulate id now st)
          (find_flow flow_id tenant_id st.flows) st

  abbrev pub metadata_of : Option Version → Props
  metadata_of none = Props.end
  metadata_of (some v) = v.metadata

  abbrev pub state_valid : Option Version → Bool
  state_valid none = false
  state_valid (some v) = can_publish v.state

  unfoldable pub dry_run_publish : String → Actor → Store → DryRun
  dry_run_publish id actor st =
      let version = find_version_by_id id flow_id tenant_id st in
      let require =
        should_require_approval (policy_requires_approval tenant_id st) actor
          (metadata_of version) in
      record {
        would_become = if require then pending_approval else published;
        require_approval = require;
        version_state_valid = state_valid version;
      }

  module _ (request_id : String) (actor : Actor) (now : ℕ) where
    -- The approval request and the pending publish record.
    unfoldable pub pending_attempt : String → ActionType → Version → Store → Attempt
    pending_attempt version_id action v st =
        let m = approval_metadata action actor v.metadata in
        record {
          status = pending_approval;
          store =
              store_pending_publish_record tenant_id flow_id version_id actor.id actor.type
                request_id action m
                (create_approval_request request_id tenant_id flow_id version_id actor.id m st);
        }

    unfoldable pub trigger_of : ActionType → Version → Trigger
    trigger_of action v = record {
      triggered_by_id = actor.id;
      triggered_by_type = actor.type;
      approval_request_id = none;
      metadata = approval_metadata action actor v.metadata;
    }

    unfoldable pub publish_found : String → Option Version → Store → Result Attempt
    publish_found id none st = err flow_version_not_found
    publish_found id (some v) st =
        if not (can_publish v.state)
        then err flow_version_state
        else if should_require_approval (policy_requires_approval tenant_id st) actor v.metadata
        then ok (pending_attempt id ActionType.publish v st)
        else ok (record {
          status = published;
          store = Tables.publish flow_id tenant_id (trigger_of ActionType.publish v) now id st;
        })

    unfoldable pub publish : String → Store → Result Attempt
    publish id st = publish_found id (find_version_by_id id flow_id tenant_id st) st

    abbrev pub published_or : Option Store → Result Attempt
    published_or none = err no_rollback_target
    published_or (some st) = ok (record { status = published; store = st })

    unfoldable pub rollback_found : Option Version → Store → Result Attempt
    rollback_found none st = err no_rollback_target
    rollback_found (some v) st =
        if should_require_approval (policy_requires_approval tenant_id st) actor v.metadata
        then ok (pending_attempt v.id ActionType.rollback v st)
        else published_or
            (Tables.rollback flow_id tenant_id (trigger_of ActionType.rollback v) now st)

    unfoldable pub rollback_in : Option Flow → Store → Result Attempt
    rollback_in none st = err flow_not_found
    rollback_in (some f) st =
        rollback_found (find (λ v. is_superseded v.state) (versions_of flow_id st.versions)) st

    unfoldable pub rollback : Store → Result Attempt
    rollback st = rollback_in (find_flow flow_id tenant_id st.flows) st
