-- ===== src/Lifecycle/Service.antt =====
-- `EnterpriseLifecycleService`. A validator and a simulator are arguments, as in the source; the ids of
-- new rows are arguments too. Each function runs its statements on the store one after the other.
use manage_call_ai.Base.{
  ℕ, String, Bool, true, false, not, ◌&&◌, ◌||◌, push, find, any, map, Option, none, some,
  if◌then◌else◌,
}
use manage_call_ai.Json.{Props, or_default}
use manage_call_ai.Lifecycle.Types.{
  State, Version, ActorType, ai_agent, Role, platform_admin, ActionType, Reason, Metadata,
  CheckResult, Store, version_not_found, version_state, rollback_not_available, Result, ok, err,
}
use manage_call_ai.Lifecycle.Lineage.{read_ai_lineage}
use manage_call_ai.Lifecycle.Tables.{
  is_row, is_superseded, find_version_by_id, find_versions_by_object, next_version_number,
  can_validate, mark_validated_row, mark_simulated_row, set_draft, Trigger, publish_version,
  rollback_version, create_approval_request, store_pending_publish_record, policy_requires_approval,
}

abbrev pub is_ai_agent : ActorType → Bool
is_ai_agent ai_agent = true
is_ai_agent _ = false

abbrev is_platform_admin : Option Role → Bool
is_platform_admin (some platform_admin) = true
is_platform_admin _ = false

abbrev pub given {ℓ} : {A : Type ℓ} → Option A → Bool
given none = false
given (some a) = true

-- Who asks for a publication.
pub record Actor : Type 0 where
  pub id : String
  pub type : ActorType
  pub role : Option Role

unfoldable pub should_require_approval : Bool → Actor → Props → Bool
should_require_approval policy_requires actor metadata =
    given (read_ai_lineage metadata)
    || (is_ai_agent actor.type || (policy_requires && not (is_platform_admin actor.role)))

-- `['validated', 'simulated'].includes(version.state)`, of `assertCanPublish`.
unfoldable pub can_publish : State → Bool
can_publish State.validated = true
can_publish State.simulated = true
can_publish _ = false

pub data AttemptStatus : Type 0 where
  published pending_approval : AttemptStatus

pub record Attempt : Type 0 where
  pub status : AttemptStatus
  pub store : Store

pub record DryRun : Type 0 where
  pub would_become : AttemptStatus
  pub require_approval : Bool
  pub version_state_valid : Bool

abbrev reason_of : Option Props → Reason
reason_of none = Reason.policy
reason_of (some l) = Reason.ai_origin

unfoldable pub approval_metadata : ActionType → Actor → Props → Metadata
approval_metadata action actor metadata = record {
  action_type = action;
  requested_actor_type = actor.type;
  approval_reason = reason_of (read_ai_lineage metadata);
  ai_lineage = read_ai_lineage metadata;
}

abbrev pub published_or : Option Store → Result Attempt → Result Attempt
published_or none e = e
published_or (some st) e = ok (record { status = published; store = st })

module _ (object_id tenant_id : String) where
  unfoldable pub create_version : String → Props → Option String → Option Props → Store → Store
  create_version id definition created_by metadata st = record st {
    versions = push st.versions (record {
      id = id;
      tenant_id = tenant_id;
      object_id = object_id;
      version_number = next_version_number object_id st.versions;
      state = State.draft;
      definition = definition;
      created_by = created_by;
      validated_at = none;
      simulated_at = none;
      published_at = none;
      metadata = or_default metadata Props.end;
    });
  }

  unfoldable pub check_result : String → Bool → CheckResult
  check_result id passed = record {
    tenant_id = tenant_id;
    object_id = object_id;
    version_id = id;
    passed = passed;
  }

  unfoldable pub mark_version_validated : String → ℕ → Store → Store
  mark_version_validated id now st =
      if any (λ v. is_row id object_id tenant_id v && can_validate v.state) st.versions
      then record st {
        versions = map (mark_validated_row id object_id tenant_id now) st.versions;
        objects = map (set_draft id object_id tenant_id) st.objects;
      }
      else st

  unfoldable pub mark_version_simulated : String → ℕ → Store → Store
  mark_version_simulated id now st = record st {
    versions = map (mark_simulated_row id object_id tenant_id now) st.versions;
  }

  unfoldable pub validate_found :
      (Version → Bool) → String → ℕ → Option Version → Store → Result Store
  validate_found validator id now none st = err version_not_found
  validate_found validator id now (some v) st =
      let checked = record st {
        validation_results = push st.validation_results (check_result id (validator v));
      } in
      ok (if validator v then mark_version_validated id now checked else checked)

  -- `validator` tells whether the outcome is 'passed'.
  unfoldable pub validate : (Version → Bool) → String → ℕ → Store → Result Store
  validate validator id now st =
      validate_found validator id now (find_version_by_id id object_id tenant_id st.versions) st

  unfoldable pub simulate_found :
      (Version → Bool) → String → ℕ → Option Version → Store → Result Store
  simulate_found simulator id now none st = err version_not_found
  simulate_found simulator id now (some v) st =
      let checked = record st {
        simulation_results = push st.simulation_results (check_result id (simulator v));
      } in
      ok (if simulator v then mark_version_simulated id now checked else checked)

  -- `simulator` tells whether the outcome is 'passed'.
  unfoldable pub simulate : (Version → Bool) → String → ℕ → Store → Result Store
  simulate simulator id now st =
      simulate_found simulator id now (find_version_by_id id object_id tenant_id st.versions) st

  abbrev state_valid : Option Version → Bool
  state_valid none = false
  state_valid (some v) = can_publish v.state

  abbrev metadata_of : Option Version → Props
  metadata_of none = Props.end
  metadata_of (some v) = v.metadata

  abbrev would : Bool → AttemptStatus
  would require = if require then pending_approval else published

  unfoldable pub dry_run_publish : String → Actor → Store → DryRun
  dry_run_publish id actor st =
      let version = find_version_by_id id object_id tenant_id st.versions in
      let require =
        should_require_approval (policy_requires_approval tenant_id st) actor
          (metadata_of version) in
      record {
        would_become = would require;
        require_approval = require;
        version_state_valid = state_valid version;
      }

  -- The approval request and the pending publish record.
  unfoldable pub pending_attempt : String → String → ActionType → Actor → Version → Store → Attempt
  pending_attempt request_id version_id action actor v st =
      let m = approval_metadata action actor v.metadata in
      record {
        status = pending_approval;
        store =
            store_pending_publish_record tenant_id object_id version_id actor.id actor.type
              request_id action m
              (create_approval_request request_id tenant_id object_id version_id actor.id m st);
      }

  unfoldable pub trigger_of : ActionType → Actor → Version → Trigger
  trigger_of action actor v = record {
    triggered_by_id = actor.id;
    triggered_by_type = actor.type;
    approval_request_id = none;
    metadata = approval_metadata action actor v.metadata;
  }

  module _ (request_id : String) (actor : Actor) (now : ℕ) where
    unfoldable pub publish_found : String → Option Version → Store → Result Attempt
    publish_found id none st = err version_not_found
    publish_found id (some v) st =
        if not (can_publish v.state)
        then err version_state
        else if should_require_approval (policy_requires_approval tenant_id st) actor v.metadata
        then ok (pending_attempt request_id id ActionType.publish actor v st)
        else published_or
            (publish_version object_id tenant_id (trigger_of ActionType.publish actor v) now id st)
            (err version_not_found)

    unfoldable pub publish : String → Store → Result Attempt
    publish id st = publish_found id (find_version_by_id id object_id tenant_id st.versions) st

    unfoldable pub rollback_found : Option Version → Store → Result Attempt
    rollback_found none st = err rollback_not_available
    rollback_found (some v) st =
        if should_require_approval (policy_requires_approval tenant_id st) actor v.metadata
        then ok (pending_attempt request_id v.id ActionType.rollback actor v st)
        else published_or
            (rollback_version object_id tenant_id (trigger_of ActionType.rollback actor v) now st)
            (err rollback_not_available)

    unfoldable pub rollback : Store → Result Attempt
    rollback st =
        rollback_found
          (find (λ v. is_superseded v.state)
            (find_versions_by_object object_id tenant_id st.versions))
          st
