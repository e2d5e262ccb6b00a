-- ===== src/Flows/Tables.antt =====
-- apps/api/src/modules/ivr-flows/ivr-flow.repository.ts: the tables of flows and their versions and its
-- statements. The rows of versions, approval requests, publish records, audit events and results are those of
-- Lifecycle/Types, with the flow's id as `object_id`. A transaction that fails leaves the tables as they
-- were, which is no step here.
use manage_call_ai.Base.{
  ℕ, suc, String, Bool, true, false, ◌&&◌, List, [], ◌∷◌, push, keep, find, any, map, Option, none,
  some, if◌then◌else◌, str_eq, ltb,
}
use manage_call_ai.Json.{Props, or_default}
use manage_call_ai.Lifecycle.Types.{
  State, Version, ActorType, ActionType, Metadata, RequestStatus, ApprovalRequest, PublishRecord,
  RecordResult, AuditAction, AuditEvent, CheckResult,
}
use manage_call_ai.Lifecycle.Tables.{is_published, is_superseded, sort_desc, Trigger}

pub data FlowStatus : Type 0 where
  draft active inactive : FlowStatus

pub record Flow : Type 0 where
  pub id : String
  pub tenant_id : String
  pub name : String
  pub description : Option String
  pub status : FlowStatus
  pub draft_version_id : Option String
  pub active_version_id : Option String

-- The columns of `policies` that are read here; `require_approval` is `rules?.require_approval === true`.
pub record Policy : Type 0 where
  pub tenant_id : String
  pub policy_type : String
  pub status : String
  pub created_at : ℕ
  pub require_approval : Bool

pub record Store : Type 0 where
  pub flows : List Flow
  pub versions : List Version
  pub policies : List Policy
  pub approval_requests : List ApprovalRequest
  pub publish_records : List PublishRecord
  pub audit_events : List AuditEvent
  pub validation_results : List CheckResult
  pub simulation_results : List CheckResult

unfoldable pub is_flow : String → String → Flow → Bool
is_flow id tenant_id f = str_eq f.id id && str_eq f.tenant_id tenant_id

unfoldable pub find_flow : String → String → List Flow → Option Flow
find_flow id tenant_id flows = find (is_flow id tenant_id) flows

unfoldable pub of_flow : String → Version → Bool
of_flow flow_id v = str_eq v.object_id flow_id

-- `ORDER BY version_number DESC`.
unfoldable pub versions_of : String → List Version → List Version
versions_of flow_id versions = sort_desc (keep (of_flow flow_id) versions)

-- The join of a version with its flow.
unfoldable pub find_version_by_id : String → String → String → Store → Option Version
find_version_by_id id flow_id tenant_id st =
    if any (is_flow flow_id tenant_id) st.flows
    then find (λ v. str_eq v.id id && of_flow flow_id v) st.versions
    else none

unfoldable pub max_version_number : String → List Version → ℕ
max_version_number flow_id [] = 0
max_version_number flow_id (v ∷ vs) =
    let rest = max_version_number flow_id vs in
    if of_flow flow_id v && ltb rest v.version_number then v.version_number else rest

unfoldable pub next_version_number : String → Store → ℕ
next_version_number flow_id st = suc (max_version_number flow_id st.versions)

unfoldable pub new_version :
    String → String → String → ℕ → Props → Option String → Option Props → Version
new_version id tenant_id flow_id number definition created_by metadata = record {
  id = id;
  tenant_id = tenant_id;
  object_id = flow_id;
  version_number = number;
  state = State.draft;
  definition = definition;
  created_by = created_by;
  validated_at = none;
  simulated_at = none;
  published_at = none;
  metadata = or_default metadata Props.end;
}

unfoldable pub set_draft : String → String → Flow → Flow
set_draft version_id flow_id f =
    if str_eq f.id flow_id then record f { draft_version_id = some version_id } else f

unfoldable pub insert_version : Version → Store → Store
insert_version v st = record st {
  versions = push st.versions v;
  flows = map (set_draft v.id v.object_id) st.flows;
}

-- The flow and its first version.
unfoldable pub create :
    String
    → String
    → String
    → String
    → Option String
    → Props
    → Option String
    → Option Props
    → Store
    → Store
create flow_id version_id tenant_id name description graph created_by metadata st =
    insert_version (new_version version_id tenant_id flow_id 1 graph created_by metadata)
      (record st {
        flows = push st.flows (record {
          id = flow_id;
          tenant_id = tenant_id;
          name = name;
          description = description;
          status = FlowStatus.draft;
          draft_version_id = none;
          active_version_id = none;
        });
      })

-- `none` is `undefined`, and `some none` is `null`.
unfoldable pub set_names : Option String → Option (Option String) → Flow → Flow
set_names name description f = record f {
  name = or_default name f.name;
  description = or_default description f.description;
}

unfoldable pub update : String → String → Option String → Option (Option String) → Store → Store
update id tenant_id name description st = record st {
  flows = map (λ f. if is_flow id tenant_id f then set_names name description f else f) st.flows;
}

module _ (id flow_id tenant_id : String) where
  -- `id = … AND flow_id = … AND tenant_id = (SELECT tenant_id FROM ivr_flows …)`.
  unfoldable pub is_row : Store → Version → Bool
  is_row st v =
      any (is_flow flow_id tenant_id) st.flows
      && (str_eq v.id id && (of_flow flow_id v && str_eq v.tenant_id tenant_id))

  abbrev pub is_draft : State → Bool
  is_draft State.draft = true
  is_draft _ = false

  -- `merge` is the operator `||` of `jsonb`.
  unfoldable pub edit_row : (Props → Props → Props) → Props → Props → Version → Version
  edit_row merge definition metadata v = record v {
    definition = definition;
    metadata = merge v.metadata metadata;
  }

  unfoldable pub is_editable : Store → Version → Bool
  is_editable st v = is_row st v && is_draft v.state

  unfoldable pub update_version_definition :
      (Props → Props → Props) → Props → Option Props → Store → Option Store
  update_version_definition merge definition metadata st =
      if any (is_editable st) st.versions
      then some (record st {
        versions =
            map
              (λ v.
                if is_editable st v
                then edit_row merge definition (or_default metadata Props.end) v
                else v)
              st.versions;
      })
      else none

  unfoldable pub validated_row : ℕ → Version → Version
  validated_row now v = record v { state = State.validated; validated_at = some now }

  -- There is no condition on the state.
  unfoldable pub mark_version_validated : ℕ → Store → Store
  mark_version_validated now st = record st {
    versions = map (λ v. if is_row st v then validated_row now v else v) st.versions;
  }

  abbrev pub simulated_state : State → State
  simulated_state State.draft = State.simulated
  simulated_state s = s

  unfoldable pub simulated_row : ℕ → Version → Version
  simulated_row now v = record v { state = simulated_state v.state; simulated_at = some now }

  unfoldable pub mark_version_simulated : ℕ → Store → Store
  mark_version_simulated now st = record st {
    versions = map (λ v. if is_row st v then simulated_row now v else v) st.versions;
  }

  unfoldable pub check_result : Bool → CheckResult
  check_result passed = record {
    tenant_id = tenant_id;
    object_id = flow_id;
    version_id = id;
    passed = passed;
  }

  unfoldable pub store_validation_result : Bool → Store → Store
  store_validation_result passed st = record st {
    validation_results = push st.validation_results (check_result passed);
  }

  unfoldable pub store_simulation_result : Bool → Store → Store
  store_simulation_result passed st = record st {
    simulation_results = push st.simulation_results (check_result passed);
  }

-- `UPDATE flow_versions SET state = 'superseded' WHERE flow_id = … AND state = 'published'`.
unfoldable pub supersede_row : String → Version → Version
supersede_row flow_id v =
    if of_flow flow_id v && is_published v.state then record v { state = State.superseded } else v

-- `UPDATE flow_versions SET state = 'published', published_at = NOW() WHERE id = …`.
unfoldable pub publish_row : String → ℕ → Version → Version
publish_row id now v =
    if str_eq v.id id then record v { state = State.published; published_at = some now } else v

unfoldable pub activate : String → String → Flow → Flow
activate version_id flow_id f =
    if str_eq f.id flow_id
    then record f { active_version_id = some version_id; status = FlowStatus.active }
    else f

unfoldable pub point_to : String → String → Flow → Flow
point_to version_id flow_id f =
    if str_eq f.id flow_id then record f { active_version_id = some version_id } else f

module _ (flow_id tenant_id : String) (t : Trigger) (now : ℕ) where
  unfoldable pub publish_record : String → ActionType → PublishRecord
  publish_record version_id action = record {
    tenant_id = tenant_id;
    object_id = flow_id;
    version_id = version_id;
    action_type = action;
    triggered_by_type = t.triggered_by_type;
    triggered_by_id = t.triggered_by_id;
    approval_request_id = t.approval_request_id;
    result = RecordResult.success;
    metadata = t.metadata;
  }

  unfoldable pub audit_event : AuditAction → AuditEvent
  audit_event action = record {
    tenant_id = tenant_id;
    actor_type = t.triggered_by_type;
    actor_id = t.triggered_by_id;
    action = action;
    object_id = flow_id;
    metadata = t.metadata;
  }

  -- The statements of `publish` and `rollback`, with the update of the flow that each makes.
  unfoldable pub switch_version : (Flow → Flow) → ActionType → AuditAction → String → Store → Store
  unfolding publish_record audit_event
  switch_version point action audit version_id st = record st {
    versions = map (publish_row version_id now) (map (supersede_row flow_id) st.versions);
    flows = map point st.flows;
    publish_records = push st.publish_records (publish_record version_id action);
    audit_events = push st.audit_events (audit_event audit);
  }

  unfoldable pub publish : String → Store → Store
  publish version_id st =
      switch_version (activate version_id flow_id) ActionType.publish AuditAction.published
        version_id st

  unfoldable pub rollback_target : Store → Option Version
  rollback_target st =
      find (λ v. true)
        (sort_desc (keep (λ v. of_flow flow_id v && is_superseded v.state) st.versions))

  unfoldable pub rollback_to : Option Version → Store → Option Store
  rollback_to none st = none
  rollback_to (some v) st =
      some
        (switch_version (point_to v.id flow_id) ActionType.rollback AuditAction.rolled_back v.id st)

  unfoldable pub rollback : Store → Option Store
  rollback st = rollback_to (rollback_target st) st

unfoldable pub create_approval_request :
    String → String → String → String → String → Metadata → Store → Store
create_approval_request id tenant_id flow_id version_id requested_by metadata st = record st {
  approval_requests = push st.approval_requests (record {
    id = id;
    tenant_id = tenant_id;
    object_id = flow_id;
    version_id = version_id;
    requested_by = requested_by;
    status = RequestStatus.pending;
    metadata = metadata;
  });
}

unfoldable pub store_pending_publish_record :
    String → String → String → String → ActorType → String → ActionType → Metadata → Store → Store
store_pending_publish_record tenant_id flow_id version_id by type request_id action metadata st =
    record st {
      publish_records = push st.publish_records (record {
        tenant_id = tenant_id;
        object_id = flow_id;
        version_id = version_id;
        action_type = action;
        triggered_by_type = type;
        triggered_by_id = by;
        approval_request_id = some request_id;
        result = RecordResult.pending_approval;
        metadata = metadata;
      });
    }

unfoldable pub is_publish_policy : String → Policy → Bool
is_publish_policy tenant_id p =
    str_eq p.tenant_id tenant_id
    && (str_eq p.policy_type "ivr_publish_control" && str_eq p.status "active")

-- `ORDER BY created_at DESC LIMIT 1`.
abbrev later : Policy → Option Policy → Option Policy
later p none = some p
later p (some q) = some (if ltb p.created_at q.created_at then q else p)

unfoldable pub newest : List Policy → Option Policy
newest [] = none
newest (p ∷ ps) = later p (newest ps)

unfoldable pub get_active_publish_policy : String → Store → Option Policy
get_active_publish_policy tenant_id st = newest (keep (is_publish_policy tenant_id) st.policies)

abbrev requires : Option Policy → Bool
requires none = false
requires (some p) = p.require_approval

-- `policy?.require_approval === true`, of `getActivePublishPolicy`.
unfoldable pub policy_requires_approval : String → Store → Bool
policy_requires_approval tenant_id st = requires (get_active_publish_policy tenant_id st)
