-- ===== src/Lifecycle/Tables.antt =====
-- apps/api/src/modules/shared/enterprise-lifecycle.repository.ts: its statements on the tables.
-- A transaction that the database aborts leaves the tables as they were, which is no step here.
use manage_call_ai.Base.{
  ℕ, suc, String, Bool, true, false, ◌&&◌, List, [], ◌∷◌, push, keep, find, map, Option, none, some,
  if◌then◌else◌, str_eq, ltb,
}
use manage_call_ai.Lifecycle.Types.{
  State, Version, Object, ActorType, ActionType, Metadata, PublishRecord, RecordResult,
  RequestStatus, AuditAction, AuditEvent, PublishPolicy, Store,
}

-- `fkColumn = $objectId AND tenant_id = $tenantId`.
unfoldable pub of_object : String → String → Version → Bool
of_object object_id tenant_id v = str_eq v.object_id object_id && str_eq v.tenant_id tenant_id

unfoldable pub is_row : String → String → String → Version → Bool
unfolding of_object
is_row id object_id tenant_id v = str_eq v.id id && of_object object_id tenant_id v

abbrev pub is_published : State → Bool
is_published State.published = true
is_published _ = false

abbrev pub is_superseded : State → Bool
is_superseded State.superseded = true
is_superseded _ = false

unfoldable pub find_version_by_id : String → String → String → List Version → Option Version
find_version_by_id id object_id tenant_id versions = find (is_row id object_id tenant_id) versions

unfoldable pub insert_desc : Version → List Version → List Version
insert_desc v [] = v ∷ []
insert_desc v (w ∷ ws) =
    let rest = insert_desc v ws in
    if ltb v.version_number w.version_number then w ∷ rest else v ∷ w ∷ ws

-- `ORDER BY version_number DESC`.
unfoldable pub sort_desc : List Version → List Version
unfolding insert_desc
sort_desc [] = []
sort_desc (v ∷ vs) = insert_desc v (sort_desc vs)

unfoldable pub find_versions_by_object : String → String → List Version → List Version
find_versions_by_object object_id tenant_id versions =
    sort_desc (keep (of_object object_id tenant_id) versions)

unfoldable pub max_version_number : String → List Version → ℕ
max_version_number object_id [] = 0
max_version_number object_id (v ∷ vs) =
    let rest = max_version_number object_id vs in
    if str_eq v.object_id object_id && ltb rest v.version_number then v.version_number else rest

unfoldable pub next_version_number : String → List Version → ℕ
next_version_number object_id versions = suc (max_version_number object_id versions)

-- `state IN ('draft','validated')`, and with `'simulated'`.
unfoldable pub can_validate : State → Bool
can_validate State.draft = true
can_validate State.validated = true
can_validate _ = false

unfoldable pub can_simulate : State → Bool
can_simulate State.simulated = true
can_simulate s = can_validate s

module _ (id object_id tenant_id : String) (now : ℕ) where
  unfoldable pub mark_validated_row : Version → Version
  mark_validated_row v =
      if is_row id object_id tenant_id v && can_validate v.state
      then record v { state = State.validated; validated_at = some now }
      else v

  unfoldable pub mark_simulated_row : Version → Version
  mark_simulated_row v =
      if is_row id object_id tenant_id v && can_simulate v.state
      then record v { state = State.simulated; simulated_at = some now }
      else v

  unfoldable pub publish_row : Version → Version
  publish_row v =
      if is_row id object_id tenant_id v
      then record v { state = State.published; published_at = some now }
      else v

-- `UPDATE … SET state = … WHERE … AND state = 'published'`.
unfoldable pub retire_row : State → String → String → Version → Version
retire_row state object_id tenant_id v =
    if of_object object_id tenant_id v && is_published v.state
    then record v { state = state }
    else v

unfoldable pub is_object : String → String → Object → Bool
is_object id tenant_id o = str_eq o.id id && str_eq o.tenant_id tenant_id

unfoldable pub set_active : String → String → String → Object → Object
set_active version_id object_id tenant_id o =
    if is_object object_id tenant_id o then record o { active_version_id = some version_id } else o

unfoldable pub set_draft : String → String → String → Object → Object
set_draft version_id object_id tenant_id o =
    if is_object object_id tenant_id o then record o { draft_version_id = some version_id } else o

-- Who publishes or rolls back, and by which approval.
pub record Trigger : Type 0 where
  pub triggered_by_id : String
  pub triggered_by_type : ActorType
  pub approval_request_id : Option String
  pub metadata : Metadata

module _ (object_id tenant_id : String) (t : Trigger) (now : ℕ) where
  unfoldable pub publish_record : String → ActionType → PublishRecord
  publish_record version_id action = record {
    tenant_id = tenant_id;
    object_id = object_id;
    version_id = version_id;
    action_type = action;
    triggered_by_type = t.triggered_by_type;
    triggered_by_id = t.triggered_by_id;
    approval_request_id = t.approval_request_id;
    result = RecordResult.success;
    metadata = t.metadata;
  }

  unfoldable pub audit_event : AuditAction → AuditEvent
  audit_event action = record {
    tenant_id = tenant_id;
    actor_type = t.triggered_by_type;
    actor_id = t.triggered_by_id;
    action = action;
    object_id = object_id;
    metadata = t.metadata;
  }

  -- The statements that `publish` and `rollback` share: the published version becomes `retired`,
  -- that of the id becomes published and active.
  unfoldable pub switch_version : State → ActionType → AuditAction → String → Store → Store
  unfolding publish_record audit_event
  switch_version retired action audit version_id st = record st {
    versions =
        map (publish_row version_id object_id tenant_id now)
          (map (retire_row retired object_id tenant_id) st.versions);
    objects = map (set_active version_id object_id tenant_id) st.objects;
    publish_records = push st.publish_records (publish_record version_id action);
    audit_events = push st.audit_events (audit_event audit);
  }

  unfoldable pub publish_found : String → Option Version → Store → Option Store
  publish_found version_id none st = none
  publish_found version_id (some v) st =
      some (switch_version State.superseded ActionType.publish AuditAction.published version_id st)

  -- Without the row, `rows[0]` is undefined, and the transaction is rolled back.
  unfoldable pub publish_version : String → Store → Option Store
  unfolding publish_found
  publish_version version_id st =
      publish_found version_id (find_version_by_id version_id object_id tenant_id st.versions) st

  -- `ORDER BY version_number DESC LIMIT 1`.
  unfoldable pub rollback_target : Store → Option Version
  rollback_target st =
      find (λ v. true)
        (sort_desc
          (keep (λ v. of_object object_id tenant_id v && is_superseded v.state) st.versions))

  unfoldable pub rollback_to : Option Version → Store → Option Store
  rollback_to none st = none
  rollback_to (some v) st =
      some (switch_version State.rolled_back ActionType.rollback AuditAction.rolled_back v.id st)

  unfoldable pub rollback_version : Store → Option Store
  unfolding rollback_to
  rollback_version st = rollback_to (rollback_target st) st

unfoldable pub create_approval_request :
    String → String → String → String → String → Metadata → Store → Store
create_approval_request id tenant_id object_id version_id requested_by metadata st = record st {
  approval_requests = push st.approval_requests (record {
    id = id;
    tenant_id = tenant_id;
    object_id = object_id;
    version_id = version_id;
    requested_by = requested_by;
    status = RequestStatus.pending;
    metadata = metadata;
  });
}

unfoldable pub store_pending_publish_record :
    String → String → String → String → ActorType → String → ActionType → Metadata → Store → Store
store_pending_publish_record tenant_id object_id version_id by type request_id action metadata st =
    record st {
      publish_records = push st.publish_records (record {
        tenant_id = tenant_id;
        object_id = object_id;
        version_id = version_id;
        action_type = action;
        triggered_by_type = type;
        triggered_by_id = by;
        approval_request_id = some request_id;
        result = RecordResult.pending_approval;
        metadata = metadata;
      });
    }

unfoldable pub policy_requires : Option PublishPolicy → Bool
policy_requires none = false
policy_requires (some p) = p.require_approval

-- `policy?.require_approval === true`, of `getActivePublishPolicy`.
unfoldable pub policy_requires_approval : String → Store → Bool
unfolding policy_requires
policy_requires_approval tenant_id st =
    policy_requires (find (λ p. str_eq p.tenant_id tenant_id && p.is_active) st.publish_policies)
