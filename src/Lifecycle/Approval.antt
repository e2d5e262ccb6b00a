-- ===== src/Lifecycle/Approval.antt =====
-- apps/api/src/modules/approvals/approval.service.ts over approval.repository.ts, for requests about
-- the versions of Lifecycle.Types. The statements are no transaction: what is done before an error stays done.
use manage_call_ai.Base.{
  ℕ, String, Bool, true, false, ◌&&◌, push, find, map, Option, none, some, if◌then◌else◌, str_eq,
}
use manage_call_ai.Json.{or_default}
use manage_call_ai.Lifecycle.Types.{
  ActorType, ActionType, RequestStatus, RecordResult, AuditAction, ApprovalRequest, PublishRecord,
  Store, LifecycleError, version_not_found, approval_not_found, already_decided,
  publish_record_missing, Result, ok, err,
}
use manage_call_ai.Lifecycle.Tables.{Trigger, publish_version, rollback_version}

abbrev pub is_pending : RequestStatus → Bool
is_pending RequestStatus.pending = true
is_pending _ = false

abbrev pub find_request : String → String → Store → Option ApprovalRequest
find_request id tenant_id st =
    find (λ r. str_eq r.id id && str_eq r.tenant_id tenant_id) st.approval_requests

abbrev is_about : String → Option String → Bool
is_about id none = false
is_about id (some x) = str_eq x id

unfoldable pub find_associated_publish_record : String → Store → Option PublishRecord
find_associated_publish_record id st =
    find (λ r. is_about id r.approval_request_id) st.publish_records

unfoldable pub decide_row : RequestStatus → String → String → ApprovalRequest → ApprovalRequest
decide_row status id tenant_id r =
    if str_eq r.id id && (str_eq r.tenant_id tenant_id && is_pending r.status)
    then record r { status = status }
    else r

-- `markApproved` and `markRejected`.
unfoldable pub mark_decided : RequestStatus → String → String → Store → Store
unfolding decide_row
mark_decided status id tenant_id st = record st {
  approval_requests = map (decide_row status id tenant_id) st.approval_requests;
}

unfoldable pub set_result : RecordResult → String → PublishRecord → PublishRecord
set_result result id r =
    if is_about id r.approval_request_id then record r { result = result } else r

unfoldable pub update_publish_record_result : RecordResult → String → Store → Store
unfolding set_result
update_publish_record_result result id st = record st {
  publish_records = map (set_result result id) st.publish_records;
}

-- The store after a decision, an error's too.
pub record Decision : Type 0 where
  pub store : Store
  pub result : Result ActionType

abbrev refused : Store → LifecycleError → Decision
refused st e = record { store = st; result = err e }

module _ (id tenant_id by : String) (now : ℕ) where
  unfoldable pub trigger_of : ApprovalRequest → Trigger
  trigger_of r = record {
    triggered_by_id = by;
    triggered_by_type = ActorType.user;
    approval_request_id = some id;
    metadata = r.metadata;
  }

  unfoldable pub write_audit_event : AuditAction → ApprovalRequest → Store → Store
  write_audit_event action r st = record st {
    audit_events = push st.audit_events (record {
      tenant_id = tenant_id;
      actor_type = ActorType.user;
      actor_id = by;
      action = action;
      object_id = id;
      metadata = r.metadata;
    });
  }

  unfoldable pub finish : ApprovalRequest → ActionType → Store → Decision
  finish r action st = record {
    store =
        write_audit_event AuditAction.approve r
          (update_publish_record_result RecordResult.success id st);
    result = ok action;
  }

  unfoldable pub published : ApprovalRequest → Store → Option Store → Decision
  published r before none = refused before version_not_found
  published r before (some st) = finish r ActionType.publish st

  -- What the record asks for, on the store in which the request is approved. A rollback without a
  -- target is no error.
  unfoldable pub perform : ApprovalRequest → PublishRecord → ActionType → Store → Decision
  perform r p ActionType.publish st =
      published r st (publish_version p.object_id tenant_id (trigger_of r) now p.version_id st)
  perform r p ActionType.rollback st =
      finish r ActionType.rollback
        (or_default (rollback_version p.object_id tenant_id (trigger_of r) now st) st)

  unfoldable pub approve_record : ApprovalRequest → Option PublishRecord → Store → Decision
  approve_record r none st = refused st publish_record_missing
  approve_record r (some p) st =
      perform r p p.action_type (mark_decided RequestStatus.approved id tenant_id st)

  unfoldable pub approve_found : Option ApprovalRequest → Store → Decision
  approve_found none st = refused st approval_not_found
  approve_found (some r) st =
      if is_pending r.status
      then approve_record r (find_associated_publish_record id st) st
      else refused st already_decided

  unfoldable pub approve : Store → Decision
  approve st = approve_found (find_request id tenant_id st) st

  unfoldable pub reject_record : ApprovalRequest → Option PublishRecord → Store → Decision
  reject_record r none st = record {
    store = write_audit_event AuditAction.reject r st;
    result = ok ActionType.publish;
  }
  reject_record r (some p) st = record {
    store =
        write_audit_event AuditAction.reject r
          (update_publish_record_result RecordResult.failed id st);
    result = ok p.action_type;
  }

  unfoldable pub reject_found : Option ApprovalRequest → Store → Decision
  reject_found none st = refused st approval_not_found
  reject_found (some r) st =
      if is_pending r.status
      then reject_record r (find_associated_publish_record id st)
          (mark_decided RequestStatus.rejected id tenant_id st)
      else refused st already_decided

  unfoldable pub reject : Store → Decision
  reject st = reject_found (find_request id tenant_id st) st
