-- ===== src/Lifecycle/Types.antt =====
-- apps/api/src/modules/shared/enterprise-lifecycle.types.ts, and the tables that
-- enterprise-lifecycle.repository.ts writes, for the versions of one object type: the six types have the
-- same statements on tables of other names.
use manage_call_ai.Base.{ℕ, String, Bool, List, Option}
use manage_call_ai.Json.{Props}

pub data State : Type 0 where
  draft validated simulated published superseded rolled_back : State

pub record Version : Type 0 where
  pub id : String
  pub tenant_id : String
  pub object_id : String
  pub version_number : ℕ
  pub state : State
  pub definition : Props
  pub created_by : Option String
  pub validated_at : Option ℕ
  pub simulated_at : Option ℕ
  pub published_at : Option ℕ
  pub metadata : Props

pub record Object : Type 0 where
  pub id : String
  pub tenant_id : String
  pub active_version_id : Option String
  pub draft_version_id : Option String

pub data ActorType : Type 0 where
  user workflow ai_agent system : ActorType

pub data Role : Type 0 where
  platform_admin other_role : Role

pub data ActionType : Type 0 where
  publish rollback : ActionType

pub data RequestStatus : Type 0 where
  pending approved rejected expired : RequestStatus

pub data RecordResult : Type 0 where
  success pending_approval failed : RecordResult

pub data Reason : Type 0 where
  ai_origin policy : Reason

-- `approvalMetadata`.
pub record Metadata : Type 0 where
  pub action_type : ActionType
  pub requested_actor_type : ActorType
  pub approval_reason : Reason
  pub ai_lineage : Option Props

pub record ApprovalRequest : Type 0 where
  pub id : String
  pub tenant_id : String
  pub object_id : String
  pub version_id : String
  pub requested_by : String
  pub status : RequestStatus
  pub metadata : Metadata

pub record PublishRecord : Type 0 where
  pub tenant_id : String
  pub object_id : String
  pub version_id : String
  pub action_type : ActionType
  pub triggered_by_type : ActorType
  pub triggered_by_id : String
  pub approval_request_id : Option String
  pub result : RecordResult
  pub metadata : Metadata

pub data AuditAction : Type 0 where
  published rolled_back approve reject : AuditAction

pub record AuditEvent : Type 0 where
  pub tenant_id : String
  pub actor_type : ActorType
  pub actor_id : String
  pub action : AuditAction
  pub object_id : String
  pub metadata : Metadata

pub record PublishPolicy : Type 0 where
  pub tenant_id : String
  pub is_active : Bool
  pub require_approval : Bool

-- A row of `validation_results` or `simulation_results`.
pub record CheckResult : Type 0 where
  pub tenant_id : String
  pub object_id : String
  pub version_id : String
  pub passed : Bool

pub record Store : Type 0 where
  pub versions : List Version
  pub objects : List Object
  pub publish_policies : List PublishPolicy
  pub approval_requests : List ApprovalRequest
  pub publish_records : List PublishRecord
  pub audit_events : List AuditEvent
  pub validation_results : List CheckResult
  pub simulation_results : List CheckResult

pub data LifecycleError : Type 0 where
  version_not_found version_state rollback_not_available : LifecycleError
  approval_not_found already_decided publish_record_missing : LifecycleError

pub data Result {ℓ} (A : Type ℓ) : Type ℓ where
  ok : A → Result A
  err : LifecycleError → Result A
