-- ===== src/Lifecycle/Gate.antt =====
-- What needs an approval, and the dry run against the publication.
use manage_call_ai.Base.{
  ℕ, String, ◌≡◌, refl, Bool, true, false, not, Option, none, some, if◌then◌else◌, arith, find,
  push, List, ◌⊎◌, inl, inr, Bool-cases,
}
use manage_call_ai.Json.{Props}
use manage_call_ai.Lifecycle.Types.{
  Version, ActionType, ActorType, RequestStatus, RecordResult, Metadata, ApprovalRequest,
  PublishRecord, Store, version_state, version_not_found, Result, ok, err,
}
use manage_call_ai.Lifecycle.Lineage.{read_ai_lineage}
use manage_call_ai.Lifecycle.Tables.{
  is_superseded, find_version_by_id, find_versions_by_object, create_approval_request,
  store_pending_publish_record, policy_requires_approval,
}
use manage_call_ai.Lifecycle.Active.{publish_version_found}
use manage_call_ai.Lifecycle.Service.{
  Actor, Attempt, pending_approval, published, DryRun, should_require_approval, can_publish,
  trigger_of, published_or, pending_attempt, approval_metadata, dry_run_publish, publish_found,
  publish, rollback_found, rollback,
}

-- A change that an AI made, or that an AI asks for.
abbrev pub IsAi : Actor → Version → Type 0
IsAi actor v =
    (actor.type ≡ ActorType.ai_agent)
    ⊎ ((lineage : Props) × (read_ai_lineage v.metadata ≡ some lineage))

pub IsAi-required :
    (actor : Actor) (v : Version)
    → IsAi actor v
    → (b : Bool) → should_require_approval b actor v.metadata ≡ true
unfolding should_require_approval
IsAi-required actor v (inl e) b = rw e (ground arith)
IsAi-required actor v (inr (lineage, e)) b = rw e refl

module _ (object_id tenant_id request_id version_id : String) (action : ActionType)
    (actor : Actor) where
  abbrev pending_request : Metadata → ApprovalRequest
  pending_request m = record {
    id = request_id;
    tenant_id = tenant_id;
    object_id = object_id;
    version_id = version_id;
    requested_by = actor.id;
    status = RequestStatus.pending;
    metadata = m;
  }

  abbrev pending_record : Metadata → PublishRecord
  pending_record m = record {
    tenant_id = tenant_id;
    object_id = object_id;
    version_id = version_id;
    action_type = action;
    triggered_by_type = actor.type;
    triggered_by_id = actor.id;
    approval_request_id = some request_id;
    result = RecordResult.pending_approval;
    metadata = m;
  }

  -- The tables get one row each: a pending request, and a publish record that waits for it.
  abbrev pub Requested :
      List ApprovalRequest → List ApprovalRequest → List PublishRecord → List PublishRecord → Type 0
  Requested requests requests' records records' =
      (m : Metadata) × ((m.action_type ≡ action)
        × (m.requested_actor_type ≡ actor.type)
        × (requests' ≡ push requests (pending_request m))
        × (records' ≡ push records (pending_record m)))

  -- If the state is valid a request, and nothing but a request; else an error.
  abbrev pub OnlyRequests : Bool → Store → Result Attempt → Type 0
  OnlyRequests valid st (ok a) =
      (valid ≡ true)
      × (a.status ≡ pending_approval)
      × (a.store.versions ≡ st.versions)
      × (a.store.objects ≡ st.objects)
      × (a.store.audit_events ≡ st.audit_events)
      × Requested st.approval_requests a.store.approval_requests st.publish_records
          a.store.publish_records
  OnlyRequests valid st (err e) = valid ≡ false

module _ (object_id tenant_id request_id : String) (actor : Actor) (now : ℕ) (st : Store)
    (v : Version) where
  pending_attempt-OnlyRequests :
      (id : String) (action : ActionType)
      → OnlyRequests object_id tenant_id request_id id action actor true st
          (ok (pending_attempt object_id tenant_id request_id id action actor v st))
  unfolding pending_attempt create_approval_request store_pending_publish_record approval_metadata
  pending_attempt-OnlyRequests id action = (
    refl,
    refl,
    refl,
    refl,
    refl,
    (approval_metadata action actor v.metadata, (refl, refl, refl, refl)),
  )

  publish_found-OnlyRequests :
      (id : String)
      → IsAi actor v
      → OnlyRequests object_id tenant_id request_id id ActionType.publish actor
          (can_publish v.state)
          st
          (publish_found object_id tenant_id request_id actor now id (some v) st)
  unfolding publish_found
  publish_found-OnlyRequests id h = elim (Bool-cases (can_publish v.state)) [
    | inl e ↦
        rw (e, IsAi-required actor v h (policy_requires_approval tenant_id st))
          (pending_attempt-OnlyRequests id ActionType.publish)
    | inr ne ↦ rw ne refl
  ]

  rollback_found-OnlyRequests :
      IsAi actor v
      → OnlyRequests object_id tenant_id request_id v.id ActionType.rollback actor true st
          (rollback_found object_id tenant_id request_id actor now (some v) st)
  unfolding rollback_found
  rollback_found-OnlyRequests h =
      rw (IsAi-required actor v h (policy_requires_approval tenant_id st))
        (pending_attempt-OnlyRequests v.id ActionType.rollback)

-- Publishing a version that an AI made, or on an AI's behalf, changes no version and no object and writes no
-- audit event, whatever the policy and the role: if the state of the version can be published, it adds one
-- pending request for approval and one publish record that waits for it, and else it fails.
pub publish-OnlyRequests :
    (object_id tenant_id request_id : String) (actor : Actor) (now : ℕ) (id : String) (st : Store)
    (v : Version)
    → find_version_by_id id object_id tenant_id st.versions ≡ some v
    → IsAi actor v
    → OnlyRequests object_id tenant_id request_id id ActionType.publish actor
        (can_publish v.state)
        st
        (publish object_id tenant_id request_id actor now id st)
unfolding publish
publish-OnlyRequests object_id tenant_id request_id actor now id st v f h =
    rw f (publish_found-OnlyRequests object_id tenant_id request_id actor now st v id h)

-- Rolling back to a version that an AI made, or on an AI's behalf, changes no version and no object and writes
-- no audit event, whatever the policy and the role: it adds one pending request for approval and one publish
-- record that waits for it.
pub rollback-OnlyRequests :
    (object_id tenant_id request_id : String) (actor : Actor) (now : ℕ) (st : Store) (v : Version)
    → find (λ x. is_superseded x.state) (find_versions_by_object object_id tenant_id st.versions)
      ≡ some v
    → IsAi actor v
    → OnlyRequests object_id tenant_id request_id v.id ActionType.rollback actor true st
        (rollback object_id tenant_id request_id actor now st)
unfolding rollback
rollback-OnlyRequests object_id tenant_id request_id actor now st v f h =
    rw f (rollback_found-OnlyRequests object_id tenant_id request_id actor now st v h)

-- What a dry run foretells of an attempt.
abbrev pub Foretells : DryRun → Result Attempt → Type 0
Foretells d (ok a) = (d.version_state_valid ≡ true) × (a.status ≡ d.would_become)
Foretells d (err e) = d.version_state_valid ≡ false

foretold :
    (valid require : Bool) (a : Attempt) (o : Option Store) (st' : Store)
    → a.status ≡ pending_approval
    → o ≡ some st'
    → Foretells
        (record {
          would_become = if require then pending_approval else published;
          require_approval = require;
          version_state_valid = valid;
        })
        (if not valid
          then err version_state
          else if require
          then ok a
          else published_or o (err version_not_found))
foretold false require a o st' p e = refl
foretold true true a o st' p e = (refl, p)
foretold true false a o st' p e = rw e (refl, refl)

-- A dry run foretells the publication: it succeeds just if the dry run finds the version's state
-- valid, and is published or waits for an approval as the dry run says.
pub dry_run_publish-Foretells :
    (object_id tenant_id request_id : String) (actor : Actor) (now : ℕ) (id : String) (st : Store)
    → Foretells
        (dry_run_publish object_id tenant_id id actor st)
        (publish object_id tenant_id request_id actor now id st)
unfolding dry_run_publish publish publish_found pending_attempt
dry_run_publish-Foretells object_id tenant_id request_id actor now id st =
    of_version (find_version_by_id id object_id tenant_id st.versions) refl
  where
    of_version :
        (o : Option Version)
        → find_version_by_id id object_id tenant_id st.versions ≡ o
        → Foretells
            (dry_run_publish object_id tenant_id id actor st)
            (publish object_id tenant_id request_id actor now id st)
    of_version none e = rw e refl
    of_version (some v) e =
        let done =
          publish_version_found object_id tenant_id
            (trigger_of object_id tenant_id ActionType.publish actor v) now id st v e in
        rw e (foretold (can_publish v.state) _ _ _ _ refl done)
