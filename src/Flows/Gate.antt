-- ===== src/Flows/Gate.antt =====
-- What of the flow service needs an approval, and its dry run.
use manage_call_ai.Base.{
  ℕ, String, ◌≡◌, refl, Bool, true, false, not, find, Option, none, some, if◌then◌else◌, inl, inr,
  Bool-cases,
}
use manage_call_ai.Lifecycle.Types.{Version, ActionType}
use manage_call_ai.Lifecycle.Tables.{is_superseded}
use manage_call_ai.Lifecycle.Service.{
  Actor, published, pending_approval, DryRun, can_publish, approval_metadata,
}
use manage_call_ai.Lifecycle.Gate.{IsAi, IsAi-required, Requested}
use manage_call_ai.Flows.Tables.{
  Flow, Store, find_flow, versions_of, find_version_by_id, create_approval_request,
  store_pending_publish_record, policy_requires_approval,
}
use manage_call_ai.Flows.Service.{
  Attempt, Result, ok, err, flow_version_state, pending_attempt, dry_run_publish, publish_found,
  publish, rollback_found, rollback_in, rollback,
}

-- What a dry run foretells of an attempt.
abbrev pub Predicts : DryRun → Result Attempt → Type 0
Predicts d (ok a) = (d.version_state_valid ≡ true) × (a.status ≡ d.would_become)
Predicts d (err e) = d.version_state_valid ≡ false

module _ (flow_id tenant_id request_id : String) (actor : Actor) (now : ℕ) where
  -- If the state is valid a request, and nothing but a request; else an error.
  abbrev pub OnlyAsks : String → ActionType → Bool → Store → Result Attempt → Type 0
  OnlyAsks version_id action valid st (ok a) =
      (valid ≡ true)
      × (a.status ≡ pending_approval)
      × (a.store.versions ≡ st.versions)
      × (a.store.flows ≡ st.flows)
      × (a.store.audit_events ≡ st.audit_events)
      × Requested flow_id tenant_id request_id version_id action actor st.approval_requests
          a.store.approval_requests st.publish_records a.store.publish_records
  OnlyAsks version_id action valid st (err e) = valid ≡ false

  pending_attempt-OnlyAsks :
      (id : String) (action : ActionType) (v : Version) (st : Store)
      → OnlyAsks id action true st
          (ok (pending_attempt flow_id tenant_id request_id actor now id action v st))
  unfolding pending_attempt create_approval_request store_pending_publish_record approval_metadata
  pending_attempt-OnlyAsks id action v st = (
    refl,
    refl,
    refl,
    refl,
    refl,
    (approval_metadata action actor v.metadata, (refl, refl, refl, refl)),
  )

  publish_found-OnlyAsks :
      (id : String) (st : Store) (v : Version)
      → IsAi actor v
      → OnlyAsks id ActionType.publish
          (can_publish v.state)
          st
          (publish_found flow_id tenant_id request_id actor now id (some v) st)
  unfolding publish_found
  publish_found-OnlyAsks id st v h = elim (Bool-cases (can_publish v.state)) [
    | inl e ↦
        rw (e, IsAi-required actor v h (policy_requires_approval tenant_id st))
          (pending_attempt-OnlyAsks id ActionType.publish v st)
    | inr ne ↦ rw ne refl
  ]

  -- Publishing a flow version that an AI made, or on an AI's behalf, changes no version and no flow and writes no
  -- audit event, whatever the policy and the role: if the state of the version can be published, it adds one
  -- pending request for approval and one publish record that waits for it, and else it fails.
  pub publish-OnlyAsks :
      (id : String) (st : Store) (v : Version)
      → find_version_by_id id flow_id tenant_id st ≡ some v
      → IsAi actor v
      → OnlyAsks id ActionType.publish
          (can_publish v.state)
          st
          (publish flow_id tenant_id request_id actor now id st)
  unfolding publish
  publish-OnlyAsks id st v f h = rw f (publish_found-OnlyAsks id st v h)

  rollback_found-OnlyAsks :
      (st : Store) (v : Version)
      → IsAi actor v
      → OnlyAsks v.id ActionType.rollback true st
          (rollback_found flow_id tenant_id request_id actor now (some v) st)
  unfolding rollback_found
  rollback_found-OnlyAsks st v h =
      rw (IsAi-required actor v h (policy_requires_approval tenant_id st))
        (pending_attempt-OnlyAsks v.id ActionType.rollback v st)

  -- Rolling a flow back to a version that an AI made, or on an AI's behalf, changes no version and no flow and
  -- writes no audit event, whatever the policy and the role: it adds one pending request for approval and one
  -- publish record that waits for it.
  pub rollback-OnlyAsks :
      (st : Store) (f : Flow) (v : Version)
      → find_flow flow_id tenant_id st.flows ≡ some f
      → find (λ x. is_superseded x.state) (versions_of flow_id st.versions) ≡ some v
      → IsAi actor v
      → OnlyAsks v.id ActionType.rollback true st
          (rollback flow_id tenant_id request_id actor now st)
  unfolding rollback rollback_in
  rollback-OnlyAsks st f v g s h = rw (g, s) (rollback_found-OnlyAsks st v h)

  predicted :
      (valid require : Bool) (a b : Attempt)
      → a.status ≡ pending_approval
      → b.status ≡ published
      → Predicts
          (record {
            would_become = if require then pending_approval else published;
            require_approval = require;
            version_state_valid = valid;
          })
          (if not valid then err flow_version_state else if require then ok a else ok b)
  predicted false require a b p q = refl
  predicted true true a b p q = (refl, p)
  predicted true false a b p q = (refl, q)

  -- A dry run foretells the publication of a flow's version: it succeeds just if the dry run finds the version's
  -- state valid, and is published or waits for an approval as the dry run says.
  pub dry_run_publish-Predicts :
      (id : String) (st : Store)
      → Predicts
          (dry_run_publish flow_id tenant_id id actor st)
          (publish flow_id tenant_id request_id actor now id st)
  unfolding dry_run_publish publish publish_found pending_attempt
  dry_run_publish-Predicts id st = of_version (find_version_by_id id flow_id tenant_id st) refl
    where
      of_version :
          (o : Option Version)
          → find_version_by_id id flow_id tenant_id st ≡ o
          → Predicts
              (dry_run_publish flow_id tenant_id id actor st)
              (publish flow_id tenant_id request_id actor now id st)
      of_version none e = rw e refl
      of_version (some v) e = rw e (predicted (can_publish v.state) _ _ _ refl refl)
