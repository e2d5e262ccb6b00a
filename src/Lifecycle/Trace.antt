-- ===== src/Lifecycle/Trace.antt =====
-- Every operation of the lifecycle and of the approvals, in any order.
use mathlib.Core.List.{Memᴰ}
use manage_call_ai.Base.{
  ℕ, String, ◌≡◌, refl, sym, ◌∙◌, subst, Bool, true, false, not, List, [], ◌∷◌, All, Option, none,
  some, eq_iff, if_elim,
}
use manage_call_ai.Json.{Props, or_default}
use manage_call_ai.Lifecycle.Types.{
  Version, Object, ActionType, RequestStatus, ApprovalRequest, PublishRecord, PublishPolicy, Store,
  version_not_found, rollback_not_available, Result, ok, err,
}
use manage_call_ai.Lifecycle.Tables.{
  is_published, publish_version, rollback_version, create_approval_request,
  store_pending_publish_record, policy_requires_approval,
}
use manage_call_ai.Lifecycle.Service.{
  Actor, Attempt, should_require_approval, can_publish, create_version, validate, simulate,
  published_or, pending_attempt, trigger_of, publish_found, publish, rollback_found, rollback,
}
use manage_call_ai.Lifecycle.Approval.{
  Decision, is_pending, find_request, find_associated_publish_record, mark_decided,
  update_publish_record_result, write_audit_event, published, perform, approve_record,
  approve_found, approve, reject_record, reject_found, reject, finish,
}
use manage_call_ai.Lifecycle.Approval
use manage_call_ai.Lifecycle.Active.{
  find_object, names, names_active, ExistsObject, IsAgreed, IsConsistent,
  publish_version-IsConsistent, rollback_version-IsConsistent,
}
use manage_call_ai.Lifecycle.Marks.{
  Keeps, validate-Keeps, simulate-Keeps, create_version-IsConsistent,
}

pub data Step (st : Store) : Store → Type 0 where
  create :
      (object_id tenant_id id : String) (definition : Props) (by : Option String)
      (metadata : Option Props)
      → ExistsObject (find_object object_id tenant_id st.objects)
      → names_active (find_object object_id tenant_id st.objects) id ≡ false
      → Step st (create_version object_id tenant_id id definition by metadata st)
  validated :
      (object_id tenant_id id : String) (validator : Version → Bool) (now : ℕ) (st' : Store)
      → validate object_id tenant_id validator id now st ≡ ok st'
      → Step st st'
  simulated :
      (object_id tenant_id id : String) (simulator : Version → Bool) (now : ℕ) (st' : Store)
      → simulate object_id tenant_id simulator id now st ≡ ok st'
      → Step st st'
  publishes :
      (object_id tenant_id request_id id : String) (actor : Actor) (now : ℕ) (a : Attempt)
      → publish object_id tenant_id request_id actor now id st ≡ ok a
      → Step st a.store
  rolls_back :
      (object_id tenant_id request_id : String) (actor : Actor) (now : ℕ) (a : Attempt)
      → rollback object_id tenant_id request_id actor now st ≡ ok a
      → Step st a.store
  approves : (id tenant_id by : String) (now : ℕ) → Step st (approve id tenant_id by now st).store
  rejects : (id tenant_id by : String) (now : ℕ) → Step st (reject id tenant_id by now st).store
  set_policies :
      (policies : List PublishPolicy) → Step st (record st { publish_policies = policies })

abbrev KeepsAttempt : Result Attempt → Type 0
KeepsAttempt (ok a) = IsConsistent a.store
KeepsAttempt (err e) = Unit

published_or-Keeps :
    (o : Option Store) (e : Result Attempt)
    → ((st : Store) → o ≡ some st → IsConsistent st)
    → KeepsAttempt e
    → KeepsAttempt (published_or o e)
published_or-Keeps none e h k = k
published_or-Keeps (some st) e h k = h st refl

module _ (object_id tenant_id request_id : String) (actor : Actor) (now : ℕ) (st : Store)
    (h : IsConsistent st) where
  publish-Keeps :
      (id : String) (o : Option Version)
      → KeepsAttempt (publish_found object_id tenant_id request_id actor now id o st)
  unfolding publish_found pending_attempt create_approval_request store_pending_publish_record
  publish-Keeps id none = tt
  publish-Keeps id (some v) = if_elim KeepsAttempt (not (can_publish v.state)) tt (
      if_elim KeepsAttempt
        (should_require_approval (policy_requires_approval tenant_id st) actor v.metadata) h
        (published_or-Keeps
          (publish_version object_id tenant_id
            (trigger_of object_id tenant_id ActionType.publish actor v) now id st)
          (err version_not_found)
          (λ st' e. publish_version-IsConsistent object_id tenant_id _ now id st st' e h) tt))

  rollback-Keeps :
      (o : Option Version)
      → KeepsAttempt (rollback_found object_id tenant_id request_id actor now o st)
  unfolding rollback_found pending_attempt create_approval_request store_pending_publish_record
  rollback-Keeps none = tt
  rollback-Keeps (some v) =
      if_elim KeepsAttempt
        (should_require_approval (policy_requires_approval tenant_id st) actor v.metadata) h
        (published_or-Keeps
          (rollback_version object_id tenant_id
            (trigger_of object_id tenant_id ActionType.rollback actor v) now st)
          (err rollback_not_available)
          (λ st' e. rollback_version-IsConsistent object_id tenant_id _ now st st' e h) tt)

abbrev KeepsDecision : Decision → Type 0
KeepsDecision d = IsConsistent d.store

module _ (id tenant_id by : String) (now : ℕ) where
  approved-Keeps :
      (r : ApprovalRequest) (p : PublishRecord) (action : ActionType) (st : Store)
      → IsConsistent st
      → KeepsDecision (perform id tenant_id by now r p action st)
  unfolding perform published finish write_audit_event update_publish_record_result
  approved-Keeps r p ActionType.publish st h =
      of_store (publish_version p.object_id tenant_id _ now p.version_id st) refl
    where
      of_store :
          (o : Option Store)
          → publish_version p.object_id tenant_id
              (Approval.trigger_of id tenant_id by now r)
              now
              p.version_id
              st
            ≡ o
          → KeepsDecision (published id tenant_id by now r st o)
      of_store none e = h
      of_store (some st') e =
          publish_version-IsConsistent p.object_id tenant_id _ now p.version_id st st' e h
  approved-Keeps r p ActionType.rollback st h =
      of_store (rollback_version p.object_id tenant_id _ now st) refl
    where
      of_store :
          (o : Option Store)
          → rollback_version p.object_id tenant_id
              (Approval.trigger_of id tenant_id by now r)
              now
              st
            ≡ o
          → IsConsistent (or_default o st)
      of_store none e = h
      of_store (some st') e = rollback_version-IsConsistent p.object_id tenant_id _ now st st' e h

  approve-Keeps : (st : Store) → IsConsistent st → KeepsDecision (approve id tenant_id by now st)
  unfolding approve approve_found approve_record mark_decided
  approve-Keeps st h = of_request (find_request id tenant_id st)
    where
      of_record :
          (r : ApprovalRequest) (o : Option PublishRecord)
          → KeepsDecision (approve_record id tenant_id by now r o st)
      of_record r none = h
      of_record r (some p) = approved-Keeps r p p.action_type _ h

      of_request :
          (o : Option ApprovalRequest) → KeepsDecision (approve_found id tenant_id by now o st)
      of_request none = h
      of_request (some r) = if_elim KeepsDecision (is_pending r.status) (of_record r _) h

  reject-Keeps : (st : Store) → IsConsistent st → KeepsDecision (reject id tenant_id by now st)
  unfolding reject reject_found reject_record mark_decided write_audit_event
      update_publish_record_result
  reject-Keeps st h = of_request (find_request id tenant_id st)
    where
      of_record :
          (r : ApprovalRequest) (o : Option PublishRecord)
          → KeepsDecision (
              reject_record id tenant_id by now r o
                (mark_decided RequestStatus.rejected id tenant_id st))
      of_record r none = h
      of_record r (some p) = h

      of_request :
          (o : Option ApprovalRequest) → KeepsDecision (reject_found id tenant_id by now o st)
      of_request none = h
      of_request (some r) = if_elim KeepsDecision (is_pending r.status) (of_record r _) h

-- Every operation, an approval or a rejection that fails included, keeps this: the object of every version
-- exists, and names a version as its active one just if that version is published. An object has to
-- exist for a version of it to be created, and the new id must not be its active version's.
pub step-IsConsistent : (st st' : Store) → IsConsistent st → Step st st' → IsConsistent st'
unfolding validate simulate publish rollback
step-IsConsistent st st' h (Step.create object_id tenant_id id definition by metadata x fresh) =
    create_version-IsConsistent object_id tenant_id id definition by metadata st x fresh h
step-IsConsistent st st' h (Step.validated object_id tenant_id id validator now st'' e) =
    subst Keeps e (validate-Keeps id object_id tenant_id now validator _ st h)
step-IsConsistent st st' h (Step.simulated object_id tenant_id id simulator now st'' e) =
    subst Keeps e (simulate-Keeps id object_id tenant_id now simulator _ st h)
step-IsConsistent st st' h (Step.publishes object_id tenant_id request_id id actor now a e) =
    subst KeepsAttempt e (publish-Keeps object_id tenant_id request_id actor now st h id _)
step-IsConsistent st st' h (Step.rolls_back object_id tenant_id request_id actor now a e) =
    subst KeepsAttempt e (rollback-Keeps object_id tenant_id request_id actor now st h _)
step-IsConsistent st st' h (Step.approves id tenant_id by now) =
    approve-Keeps id tenant_id by now st h
step-IsConsistent st st' h (Step.rejects id tenant_id by now) =
    reject-Keeps id tenant_id by now st h
step-IsConsistent st st' h (Step.set_policies policies) = h

pub data Steps : Store → Store → Type 0 where
  stop : {st : Store} → Steps st st
  then : {st st' st'' : Store} → Step st st' → Steps st' st'' → Steps st st''

Steps-IsConsistent : {st st' : Store} → IsConsistent st → Steps st st' → IsConsistent st'
Steps-IsConsistent h Steps.stop = h
Steps-IsConsistent h (Steps.then s rest) = Steps-IsConsistent (step-IsConsistent _ _ h s) rest

All-Memᴰ : (P : Version → Type 0) (x : Version) (xs : List Version) → All P xs → Memᴰ x xs → P x
All-Memᴰ P x [] h m = elim m [ ]
All-Memᴰ P x (y ∷ xs) h (Memᴰ.head e) = subst P (sym e) h.0
All-Memᴰ P x (y ∷ xs) h (Memᴰ.tail m) = All-Memᴰ P x xs h.1 m

names_unique :
    (o : Option Object) (x y : String) → names_active o x ≡ true → names_active o y ≡ true → x ≡ y
names_unique none x y h k = cc
names_unique (some o) x y h k = named o.active_version_id h k
  where
    named : (a : Option String) → names a x ≡ true → names a y ≡ true → x ≡ y
    named none h' k' = cc
    named (some a) h' k' = sym ((eq_iff a x).0 h') ∙ (eq_iff a y).0 k'

-- Whatever operations follow a store in which versions and objects agree, an object has at most one
-- published version: two published versions of one object have one id.
pub Steps-published_unique :
    (st st' : Store) (v w : Version)
    → IsConsistent st
    → Steps st st'
    → Memᴰ v st'.versions
    → Memᴰ w st'.versions
    → is_published v.state ≡ true
    → is_published w.state ≡ true
    → v.object_id ≡ w.object_id
    → v.tenant_id ≡ w.tenant_id
    → v.id ≡ w.id
Steps-published_unique st st' v w h s mv mw pv pw o t =
    let k = Steps-IsConsistent h s in
    let av = All-Memᴰ (IsAgreed st'.objects) v st'.versions k mv in
    let aw = All-Memᴰ (IsAgreed st'.objects) w st'.versions k mw in
    let named_w : names_active (find_object v.object_id v.tenant_id st'.objects) w.id ≡ true =
      rw (o, t) (sym aw.active ∙ pw) in
    names_unique _ v.id w.id (sym av.active ∙ pv) named_w
