-- ===== src/Lifecycle/Tests.antt =====
-- An object with a superseded, a published and a validated version, under the lifecycle.
use mathlib.Core.List.{Memᴰ}
use manage_call_ai.Base.{ℕ, String, ◌≡◌, refl, true, inl, [], ◌∷◌, none, some, find}
use manage_call_ai.Json.{Props}
use manage_call_ai.Lifecycle.Types.{
  State, Version, Object, ActorType, ActionType, Role, Store, Result, ok, err,
}
use manage_call_ai.Lifecycle.Tables.{
  is_superseded, is_published, find_version_by_id, find_versions_by_object,
}
use manage_call_ai.Lifecycle.Service.{
  Actor, Attempt, can_publish, publish, rollback, dry_run_publish,
}
use manage_call_ai.Lifecycle.Active.{IsConsistent}
use manage_call_ai.Lifecycle.Gate.{
  IsAi, OnlyRequests, Foretells, publish-OnlyRequests, rollback-OnlyRequests,
  dry_run_publish-Foretells,
}
use manage_call_ai.Lifecycle.Trace.{Step, Steps, step-IsConsistent, Steps-published_unique}
use manage_call_ai.Lifecycle.Lineage
use manage_call_ai.Lifecycle.Service
use manage_call_ai.Lifecycle.Tables

abbrev version : String → ℕ → State → Version
version id number state = record {
  id = id;
  tenant_id = "t";
  object_id = "site";
  version_number = number;
  state = state;
  definition = Props.end;
  created_by = none;
  validated_at = none;
  simulated_at = none;
  published_at = none;
  metadata = Props.end;
}

abbrev site : Object
site = record {
  id = "site";
  tenant_id = "t";
  active_version_id = some "v2";
  draft_version_id = some "v3";
}

abbrev sites : Store
sites = record {
  versions =
      version "v1" 1 State.superseded
      ∷ version "v2" 2 State.published
      ∷ version "v3" 3 State.validated
      ∷ [];
  objects = site ∷ [];
  publish_policies = [];
  approval_requests = [];
  publish_records = [];
  audit_events = [];
  validation_results = [];
  simulation_results = [];
}

abbrev admin : Actor
admin = record { id = "u1"; type = ActorType.user; role = some Role.platform_admin }

abbrev agent : Actor
agent = record { id = "mcp"; type = ActorType.ai_agent; role = some Role.platform_admin }

dry_run_publish-Foretells_example :
    Foretells
      (dry_run_publish "site" "t" "v3" admin sites)
      (publish "site" "t" "r1" admin 1700000000 "v3" sites)
dry_run_publish-Foretells_example =
    dry_run_publish-Foretells "site" "t" "r1" admin 1700000000 "v3" sites

agent-IsAi : (v : Version) → IsAi agent v
agent-IsAi v = inl refl

v3_found : find_version_by_id "v3" "site" "t" sites.versions ≡ some (version "v3" 3 State.validated)
unfolding Tables.of_object Tables.is_row Tables.find_version_by_id Tables.insert_desc
    Tables.sort_desc Tables.find_versions_by_object Tables.max_version_number
    Tables.next_version_number Tables.can_validate Tables.can_simulate Tables.mark_validated_row
    Tables.mark_simulated_row Tables.publish_row Tables.retire_row Tables.is_object
    Tables.set_active Tables.set_draft Tables.publish_record Tables.audit_event
    Tables.switch_version Tables.publish_found Tables.publish_version Tables.rollback_target
    Tables.rollback_to Tables.rollback_version Tables.create_approval_request
    Tables.store_pending_publish_record Tables.policy_requires Tables.policy_requires_approval
    Service.should_require_approval Service.can_publish Service.approval_metadata
    Service.create_version Service.check_result Service.mark_version_validated
    Service.mark_version_simulated Service.validate_found Service.validate Service.simulate_found
    Service.simulate Service.dry_run_publish Service.pending_attempt Service.trigger_of
    Service.publish_found Service.publish Service.rollback_found Service.rollback Lineage.is_true
    Lineage.has_actor_type Lineage.is_ai_lineage_record Lineage.lineage_of Lineage.read_ai_lineage
v3_found = refl

publish-OnlyRequests_example :
    OnlyRequests "site" "t" "r1" "v3" ActionType.publish agent
      (can_publish State.validated)
      sites
      (publish "site" "t" "r1" agent 1700000000 "v3" sites)
publish-OnlyRequests_example =
    publish-OnlyRequests "site" "t" "r1" agent 1700000000 "v3" sites
      (version "v3" 3 State.validated) v3_found (agent-IsAi (version "v3" 3 State.validated))

v1_restored :
    find (λ x. is_superseded x.state) (find_versions_by_object "site" "t" sites.versions)
    ≡ some (version "v1" 1 State.superseded)
unfolding Tables.of_object Tables.is_row Tables.find_version_by_id Tables.insert_desc
    Tables.sort_desc Tables.find_versions_by_object Tables.max_version_number
    Tables.next_version_number Tables.can_validate Tables.can_simulate Tables.mark_validated_row
    Tables.mark_simulated_row Tables.publish_row Tables.retire_row Tables.is_object
    Tables.set_active Tables.set_draft Tables.publish_record Tables.audit_event
    Tables.switch_version Tables.publish_found Tables.publish_version Tables.rollback_target
    Tables.rollback_to Tables.rollback_version Tables.create_approval_request
    Tables.store_pending_publish_record Tables.policy_requires Tables.policy_requires_approval
    Service.should_require_approval Service.can_publish Service.approval_metadata
    Service.create_version Service.check_result Service.mark_version_validated
    Service.mark_version_simulated Service.validate_found Service.validate Service.simulate_found
    Service.simulate Service.dry_run_publish Service.pending_attempt Service.trigger_of
    Service.publish_found Service.publish Service.rollback_found Service.rollback Lineage.is_true
    Lineage.has_actor_type Lineage.is_ai_lineage_record Lineage.lineage_of Lineage.read_ai_lineage
v1_restored = refl

rollback-OnlyRequests_example :
    OnlyRequests "site" "t" "r1" "v1" ActionType.rollback agent true sites
      (rollback "site" "t" "r1" agent 1700000000 sites)
rollback-OnlyRequests_example =
    rollback-OnlyRequests "site" "t" "r1" agent 1700000000 sites (version "v1" 1 State.superseded)
      v1_restored (agent-IsAi (version "v1" 1 State.superseded))

sites-IsConsistent : IsConsistent sites
unfolding Tables.of_object Tables.is_row Tables.find_version_by_id Tables.insert_desc
    Tables.sort_desc Tables.find_versions_by_object Tables.max_version_number
    Tables.next_version_number Tables.can_validate Tables.can_simulate Tables.mark_validated_row
    Tables.mark_simulated_row Tables.publish_row Tables.retire_row Tables.is_object
    Tables.set_active Tables.set_draft Tables.publish_record Tables.audit_event
    Tables.switch_version Tables.publish_found Tables.publish_version Tables.rollback_target
    Tables.rollback_to Tables.rollback_version Tables.create_approval_request
    Tables.store_pending_publish_record Tables.policy_requires Tables.policy_requires_approval
    Service.should_require_approval Service.can_publish Service.approval_metadata
    Service.create_version Service.check_result Service.mark_version_validated
    Service.mark_version_simulated Service.validate_found Service.validate Service.simulate_found
    Service.simulate Service.dry_run_publish Service.pending_attempt Service.trigger_of
    Service.publish_found Service.publish Service.rollback_found Service.rollback Lineage.is_true
    Lineage.has_actor_type Lineage.is_ai_lineage_record Lineage.lineage_of Lineage.read_ai_lineage
sites-IsConsistent = (
  record { object = tt; active = refl },
  (record { object = tt; active = refl }, (record { object = tt; active = refl }, tt)),
)

abbrev store_of : Result Attempt → Store
store_of (ok a) = a.store
store_of (err e) = sites

abbrev published : Result Attempt
published = publish "site" "t" "r1" admin 1700000000 "v3" sites

abbrev IsOk : Result Attempt → Type 0
IsOk (ok a) = Unit
IsOk (err e) = ⊥

publishes : (r : Result Attempt) → published ≡ r → IsOk r → Step sites (store_of r)
publishes (ok a) e h = Step.publishes "site" "t" "r1" "v3" admin 1700000000 a e
publishes (err e') e h = absurd h

published-IsOk : IsOk published
unfolding Tables.of_object Tables.is_row Tables.find_version_by_id Tables.insert_desc
    Tables.sort_desc Tables.find_versions_by_object Tables.max_version_number
    Tables.next_version_number Tables.can_validate Tables.can_simulate Tables.mark_validated_row
    Tables.mark_simulated_row Tables.publish_row Tables.retire_row Tables.is_object
    Tables.set_active Tables.set_draft Tables.publish_record Tables.audit_event
    Tables.switch_version Tables.publish_found Tables.publish_version Tables.rollback_target
    Tables.rollback_to Tables.rollback_version Tables.create_approval_request
    Tables.store_pending_publish_record Tables.policy_requires Tables.policy_requires_approval
    Service.should_require_approval Service.can_publish Service.approval_metadata
    Service.create_version Service.check_result Service.mark_version_validated
    Service.mark_version_simulated Service.validate_found Service.validate Service.simulate_found
    Service.simulate Service.dry_run_publish Service.pending_attempt Service.trigger_of
    Service.publish_found Service.publish Service.rollback_found Service.rollback Lineage.is_true
    Lineage.has_actor_type Lineage.is_ai_lineage_record Lineage.lineage_of Lineage.read_ai_lineage
published-IsOk = tt

step-IsConsistent_example : IsConsistent (store_of published)
step-IsConsistent_example =
    step-IsConsistent sites (store_of published) sites-IsConsistent
      (publishes published refl published-IsOk)

abbrev v3_published : Version
v3_published = record (version "v3" 3 State.published) { published_at = some 1700000000 }

v3_stored : Memᴰ v3_published (store_of published).versions
unfolding Tables.of_object Tables.is_row Tables.find_version_by_id Tables.insert_desc
    Tables.sort_desc Tables.find_versions_by_object Tables.max_version_number
    Tables.next_version_number Tables.can_validate Tables.can_simulate Tables.mark_validated_row
    Tables.mark_simulated_row Tables.publish_row Tables.retire_row Tables.is_object
    Tables.set_active Tables.set_draft Tables.publish_record Tables.audit_event
    Tables.switch_version Tables.publish_found Tables.publish_version Tables.rollback_target
    Tables.rollback_to Tables.rollback_version Tables.create_approval_request
    Tables.store_pending_publish_record Tables.policy_requires Tables.policy_requires_approval
    Service.should_require_approval Service.can_publish Service.approval_metadata
    Service.create_version Service.check_result Service.mark_version_validated
    Service.mark_version_simulated Service.validate_found Service.validate Service.simulate_found
    Service.simulate Service.dry_run_publish Service.pending_attempt Service.trigger_of
    Service.publish_found Service.publish Service.rollback_found Service.rollback Lineage.is_true
    Lineage.has_actor_type Lineage.is_ai_lineage_record Lineage.lineage_of Lineage.read_ai_lineage
v3_stored = Memᴰ.tail (Memᴰ.tail (Memᴰ.head refl))

Steps-published_unique_example : v3_published.id ≡ v3_published.id
Steps-published_unique_example =
    Steps-published_unique sites (store_of published) v3_published v3_published sites-IsConsistent
      (Steps.then (publishes published refl published-IsOk) Steps.stop) v3_stored v3_stored refl
      refl refl refl
