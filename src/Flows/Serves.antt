-- ===== src/Flows/Serves.antt =====
-- The operations of the flow service and the calls that the runtime starts afterwards.
use manage_call_ai.Base.{
  ℕ, String, ◌≡◌, refl, ◌∙◌, ap, subst, true, ◌&&◌, find, any, keep, if_elim, Option, none, some,
  if◌then◌else◌, arith, str_eq, eq_refl, Bool-cases, Option-cases, inl, inr,
}
use manage_call_ai.Lifecycle.Types.{Version, ActionType}
use manage_call_ai.Lifecycle.Tables.{is_superseded, sort_desc, Trigger}
use manage_call_ai.Lifecycle.Service.{
  Actor, published, pending_approval, should_require_approval, can_publish,
}
use manage_call_ai.Ivr.Runtime.Session.Tables.{joined}
use manage_call_ai.Ivr.Runtime.Directory.{Directory}
use manage_call_ai.Flows.Tables.{
  Flow, Store, is_flow, of_flow, find_version_by_id, find_flow, versions_of, is_row, validated_row,
  mark_version_validated, store_validation_result, policy_requires_approval, rollback_target,
  rollback_to,
}
use manage_call_ai.Flows.Tables
use manage_call_ai.Flows.Service.{
  Attempt, ok, err, flow_version_not_found, flow_version_state, flow_not_found, no_rollback_target,
  is_passed, validation_outcome, validate, validate_found, pending_attempt, trigger_of,
  publish_found, publish, published_or, rollback_found, rollback_in, rollback,
}
use manage_call_ai.Flows.Live.{
  HasFlow, HasVersion, is_active, live_version, served, live_version-publish,
  live_version-rollback_to, live_version_lem, found-version, find-holds, runtime_flow,
  runtime_version,
}

ok-same {ℓ} : {A : Type ℓ} (a b : A) → ok a ≡ ok b → a ≡ b
ok-same a b h = cc

module _ (flow_id tenant_id request_id : String) (actor : Actor) (now : ℕ) where
  published_found :
      (id : String) (st : Store) (f : Flow) (v w : Version) (a : Attempt)
      → HasFlow flow_id st f
      → HasVersion id st v
      → publish_found flow_id tenant_id request_id actor now id (some w) st ≡ ok a
      → a.status ≡ published
      → live_version flow_id a.store ≡ some (served f v)
  unfolding publish_found pending_attempt
  published_found id st f v w a hf hv h s = elim (Bool-cases (can_publish w.state)) [
    | inr ne ↦ let x : err flow_version_state ≡ ok a = rw ne at h in cc
    | inl e ↦
        elim (Bool-cases
          (should_require_approval (policy_requires_approval tenant_id st) actor w.metadata)) [
            | inl r ↦
                let x : ok (
                      pending_attempt flow_id tenant_id request_id actor now id ActionType.publish w
                        st)
                    ≡ ok a =
                  rw (e, r) at h in
                let y = ok-same _ a x in
                let z : pending_approval ≡ published = ap (λ (b : Attempt). b.status) y ∙ s in cc
            | inr r ↦
                let t = trigger_of flow_id tenant_id request_id actor now ActionType.publish w in
                let made : Attempt = record {
                  status = published;
                  store = Tables.publish flow_id tenant_id t now id st;
                } in
                let x : ok made ≡ ok a = rw (e, r) at h in
                subst (λ (b : Attempt). live_version flow_id b.store ≡ some (served f v))
                  (ok-same made a x) (live_version-publish flow_id tenant_id t now id st f v hf hv)
          ]
  ]

  -- If flows and versions are found by their ids, then after a publication that took effect the runtime starts
  -- calls of the flow in the version that was published.
  pub publish-Serves :
      (id : String) (st : Store) (f : Flow) (v : Version) (a : Attempt)
      → HasFlow flow_id st f
      → HasVersion id st v
      → publish flow_id tenant_id request_id actor now id st ≡ ok a
      → a.status ≡ published
      → live_version flow_id a.store ≡ some (served f v)
  unfolding publish publish_found
  publish-Serves id st f v a hf hv h s =
      elim (Option-cases (find_version_by_id id flow_id tenant_id st)) [
        | inl e ↦ let x : err flow_version_not_found ≡ ok a = rw e at h in cc
        | inr (w, e) ↦ published_found id st f v w a hf hv (rw e at h) s
      ]

  -- The superseded version of the flow with the highest number.
  abbrev pub last_superseded : Store → Option Version
  last_superseded st =
      find (λ x. true)
        (sort_desc (keep (λ x. of_flow flow_id x && is_superseded x.state) st.versions))

  rolled_back_found :
      (st : Store) (f : Flow) (v w : Version) (a : Attempt)
      → HasFlow flow_id st f
      → HasVersion v.id st v
      → is_active f.status ≡ true
      → last_superseded st ≡ some v
      → rollback_found flow_id tenant_id request_id actor now (some w) st ≡ ok a
      → a.status ≡ published
      → live_version flow_id a.store ≡ some (served f v)
  unfolding rollback_found pending_attempt Tables.rollback rollback_target
  rolled_back_found st f v w a hf hv act tg h s =
      elim (Bool-cases
        (should_require_approval (policy_requires_approval tenant_id st) actor w.metadata)) [
          | inl r ↦
              let x : ok (
                    pending_attempt flow_id tenant_id request_id actor now w.id ActionType.rollback
                      w st)
                  ≡ ok a =
                rw r at h in
              let y = ok-same _ a x in
              let z : pending_approval ≡ published = ap (λ (b : Attempt). b.status) y ∙ s in cc
          | inr r ↦
              let t = trigger_of flow_id tenant_id request_id actor now ActionType.rollback w in
              let x : published_or flow_id tenant_id request_id actor now
                    (rollback_to flow_id tenant_id t now (some v) st)
                  ≡ ok a =
                rw (r, tg) at h in
              finish t (rollback_to flow_id tenant_id t now (some v) st) refl x
        ]
    where
      finish :
          (t : Trigger) (o : Option Store)
          → rollback_to flow_id tenant_id t now (some v) st ≡ o
          → published_or flow_id tenant_id request_id actor now o ≡ ok a
          → live_version flow_id a.store ≡ some (served f v)
      finish t none e x = cc
      finish t (some st') e x =
          let made : Attempt = record { status = published; store = st' } in
          subst (λ (b : Attempt). live_version flow_id b.store ≡ some (served f v))
            (ok-same made a x)
            (live_version-rollback_to flow_id tenant_id t now st st' f v hf hv act e)

  -- If flows and versions are found by their ids and the flow is active, then after a rollback that took effect
  -- the runtime starts calls of the flow in the superseded version with the highest number.
  pub rollback-Serves :
      (st : Store) (f : Flow) (v : Version) (a : Attempt)
      → HasFlow flow_id st f
      → HasVersion v.id st v
      → is_active f.status ≡ true
      → last_superseded st ≡ some v
      → rollback flow_id tenant_id request_id actor now st ≡ ok a
      → a.status ≡ published
      → live_version flow_id a.store ≡ some (served f v)
  unfolding rollback rollback_in rollback_found
  rollback-Serves st f v a hf hv act tg h s =
      elim (Option-cases (find_flow flow_id tenant_id st.flows)) [
        | inl e ↦ let x : err flow_not_found ≡ ok a = rw e at h in cc
        | inr (g, e) ↦
            elim (Option-cases
              (find (λ x. is_superseded x.state) (versions_of flow_id st.versions))) [
                | inl n ↦ let x : err no_rollback_target ≡ ok a = rw (e, n) at h in cc
                | inr (w, n) ↦ rolled_back_found st f v w a hf hv act tg (rw (e, n) at h) s
              ]
      ]

module _ (flow_id tenant_id : String) where
  -- The rows that the validation marks.
  found-is_row :
      (id : String) (st : Store) (v : Version)
      → str_eq v.id id ≡ true
      → find_version_by_id id flow_id tenant_id st ≡ some v
      → v.tenant_id ≡ tenant_id
      → is_row id flow_id tenant_id (store_validation_result id flow_id tenant_id true st) v ≡ true
  unfolding is_row store_validation_result find_version_by_id
  found-is_row id st v m h t = elim (Bool-cases (any (is_flow flow_id tenant_id) st.flows)) [
    | inr ne ↦ let x : none ≡ some v = rw ne at h in cc
    | inl e ↦
        let y : find (λ w. str_eq w.id id && of_flow flow_id w) st.versions ≡ some v = rw e at h in
        let z = find-holds (λ w. str_eq w.id id && of_flow flow_id w) st.versions v y in
        rw (e, t, eq_refl) (ground (arith, m, z))
  ]

  validated-id :
      (id : String) (st : Store) (now : ℕ) (y : Version)
      → (if is_row id flow_id tenant_id st y
          then validated_row id flow_id tenant_id now y
          else y).id
        ≡ y.id
  unfolding validated_row
  validated-id id st now y =
      if_elim (λ (z : Version). z.id ≡ y.id) (is_row id flow_id tenant_id st y) refl refl

  joined-withdrawn :
      (f : Flow) (id : String) (now : ℕ) (v : Version)
      → joined (runtime_flow f) (some (runtime_version (validated_row id flow_id tenant_id now v)))
        ≡ none
  unfolding joined validated_row
  joined-withdrawn f id now v = ground arith

  -- If the flow and the version are found by their ids, the version is the tenant's and the flow's active one, and
  -- its validation passes, then after it the runtime has no version to start calls of the flow in: the version is
  -- no longer published, while the flow still points to it.
  pub validate-Withdraws :
      (dir : Directory) (id : String) (now : ℕ) (st st' : Store) (f : Flow) (v : Version)
      → HasFlow flow_id st f
      → HasVersion id st v
      → f.active_version_id ≡ some id
      → find_version_by_id id flow_id tenant_id st ≡ some v
      → v.tenant_id ≡ tenant_id
      → is_passed (validation_outcome dir tenant_id v.definition).status ≡ true
      → validate flow_id tenant_id dir id now st ≡ ok st'
      → live_version flow_id st' ≡ none
  unfolding validate validate_found mark_version_validated store_validation_result
  validate-Withdraws dir id now st st' f v hf hv act found t p h =
      let checked = store_validation_result id flow_id tenant_id true st in
      let made = mark_version_validated id flow_id tenant_id now checked in
      let x : ok made ≡ ok st' = rw (found, p) at h in
      let row : is_row id flow_id tenant_id checked v ≡ true =
        found-is_row id st v (find-holds (λ y. str_eq y.id id) st.versions v hv) found t in
      let h' : Version → Version = λ y.
        if is_row id flow_id tenant_id checked y
        then validated_row id flow_id tenant_id now y
        else y in
      let version : HasVersion id made (h' v) =
        found-version h' (validated-id id checked now) id st.versions v hv in
      subst (λ s. live_version flow_id s ≡ none) (ok-same made st' x)
        (live_version_lem flow_id id made f (h' v) hf version act
          ∙ rw row (joined-withdrawn f id now v))
