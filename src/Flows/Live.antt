-- ===== src/Flows/Live.antt =====
-- What the runtime finds of a flow after the service's operations: the runtime reads the tables that the
-- service writes.
use manage_call_ai.Base.{
  ℕ, String, ◌≡◌, refl, ◌∙◌, ap, subst, Bool, true, false, ◌&&◌, List, [], ◌∷◌, find, map, Option,
  some, str_eq, Bool-cases, inl, inr, if_elim,
}
use manage_call_ai.Lifecycle.Types.{Version, ActionType, AuditAction}
use manage_call_ai.Lifecycle.Tables.{is_published, Trigger}
use manage_call_ai.Ivr.Runtime.Session.Tables.{
  ActiveFlowVersion, joined, version_of, joined_flow, find_active_flow_version,
}
use manage_call_ai.Ivr.Runtime.Session.Tables as Runtime
use manage_call_ai.Flows.Tables.{
  FlowStatus, Flow, Store, supersede_row, publish_row, activate, point_to, switch_version,
  rollback_target, rollback_to,
}
use manage_call_ai.Flows.Tables

abbrev pub is_active : FlowStatus → Bool
is_active FlowStatus.active = true
is_active _ = false

-- The rows as the runtime reads them.
abbrev pub runtime_flow : Flow → Runtime.Flow
runtime_flow f = record {
  id = f.id;
  tenant_id = f.tenant_id;
  active = is_active f.status;
  active_version_id = f.active_version_id;
}

abbrev pub runtime_version : Version → Runtime.FlowVersion
runtime_version v = record {
  id = v.id;
  published = is_published v.state;
  definition = v.definition;
}

abbrev pub runtime_store : Store → Runtime.Store
runtime_store st = record {
  flows = map runtime_flow st.flows;
  flow_versions = map runtime_version st.versions;
  sessions = [];
  session_steps = [];
}

-- What a call of the flow starts in.
abbrev pub live_version : String → Store → Option ActiveFlowVersion
live_version flow_id st = find_active_flow_version flow_id (runtime_store st)

abbrev pub served : Flow → Version → ActiveFlowVersion
served f v = record {
  tenant_id = f.tenant_id;
  flow_id = f.id;
  flow_version_id = v.id;
  graph_json = v.definition;
}

find-map {ℓ κ} :
    {A : Type ℓ} {B : Type κ} (p : A → Bool) (q : B → Bool) (f : A → B)
    (keeps : (x : A) → q (f x) ≡ p x) (xs : List A) (x : A)
    → find p xs ≡ some x
    → find q (map f xs) ≡ some (f x)
find-map p q f keeps [] x h = cc
find-map p q f keeps (y ∷ ys) x h = elim (Bool-cases (p y)) [
  | inl e ↦
      let same : some y ≡ some x = rw e at h in
      let y-x : y ≡ x = cc in rw (keeps y, e) (ap (λ z. some (f z)) y-x)
  | inr ne ↦ rw (keeps y, ne) (find-map p q f keeps ys x (rw ne at h))
]

-- Flows and versions are found by their ids.
abbrev pub HasFlow : String → Store → Flow → Type 0
HasFlow id st f = find (λ x. str_eq x.id id) st.flows ≡ some f

abbrev pub HasVersion : String → Store → Version → Type 0
HasVersion id st v = find (λ x. str_eq x.id id) st.versions ≡ some v

pub live_version_lem :
    (flow_id id : String) (st : Store) (f : Flow) (v : Version)
    → HasFlow flow_id st f
    → HasVersion id st v
    → f.active_version_id ≡ some id
    → live_version flow_id st ≡ joined (runtime_flow f) (some (runtime_version v))
unfolding find_active_flow_version joined_flow version_of
live_version_lem flow_id id st f v hf hv a =
    let flow =
      find-map (λ x. str_eq x.id flow_id) (λ x. str_eq x.id flow_id) runtime_flow (λ x. refl)
        st.flows f hf in
    let version =
      find-map (λ x. str_eq x.id id) (λ x. str_eq x.id id) runtime_version (λ x. refl) st.versions v
        hv in
    rw (flow, a, version) refl

-- Maps that keep the ids of versions and flows.
pub found-version :
    (h : Version → Version) (keeps : (x : Version) → (h x).id ≡ x.id) (id : String)
    (vs : List Version) (v : Version)
    → find (λ x. str_eq x.id id) vs ≡ some v
    → find (λ x. str_eq x.id id) (map h vs) ≡ some (h v)
found-version h keeps id vs v f =
    find-map (λ x. str_eq x.id id) (λ x. str_eq x.id id) h (λ x. ap (λ i. str_eq i id) (keeps x)) vs
      v f

found-flow :
    (g : Flow → Flow) (keeps : (x : Flow) → (g x).id ≡ x.id) (id : String) (fs : List Flow)
    (f : Flow)
    → find (λ x. str_eq x.id id) fs ≡ some f
    → find (λ x. str_eq x.id id) (map g fs) ≡ some (g f)
found-flow g keeps id fs f h =
    find-map (λ x. str_eq x.id id) (λ x. str_eq x.id id) g (λ x. ap (λ i. str_eq i id) (keeps x)) fs
      f h

publish_row-id : (id : String) (now : ℕ) (x : Version) → (publish_row id now x).id ≡ x.id
unfolding publish_row
publish_row-id id now x = if_elim (λ (y : Version). y.id ≡ x.id) (str_eq x.id id) refl refl

supersede_row-id : (flow_id : String) (x : Version) → (supersede_row flow_id x).id ≡ x.id
unfolding supersede_row
supersede_row-id flow_id x =
    if_elim (λ (y : Version). y.id ≡ x.id) (Tables.of_flow flow_id x && is_published x.state) refl
      refl

-- A published row serves its own definition.
joined-published :
    (f : Flow) (id : String) (now : ℕ) (flow_id : String) (v : Version) (g : Flow)
    → str_eq v.id id ≡ true
    → g.id ≡ f.id
    → g.tenant_id ≡ f.tenant_id
    → is_active g.status ≡ true
    → joined
        (runtime_flow g)
        (some (runtime_version (publish_row id now (supersede_row flow_id v))))
      ≡ some (served f v)
unfolding joined publish_row supersede_row
joined-published f id now flow_id v g m e t a =
    elim (Bool-cases (Tables.of_flow flow_id v && is_published v.state)) [
      | inl p ↦ rw (p, m, a, e, t) refl
      | inr np ↦ rw (np, m, a, e, t) refl
    ]

pub find-holds {ℓ} :
    {A : Type ℓ} (p : A → Bool) (xs : List A) (x : A) → find p xs ≡ some x → p x ≡ true
find-holds p [] x h = cc
find-holds p (y ∷ ys) x h = elim (Bool-cases (p y)) [
  | inl e ↦
      let same : some y ≡ some x = rw e at h in
      let y-x : y ≡ x = cc in subst (λ z. p z ≡ true) y-x e
  | inr ne ↦ find-holds p ys x (rw ne at h)
]

switched :
    (flow_id : String) (now : ℕ) (point : Flow → Flow) (id : String) (st st' : Store) (f : Flow)
    (v : Version)
    → ((x : Flow) → (point x).id ≡ x.id)
    → HasFlow flow_id st f
    → HasVersion id st v
    → st'.flows ≡ map point st.flows
    → st'.versions ≡ map (publish_row id now) (map (supersede_row flow_id) st.versions)
    → (point f).active_version_id ≡ some id
    → (point f).tenant_id ≡ f.tenant_id
    → is_active (point f).status ≡ true
    → live_version flow_id st' ≡ some (served f v)
switched flow_id now point id st st' f v keeps hf hv ef ev p t a =
    let flow = found-flow point keeps flow_id st.flows f hf in
    let version =
      found-version (publish_row id now) (publish_row-id id now) id
        (map (supersede_row flow_id) st.versions) (supersede_row flow_id v)
        (found-version (supersede_row flow_id) (supersede_row-id flow_id) id st.versions v hv) in
    live_version_lem flow_id id st' (point f) (publish_row id now (supersede_row flow_id v))
      (rw ef flow) (rw ev version) p
    ∙ joined-published f id now flow_id v (point f)
        (find-holds (λ x. str_eq x.id id) st.versions v hv) (keeps f) t a

activate-id : (id flow_id : String) (x : Flow) → (activate id flow_id x).id ≡ x.id
unfolding activate
activate-id id flow_id x = if_elim (λ (y : Flow). y.id ≡ x.id) (str_eq x.id flow_id) refl refl

point_to-id : (id flow_id : String) (x : Flow) → (point_to id flow_id x).id ≡ x.id
unfolding point_to
point_to-id id flow_id x = if_elim (λ (y : Flow). y.id ≡ x.id) (str_eq x.id flow_id) refl refl

-- After the statements of `publish`, the runtime finds the version.
pub live_version-publish :
    (flow_id tenant_id : String) (t : Trigger) (now : ℕ) (id : String) (st : Store) (f : Flow)
    (v : Version)
    → HasFlow flow_id st f
    → HasVersion id st v
    → live_version flow_id (Tables.publish flow_id tenant_id t now id st) ≡ some (served f v)
unfolding Tables.publish switch_version activate
live_version-publish flow_id tenant_id t now id st f v hf hv =
    let m : str_eq f.id flow_id ≡ true = find-holds (λ x. str_eq x.id flow_id) st.flows f hf in
    switched flow_id now (activate id flow_id) id st (Tables.publish flow_id tenant_id t now id st)
      f v (activate-id id flow_id) hf hv refl refl (rw m refl) (rw m refl) (rw m refl)

-- After the statements of `rollback` to a version, the runtime finds it, if the flow is active.
pub live_version-rollback_to :
    (flow_id tenant_id : String) (t : Trigger) (now : ℕ) (st st' : Store) (f : Flow) (v : Version)
    → HasFlow flow_id st f
    → HasVersion v.id st v
    → is_active f.status ≡ true
    → rollback_to flow_id tenant_id t now (some v) st ≡ some st'
    → live_version flow_id st' ≡ some (served f v)
unfolding rollback_to switch_version point_to
live_version-rollback_to flow_id tenant_id t now st st' f v hf hv a h =
    let m : str_eq f.id flow_id ≡ true = find-holds (λ x. str_eq x.id flow_id) st.flows f hf in
    let made =
      switch_version flow_id tenant_id t now (point_to v.id flow_id) ActionType.rollback
        AuditAction.rolled_back v.id st in
    let same : some made ≡ some st' = h in
    let made-st' : made ≡ st' = cc in
    subst (λ x. live_version flow_id x ≡ some (served f v)) made-st'
      (switched flow_id now (point_to v.id flow_id) v.id st made f v (point_to-id v.id flow_id) hf
        hv refl refl (rw m refl) (rw m refl) (rw m a))
