-- ===== src/Ivr/Runtime/Session/StartValid.antt =====
-- `startSession` keeps the tables consistent.
use manage_call_ai.Base.{
  ℕ, suc, String, ◌≡◌, refl, sym, ◌∙◌, subst, inl, inr, false, ◌&&◌, List, [], ◌∷◌, push, Option,
  none, some, arith, str_eq, eq_iff, eq_refl, has, All, Bool-cases, if_elim,
}
use manage_call_ai.Json.{obj}
use manage_call_ai.Ivr.Graph.{nodes_of, entry_of}
use manage_call_ai.Ivr.Validation.{passed, validate_ivr_graph}
use manage_call_ai.Ivr.Runtime.Types.{
  IvrRuntimeAction, IvrRuntimeSession, IvrRuntimeSessionStep, StartInput, Result, ok, err,
}
use manage_call_ai.Ivr.Runtime.Directory.{Directory}
use manage_call_ai.Ivr.Runtime.Turn.{Environment}
use manage_call_ai.Ivr.Runtime.Resolve.{Resolution, resolve_next_action}
use manage_call_ai.Ivr.Runtime.Resolve.Safe.{IsPlaced, Ends, node_of}
use manage_call_ai.Ivr.Runtime.Resolve.Calls.{IsRunError, IsErrorOf, resolve_next_action-Ends}
use manage_call_ai.Ivr.Runtime.Session.{
  FlowVersion, Flow, Store, ActiveFlowVersion, find_version, find_flow, joined, version_of,
  joined_flow, find_active_flow_version, find_session, create_session, set_state, completed_update,
  update_session_state, record_session_step, max_step_index, new_session, start_step, begin,
  started, start_input, start_active, start_session,
}
use manage_call_ai.Ivr.Runtime.Session.Rows.{
  session_ids, IsDistinct, IsDistinct-push, session_ids-push, session_ids-update_rows,
  All-update_rows, latest_step-push,
}
use manage_call_ai.Ivr.Runtime.Session.Numbering.{record_session_step-IsNumbered}
use manage_call_ai.Ivr.Runtime.Session.Valid.{
  IsSessionValid, IsValid, IsValidated, Keeps, other_session,
}
use manage_call_ai.Ivr.Runtime.Session.AdvanceValid.{IsErrorOf-IsExpected}

-- An active version is a stored one.
abbrev IsStored : List FlowVersion → Option ActiveFlowVersion → Type 0
IsStored versions none = Unit
IsStored versions (some a) =
    (v : FlowVersion) × (find_version a.flow_version_id versions ≡ some v)
    × (v.definition ≡ a.graph_json)

find_version-id :
    (id : String) (versions : List FlowVersion) (v : FlowVersion)
    → find_version id versions ≡ some v
    → v.id ≡ id
find_version-id id [] v h = cc
find_version-id id (w ∷ versions) v h = elim (Bool-cases (str_eq w.id id)) [
  | inl e ↦
      let same : some w ≡ some v = rw e at h in
      let w-v : w ≡ v = cc in subst (λ x. x.id ≡ id) w-v ((eq_iff w.id id).0 e)
  | inr ne ↦ find_version-id id versions v (rw ne at h)
]

joined-IsStored :
    (versions : List FlowVersion) (f : Flow) (id : Option String) (o : Option FlowVersion)
    → version_of versions id ≡ o
    → IsStored versions (joined f o)
unfolding joined version_of
joined-IsStored versions f none none e = tt
joined-IsStored versions f none (some v) e = cc
joined-IsStored versions f (some id) none e = tt
joined-IsStored versions f (some id) (some v) e =
    if_elim (IsStored versions) (f.active && v.published)
      (
        v,
        subst (λ x. find_version x versions ≡ some v) (sym (find_version-id id versions v e)) e,
        refl,
      )
      tt

active-IsStored :
    (id : String) (st : Store) → IsStored st.flow_versions (find_active_flow_version id st)
unfolding find_active_flow_version joined_flow
active-IsStored id st = of_flow (find_flow id st.flows)
  where
    of_flow : (o : Option Flow) → IsStored st.flow_versions (joined_flow st.flow_versions o)
    of_flow none = tt
    of_flow (some f) = joined-IsStored st.flow_versions f f.active_version_id _ refl

module _ (s : IvrRuntimeSession) where
  All-fresh :
      (P Q : IvrRuntimeSession → Type 0)
      → ((r : IvrRuntimeSession) → str_eq r.id s.id ≡ false → P r → Q r)
      → (rows : List IvrRuntimeSession) → has s.id (session_ids rows) ≡ false
      → All P rows
      → Q s
      → All Q (push rows s)
  All-fresh P Q keep [] f a q = (q, tt)
  All-fresh P Q keep (r ∷ rows) f a q =
      (keep r (ground (arith, f)) a.0, All-fresh P Q keep rows (ground (arith, f)) a.1 q)

  find_session-push :
      (rows : List IvrRuntimeSession)
      → has s.id (session_ids rows) ≡ false
      → find_session s.id (push rows s) ≡ some s
  find_session-push [] f = rw eq_refl refl
  find_session-push (r ∷ rows) f = ground (arith, find_session-push rows (ground (arith, f)), f)

  IsDistinct-push_row :
      (rows : List IvrRuntimeSession)
      → has s.id (session_ids rows) ≡ false
      → IsDistinct (session_ids rows)
      → IsDistinct (session_ids (push rows s))
  IsDistinct-push_row rows f d =
      subst IsDistinct (sym (session_ids-push rows s)) (IsDistinct-push (session_ids rows) s.id d f)

module _ (id : String) (t : StartInput) (active : ActiveFlowVersion) (now : ℕ) (st : Store)
    (valid : IsValid st) (fresh : has id (session_ids st.sessions) ≡ false) (v : FlowVersion)
    (version : find_version active.flow_version_id st.flow_versions ≡ some v) where
  abbrev Placed : Option String → Type 0
  Placed = IsPlaced (nodes_of v.definition) (entry_of v.definition)

  abbrev session : Resolution → IvrRuntimeSession
  session r = new_session id t active r

  abbrev numbered_step : IvrRuntimeSessionStep → IvrRuntimeSessionStep
  numbered_step x = record x { step_index = suc (max_step_index id st.session_steps) }

  running_step : Resolution → IvrRuntimeAction → IvrRuntimeSessionStep
  running_step r a =
      numbered_step (start_step (session r) r.variables (session r).current_node_id (some a))

  running-IsSessionValid :
      (r : Resolution) (a : IvrRuntimeAction)
      → Placed r.current_node_id
      → r.current_node_id ≡ node_of (some a)
      → r.action ≡ some a
      → IsSessionValid st.flow_versions (push st.session_steps (running_step r a)) (session r)
  unfolding new_session start_step running_step
  running-IsSessionValid r a p at act = record {
    state = (a, act, at, refl);
    version = v;
    stored = version;
    placed = p;
    last = running_step r a;
    logged = latest_step-push id st.session_steps (running_step r a) ∙ rw eq_refl refl;
    tells = record { status = refl; node = refl; action = sym act; variables = refl };
  }

  abbrev done : Resolution → IvrRuntimeSession
  done r = set_state (completed_update r now) (session r)

  completed_step : Resolution → IvrRuntimeSessionStep
  completed_step r = numbered_step (start_step (done r) r.variables none none)

  completed-IsSessionValid :
      (r : Resolution)
      → IsSessionValid st.flow_versions (push st.session_steps (completed_step r)) (done r)
  unfolding new_session start_step set_state completed_update completed_step
  completed-IsSessionValid r = record {
    state = (now, refl, refl, refl);
    version = v;
    stored = version;
    placed = tt;
    last = completed_step r;
    logged = latest_step-push id st.session_steps (completed_step r) ∙ rw eq_refl refl;
    tells = record { status = refl; node = refl; action = refl; variables = refl };
  }

  begin-IsValid :
      (r : Resolution) (o : Option IvrRuntimeAction)
      → r.action ≡ o
      → Placed r.current_node_id
      → r.current_node_id ≡ node_of o
      → IsValid (begin (session r) r now o st).store
  unfolding begin record_session_step create_session update_session_state new_session set_state
      start_step running_step completed_step completed_update
  begin-IsValid r none act p at = record {
    distinct =
        subst IsDistinct
          (sym (session_ids-update_rows id (completed_update r now) (push st.sessions (session r))))
          (IsDistinct-push_row (session r) st.sessions fresh valid.distinct);
    numbered =
        record_session_step-IsNumbered (start_step (done r) r.variables none none)
          (update_session_state id (completed_update r now) (create_session (session r) st))
          valid.numbered;
    sessions =
        All-update_rows id (completed_update r now)
          (λ x. str_eq x.id id ≡ false → IsSessionValid st.flow_versions st.session_steps x)
          (IsSessionValid st.flow_versions (push st.session_steps (completed_step r)))
          (λ x ne k. other_session st.flow_versions st.session_steps (completed_step r) x ne (k ne))
          (push st.sessions (session r)) (session r)
          (IsDistinct-push_row (session r) st.sessions fresh valid.distinct)
          (find_session-push (session r) st.sessions fresh)
          (All-fresh (session r) (IsSessionValid st.flow_versions st.session_steps) _
            (λ x ne k _. k) st.sessions fresh valid.sessions
            (λ e. absurd (cc (rw (eq_refl id) at e))))
          (completed-IsSessionValid r);
  }
  begin-IsValid r (some a) act p at = record {
    distinct = IsDistinct-push_row (session r) st.sessions fresh valid.distinct;
    numbered =
        record_session_step-IsNumbered
          (start_step (session r) r.variables (session r).current_node_id (some a))
          (create_session (session r) st) valid.numbered;
    sessions =
        All-fresh (session r) (IsSessionValid st.flow_versions st.session_steps)
          (IsSessionValid st.flow_versions (push st.session_steps (running_step r a)))
          (other_session st.flow_versions st.session_steps (running_step r a)) st.sessions fresh
          valid.sessions (running-IsSessionValid r a p at act);
  }

  started-Keeps :
      (r : Result Resolution)
      → Ends (nodes_of v.definition) (entry_of v.definition) (IsErrorOf IsRunError none) r
      → Keeps (started id t active now st r)
  unfolding started
  started-Keeps (err e) h = IsErrorOf-IsExpected none e h
  started-Keeps (ok r) h = begin-IsValid r r.action refl h.0 h.1

module _ (env : Environment) (dir : Directory) (id : String) (t : StartInput) (st : Store)
    (versions : IsValidated st.flow_versions) (valid : IsValid st)
    (fresh : has id (session_ids st.sessions) ≡ false) where
  active-Keeps :
      (o : Option ActiveFlowVersion)
      → IsStored st.flow_versions o
      → Keeps (start_active env dir id t st o)
  unfolding start_active start_input
  active-Keeps none h = tt
  active-Keeps (some active) (v, version, same) =
      started-Keeps id t active env.now st valid fresh v version _ (
        subst
          (λ g.
            Ends (nodes_of g) (entry_of g) (IsErrorOf IsRunError none)
              (resolve_next_action env dir (start_input t active)))
          (sym same)
          (resolve_next_action-Ends env dir (start_input t active)
            (subst (λ g. (validate_ivr_graph (obj g)).status ≡ passed) same
              (versions active.flow_version_id v version))
            tt))

  pub start_session-Keeps : Keeps (start_session env dir id t st)
  unfolding start_session
  start_session-Keeps =
      active-Keeps (find_active_flow_version t.flow_id st) (active-IsStored t.flow_id st)
