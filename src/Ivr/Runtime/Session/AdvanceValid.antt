-- ===== src/Ivr/Runtime/Session/AdvanceValid.antt =====
-- `advanceSession` keeps the tables consistent.
use manage_call_ai.Base.{
  ℕ, suc, String, ◌≡◌, refl, sym, ◌∙◌, subst, inl, inr, true, not, List, [], ◌∷◌, push, Option,
  none, some, arith, str_eq, eq_iff, eq_refl, All, if_split, if_elim, Bool-cases,
}
use manage_call_ai.Ivr.Graph.{nodes_of, entry_of}
use manage_call_ai.Ivr.Runtime.Types.{
  IvrRuntimeAction, IvrRuntimeSession, IvrRuntimeSessionStep, AdvanceInput, RuntimeError,
  digits_required, unsupported_completion, current_node_missing, node_missing, unsupported_type,
  no_queue_id, no_voicemail_box_id, no_schedule_id, IsAssetError, Result, ok, err,
}
use manage_call_ai.Ivr.Runtime.Directory.{Directory}
use manage_call_ai.Ivr.Runtime.Turn.{Environment}
use manage_call_ai.Ivr.Runtime.Leave.Follows.{IsLeaveError}
use manage_call_ai.Ivr.Runtime.Resolve.{Resolution}
use manage_call_ai.Ivr.Runtime.Resolve.Safe.{IsPlaced, Ends, node_of}
use manage_call_ai.Ivr.Runtime.Resolve.Calls.{
  IsRunError, IsErrorOf, IsResumable, resolve_next_action-Ends,
}
use manage_call_ai.Ivr.Runtime.Session.{
  FlowVersion, Store, find_version, find_session, set_state, update_of, SessionUpdate,
  update_session_state, record_session_step, max_step_index, status_after, completion_after,
  advance_step, advance_input, advanced, advance_loaded, advance_found, advance_session, is_running,
  is_current,
}
use manage_call_ai.Ivr.Runtime.Session.Rows.{
  IsDistinct, session_ids-update_rows, All-update_rows, latest_step-push,
}
use manage_call_ai.Ivr.Runtime.Session.Numbering.{record_session_step-IsNumbered}
use manage_call_ai.Ivr.Runtime.Session.Valid.{
  IsState, IsSessionValid, IsValid, IsValidated, IsExpected, Keeps, other_session,
}

IsAssetError-IsExpected : (e : RuntimeError) → IsAssetError e → IsExpected e
IsAssetError-IsExpected (current_node_missing id) h = h
IsAssetError-IsExpected (node_missing id) h = h
IsAssetError-IsExpected (unsupported_type type) h = h
IsAssetError-IsExpected (no_queue_id id) h = h
IsAssetError-IsExpected (no_voicemail_box_id id) h = h
IsAssetError-IsExpected (no_schedule_id id) h = h
IsAssetError-IsExpected _ h = tt

IsLeaveError-IsExpected : (e : RuntimeError) → IsLeaveError e → IsExpected e
IsLeaveError-IsExpected digits_required h = tt
IsLeaveError-IsExpected (unsupported_completion type) h = tt
IsLeaveError-IsExpected _ h = absurd h

IsRunError-IsExpected : (e : RuntimeError) → IsRunError e → IsExpected e
IsRunError-IsExpected e (inl h) = IsAssetError-IsExpected e h
IsRunError-IsExpected e (inr h) = subst IsExpected (sym h) tt

pub IsErrorOf-IsExpected :
    (t : Option AdvanceInput) (e : RuntimeError) → IsErrorOf IsRunError t e → IsExpected e
IsErrorOf-IsExpected none e h = IsRunError-IsExpected e h
IsErrorOf-IsExpected (some t) e (inl h) = IsRunError-IsExpected e h
IsErrorOf-IsExpected (some t) e (inr h) = IsLeaveError-IsExpected e h

-- The state of a session after an update by what was resolved.
update_of-IsState :
    (r : Resolution) (now : ℕ) (s : IvrRuntimeSession)
    → r.current_node_id ≡ node_of r.action
    → IsState (status_after r.action) (set_state (update_of r now) s)
unfolding update_of set_state status_after completion_after
update_of-IsState r now s h = split r.action r.current_node_id h
  where
    split :
        (o : Option IvrRuntimeAction) (c : Option String)
        → c ≡ node_of o
        → IsState (status_after o) (record s {
          status = status_after o;
          current_node_id = c;
          last_digits = r.last_digits;
          variables_json = r.variables;
          last_action_json = o;
          completed_at = completion_after o now;
        })
    split none c e = (now, refl, e, refl)
    split (some a) c e = (a, refl, e, refl)

pub found-id :
    (id : String) (rows : List IvrRuntimeSession) (s : IvrRuntimeSession)
    → find_session id rows ≡ some s
    → str_eq s.id id ≡ true
found-id id [] s h = cc
found-id id (r ∷ rows) s h = elim (Bool-cases (str_eq r.id id)) [
  | inl e ↦
      let same : some r ≡ some s = rw e at h in
      let r-s : r ≡ s = cc in subst (λ x. str_eq x.id id ≡ true) r-s e
  | inr ne ↦ found-id id rows s (rw ne at h)
]

pub found-All :
    (P : IvrRuntimeSession → Type 0) (id : String) (rows : List IvrRuntimeSession)
    (s : IvrRuntimeSession)
    → find_session id rows ≡ some s
    → All P rows
    → P s
found-All P id [] s h a = cc
found-All P id (r ∷ rows) s h a = elim (Bool-cases (str_eq r.id id)) [
  | inl e ↦ let same : some r ≡ some s = rw e at h in let r-s : r ≡ s = cc in subst P r-s a.0
  | inr ne ↦ found-All P id rows s (rw ne at h) a.1
]

module _ (env : Environment) (dir : Directory) (t : AdvanceInput) (st : Store)
    (valid : IsValid st) where
  abbrev update_for : Resolution → SessionUpdate
  update_for r = update_of r env.now

  abbrev updated : Resolution → IvrRuntimeSession → IvrRuntimeSession
  updated r s = set_state (update_for r) s

  abbrev recorded : Resolution → IvrRuntimeSession → IvrRuntimeSessionStep
  recorded r s = record (advance_step (updated r s) t r) {
    step_index = suc (max_step_index s.id st.session_steps);
  }

  module _ (s : IvrRuntimeSession) (v : FlowVersion)
      (version : find_version s.flow_version_id st.flow_versions ≡ some v) where
    updated-IsSessionValid :
        (r : Resolution)
        → IsPlaced (nodes_of v.definition) (entry_of v.definition) r.current_node_id
        → r.current_node_id ≡ node_of r.action
        → IsSessionValid st.flow_versions (push st.session_steps (recorded r s)) (updated r s)
    unfolding set_state update_of advance_step
    updated-IsSessionValid r placed at = record {
      state = update_of-IsState r env.now s at;
      version = v;
      stored = version;
      placed = placed;
      last = recorded r s;
      logged = latest_step-push s.id st.session_steps (recorded r s) ∙ rw eq_refl refl;
      tells = record { status = refl; node = refl; action = refl; variables = refl };
    }

    advanced-Keeps :
        (r : Result Resolution)
        → find_session s.id st.sessions ≡ some s
        → Ends (nodes_of v.definition) (entry_of v.definition) (IsErrorOf IsRunError (some t)) r
        → Keeps (advanced env dir s t st r)
    unfolding advanced record_session_step update_session_state advance_step set_state
    advanced-Keeps (err e) found h = IsErrorOf-IsExpected (some t) e h
    advanced-Keeps (ok r) found h = record {
      distinct =
          subst IsDistinct (sym (session_ids-update_rows s.id (update_for r) st.sessions))
            valid.distinct;
      numbered =
          record_session_step-IsNumbered (advance_step (updated r s) t r)
            (update_session_state s.id (update_for r) st) valid.numbered;
      sessions =
          All-update_rows s.id (update_for r) (IsSessionValid st.flow_versions st.session_steps)
            (IsSessionValid st.flow_versions (push st.session_steps (recorded r s)))
            (other_session st.flow_versions st.session_steps (recorded r s)) st.sessions s
            valid.distinct found valid.sessions (updated-IsSessionValid r h.0 h.1);
    }

  module _ (versions : IsValidated st.flow_versions) (s : IvrRuntimeSession)
      (found : find_session s.id st.sessions ≡ some s)
      (sound : IsSessionValid st.flow_versions st.session_steps s) where
    loaded-Keeps :
        (o : Option FlowVersion)
        → find_version s.flow_version_id st.flow_versions ≡ o
        → is_current s.current_node_id t.node_id ≡ true
        → Keeps (advance_loaded env dir s t st o)
    unfolding advance_loaded advance_input is_current
    loaded-Keeps none version c = tt
    loaded-Keeps (some v) version c =
        let same : some sound.version ≡ some v = sym sound.stored ∙ version in
        let version-v : sound.version ≡ v = cc in
        let placed =
          subst (λ x. IsPlaced (nodes_of x.definition) (entry_of x.definition) s.current_node_id)
            version-v sound.placed in
        advanced-Keeps s v version _ found (
          resolve_next_action-Ends env dir (advance_input s v t)
            (versions s.flow_version_id v version) (resumable s.current_node_id c placed))
      where
        resumable :
            (o : Option String)
            → is_current o t.node_id ≡ true
            → IsPlaced (nodes_of v.definition) (entry_of v.definition) o
            → IsResumable (nodes_of v.definition) (entry_of v.definition) o (some t)
        resumable none c p = cc
        resumable (some id) c p = (id, refl, p)

    session-Keeps : Keeps (advance_found env dir t st (some s))
    unfolding advance_found
    session-Keeps = if_elim Keeps (not (is_running s.status)) tt (
        if_split Keeps (not (is_current s.current_node_id t.node_id)) (λ _. tt)
          λ c. loaded-Keeps _ refl (ground (arith, c)))

  found-Keeps :
      (id : String) (o : Option IvrRuntimeSession)
      → IsValidated st.flow_versions
      → find_session id st.sessions ≡ o
      → Keeps (advance_found env dir t st o)
  unfolding advance_found
  found-Keeps id none versions found = tt
  found-Keeps id (some s) versions found =
      let same : id ≡ s.id = sym ((eq_iff s.id id).0 (found-id id st.sessions s found)) in
      session-Keeps versions s (subst (λ x. find_session x st.sessions ≡ some s) same found) (
        found-All (IsSessionValid st.flow_versions st.session_steps) id st.sessions s found
          valid.sessions)

pub advance_session-Keeps :
    (env : Environment) (dir : Directory) (id : String) (t : AdvanceInput) (st : Store)
    → IsValidated st.flow_versions
    → IsValid st
    → Keeps (advance_session env dir id t st)
unfolding advance_session
advance_session-Keeps env dir id t st versions valid =
    found-Keeps env dir t st valid id (find_session id st.sessions) versions refl
