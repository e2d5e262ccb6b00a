-- ===== src/Ivr/Runtime/Session/Valid.antt =====
-- What holds of the runtime's tables whatever calls are made: sessions and their steps agree, and a
-- running session is at a node that a call can come to.
use manage_call_ai.Base.{
  ℕ, String, ◌≡◌, ◌∙◌, false, List, [], ◌∷◌, ◌++◌, none, some, arith, str_eq, str_eq_sym, All,
}
use manage_call_ai.Json.{obj}
use manage_call_ai.Ivr.Graph.{nodes_of, entry_of}
use manage_call_ai.Ivr.Validation.{passed, failed, validate_ivr_graph}
use manage_call_ai.Ivr.Runtime.Types.{
  IvrRuntimeAction, RuntimeSessionStatus, running, completed, failed, IvrRuntimeSession,
  IvrRuntimeSessionStep, RuntimeError, current_node_missing, node_missing, unsupported_type,
  no_queue_id, no_voicemail_box_id, no_schedule_id, Result, ok, err,
}
use manage_call_ai.Ivr.Runtime.Resolve.Safe.{IsPlaced, node_of}
use manage_call_ai.Ivr.Runtime.Session.{FlowVersion, Store, SessionResult, find_version}
use manage_call_ai.Ivr.Runtime.Session.Rows.{session_ids, IsDistinct, latest_step, latest_step-push}
use manage_call_ai.Ivr.Runtime.Session.Numbering.{IsNumbered}

-- The status of a session against its other columns.
abbrev pub IsState : RuntimeSessionStatus → IvrRuntimeSession → Type 0
IsState running s =
    (a : IvrRuntimeAction) × (s.last_action_json ≡ some a)
    × (s.current_node_id ≡ node_of (some a))
    × (s.completed_at ≡ none)
IsState completed s =
    (now : ℕ) × (s.last_action_json ≡ none)
    × (s.current_node_id ≡ none)
    × (s.completed_at ≡ some now)
IsState failed s = ⊥

-- A step tells the session's state.
pub record Tells (t : IvrRuntimeSessionStep) (s : IvrRuntimeSession) : Type 0 where
  pub status : t.resulting_status ≡ s.status
  pub node : t.resulting_node_id ≡ s.current_node_id
  pub action : t.action_json ≡ s.last_action_json
  pub variables : t.variables_json ≡ s.variables_json

pub record IsSessionValid (versions : List FlowVersion) (steps : List IvrRuntimeSessionStep)
    (s : IvrRuntimeSession) : Type 0 where
  pub state : IsState s.status s
  pub version : FlowVersion
  pub stored : find_version s.flow_version_id versions ≡ some version
  pub placed :
      IsPlaced (nodes_of version.definition) (entry_of version.definition) s.current_node_id
  pub last : IvrRuntimeSessionStep
  pub logged : latest_step s.id steps ≡ some last
  pub tells : Tells last s

pub record IsValid (st : Store) : Type 0 where
  pub distinct : IsDistinct (session_ids st.sessions)
  pub numbered : IsNumbered st.session_steps
  pub sessions : All (IsSessionValid st.flow_versions st.session_steps) st.sessions

-- Every stored version passed the validation.
abbrev pub IsValidated : List FlowVersion → Type 0
IsValidated versions =
    (id : String) (v : FlowVersion)
    → find_version id versions ≡ some v
    → (validate_ivr_graph (obj v.definition)).status ≡ passed

-- The errors that a validated flow leaves possible.
abbrev pub IsExpected : RuntimeError → Type 0
IsExpected (current_node_missing id) = ⊥
IsExpected (node_missing id) = ⊥
IsExpected (unsupported_type type) = ⊥
IsExpected (no_queue_id id) = ⊥
IsExpected (no_voicemail_box_id id) = ⊥
IsExpected (no_schedule_id id) = ⊥
IsExpected _ = Unit

abbrev pub Keeps : Result SessionResult → Type 0
Keeps (ok r) = IsValid r.store
Keeps (err e) = IsExpected e

pub other_session :
    (versions : List FlowVersion) (steps : List IvrRuntimeSessionStep) (t : IvrRuntimeSessionStep)
    (s : IvrRuntimeSession)
    → str_eq s.id t.session_id ≡ false
    → IsSessionValid versions steps s
    → IsSessionValid versions (steps ++ t ∷ []) s
other_session versions steps t s ne h = record {
  state = h.state;
  version = h.version;
  stored = h.stored;
  placed = h.placed;
  last = h.last;
  logged =
      latest_step-push s.id steps t ∙ ground (arith, str_eq_sym t.session_id s.id, ne, h.logged);
  tells = h.tells;
}
