-- ===== src/Ivr/Runtime/Session/Tables.antt =====
-- The tables of apps/api/src/modules/runtime/ivr-runtime.repository.ts for flows, sessions and steps, and
-- its statements on them.
use manage_call_ai.Base.{
  ℕ, suc, String, Bool, ◌&&◌, List, [], ◌∷◌, push, Option, none, some, if◌then◌else◌, str_eq, find,
  ltb,
}
use manage_call_ai.Json.{Props}
use manage_call_ai.Ivr.Runtime.Types.{
  IvrRuntimeAction, RuntimeSessionStatus, Variables, IvrRuntimeSession, IvrRuntimeSessionStep,
}

pub record FlowVersion : Type 0 where
  pub id : String
  pub published : Bool
  pub definition : Props

pub record Flow : Type 0 where
  pub id : String
  pub tenant_id : String
  pub active : Bool
  pub active_version_id : Option String

pub record Store : Type 0 where
  pub flows : List Flow
  pub flow_versions : List FlowVersion
  pub sessions : List IvrRuntimeSession
  pub session_steps : List IvrRuntimeSessionStep

pub record ActiveFlowVersion : Type 0 where
  pub tenant_id : String
  pub flow_id : String
  pub flow_version_id : String
  pub graph_json : Props

abbrev pub find_version : String → List FlowVersion → Option FlowVersion
find_version id vs = find (λ v. str_eq v.id id) vs

abbrev pub find_flow : String → List Flow → Option Flow
find_flow id fs = find (λ f. str_eq f.id id) fs

unfoldable pub joined : Flow → Option FlowVersion → Option ActiveFlowVersion
joined f none = none
joined f (some v) =
    if f.active && v.published
    then some (record {
      tenant_id = f.tenant_id;
      flow_id = f.id;
      flow_version_id = v.id;
      graph_json = v.definition;
    })
    else none

unfoldable pub version_of : List FlowVersion → Option String → Option FlowVersion
version_of vs none = none
version_of vs (some id) = find_version id vs

unfoldable pub joined_flow : List FlowVersion → Option Flow → Option ActiveFlowVersion
joined_flow vs none = none
joined_flow vs (some f) = joined f (version_of vs f.active_version_id)

unfoldable pub find_active_flow_version : String → Store → Option ActiveFlowVersion
find_active_flow_version flow_id st = joined_flow st.flow_versions (find_flow flow_id st.flows)

abbrev pub find_session : String → List IvrRuntimeSession → Option IvrRuntimeSession
find_session id rows = find (λ s. str_eq s.id id) rows

unfoldable pub create_session : IvrRuntimeSession → Store → Store
create_session s st = record st { sessions = push st.sessions s }

pub record SessionUpdate : Type 0 where
  pub status : RuntimeSessionStatus
  pub current_node_id : Option String
  pub last_digits : Option String
  pub variables_json : Variables
  pub last_action_json : Option IvrRuntimeAction
  pub completed_at : Option ℕ

unfoldable pub set_state : SessionUpdate → IvrRuntimeSession → IvrRuntimeSession
set_state u s = record s {
  status = u.status;
  current_node_id = u.current_node_id;
  last_digits = u.last_digits;
  variables_json = u.variables_json;
  last_action_json = u.last_action_json;
  completed_at = u.completed_at;
}

-- `UPDATE ivr_flow_sessions SET … WHERE id = $1`.
unfoldable pub update_rows :
    String → SessionUpdate → List IvrRuntimeSession → List IvrRuntimeSession
update_rows id u [] = []
update_rows id u (s ∷ rows) =
    if str_eq s.id id then set_state u s ∷ update_rows id u rows else s ∷ update_rows id u rows

unfoldable pub update_session_state : String → SessionUpdate → Store → Store
update_session_state id u st = record st { sessions = update_rows id u st.sessions }

-- `COALESCE(MAX(step_index), 0)` of the steps of a session.
unfoldable pub max_step_index : String → List IvrRuntimeSessionStep → ℕ
max_step_index id [] = 0
max_step_index id (t ∷ steps) =
    let rest = max_step_index id steps in
    if str_eq t.session_id id && ltb rest t.step_index then t.step_index else rest

-- `step_index` of the argument is not used.
unfoldable pub record_session_step : IvrRuntimeSessionStep → Store → Store
record_session_step t st = record st {
  session_steps =
      push st.session_steps
        (record t { step_index = suc (max_step_index t.session_id st.session_steps) });
}
