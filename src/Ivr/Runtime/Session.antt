-- ===== src/Ivr/Runtime/Session.antt =====
-- `startSession` and `advanceSession` of apps/api/src/modules/runtime/ivr-runtime.service.ts on the
-- tables of apps/api/src/modules/runtime/ivr-runtime.repository.ts. The id of a new row is an
-- argument, and `now` in seconds stands for `new Date()`. Every error is thrown before a write.
pub mod Tables
pub mod Rows
pub mod Numbering
pub mod Valid
pub mod AdvanceValid
pub mod StartValid
pub mod Trace
unfoldable pub use Tables.*
use manage_call_ai.Base.{
  ℕ, suc, String, Bool, true, false, not, ◌&&◌, ◌||◌, List, [], ◌∷◌, push, Option, none, some,
  if◌then◌else◌, str_eq, find, map_merge, ltb,
}
use manage_call_ai.Json.{Props, or_default}
use manage_call_ai.Ivr.Runtime.Types.{
  IvrRuntimeAction, RuntimeSessionStatus, running, completed, failed, Outcome, Phase, Variables,
  StartInput, AdvanceInput, IvrRuntimeSession, IvrRuntimeSessionStep, RuntimeError,
  flow_not_published, session_not_found, session_not_running, node_mismatch, flow_not_loaded,
  Result, ok, err,
}
use manage_call_ai.Ivr.Runtime.Directory.{Directory}
use manage_call_ai.Ivr.Runtime.Turn.{Environment}
use manage_call_ai.Ivr.Runtime.Resolve.{ResolveInput, Resolution, resolve_next_action}

pub record SessionResult : Type 0 where
  pub store : Store
  pub session : IvrRuntimeSession
  pub action : Option IvrRuntimeAction

-- `createSession`, from what was resolved.
unfoldable pub new_session :
    String → StartInput → ActiveFlowVersion → Resolution → IvrRuntimeSession
new_session id t active r = record {
  id = id;
  tenant_id = active.tenant_id;
  flow_id = active.flow_id;
  flow_version_id = active.flow_version_id;
  call_id = t.call_id;
  status = running;
  current_node_id = r.current_node_id;
  caller_number = t.caller_number;
  destination_number = t.destination_number;
  last_digits = r.last_digits;
  variables_json = r.variables;
  last_action_json = r.action;
  completed_at = none;
}

-- The status of a session after `resolveNextAction`.
unfoldable pub status_after : Option IvrRuntimeAction → RuntimeSessionStatus
status_after none = completed
status_after (some a) = running

unfoldable pub completion_after : Option IvrRuntimeAction → ℕ → Option ℕ
completion_after none now = some now
completion_after (some a) now = none

unfoldable pub update_of : Resolution → ℕ → SessionUpdate
update_of r now = record {
  status = status_after r.action;
  current_node_id = r.current_node_id;
  last_digits = r.last_digits;
  variables_json = r.variables;
  last_action_json = r.action;
  completed_at = completion_after r.action now;
}

unfoldable pub completed_update : Resolution → ℕ → SessionUpdate
completed_update r now = record {
  status = completed;
  current_node_id = none;
  last_digits = r.last_digits;
  variables_json = r.variables;
  last_action_json = none;
  completed_at = some now;
}

unfoldable pub start_step :
    IvrRuntimeSession → Variables → Option String → Option IvrRuntimeAction → IvrRuntimeSessionStep
start_step s vars resulting action = record {
  tenant_id = s.tenant_id;
  session_id = s.id;
  step_index = 0;
  phase = Phase.start;
  node_id = none;
  outcome = Outcome.start;
  digits = none;
  action_json = action;
  resulting_node_id = resulting;
  resulting_status = s.status;
  variables_json = vars;
}

unfoldable pub advance_step : IvrRuntimeSession → AdvanceInput → Resolution → IvrRuntimeSessionStep
advance_step s t r = record {
  tenant_id = s.tenant_id;
  session_id = s.id;
  step_index = 0;
  phase = Phase.advance;
  node_id = some t.node_id;
  outcome = t.outcome;
  digits = t.digits;
  action_json = r.action;
  resulting_node_id = s.current_node_id;
  resulting_status = s.status;
  variables_json = r.variables;
}

unfoldable pub begin :
    IvrRuntimeSession → Resolution → ℕ → Option IvrRuntimeAction → Store → SessionResult
begin s r now none st =
    let done = set_state (completed_update r now) s in
    record {
      store =
          record_session_step (start_step done r.variables none none)
            (update_session_state s.id (completed_update r now) (create_session s st));
      session = done;
      action = none;
    }
begin s r now (some a) st = record {
  store =
      record_session_step (start_step s r.variables s.current_node_id (some a))
        (create_session s st);
  session = s;
  action = some a;
}

unfoldable pub started :
    String → StartInput → ActiveFlowVersion → ℕ → Store → Result Resolution → Result SessionResult
started id t active now st (err e) = err e
started id t active now st (ok r) = ok (begin (new_session id t active r) r now r.action st)

unfoldable pub start_input : StartInput → ActiveFlowVersion → ResolveInput
start_input t active = record {
  tenant_id = active.tenant_id;
  graph_json = active.graph_json;
  current_node_id = none;
  caller_number = t.caller_number;
  last_digits = none;
  variables = map_merge [] (or_default t.variables []);
  transition = none;
}

unfoldable pub advance_input : IvrRuntimeSession → FlowVersion → AdvanceInput → ResolveInput
advance_input s v t = record {
  tenant_id = s.tenant_id;
  graph_json = v.definition;
  current_node_id = s.current_node_id;
  caller_number = s.caller_number;
  last_digits = s.last_digits;
  variables = map_merge s.variables_json (or_default t.variables []);
  transition = some t;
}

unfoldable pub is_running : RuntimeSessionStatus → Bool
is_running running = true
is_running _ = false

unfoldable pub is_current : Option String → String → Bool
is_current none node_id = false
is_current (some id) node_id = not (str_eq id "") && str_eq id node_id

module _ (env : Environment) (dir : Directory) where
  unfoldable pub start_active :
      String → StartInput → Store → Option ActiveFlowVersion → Result SessionResult
  start_active id t st none = err flow_not_published
  start_active id t st (some active) =
      started id t active env.now st (resolve_next_action env dir (start_input t active))

  unfoldable pub start_session : String → StartInput → Store → Result SessionResult
  start_session id t st = start_active id t st (find_active_flow_version t.flow_id st)

  unfoldable pub advanced :
      IvrRuntimeSession → AdvanceInput → Store → Result Resolution → Result SessionResult
  advanced s t st (err e) = err e
  advanced s t st (ok r) =
      let updated = set_state (update_of r env.now) s in
      ok (record {
        store =
            record_session_step (advance_step updated t r)
              (update_session_state s.id (update_of r env.now) st);
        session = updated;
        action = r.action;
      })

  unfoldable pub advance_loaded :
      IvrRuntimeSession → AdvanceInput → Store → Option FlowVersion → Result SessionResult
  advance_loaded s t st none = err flow_not_loaded
  advance_loaded s t st (some v) =
      advanced s t st (resolve_next_action env dir (advance_input s v t))

  unfoldable pub advance_found :
      AdvanceInput → Store → Option IvrRuntimeSession → Result SessionResult
  advance_found t st none = err session_not_found
  advance_found t st (some s) =
      if not (is_running s.status)
      then err session_not_running
      else if not (is_current s.current_node_id t.node_id)
      then err node_mismatch
      else advance_loaded s t st (find_version s.flow_version_id st.flow_versions)

  unfoldable pub advance_session : String → AdvanceInput → Store → Result SessionResult
  advance_session id t st = advance_found t st (find_session id st.sessions)
