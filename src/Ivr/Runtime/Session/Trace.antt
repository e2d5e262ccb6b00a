-- ===== src/Ivr/Runtime/Session/Trace.antt =====
-- The stores that any sequence of calls leads to: sessions are started and advanced in any order,
-- under any environment and assets, and flows are pointed at other versions in between.
use manage_call_ai.Base.{
  String, ◌≡◌, refl, sym, ◌∙◌, subst, false, List, [], Option, none, some, has, if_elim, not,
}
use manage_call_ai.Ivr.Runtime.Types.{
  IvrRuntimeAction, IvrRuntimeSession, StartInput, AdvanceInput, Result, ok, err,
}
use manage_call_ai.Ivr.Runtime.Directory.{Directory}
use manage_call_ai.Ivr.Runtime.Turn.{Environment}
use manage_call_ai.Ivr.Runtime.Resolve.{Resolution}
use manage_call_ai.Ivr.Runtime.Session.{
  FlowVersion, Flow, Store, ActiveFlowVersion, SessionResult, find_active_flow_version,
  find_session, create_session, update_session_state, record_session_step, begin, started,
  start_active, start_session, advanced, advance_loaded, advance_found, advance_session, is_running,
  is_current,
}
use manage_call_ai.Ivr.Runtime.Session.Rows.{session_ids}
use manage_call_ai.Ivr.Runtime.Session.Valid.{IsValid, IsValidated, Keeps}
use manage_call_ai.Ivr.Runtime.Session.StartValid.{start_session-Keeps}
use manage_call_ai.Ivr.Runtime.Session.AdvanceValid.{advance_session-Keeps}

pub data Step (st : Store) : Store → Type 0 where
  start :
      (env : Environment) (dir : Directory) (id : String) (t : StartInput) (r : SessionResult)
      → has id (session_ids st.sessions) ≡ false
      → start_session env dir id t st ≡ ok r
      → Step st r.store
  advance :
      (env : Environment) (dir : Directory) (id : String) (t : AdvanceInput) (r : SessionResult)
      → advance_session env dir id t st ≡ ok r
      → Step st r.store
  publish : (flows : List Flow) → Step st (record st { flows = flows })

-- The stores that a database without sessions comes to.
pub data Reached (flows : List Flow) (versions : List FlowVersion) : Store → Type 0 where
  empty :
      Reached flows versions
        (record { flows = flows; flow_versions = versions; sessions = []; session_steps = [] })
  step : {st st' : Store} → Reached flows versions st → Step st st' → Reached flows versions st'

abbrev Same : Store → Result SessionResult → Type 0
Same st (ok r) = r.store.flow_versions ≡ st.flow_versions
Same st (err e) = Unit

module _ (st : Store) where
  started-Same :
      (env : Environment) (dir : Directory) (id : String) (t : StartInput)
      → Same st (start_session env dir id t st)
  unfolding start_session start_active started begin record_session_step create_session
      update_session_state
  started-Same env dir id t = of_active (find_active_flow_version t.flow_id st)
    where
      of_action :
          (s : IvrRuntimeSession) (r : Resolution) (o : Option IvrRuntimeAction)
          → Same st (ok (begin s r env.now o st))
      of_action s r none = refl
      of_action s r (some a) = refl

      of_resolved :
          (a : ActiveFlowVersion) (r : Result Resolution) → Same st (started id t a env.now st r)
      of_resolved a (err e) = tt
      of_resolved a (ok r) = of_action _ r r.action

      of_active : (o : Option ActiveFlowVersion) → Same st (start_active env dir id t st o)
      of_active none = tt
      of_active (some a) = of_resolved a _

  advanced-Same :
      (env : Environment) (dir : Directory) (id : String) (t : AdvanceInput)
      → Same st (advance_session env dir id t st)
  unfolding advance_session advance_found advance_loaded advanced record_session_step
      update_session_state
  advanced-Same env dir id t = of_session (find_session id st.sessions)
    where
      of_resolved :
          (s : IvrRuntimeSession) (r : Result Resolution) → Same st (advanced env dir s t st r)
      of_resolved s (err e) = tt
      of_resolved s (ok r) = refl

      of_version :
          (s : IvrRuntimeSession) (o : Option FlowVersion)
          → Same st (advance_loaded env dir s t st o)
      of_version s none = tt
      of_version s (some v) = of_resolved s _

      of_session : (o : Option IvrRuntimeSession) → Same st (advance_found env dir t st o)
      of_session none = tt
      of_session (some s) =
          if_elim (Same st) (not (is_running s.status)) tt
            (if_elim (Same st) (not (is_current s.current_node_id t.node_id)) tt (of_version s _))

step_versions : {st st' : Store} → Step st st' → st'.flow_versions ≡ st.flow_versions
step_versions {st} (Step.start env dir id t r fresh e) =
    subst (Same st) e (started-Same st env dir id t)
step_versions {st} (Step.advance env dir id t r e) =
    subst (Same st) e (advanced-Same st env dir id t)
step_versions (Step.publish flows) = refl

step-IsValid :
    {st st' : Store} → IsValidated st.flow_versions → IsValid st → Step st st' → IsValid st'
step-IsValid {st} versions valid (Step.start env dir id t r fresh e) =
    subst Keeps e (start_session-Keeps env dir id t st versions valid fresh)
step-IsValid {st} versions valid (Step.advance env dir id t r e) =
    subst Keeps e (advance_session-Keeps env dir id t st versions valid)
step-IsValid versions valid (Step.publish flows) = record {
  distinct = valid.distinct;
  numbered = valid.numbered;
  sessions = valid.sessions;
}

Reached-versions :
    {flows : List Flow} {versions : List FlowVersion} {st : Store}
    → Reached flows versions st
    → st.flow_versions ≡ versions
Reached-versions Reached.empty = refl
Reached-versions (Reached.step r s) = step_versions s ∙ Reached-versions r

-- If every stored version of a flow passed the validation, then whatever sessions are started and
-- advanced: ids are unique, the steps of each session are numbered 1, 2, 3, …, its last step tells its
-- status, node, action and variables, a running session is at the node of its last action, which a
-- call can come to in the version that the session is pinned to, a session that is over is at no
-- node, and none is failed.
pub Reached-IsValid :
    (flows : List Flow) (versions : List FlowVersion) (st : Store)
    → IsValidated versions
    → Reached flows versions st
    → IsValid st
Reached-IsValid flows versions st v Reached.empty = record {
  distinct = tt;
  numbered = λ id. (0, refl);
  sessions = tt;
}
Reached-IsValid flows versions st v (Reached.step r s) =
    step-IsValid (subst IsValidated (sym (Reached-versions r)) v)
      (Reached-IsValid flows versions _ v r) s
