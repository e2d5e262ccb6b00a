-- ===== src/Ivr/Runtime/Turn.antt =====
-- `resolveNextAction` of apps/api/src/modules/runtime/ivr-runtime.service.ts, the body of its loop:
-- what one node does. The clock, the host's hour and ECMAScript's `Intl` are parameters.
pub mod Follows
use manage_call_ai.Base.{ℕ, String, Option, none, some, if◌then◌else◌, str_eq, map_set}
use manage_call_ai.Json.{Props, get, object_of, string_or_empty, or_default}
use manage_call_ai.Schedule.Types.{Schedule}
use manage_call_ai.Schedule.Hours.{Intl, is_in_business_hours}
use manage_call_ai.Ivr.Graph.{GraphNode}
use manage_call_ai.Ivr.Planner.{PlannerContext, resolve_switch_input, selected_case, caller_matches}
use manage_call_ai.Ivr.Runtime.Types.{
  IvrRuntimeAction, play_prompt, play_collect, transfer_extension, transfer_queue, voicemail,
  hangup, Variables, RuntimeError, unsupported_type, no_schedule_id, schedule_unavailable, Result,
  ok, err,
}
use manage_call_ai.Ivr.Runtime.Directory.{Directory, find_active_schedule}
use manage_call_ai.Ivr.Runtime.Assets.{
  prompt_action, collect_action, extension_action, queue_action, voicemail_action,
}

pub record Environment : Type 0 where
  pub intl : Intl
  pub now : ℕ
  pub current_hour : String

-- What a node does in a round of the loop.
pub data Turn : Type 0 where
  goto : String → Variables → Turn
  act : IvrRuntimeAction → Turn
  fail : RuntimeError → Turn

-- An action, or the error of a read that it needs.
unfoldable pub turn_of : Result IvrRuntimeAction → Turn
turn_of (ok a) = act a
turn_of (err e) = fail e

unfoldable pub switch_target : GraphNode → PlannerContext → String
switch_target n ctx =
    or_default
      (selected_case (resolve_switch_input n.raw ctx)
        (or_default (object_of (get "cases" n.raw)) Props.end))
      (string_or_empty "default_node_id" n.raw)

unfoldable pub set_variable : GraphNode → Variables → Variables
set_variable n vars =
    let name = string_or_empty "variable_name" n.raw in
    if str_eq name "" then vars else map_set name (string_or_empty "value" n.raw) vars

module _ (env : Environment) (dir : Directory) (tenant_id : String) where
  unfoldable pub context : Option String → Option String → Variables → PlannerContext
  context caller last vars = record {
    last_digits = last;
    caller_number = caller;
    scenario_hour = some env.current_hour;
    variables = vars;
    resolve_business_hours = none;
  }

  unfoldable pub found_schedule : GraphNode → String → Variables → Option Schedule → Turn
  found_schedule n id vars none = fail (schedule_unavailable id)
  found_schedule n id vars (some s) =
      if is_in_business_hours env.intl s env.now
      then goto (string_or_empty "in_hours_node_id" n.raw) vars
      else goto (string_or_empty "out_of_hours_node_id" n.raw) vars

  unfoldable pub hours_turn : GraphNode → Variables → Turn
  hours_turn n vars =
      let id = string_or_empty "schedule_id" n.raw in
      if str_eq id ""
      then fail (no_schedule_id n.id)
      else found_schedule n id vars (find_active_schedule dir tenant_id id)

  unfoldable pub caller_turn : GraphNode → Option String → Variables → Turn
  caller_turn n caller vars =
      if caller_matches caller n.raw
      then goto (string_or_empty "match_node_id" n.raw) vars
      else goto (string_or_empty "no_match_node_id" n.raw) vars

  unfoldable pub last_turn : GraphNode → Option String → Variables → Turn
  last_turn n caller vars =
      if str_eq n.type "hangup"
      then act (hangup n.id)
      else if str_eq n.type "caller_id_match"
      then caller_turn n caller vars
      else if str_eq n.type "business_hours"
      then hours_turn n vars
      else fail (unsupported_type n.type)

  unfoldable pub action_turn : GraphNode → Option String → Variables → Turn
  action_turn n caller vars =
      if str_eq n.type "play_prompt"
      then turn_of (prompt_action dir tenant_id n)
      else if str_eq n.type "play_collect"
      then turn_of (collect_action dir tenant_id n)
      else if str_eq n.type "transfer_extension"
      then turn_of (extension_action dir tenant_id n)
      else if str_eq n.type "queue"
      then turn_of (queue_action dir tenant_id n)
      else if str_eq n.type "voicemail_drop"
      then turn_of (voicemail_action dir tenant_id n)
      else last_turn n caller vars

  unfoldable pub turn : GraphNode → Option String → Option String → Variables → Turn
  turn n caller last vars =
      if str_eq n.type "start"
      then goto (string_or_empty "next_node_id" n.raw) vars
      else if str_eq n.type "switch"
      then goto (switch_target n (context caller last vars)) vars
      else if str_eq n.type "set_variable"
      then goto (string_or_empty "next_node_id" n.raw) (set_variable n vars)
      else action_turn n caller vars
