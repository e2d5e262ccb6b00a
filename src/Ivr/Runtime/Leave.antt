-- ===== src/Ivr/Runtime/Leave.antt =====
-- `resolveNextAction` of apps/api/src/modules/runtime/ivr-runtime.service.ts, its first part: where a
-- call goes once the action of its current node is over.
pub mod Follows
use Prim.Native.String
use manage_call_ai.Base.{String, Bool, ◌||◌, Option, none, some, if◌then◌else◌, str_eq, map_set}
use manage_call_ai.Json.{string_field, string_or_empty, or_default}
use manage_call_ai.Text.{trim}
use manage_call_ai.Ivr.Graph.{GraphNode}
use manage_call_ai.Ivr.Runtime.Types.{
  Outcome, Variables, AdvanceInput, digits_required, unsupported_completion, Result, ok, err,
}

-- Where the flow goes on, with the digits and variables that it has by then.
pub record Position : Type 0 where
  pub next_node_id : String
  pub last_digits : Option String
  pub variables : Variables

-- The targets of a node that plays a prompt or collects digits, once that is over.
abbrev or_else : Option String → String → String
or_else none d = d
or_else (some s) d = s

unfoldable pub timeout_target : GraphNode → String
timeout_target n =
    or_else (string_field "timeout_node_id" n.raw) (string_or_empty "default_node_id" n.raw)

unfoldable pub invalid_target : GraphNode → String
invalid_target n =
    or_else (string_field "invalid_node_id" n.raw) (string_or_empty "default_node_id" n.raw)

unfoldable pub digits_key : String → String
digits_key id = String.◌++◌ "node." (String.◌++◌ id ".digits")

unfoldable pub collected : GraphNode → String → Variables → Result Position
collected n digits vars =
    if str_eq digits ""
    then err digits_required
    else ok (record {
      next_node_id = string_or_empty "next_node_id" n.raw;
      last_digits = some digits;
      variables = map_set (digits_key n.id) digits (map_set "last_digits" digits vars);
    })

unfoldable pub after_collect :
    GraphNode → AdvanceInput → Outcome → Option String → Variables → Result Position
after_collect n t Outcome.timeout last vars =
    ok (record { next_node_id = timeout_target n; last_digits = last; variables = vars })
after_collect n t Outcome.invalid last vars =
    ok (record { next_node_id = invalid_target n; last_digits = last; variables = vars })
after_collect n t _ last vars = collected n (or_default (trimmed t.digits) "") vars
  where
    trimmed : Option String → Option String
    trimmed none = none
    trimmed (some d) = some (trim d)

unfoldable pub is_end : String → Bool
is_end type =
    str_eq type "transfer_extension"
    || (str_eq type "queue" || (str_eq type "voicemail_drop" || str_eq type "hangup"))

abbrev position : Result Position → Result (Option Position)
position (ok p) = ok (some p)
position (err e) = err e

-- Where a call goes from its current node: `none` if the flow is over.
unfoldable pub leave :
    GraphNode → AdvanceInput → Option String → Variables → Result (Option Position)
leave n t last vars =
    if str_eq n.type "play_prompt"
    then ok (
        some (record {
          next_node_id = string_or_empty "next_node_id" n.raw;
          last_digits = last;
          variables = vars;
        }))
    else if str_eq n.type "play_collect"
    then position (after_collect n t t.outcome last vars)
    else if is_end n.type
    then ok none
    else err (unsupported_completion n.type)
