-- ===== src/Ivr/NodeType.antt =====
-- The node types of an IVR graph: packages/contracts/src/schemas/ivr-flows.ts and
-- `getNodeCategory` of ivr-flow.validation.ts.
use manage_call_ai.Base.{String, List, [], ◌∷◌, Option, none, some, if◌then◌else◌, str_eq}

abbrev pub ivr_node_types : List String
ivr_node_types =
    "start" ∷ "play_prompt" ∷ "play_collect" ∷ "switch" ∷ "transfer_extension" ∷ "hangup"
    ∷ "business_hours" ∷ "caller_id_match" ∷ "set_variable" ∷ "queue" ∷ "voicemail_drop" ∷ []

abbrev pub bpmn_only_node_types : List String
bpmn_only_node_types =
    "parallelGateway" ∷ "inclusiveGateway" ∷ "eventBasedGateway" ∷ "compensateBoundaryEvent"
    ∷ "subProcess" ∷ "callActivity" ∷ "humanTask" ∷ "userTask" ∷ "serviceTask" ∷ "messageStartEvent"
    ∷ "timerStartEvent" ∷ "errorBoundaryEvent" ∷ "intermediateCatchEvent" ∷ "intermediateThrowEvent"
    ∷ "terminateEndEvent" ∷ []

abbrev pub graph_model_version : String
graph_model_version = "ivr-bpmn-v1"

pub data Category : Type 0 where
  start task gateway end : Category

abbrev pub category_map : List (String × Category)
category_map =
    ("start", start)
    ∷ ("play_prompt", task)
    ∷ ("play_collect", task)
    ∷ ("set_variable", task)
    ∷ ("switch", gateway)
    ∷ ("business_hours", gateway)
    ∷ ("caller_id_match", gateway)
    ∷ ("transfer_extension", end)
    ∷ ("queue", end)
    ∷ ("voicemail_drop", end)
    ∷ ("hangup", end)
    ∷ []

abbrev lookup : String → List (String × Category) → Option Category
lookup key [] = none
lookup key ((k, c) ∷ m) = if str_eq k key then some c else lookup key m

unfoldable pub get_node_category : String → Option Category
get_node_category type = lookup type category_map
