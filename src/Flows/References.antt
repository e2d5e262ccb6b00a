-- ===== src/Flows/References.antt =====
-- `IvrFlowService.validate`: the checks of a graph against the tenant's extensions, prompts, schedules, queues
-- and voicemail boxes. A `findActive…` of the repository takes all ids at once; here each node asks for its id.
pub mod Available
use Prim.Native.Char.{code}
use Prim.Native.String.{[] as empty, ◌∷◌ as char}
use manage_call_ai.Base.{
  ℕ, zero, suc, String, Bool, true, false, not, ◌&&◌, ◌||◌, List, [], ◌∷◌, ◌++◌, Option, none, some,
  if◌then◌else◌, str_eq, ◌==◌, flat_map, is_empty,
}
use manage_call_ai.Json.{
  Json, str, obj, Props, get, array_of, string_field, string_or_empty, or_default,
}
use manage_call_ai.Text.{is_digit}
use manage_call_ai.Schedule.Types.{Schedule}
use manage_call_ai.Ivr.Runtime.Directory.{
  PromptAsset, Extension, Queue, VoicemailBox, Directory, find_active_prompt, find_active_extension,
  find_active_queue, find_active_voicemail_box, find_active_schedule,
}

-- A constructor for each `push`, which determines its field and message.
pub data ReferenceError : Type 0 where
  extension_not_active prompt_not_active prompt_without_uri schedule_not_active :
      (node_id id : String) → ReferenceError
  queue_not_active queue_without_members voicemail_not_active :
      (node_id id : String) → ReferenceError
  invalid_prefix : (node_id : String) (prefix : Json) → ReferenceError
  no_variable_name no_value : (node_id : String) → ReferenceError

abbrev pub objects_of : List Json → List Props
objects_of [] = []
objects_of (obj ps ∷ vs) = ps ∷ objects_of vs
objects_of (v ∷ vs) = objects_of vs

-- `getGraphNodes`; a value that is no object has no type that the filters look for.
unfoldable pub get_graph_nodes : Props → List Props
get_graph_nodes graph = objects_of (or_default (array_of (get "nodes" graph)) [])

abbrev pub is_text : String → Option String → Bool
is_text text none = false
is_text text (some s) = str_eq s text

-- `n.type === type`.
abbrev pub is_type : String → Props → Bool
is_type type n = is_text type (string_field "type" n)

abbrev pub node_id : Props → String
node_id n = string_or_empty "id" n

-- What a node of the type refers to, if it is a text.
abbrev pub reference : Bool → String → Props → Option String
reference applies key n = if applies then string_field key n else none

-- `/^\+?[0-9]{1,20}$/`: at most so many digits.
unfoldable pub digits_up_to : ℕ → String → Bool
digits_up_to n empty = true
digits_up_to zero (char c s) = false
digits_up_to (suc n) (char c s) = is_digit c && digits_up_to n s

unfoldable pub is_number : String → Bool
unfolding digits_up_to
is_number s = not (str_eq s "") && digits_up_to 20 s

unfoldable pub is_caller_id_prefix : String → Bool
unfolding is_number digits_up_to
is_caller_id_prefix empty = false
is_caller_id_prefix (char c s) = if code c == 43 then is_number s else is_number (char c s)

abbrev pub prefix_error : String → Json → List ReferenceError
prefix_error id (str s) = if is_caller_id_prefix s then [] else invalid_prefix id (str s) ∷ []
prefix_error id v = invalid_prefix id v ∷ []

unfoldable pub prefix_errors : Props → List ReferenceError
prefix_errors n =
    if is_type "caller_id_match" n
    then flat_map (prefix_error (node_id n)) (or_default (array_of (get "prefixes" n)) [])
    else []

abbrev pub variable_name_error : String → Option String → List ReferenceError
variable_name_error id none = no_variable_name id ∷ []
variable_name_error id (some s) = if str_eq s "" then no_variable_name id ∷ [] else []

abbrev pub value_error : String → Option String → List ReferenceError
value_error id none = no_value id ∷ []
value_error id (some s) = []

unfoldable pub variable_errors : Props → List ReferenceError
variable_errors n =
    if is_type "set_variable" n
    then variable_name_error (node_id n) (string_field "variable_name" n)
      ++ value_error (node_id n) (string_field "value" n)
    else []

module _ (dir : Directory) (tenant_id : String) where
  abbrev pub extension_error : String → String → Option Extension → List ReferenceError
  extension_error node id none = extension_not_active node id ∷ []
  extension_error node id (some e) = []

  abbrev pub extension_given : String → Option String → List ReferenceError
  extension_given node none = []
  extension_given node (some id) = extension_error node id (find_active_extension dir tenant_id id)

  unfoldable pub extension_errors : Props → List ReferenceError
  extension_errors n =
      extension_given (node_id n) (reference (is_type "transfer_extension" n) "extension_id" n)

  abbrev pub prompt_error : String → String → Option PromptAsset → List ReferenceError
  prompt_error node id none = prompt_not_active node id ∷ []
  prompt_error node id (some p) =
      if str_eq (or_default p.storage_uri "") "" then prompt_without_uri node id ∷ [] else []

  abbrev pub prompt_given : String → Option String → List ReferenceError
  prompt_given node none = []
  prompt_given node (some id) = prompt_error node id (find_active_prompt dir tenant_id id)

  unfoldable pub prompt_errors : Props → List ReferenceError
  prompt_errors n =
      prompt_given (node_id n)
        (reference (is_type "play_prompt" n || is_type "play_collect" n) "prompt_id" n)

  abbrev pub schedule_error : String → String → Option Schedule → List ReferenceError
  schedule_error node id none = schedule_not_active node id ∷ []
  schedule_error node id (some s) = []

  abbrev pub schedule_given : String → Option String → List ReferenceError
  schedule_given node none = []
  schedule_given node (some id) = schedule_error node id (find_active_schedule dir tenant_id id)

  unfoldable pub schedule_errors : Props → List ReferenceError
  schedule_errors n =
      schedule_given (node_id n) (reference (is_type "business_hours" n) "schedule_id" n)

  abbrev pub queue_error : String → String → Option Queue → List ReferenceError
  queue_error node id none = queue_not_active node id ∷ []
  queue_error node id (some q) =
      if is_empty q.members then queue_without_members node id ∷ [] else []

  abbrev pub queue_given : String → Option String → List ReferenceError
  queue_given node none = []
  queue_given node (some id) = queue_error node id (find_active_queue dir tenant_id id)

  unfoldable pub queue_errors : Props → List ReferenceError
  queue_errors n = queue_given (node_id n) (reference (is_type "queue" n) "queue_id" n)

  abbrev pub voicemail_error : String → String → Option VoicemailBox → List ReferenceError
  voicemail_error node id none = voicemail_not_active node id ∷ []
  voicemail_error node id (some b) = []

  abbrev pub voicemail_given : String → Option String → List ReferenceError
  voicemail_given node none = []
  voicemail_given node (some id) =
      voicemail_error node id (find_active_voicemail_box dir tenant_id id)

  unfoldable pub voicemail_errors : Props → List ReferenceError
  voicemail_errors n =
      voicemail_given (node_id n) (reference (is_type "voicemail_drop" n) "voicemail_box_id" n)

  -- The loops of `validate`, one after the other.
  unfoldable pub reference_errors : List Props → List ReferenceError
  reference_errors nodes =
      flat_map extension_errors nodes
      ++ (flat_map prompt_errors nodes
          ++ (flat_map schedule_errors nodes
              ++ (flat_map prefix_errors nodes
                  ++ (flat_map variable_errors nodes
                      ++ (flat_map queue_errors nodes ++ flat_map voicemail_errors nodes)))))
