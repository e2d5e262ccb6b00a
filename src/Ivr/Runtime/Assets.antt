-- ===== src/Ivr/Runtime/Assets.antt =====
-- The `require*` methods of apps/api/src/modules/runtime/ivr-runtime.service.ts and the actions that
-- their results go into.
pub mod Errors
use manage_call_ai.Base.{String, List, [], ◌∷◌, Option, none, some, if◌then◌else◌, str_eq, is_empty}
use manage_call_ai.Json.{nat, get, number_of, string_or_empty, or_default}
use manage_call_ai.Ivr.Graph.{GraphNode}
use manage_call_ai.Ivr.Runtime.Types.{
  IvrRuntimeAction, play_prompt, play_collect, transfer_extension, transfer_queue, voicemail,
  no_prompt_id, no_extension_id, no_queue_id, no_voicemail_box_id, prompt_unavailable,
  extension_unavailable, queue_unavailable, voicemail_unavailable, Result, ok, err, ◌>>=◌,
}
use manage_call_ai.Ivr.Runtime.Directory.{
  PromptAsset, Extension, Queue, VoicemailBox, Directory, find_active_prompt, find_active_extension,
  find_active_queue, find_active_voicemail_box,
}

module _ (dir : Directory) (tenant_id : String) where
  unfoldable pub found_prompt : String → Option PromptAsset → Result (String × String)
  found_prompt id none = err (prompt_unavailable id)
  found_prompt id (some p) =
      let uri = or_default p.storage_uri "" in
      if str_eq uri "" then err (prompt_unavailable id) else ok (id, uri)

  unfoldable pub require_prompt : GraphNode → Result (String × String)
  require_prompt n =
      let id = string_or_empty "prompt_id" n.raw in
      if str_eq id ""
      then err (no_prompt_id n.id)
      else found_prompt id (find_active_prompt dir tenant_id id)

  unfoldable pub found_extension : String → Option Extension → Result Extension
  found_extension id none = err (extension_unavailable id)
  found_extension id (some e) = ok e

  unfoldable pub require_extension_target : GraphNode → Result Extension
  require_extension_target n =
      let id = string_or_empty "extension_id" n.raw in
      if str_eq id ""
      then err (no_extension_id n.id)
      else found_extension id (find_active_extension dir tenant_id id)

  unfoldable pub found_queue : String → Option Queue → Result Queue
  found_queue id none = err (queue_unavailable id)
  found_queue id (some q) = if is_empty q.members then err (queue_unavailable id) else ok q

  unfoldable pub require_queue_target : GraphNode → Result Queue
  require_queue_target n =
      let id = string_or_empty "queue_id" n.raw in
      if str_eq id ""
      then err (no_queue_id n.id)
      else found_queue id (find_active_queue dir tenant_id id)

  unfoldable pub found_voicemail : String → Option VoicemailBox → Result VoicemailBox
  found_voicemail id none = err (voicemail_unavailable id)
  found_voicemail id (some b) = ok b

  unfoldable pub require_voicemail_target : GraphNode → Result VoicemailBox
  require_voicemail_target n =
      let id = string_or_empty "voicemail_box_id" n.raw in
      if str_eq id ""
      then err (no_voicemail_box_id n.id)
      else found_voicemail id (find_active_voicemail_box dir tenant_id id)

  unfoldable pub prompt_action : GraphNode → Result IvrRuntimeAction
  prompt_action n = do (id, uri) ← require_prompt n; ok (play_prompt n.id id uri)

  unfoldable pub collect_action : GraphNode → Result IvrRuntimeAction
  collect_action n = do
    (id, uri) ← require_prompt n
    ok (
        play_collect n.id id uri (or_default (number_of (get "max_digits" n.raw)) (nat 1))
          (or_default (number_of (get "timeout_ms" n.raw)) (nat 5000))
          (or_default (number_of (get "retries" n.raw)) (nat 0)))

  unfoldable pub extension_action : GraphNode → Result IvrRuntimeAction
  extension_action n = do
    target ← require_extension_target n
    ok (transfer_extension n.id target.extension_number target.directory_domain)

  unfoldable pub queue_action : GraphNode → Result IvrRuntimeAction
  queue_action n = do
    q ← require_queue_target n
    ok (
        transfer_queue n.id q.strategy q.ring_timeout_seconds q.retry_delay_seconds
          q.max_wait_seconds q.music_on_hold q.overflow_target_type q.overflow_target_id q.members)

  unfoldable pub voicemail_action : GraphNode → Result IvrRuntimeAction
  voicemail_action n = do
    box ← require_voicemail_target n
    ok (voicemail n.id box.mailbox_number box.directory_domain box.greeting_prompt_uri)
