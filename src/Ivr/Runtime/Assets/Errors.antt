-- ===== src/Ivr/Runtime/Assets/Errors.antt =====
-- The action of a node is at that node, and fails only by an asset.
use manage_call_ai.Base.{
  String, ◌≡◌, refl, true, Option, none, some, str_eq, if_elim, if_split, is_empty,
}
use manage_call_ai.Json.{string_or_empty, or_default}
use manage_call_ai.Ivr.Graph.{GraphNode}
use manage_call_ai.Ivr.Validation.Visit.Targets.{HasText}
use manage_call_ai.Ivr.Runtime.Types.{IvrRuntimeAction, action_node, Gives, Gives->>=}
use manage_call_ai.Ivr.Runtime.Directory.{
  PromptAsset, Extension, Queue, VoicemailBox, Directory, find_active_prompt, find_active_extension,
  find_active_queue, find_active_voicemail_box,
}
use manage_call_ai.Ivr.Runtime.Assets.{
  found_prompt, require_prompt, found_extension, require_extension_target, found_queue,
  require_queue_target, found_voicemail, require_voicemail_target, prompt_action, collect_action,
  extension_action, queue_action, voicemail_action,
}

abbrev Any {ℓ} : {A : Type ℓ} → A → Type 0
Any a = Unit

-- A field with a text is not empty.
pub HasText-ne :
    (n : GraphNode) (key : String)
    → HasText n key
    → str_eq (string_or_empty key n.raw) "" ≡ true
    → ⊥
HasText-ne n key (s, given, ne) h = cc (rw given at h)

module _ (dir : Directory) (tenant_id : String) where
  found_prompt-Gives :
      (id : String) (o : Option PromptAsset) → Gives Any (found_prompt dir tenant_id id o)
  unfolding found_prompt
  found_prompt-Gives id none = tt
  found_prompt-Gives id (some p) =
      if_elim (Gives Any) (str_eq (or_default p.storage_uri "") "") tt tt

  require_prompt-Gives : (n : GraphNode) → Gives Any (require_prompt dir tenant_id n)
  unfolding require_prompt
  require_prompt-Gives n =
      if_elim (Gives Any) (str_eq (string_or_empty "prompt_id" n.raw) "") tt (
        found_prompt-Gives _ (find_active_prompt dir tenant_id (string_or_empty "prompt_id" n.raw)))

  found_extension-Gives :
      (id : String) (o : Option Extension) → Gives Any (found_extension dir tenant_id id o)
  unfolding found_extension
  found_extension-Gives id none = tt
  found_extension-Gives id (some e) = tt

  found_queue-Gives : (id : String) (o : Option Queue) → Gives Any (found_queue dir tenant_id id o)
  unfolding found_queue
  found_queue-Gives id none = tt
  found_queue-Gives id (some q) = if_elim (Gives Any) (is_empty q.members) tt tt

  found_voicemail-Gives :
      (id : String) (o : Option VoicemailBox) → Gives Any (found_voicemail dir tenant_id id o)
  unfolding found_voicemail
  found_voicemail-Gives id none = tt
  found_voicemail-Gives id (some b) = tt

  abbrev AtNode : GraphNode → IvrRuntimeAction → Type 0
  AtNode n a = action_node a ≡ n.id

  pub prompt_action-Gives : (n : GraphNode) → Gives (AtNode n) (prompt_action dir tenant_id n)
  unfolding prompt_action action_node
  prompt_action-Gives n =
      Gives->>= Any (AtNode n) (require_prompt dir tenant_id n) _ (require_prompt-Gives n)
        (λ a _. refl)

  pub collect_action-Gives : (n : GraphNode) → Gives (AtNode n) (collect_action dir tenant_id n)
  unfolding collect_action action_node
  collect_action-Gives n =
      Gives->>= Any (AtNode n) (require_prompt dir tenant_id n) _ (require_prompt-Gives n)
        (λ a _. refl)

  pub extension_action-Gives : (n : GraphNode) → Gives (AtNode n) (extension_action dir tenant_id n)
  unfolding extension_action require_extension_target action_node
  extension_action-Gives n =
      Gives->>= Any (AtNode n) (require_extension_target dir tenant_id n) _
        (if_elim (Gives Any) (str_eq (string_or_empty "extension_id" n.raw) "") tt (
          found_extension-Gives _
            (find_active_extension dir tenant_id (string_or_empty "extension_id" n.raw))))
        (λ a _. refl)

  pub queue_action-Gives :
      (n : GraphNode) → HasText n "queue_id" → Gives (AtNode n) (queue_action dir tenant_id n)
  unfolding queue_action require_queue_target action_node
  queue_action-Gives n h =
      Gives->>= Any (AtNode n) (require_queue_target dir tenant_id n) _
        (if_split (Gives Any) (str_eq (string_or_empty "queue_id" n.raw) "")
          (λ e. absurd (HasText-ne n "queue_id" h e))
          λ _.
            found_queue-Gives _
              (find_active_queue dir tenant_id (string_or_empty "queue_id" n.raw)))
        (λ a _. refl)

  pub voicemail_action-Gives :
      (n : GraphNode)
      → HasText n "voicemail_box_id"
      → Gives (AtNode n) (voicemail_action dir tenant_id n)
  unfolding voicemail_action require_voicemail_target action_node
  voicemail_action-Gives n h =
      Gives->>= Any (AtNode n) (require_voicemail_target dir tenant_id n) _
        (if_split (Gives Any) (str_eq (string_or_empty "voicemail_box_id" n.raw) "")
          (λ e. absurd (HasText-ne n "voicemail_box_id" h e))
          λ _.
            found_voicemail-Gives _
              (find_active_voicemail_box dir tenant_id (string_or_empty "voicemail_box_id" n.raw)))
        (λ a _. refl)
