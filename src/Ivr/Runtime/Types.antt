-- ===== src/Ivr/Runtime/Types.antt =====
-- apps/api/src/modules/runtime/ivr-runtime.types.ts, and the errors that
-- apps/api/src/modules/runtime/ivr-runtime.service.ts throws: a constructor for each message.
use manage_call_ai.Base.{ℕ, String, List, Option}
use manage_call_ai.Json.{Number}

pub data RuntimeSessionStatus : Type 0 where
  running completed failed : RuntimeSessionStatus

pub data Strategy : Type 0 where
  simultaneous sequential : Strategy

pub record Member : Type 0 where
  pub extension_number : String
  pub domain : Option String

pub data IvrRuntimeAction : Type 0 where
  play_prompt : (node_id prompt_id prompt_uri : String) → IvrRuntimeAction
  play_collect :
      (node_id prompt_id prompt_uri : String) (max_digits timeout_ms retries : Number)
      → IvrRuntimeAction
  transfer_extension : (node_id target : String) (domain : Option String) → IvrRuntimeAction
  transfer_queue :
      (node_id : String) (strategy : Strategy)
      (ring_timeout_seconds retry_delay_seconds max_wait_seconds : ℕ)
      (music_on_hold overflow_target_type overflow_target_id : Option String)
      (members : List Member)
      → IvrRuntimeAction
  voicemail :
      (node_id mailbox_number : String) (domain greeting_prompt_uri : Option String)
      → IvrRuntimeAction
  hangup : (node_id : String) → IvrRuntimeAction

-- The `node_id` of an action.
unfoldable pub action_node : IvrRuntimeAction → String
action_node (play_prompt id _ _) = id
action_node (play_collect id _ _ _ _ _) = id
action_node (transfer_extension id _ _) = id
action_node (transfer_queue id _ _ _ _ _ _ _ _) = id
action_node (voicemail id _ _ _) = id
action_node (hangup id) = id

pub data Outcome : Type 0 where
  start completed digits timeout invalid : Outcome

pub data Phase : Type 0 where
  start advance : Phase

abbrev pub Variables : Type 0
Variables = List (String × String)

pub record StartInput : Type 0 where
  pub call_id : String
  pub flow_id : String
  pub caller_number : Option String
  pub destination_number : Option String
  pub variables : Option Variables

pub record AdvanceInput : Type 0 where
  pub node_id : String
  pub outcome : Outcome
  pub digits : Option String
  pub variables : Option Variables

pub record IvrRuntimeSession : Type 0 where
  pub id : String
  pub tenant_id : String
  pub flow_id : String
  pub flow_version_id : String
  pub call_id : String
  pub status : RuntimeSessionStatus
  pub current_node_id : Option String
  pub caller_number : Option String
  pub destination_number : Option String
  pub last_digits : Option String
  pub variables_json : Variables
  pub last_action_json : Option IvrRuntimeAction
  pub completed_at : Option ℕ

pub record IvrRuntimeSessionStep : Type 0 where
  pub tenant_id : String
  pub session_id : String
  pub step_index : ℕ
  pub phase : Phase
  pub node_id : Option String
  pub outcome : Outcome
  pub digits : Option String
  pub action_json : Option IvrRuntimeAction
  pub resulting_node_id : Option String
  pub resulting_status : RuntimeSessionStatus
  pub variables_json : Variables

pub data RuntimeError : Type 0 where
  flow_not_published session_not_found session_not_running node_mismatch : RuntimeError
  flow_not_loaded digits_required step_limit : RuntimeError
  current_node_missing node_missing : (id : String) → RuntimeError
  unsupported_completion unsupported_type : (type : String) → RuntimeError
  no_prompt_id no_extension_id no_queue_id no_voicemail_box_id no_schedule_id :
      (id : String) → RuntimeError
  prompt_unavailable extension_unavailable queue_unavailable voicemail_unavailable :
      (id : String) → RuntimeError
  schedule_unavailable : (id : String) → RuntimeError

pub data Result {ℓ} (A : Type ℓ) : Type ℓ where
  ok : A → Result A
  err : RuntimeError → Result A

infixl 5 ◌>>=◌
abbrev pub ◌>>=◌ {ℓ κ} : {A : Type ℓ} {B : Type κ} → Result A → (A → Result B) → Result B
ok a >>= f = f a
err e >>= f = err e

-- The errors that an asset of the tenant causes, missing or inactive, or a node that names none.
abbrev pub IsAssetError : RuntimeError → Type 0
IsAssetError (no_prompt_id id) = Unit
IsAssetError (no_extension_id id) = Unit
IsAssetError (prompt_unavailable id) = Unit
IsAssetError (extension_unavailable id) = Unit
IsAssetError (queue_unavailable id) = Unit
IsAssetError (voicemail_unavailable id) = Unit
IsAssetError (schedule_unavailable id) = Unit
IsAssetError _ = ⊥

-- A result that satisfies `P`, or an asset error.
abbrev pub Gives {ℓ} : {A : Type ℓ} → (A → Type 0) → Result A → Type 0
Gives P (ok a) = P a
Gives P (err e) = IsAssetError e

pub Gives->>= {ℓ κ} :
    {A : Type ℓ} {B : Type κ} (P : A → Type 0) (Q : B → Type 0) (m : Result A) (f : A → Result B)
    → Gives P m
    → ((a : A) → P a → Gives Q (f a))
    → Gives Q (m >>= f)
Gives->>= P Q (ok a) f h k = k a h
Gives->>= P Q (err e) f h k = h
