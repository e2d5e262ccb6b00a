-- ===== src/Ivr/Runtime/Directory.antt =====
-- The tables that the IVR runtime reads, and the `SELECT`s of
-- apps/api/src/modules/runtime/ivr-runtime.repository.ts as reads of lists of rows, for the one id
-- that the service asks for. A row carries the columns that the statements join to it.
use manage_call_ai.Base.{ℕ, String, Bool, ◌&&◌, List, Option, str_eq, find}
use manage_call_ai.Schedule.Types.{Schedule, is_active_schedule}
use manage_call_ai.Ivr.Runtime.Types.{Strategy, Member}

pub record PromptAsset : Type 0 where
  pub id : String
  pub tenant_id : String
  pub active : Bool
  pub storage_uri : Option String

pub record Extension : Type 0 where
  pub id : String
  pub tenant_id : String
  pub active : Bool
  pub extension_number : String
  pub directory_domain : Option String

-- `members` are the active extensions of the queue, by position.
pub record Queue : Type 0 where
  pub id : String
  pub tenant_id : String
  pub active : Bool
  pub strategy : Strategy
  pub ring_timeout_seconds : ℕ
  pub retry_delay_seconds : ℕ
  pub max_wait_seconds : ℕ
  pub music_on_hold : Option String
  pub overflow_target_type : Option String
  pub overflow_target_id : Option String
  pub members : List Member

pub record VoicemailBox : Type 0 where
  pub id : String
  pub tenant_id : String
  pub active : Bool
  pub mailbox_number : String
  pub directory_domain : Option String
  pub greeting_prompt_uri : Option String

pub record Directory : Type 0 where
  pub prompt_assets : List PromptAsset
  pub extensions : List Extension
  pub queues : List Queue
  pub voicemail_boxes : List VoicemailBox
  pub schedules : List Schedule

module _ (d : Directory) (tenant_id id : String) where
  unfoldable pub find_active_prompt : Option PromptAsset
  find_active_prompt =
      find (λ r. str_eq r.tenant_id tenant_id && (str_eq r.id id && r.active)) d.prompt_assets

  unfoldable pub find_active_extension : Option Extension
  find_active_extension =
      find (λ r. str_eq r.tenant_id tenant_id && (str_eq r.id id && r.active)) d.extensions

  unfoldable pub find_active_queue : Option Queue
  find_active_queue =
      find (λ r. str_eq r.tenant_id tenant_id && (str_eq r.id id && r.active)) d.queues

  unfoldable pub find_active_voicemail_box : Option VoicemailBox
  find_active_voicemail_box =
      find (λ r. str_eq r.tenant_id tenant_id && (str_eq r.id id && r.active)) d.voicemail_boxes

  unfoldable pub find_active_schedule : Option Schedule
  find_active_schedule =
      find (λ r. str_eq r.tenant_id tenant_id && (str_eq r.id id && is_active_schedule r.status))
        d.schedules
