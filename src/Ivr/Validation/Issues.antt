-- ===== src/Ivr/Validation/Issues.antt =====
-- The findings of `validateIvrGraph` in apps/api/src/modules/ivr-flows/ivr-flow.validation.ts: a
-- constructor for each `push`, which determines its `field` and `message`.
use manage_call_ai.Base.{ℕ, String}

pub data Issue : Type 0 where
  not_an_object unsupported_graph_model entry_required nodes_not_array nodes_empty : Issue
  bpmn_field : (field : String) → Issue
  not_a_node : (index : ℕ) → Issue
  duplicate_id : (index : ℕ) (id : String) → Issue
  bpmn_type unsupported_type : (index : ℕ) (type : String) → Issue
  bad_max_retries no_prompt : (id : String) → Issue
  entry_missing : (id : String) → Issue
  loop_detected : Issue
  missing_reference missing_case : (id field target : String) → Issue
  case_not_string : (id key : String) → Issue
  no_cases no_schedule_id no_prefixes no_variable_name no_value no_queue_id no_voicemail_box_id :
      (id : String) → Issue
  unreachable : (id : String) → Issue
