-- ===== src/Numbering/Types.antt =====
-- The types of apps/api/src/modules/numbering-plans/numbering-plan.types.ts, the tables and the errors.
use manage_call_ai.Base.{ℕ, String, List, Option, none, some}

pub data CallType : Type 0 where
  local national mobile international premium_rate emergency toll_free special : CallType

pub data PlanStatus : Type 0 where
  active inactive : PlanStatus

pub data AssignableType : Type 0 where
  extension sip_trunk tenant : AssignableType

pub record NumberingPlan : Type 0 where
  pub id : String
  pub tenant_id : String
  pub name : String
  pub description : Option String
  pub country_code : Option String
  pub status : PlanStatus
  pub created_at : ℕ
  pub updated_at : ℕ

pub record NumberingRule : Type 0 where
  pub id : String
  pub tenant_id : String
  pub plan_id : String
  pub name : String
  pub pattern : String
  pub call_type : CallType
  pub priority : ℕ
  pub description : Option String
  pub created_at : ℕ

pub record Assignment : Type 0 where
  pub id : String
  pub tenant_id : String
  pub plan_id : String
  pub assignable_type : AssignableType
  pub assignable_id : Option String
  pub created_at : ℕ

pub record CreatePlanInput : Type 0 where
  pub name : String
  pub description : Option String
  pub country_code : Option String

-- A field that is not given is `none`; `null` is `some none`.
pub record UpdatePlanInput : Type 0 where
  pub name : Option String
  pub description : Option (Option String)
  pub country_code : Option (Option String)
  pub status : Option PlanStatus

pub record CreateRuleInput : Type 0 where
  pub name : String
  pub pattern : String
  pub call_type : CallType
  pub priority : Option ℕ
  pub description : Option String

pub record Tables : Type 0 where
  pub plans : List NumberingPlan
  pub rules : List NumberingRule
  pub assignments : List Assignment

-- `unique_violation` and `foreign_key_violation` are the database's.
pub data NumberingError : Type 0 where
  plan_not_found : String → NumberingError
  rule_not_found : String → NumberingError
  unique_violation : NumberingError
  foreign_key_violation : NumberingError

pub data Result : Type 0 where
  ok : Tables → Result
  err : NumberingError → Result

unfoldable pub or_else {ℓ} : {A : Type ℓ} → Option A → A → A
or_else none x = x
or_else (some y) x = y
