-- ===== src/Types/Run.antt =====
-- frontend/client/src/types.ts, the chat rail: stages, approvals, messages, plan steps.
use v.Prelude.{String, Option, Bool}
use v.Js.{Value}

pub data AgentStage : Type 0 where
  planning executing review completed error idle : AgentStage

pub data ApprovalMode : Type 0 where
  plan confirm_each allow_workspace_edits smart_development all_approvals_for_run : ApprovalMode

pub data ApprovalGrantScope : Type 0 where
  once run workspace all_approved_run : ApprovalGrantScope

-- The steps come unchecked from the server, so their properties are values.
pub record PlanStep : Type 0 where
  pub id : Value
  pub title : Value
  pub description : Value
  pub depends_on : Value
  pub status : Value
  pub tool : Value

pub data Role : Type 0 where
  user assistant system : Role

pub record ChatMessage : Type 0 where
  pub id : String
  pub role : Role
  pub content : String
  pub timestamp : String
  pub run_id : Value
  pub stage : Option AgentStage

pub record ApprovalRequest : Type 0 where
  pub id : String
  pub run_id : String
  pub action_type : String
  pub scope : Value
  pub status : String
  pub requested_at : String
  pub decided_at : Option String
  pub expires_at : Option String

pub record SocketState (Event : Type 0) : Type 0 where
  pub connected : Bool
  pub last_event : Option Event
  pub error : Option String
