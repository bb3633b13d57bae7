-- ===== src/Session.antt =====
-- frontend/client/src/hooks/useChat.ts: the state of the `useChat` hook. React applies the queued
-- updates of one handler in order, so a handler is a function from state to state. The module's
-- children are the handlers; `Session.System` puts them together.
pub mod Events
pub mod Approvals
pub mod Send
pub mod System
pub mod Frames
pub mod Bounds
pub mod Lifecycle
pub mod History
pub mod Stage
pub mod Ends
use v.Prelude.{ℕ, String, Bool, false, List, [], ◌∷◌, Option, none, some}
use v.Js.{Value, undefined}
use v.Types.Run.{AgentStage, idle, ApprovalMode, confirm_each, ChatMessage, assistant, PlanStep}

-- The clock as one handler reads it: `Date.now()`, in decimal, and `new Date().toISOString()`.
pub record Stamp : Type 0 where
  pub millis : String
  pub iso : String

-- An `EventSource`: its address, and the run that its listeners closed over.
pub record Stream : Type 0 where
  pub url : String
  pub captured_run : Value

pub record ChatState : Type 0 where
  pub messages : List ChatMessage
  pub plan : List PlanStep
  pub events : List Value
  pub run_id : Value
  pub approvals : List Value
  pub loading : Bool
  pub error : Option String
  pub approval_mode : ApprovalMode
  pub stream : Option Stream
  pub terminal : Bool

unfoldable pub initial_message : String → ChatMessage
initial_message iso = record {
  id = "intro";
  role = assistant;
  content =
      "Здравствуйте. Я помогу разобраться с проектом, обсудить идею или подготовить работу над кодом — в удобном для вас темпе.";
  timestamp = iso;
  run_id = undefined;
  stage = some idle;
}

unfoldable pub initial_chat : String → ChatState
initial_chat iso = record {
  messages = initial_message iso ∷ [];
  plan = [];
  events = [];
  run_id = undefined;
  approvals = [];
  loading = false;
  error = none;
  approval_mode = confirm_each;
  stream = none;
  terminal = false;
}

abbrev pub close_stream : ChatState → ChatState
close_stream s = record s { stream = none }
