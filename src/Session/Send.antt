-- ===== src/Session/Send.antt =====
-- useChat.ts: `sendMessage`, in two parts: up to its `fetch`, and from the outcome on.
use v.Prelude.{
  ℕ, String, Bool, true, false, ◌||◌, ◌&&◌, [], ◌∷◌, ◌++◌, Option, none, some, if◌then◌else◌, ◌<>◌,
  ◌==◌, show, trim, ◌===◌, strip_slash,
}
use v.Js.{
  Value, str, undefined, Thrown, Fetched, rejected, response, Body, parsed, unreadable, is_ok,
  message_of, truthy, get, is_str, is_nullish, or_else, to_string,
}
use v.Types.Run.{
  ApprovalMode, ChatMessage, user, assistant, system, AgentStage, completed, planning, PlanStep,
}
use v.Session.{ChatState, Stamp, close_stream}

-- What `sendMessage` holds across its `await`s: the body of its request, and the run that its
-- `appendEvent` closed over.
pub record Pending : Type 0 where
  pub message : String
  pub approval_mode : ApprovalMode
  pub captured_run : Value

abbrev user_message : Stamp → String → ChatMessage
user_message t message = record {
  id = "user-" <> t.millis;
  role = user;
  content = message;
  timestamp = t.iso;
  run_id = undefined;
  stage = none;
}

-- The state that a send which passes the guard leaves while it waits.
abbrev pub started : Stamp → String → ChatState → ChatState
started t message s = record (close_stream s) {
  terminal = false;
  error = none;
  loading = true;
  plan = [];
  events = [];
  approvals = [];
  messages = s.messages ++ user_message t message ∷ [];
}

abbrev pub pending_of : String → ChatState → Pending
pending_of message s = record {
  message = message;
  approval_mode = s.approval_mode;
  captured_run = s.run_id;
}

-- `!message || loading`
abbrev pub refuses : String → ChatState → Bool
refuses message s = message === "" || s.loading

-- The guard, the reset of the state and the request; `none` where it returns at once.
unfoldable pub begin_send : Stamp → String → ChatState → Option (ChatState × Pending)
begin_send t text s =
    if refuses (trim text) s then none else some (started t (trim text) s, pending_of (trim text) s)

-- The `catch` block.
unfoldable pub send_failed : Stamp → Thrown → ChatState → ChatState
send_failed t e s =
    let detail = message_of e "Could not reach the agent API" in
    record s {
      error = some detail;
      messages =
          s.messages
          ++ record {
            id = "error-" <> t.millis;
            role = system;
            content = detail;
            timestamp = t.iso;
            run_id = undefined;
            stage = some AgentStage.error;
          }
            ∷ [];
      loading = false;
    }

-- `body?.detail`, for a body that is `null` where it cannot be read.
abbrev detail_of : Body Value → Value
detail_of (unreadable _) = undefined
detail_of (parsed body) = if is_nullish body then undefined else get body "detail"

-- The error that a response which is not ok throws.
refusal : ℕ → Body Value → Thrown
refusal status body =
    if status == 401
    then Thrown.error
        "Your Agent Room session has expired. Reconnect GitHub from the desktop setup screen, then reopen the project."
    else Thrown.error
        (to_string (or_else (detail_of body) (str ("Agent request failed with " <> show status))))

answer_message : Stamp → Value → ChatMessage
answer_message t data' = record {
  id = "assistant-" <> t.millis;
  role = assistant;
  content = (to_string (get data' "answer"));
  timestamp = t.iso;
  run_id = get data' "run_id";
  stage = some completed;
}

-- A chat answer: no stream is opened.
chat_answer : Stamp → Value → ChatState → ChatState
unfolding answer_message
chat_answer t data' s =
    if is_str (get data' "status") "completed" && truthy (get data' "answer")
    then record s {
      terminal = true;
      loading = false;
      messages = s.messages ++ answer_message t data' ∷ [];
    }
    else record s {
      terminal = true;
      loading = false;
      error = some (
          to_string (
            or_else (get data' "answer")
              (str "The chat model did not return an answer. Please retry in a moment.")));
    }

abbrev pub project_text : String
project_text =
    "Понял. Сначала соберу контекст и уточню важные детали, затем предложу следующий шаг."

abbrev pub project_message : Stamp → Value → ChatMessage
project_message t data' = record {
  id = "project-" <> t.millis;
  role = assistant;
  content = project_text;
  timestamp = t.iso;
  run_id = get data' "run_id";
  stage = some planning;
}

pub project_step : String → Value → PlanStep
project_step message data' = record {
  id = str ("task-" <> to_string (get data' "run_id"));
  title = str message;
  description = str "Clarifying the scope before any project changes.";
  depends_on = undefined;
  status = str "active";
  tool = str "Clarify";
}

-- The event source of a run, whose listener keeps the `appendEvent` of the send.
abbrev open_stream : String → Pending → Value → ChatState → ChatState
open_stream api p data' s = record s {
  stream = some (record {
    url = strip_slash api <> "/v1/runs/" <> to_string (get data' "run_id") <> "/stream";
    captured_run = p.captured_run;
  });
}

accepted : String → Stamp → Pending → Value → ChatState → ChatState
unfolding chat_answer project_step
accepted api t p data' s =
    let s' = record s { run_id = get data' "run_id" } in
    if is_str (get data' "mode") "chat"
    then chat_answer t data' s'
    else if is_str (get data' "mode") "project"
    then open_stream api p data' (record s' {
      plan = project_step p.message data' ∷ [];
      messages = s'.messages ++ project_message t data' ∷ [];
    })
    else open_stream api p data' s'

accepted_body : String → String → Stamp → Pending → Body Value → ChatState → ChatState
unfolding accepted send_failed
accepted_body api type_error t p (unreadable e) s = send_failed t e s
accepted_body api type_error t p (parsed data') s =
    if is_nullish data' then send_failed t (Thrown.error type_error) s else accepted api t p data' s

-- The rest of `sendMessage`, from the outcome of its `fetch`.
unfoldable pub finish_send :
    String → String → Stamp → Pending → Fetched Value → ChatState → ChatState
unfolding accepted_body refusal
finish_send api type_error t p (rejected e) s = send_failed t e s
finish_send api type_error t p (response status body) s =
    if is_ok status
    then accepted_body api type_error t p body s
    else send_failed t (refusal status body) s
