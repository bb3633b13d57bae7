-- ===== src/Legacy/Chat.antt =====
-- frontend/src/hooks/useChat.ts: one request gives the whole run, whose events and plan are then shown.
pub mod Ends
use v.Prelude.{
  ℕ, suc, String, Bool, true, false, not, ◌||◌, List, [], ◌∷◌, ◌++◌, Option, none, some,
  if◌then◌else◌, ◌===◌, ◌<>◌, show, length, take_last, map, some_of, trim, ◌≡◌, refl, arith,
  length-append, ap, Bool-cases, inl, inr,
}
use v.Js.{
  Value, undefined, str, obj, arr, items, get, truthy, strict_eq, is_str, or_else, is_nullish,
  fields_of, assign, to_string, Fetched, rejected, response, Body, parsed, unreadable, Thrown,
  error, message_of, is_ok,
}
use v.Types.Run.{
  PlanStep, ChatMessage, user, assistant, system, AgentStage, planning, executing, review,
  completed, idle,
}

pub record LegacyChat : Type 0 where
  pub messages : List ChatMessage
  pub plan : List PlanStep
  pub events : List Value
  pub run_id : Value
  pub loading : Bool
  pub failure : Option String
  -- An update that throws is queued: the next render fails, and the page with it.
  pub crashed : Bool

-- The clock at a step: its milliseconds and its ISO text.
pub record Clock : Type 0 where
  pub millis : String
  pub iso : String

abbrev legacy_step : ℕ → Value → Option PlanStep
legacy_step index (str s) = some (record {
  id = str ("step-" <> show (suc index));
  title = str s;
  description = undefined;
  depends_on = undefined;
  status = str "pending";
  tool = undefined;
})
legacy_step index v =
    if is_nullish v
    then none
    else some (record {
      id = or_else (get v "id") (str ("step-" <> show (suc index)));
      title = get v "title";
      description = get v "description";
      depends_on = undefined;
      status = or_else (get v "status") (str "pending");
      tool = get v "tool";
    })

abbrev join_step : Option PlanStep → Option (List PlanStep) → Option (List PlanStep)
join_step none rest = none
join_step (some p) none = none
join_step (some p) (some ps) = some (p ∷ ps)

legacy_steps : ℕ → List Value → Option (List PlanStep)
legacy_steps index [] = some []
legacy_steps index (v ∷ vs) = join_step (legacy_step index v) (legacy_steps (suc index) vs)

-- `normalizePlan`; `none` where it throws: the plan is no array, or a step is null.
unfoldable pub legacy_plan : Value → Option (List PlanStep)
unfolding legacy_steps
legacy_plan (arr xs) = legacy_steps 0 (items xs)
legacy_plan v = if is_nullish v then some [] else none

-- `event.step_id || event.stepId`
abbrev event_step : Value → Value
event_step event = or_else (get event "step_id") (get event "stepId")

unfoldable pub mark_legacy : Value → List PlanStep → List PlanStep
mark_legacy event plan =
    if truthy (event_step event)
    then map
        (λ (step : PlanStep).
          if strict_eq step.id (event_step event)
          then record step {
            status =
                if is_str (get event "status") "completed" then str "completed" else str "active";
          }
          else step)
        plan
    else plan

-- `{ ...event, id: event.id || `${Date.now()}-${current.length}` }`
unfoldable pub with_id : String → ℕ → Value → Value
with_id millis count event =
    obj
      (assign "id" (or_else (get event "id") (str (millis <> "-" <> show count))) (fields_of event))

-- `appendEvent`, for an event that is not null.
unfoldable pub append_legacy : Clock → Value → LegacyChat → LegacyChat
unfolding mark_legacy with_id
append_legacy t event s = record s {
  events = take_last 39 s.events ++ with_id t.millis (length s.events) event ∷ [];
  plan = mark_legacy event s.plan;
}

-- `forEach(appendEvent)`: the state reached, and whether a null event threw. Its `setEvents` is queued
-- before that, and its update will read the id of null.
unfoldable pub append_each : Clock → List Value → LegacyChat → LegacyChat × Bool
unfolding append_legacy
append_each t [] s = (s, false)
append_each t (e ∷ es) s =
    let rest = append_each t es (append_legacy t e s) in
    if is_nullish e then (record s { crashed = true }, true) else rest

-- A list of events in which one is null.
abbrev pub has_null : Value → Bool
has_null (arr xs) = some_of is_nullish (items xs)
has_null v = false

abbrev pub append_events : Clock → Value → LegacyChat → LegacyChat × Bool
append_events t (arr xs) s = append_each t (items xs) s
append_events t v s = (s, truthy v)

-- The message of a request, or nothing where `sendMessage` returns at once.
unfoldable pub legacy_request : String → LegacyChat → Option String
legacy_request text s = if trim text === "" || s.loading then none else some (trim text)

abbrev user_message : Clock → String → ChatMessage
user_message t text = record {
  id = "user-" <> t.millis;
  role = user;
  content = text;
  timestamp = t.iso;
  run_id = undefined;
  stage = none;
}

-- `sendMessage` up to its request.
unfoldable pub begin_legacy : Clock → String → LegacyChat → LegacyChat
begin_legacy t message s = record s {
  failure = none;
  loading = true;
  messages = s.messages ++ user_message t message ∷ [];
}

abbrev answer_text : Value → String
answer_text answer =
    if truthy answer
    then to_string answer
    else "Run accepted. Watch the execution rail for updates."

abbrev pub answer_message : Clock → Value → ChatMessage
answer_message t body = record {
  id = "assistant-" <> t.millis;
  role = assistant;
  content = answer_text (get body "answer");
  timestamp = t.iso;
  run_id = get body "run_id";
  stage = some (if is_str (get body "status") "completed" then completed else executing);
}

-- The `catch` block and the `finally`.
unfoldable pub fail_legacy : Clock → Thrown → LegacyChat → LegacyChat
unfolding message_of
fail_legacy t e s = record s {
  failure = some (message_of e "Could not reach the agent API");
  loading = false;
  messages =
      s.messages
      ++ record {
        id = "error-" <> t.millis;
        role = system;
        content = "The run could not be started. Check the API URL and try again.";
        timestamp = t.iso;
        run_id = undefined;
        stage = some AgentStage.error;
      }
        ∷ [];
}

abbrev pub after_events : Clock → Value → LegacyChat × Bool → LegacyChat
after_events t body (s, true) = fail_legacy t (error "TypeError") s
after_events t body (s, false) = record s {
  loading = false;
  messages = s.messages ++ answer_message t body ∷ [];
}

abbrev pub after_plan : Clock → Value → LegacyChat → Option (List PlanStep) → LegacyChat
after_plan t body s none = fail_legacy t (error "TypeError") s
after_plan t body s (some plan) =
    after_events t body (append_events t (get body "events") (record s { plan = plan }))

abbrev pub accept_body : Clock → Body Value → LegacyChat → LegacyChat
accept_body t (unreadable e) s = fail_legacy t e s
accept_body t (parsed body) s =
    if is_nullish body
    then fail_legacy t (error "TypeError") s
    else after_plan t body (record s { run_id = get body "run_id" }) (legacy_plan (get body "plan"))

-- `sendMessage` from the answer of its request on. A `TypeError` has the engine's text, for which its
-- name stands here.
unfoldable pub end_legacy : Clock → Fetched Value → LegacyChat → LegacyChat
unfolding fail_legacy append_each legacy_plan
end_legacy t (rejected e) s = fail_legacy t e s
end_legacy t (response status body) s =
    let accepted = accept_body t body s in
    if is_ok status
    then accepted
    else fail_legacy t (error ("Request failed with " <> show status)) s

abbrev is_set : Option String → Bool
is_set none = false
is_set (some s) = not (s === "")

abbrev has_steps : List PlanStep → Bool
has_steps [] = false
has_steps (_ ∷ _) = true

-- `stage`
unfoldable pub legacy_stage : LegacyChat → AgentStage
legacy_stage s =
    if is_set s.failure
    then AgentStage.error
    else if s.loading
    then (if has_steps s.plan then executing else planning)
    else if some_of (λ e. is_str (or_else (get e "type") (get e "kind")) "review") s.events
    then review
    else idle
