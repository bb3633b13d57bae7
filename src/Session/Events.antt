-- ===== src/Session/Events.antt =====
-- useChat.ts: `appendEvent`, the stream's `timeline` listener and its `onerror`.
use v.Prelude.{
  Bool, true, false, ◌&&◌, not, List, [], ◌∷◌, ◌++◌, map, Option, none, some, if◌then◌else◌, ◌<>◌,
  take_last, some_of,
}
use v.Js.{Value, str, truthy, strict_eq, get, as_array, is_str, is_nullish, or_else, undefined}
use v.Types.Run.{ChatMessage, assistant, completed, PlanStep}
use v.Plan.{normalize_plan}
use v.Timeline.{normalize_timeline_event, payload_of, string_or}
use v.Session.{ChatState, Stamp, close_stream}

-- A truthy sequence that the timeline already has.
abbrev pub is_replay : Value → List Value → Bool
is_replay event current =
    truthy (get event "sequence")
    && some_of (λ item. strict_eq (get item "sequence") (get event "sequence")) current

-- `[...current.slice(-39), event]`, unless the event is replayed.
unfoldable pub push_event : Value → List Value → List Value
push_event event current =
    if is_replay event current then current else take_last 39 current ++ event ∷ []

-- The `plan.created` part; `none` where `normalizePlan` throws.
unfoldable pub plan_created : Value → List PlanStep → Option (List PlanStep)
plan_created event current =
    if is_str (get event "type") "plan.created"
    then elim (as_array (get (payload_of event) "steps")) [
      | some _ ↦ normalize_plan (payload_of event)
      | none ↦ some current
    ]
    else some current

abbrev pub marked_status : Value → Value
marked_status event =
    if is_str (get event "status") "completed" then str "completed" else str "active"

-- The step that the event names becomes active or completed.
unfoldable pub mark_step : Value → List PlanStep → List PlanStep
mark_step event current =
    let step_id = or_else (get event "step_id") (get event "stepId") in
    if truthy step_id
    then map
        (λ step.
          if strict_eq step.id step_id then record step { status = marked_status event } else step)
        current
    else current

-- `review?.comment`
abbrev review_comment : Value → Value
review_comment review = if is_nullish review then undefined else get review "comment"

-- What both ends of a run do first.
abbrev pub settle : ChatState → ChatState
settle s = close_stream (record s { terminal = true; loading = false; approvals = [] })

abbrev pub completion_message : Stamp → Value → Value → ChatMessage
completion_message t captured event = record {
  id = "assistant-" <> t.millis;
  role = assistant;
  content =
      string_or (review_comment (get (payload_of event) "review"))
        "Run completed. Review the timeline for details.";
  timestamp = t.iso;
  run_id = captured;
  stage = some completed;
}

unfoldable pub finish_completed : Stamp → Value → Value → ChatState → ChatState
finish_completed t captured event s =
    if is_str (get event "type") "run.completed"
    then record (settle s) { messages = s.messages ++ completion_message t captured event ∷ [] }
    else s

unfoldable pub finish_failed : Value → ChatState → ChatState
finish_failed event s =
    if is_str (get event "type") "run.failed"
    then record (settle s) {
      error = some (string_or (get (payload_of event) "message") "The agent run failed.");
    }
    else s

-- What follows the timeline's own update, once the new plan is known.
unfoldable pub apply_event : Stamp → Value → Value → List PlanStep → ChatState → ChatState
unfolding finish_completed finish_failed
apply_event t captured event plan s =
    finish_failed event
      (finish_completed t captured event (record s { plan = mark_step event plan }))

-- From the new plan on: where `normalizePlan` threw, the rest is skipped.
abbrev pub with_plan : Stamp → Value → Value → Option (List PlanStep) → ChatState → ChatState × Bool
with_plan t captured event none s = (s, true)
with_plan t captured event (some plan) s = (apply_event t captured event plan s, false)

abbrev pub append_normalized : Stamp → Value → Option Value → ChatState → ChatState × Bool
append_normalized t captured none s = (s, true)
append_normalized t captured (some event) s =
    with_plan t captured event (plan_created event s.plan)
      (record s { events = push_event event s.events })

-- `appendEvent`, whose closure holds the run `captured`. The second component tells whether it threw;
-- the updates before the throw stay queued.
unfoldable pub append_event : Stamp → Value → Value → ChatState → ChatState × Bool
append_event t captured raw s = append_normalized t captured (normalize_timeline_event raw) s

abbrev pub unreadable_event : ChatState × Bool → ChatState
unreadable_event (s, threw) =
    if threw then record s { error = some "Received an unreadable timeline event." } else s

-- The `timeline` listener; `none` where `JSON.parse` throws.
unfoldable pub on_timeline : Stamp → Value → Option Value → ChatState → ChatState
on_timeline t captured none s = unreadable_event (s, true)
on_timeline t captured (some raw) s = unreadable_event (append_event t captured raw s)

-- `source.onerror`, with whether the source has closed for good.
unfoldable pub on_stream_error : Bool → ChatState → ChatState
on_stream_error closed s =
    if not s.terminal && closed
    then record s {
      error =
          some "The live timeline disconnected. Reopen the run to resume from its saved history.";
      loading = false;
    }
    else s
