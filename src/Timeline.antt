-- ===== src/Timeline.antt =====
-- frontend/client/src/hooks/useChat.ts, `eventMessage` and `normalizeTimelineEvent`: an event of the
-- run, as the stream delivers it, becomes the entry of the timeline.
use v.Prelude.{String, Option, none, some, if◌then◌else◌, ◌<>◌}
use v.Js.{
  Value, Fields, str, obj, undefined, truthy, get, assign, spread_fields, fields_of, as_string,
  is_str, or_else, is_nullish, to_string,
}

-- `typeof v === 'string' ? v : fallback`
abbrev pub string_or : Value → String → String
string_or v fallback = elim (as_string v) [ none ↦ fallback | some s ↦ s ]

-- `event.payload || {}`
abbrev pub payload_of : Value → Value
payload_of event = or_else (get event "payload") (obj Fields.end)

-- The texts for the known types of event; the last is the answer for any other.
typed_message : Value → Value → Value
typed_message event payload =
    if is_str (get event "type") "plan.created"
    then str "Plan generated and ready for execution."
    else if is_str (get event "type") "run.created"
    then str "Run policy recorded."
    else if is_str (get event "type") "run.started"
    then str "Run started."
    else if is_str (get event "type") "tool.result"
    then str "Tool execution stage completed."
    else if is_str (get event "type") "approval.requested"
    then str
        ("Approval required for " <> string_or (get payload "tool") "a protected action" <> ".")
    else if is_str (get event "type") "approval.granted"
    then str "Approval granted and the authorised action is executing."
    else if is_str (get event "type") "approval.denied"
    then str "Approval denied. The protected action was not executed."
    else if is_str (get event "type") "review.updated"
    then str (string_or (get payload "comment") "Review completed.")
    else if is_str (get event "type") "run.completed"
    then str "Run completed."
    else if is_str (get event "type") "run.failed"
    then str "Run failed."
    else or_else (or_else (or_else (get event "message") (get event "content")) (get event "text"))
        (str "Agent event received.")

unfoldable pub event_message : Value → Value
unfolding typed_message
event_message event =
    let payload = payload_of event in
    elim (as_string (get payload "message")) [
      | some message ↦ str message
      | none ↦ typed_message event payload
    ]

-- `event.id || (event.sequence ? `event-${event.sequence}` : undefined)`
abbrev pub timeline_id : Value → Value
timeline_id event = or_else (get event "id") (
    if truthy (get event "sequence")
    then str ("event-" <> to_string (get event "sequence"))
    else undefined)

-- The properties of the payload are spread over those of the event; then `id`, `message` and
-- `timestamp` are written. Reading a property of `null` throws, which `none` stands for.
unfoldable pub normalize_timeline_event : Value → Option Value
unfolding event_message
normalize_timeline_event event =
    if is_nullish event
    then none
    else some (
        obj (
          assign "timestamp" (or_else (get event "created_at") (get event "timestamp")) (
            assign "message" (event_message event) (
              assign "id" (timeline_id event) (
                spread_fields (spread_fields Fields.end (fields_of event))
                  (fields_of (payload_of event)))))))
