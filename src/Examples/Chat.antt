-- ===== src/Examples/Chat.antt =====
-- The theorems on the chat and its composer, at concrete inputs.
use v.Prelude.{
  inl, ℕ, suc, String, Bool, true, false, List, [], ◌∷◌, ◌++◌, Option, none, some, ◌≡◌, refl, ◌≤◌,
  max, length, take_last, units, ◌↔◌, ◌⊎◌, trim, is_blank, if◌then◌else◌, All, Text,
}
use v.Prelude
use v.Js
use v.Js.{
  items, Value, Items, Fields, str, num, obj, undefined, rejected, response, parsed, Thrown,
  is_nullish, strict_eq, get, is_ok, is_str,
}
use v.Types.Run.{PlanStep}
use v.Plan.{normalize_plan}
use v.Plan.Laws.{IsReady, normalize_plan-IsReady, normalize_plan_idem, step_items}
use v.Timeline.{normalize_timeline_event}
use v.Session.{Stamp, Stream, ChatState, initial_chat}
use v.Session
use v.Session.Send.{Pending, begin_send, finish_send, started, pending_of, project_text}
use v.Session.System.{System, Action, send, answered, timeline, step, run_actions, start}
use v.Session.Bounds.{events_bounded, events_distinct, HasDistinctSequences}
use v.Session.Lifecycle.{lifecycle_IsSound, send_refused, IsSound}
use v.Session.History.{messages_append_only, Extends}
use v.Session.Ends.{stream-captured_run}
use v.Composer
use v.Composer.{Composer, submit, outgoing, context_limit}
use v.Composer.Answer.{latest_answer}
use v.Composer.Lost.{deliveries, project_answer_lost}
use v.Composer.Budget.{submit_fits}
use v.Composer.Attachments.{IsClipped, LocalFile, select_attachments, select_attachments_bounded}

abbrev t0 : Stamp
t0 = record { millis = "1"; iso = "2026-01-01T00:00:00.000Z" }

abbrev two_entries : Items
two_entries =
    Items.cons (str "Read")
      (Items.cons (obj (Fields.field "title" (str "Write") Fields.end)) Items.nil)

abbrev two_steps : Value
two_steps = Value.arr two_entries

abbrev ready_step : String → String → PlanStep
ready_step id title = record {
  id = str id;
  title = str title;
  description = undefined;
  depends_on = undefined;
  status = str "pending";
  tool = undefined;
}

abbrev two_ready : List PlanStep
two_ready = ready_step "step-1" "Read" ∷ ready_step "step-2" "Write" ∷ []

two_steps-normal : normalize_plan two_steps ≡ some two_ready
unfolding normalize_plan Js.lookup_field Js.truthy Prelude.show
two_steps-normal = refl

normalize_plan-IsReady_example :
    (length two_ready ≡ length (items two_entries)) × All IsReady two_ready
normalize_plan-IsReady_example =
    normalize_plan-IsReady two_entries two_steps two_ready (inl refl) two_steps-normal

normalize_plan_idem_example :
    (normalize_plan (Value.arr (step_items two_ready)) ≡ some two_ready)
    × (normalize_plan (obj (Fields.field "steps" (Value.arr (step_items two_ready)) Fields.end))
        ≡ some two_ready)
normalize_plan_idem_example = normalize_plan_idem two_steps two_ready two_steps-normal

abbrev fields2 : String → Value → String → Value → Value
fields2 a x b y = obj (Fields.field a x (Fields.field b y Fields.end))

abbrev accepted_reply : Value
accepted_reply = fields2 "mode" (str "project") "run_id" (str "r1")

abbrev raw_event : Value
raw_event = fields2 "type" (str "tool.result") "sequence" (num 7)

abbrev one_run : List Action
one_run =
    send t0 "hello"
    ∷ answered t0 (response 200 (parsed accepted_reply))
    ∷ timeline t0 (some raw_event)
    ∷ timeline t0 (some raw_event)
    ∷ []

events_bounded_example :
    length (run_actions "api" "TypeError" (start "now") one_run).chat.events ≤ 40
events_bounded_example = events_bounded "api" "TypeError" "now" one_run

events_distinct_example :
    HasDistinctSequences (run_actions "api" "TypeError" (start "now") one_run).chat.events
events_distinct_example = events_distinct "api" "TypeError" "now" one_run

lifecycle_IsSound_example : IsSound (run_actions "api" "TypeError" (start "now") one_run)
lifecycle_IsSound_example = lifecycle_IsSound "api" "TypeError" "now" one_run

send_refused_example :
    step "api" "TypeError"
      (run_actions "api" "TypeError" (start "now") (send t0 "hello" ∷ []))
      (send t0 "again")
    ≡ run_actions "api" "TypeError" (start "now") (send t0 "hello" ∷ [])
unfolding run_actions step begin_send Prelude.trim Session.initial_chat
send_refused_example = send_refused "api" "TypeError" "now" (send t0 "hello" ∷ []) t0 "again" refl

messages_append_only_example :
    Extends
      (initial_chat "now").messages
      (run_actions "api" "TypeError" (start "now") one_run).chat.messages
messages_append_only_example = messages_append_only "api" "TypeError" (start "now") one_run

abbrev fresh : ChatState
fresh = initial_chat "now"

hello-begun :
    begin_send t0 " hello " fresh ≡ some (started t0 "hello" fresh, pending_of "hello" fresh)
unfolding begin_send Prelude.trim Session.initial_chat
hello-begun = refl

abbrev entry_of : String → Value → Value
entry_of type payload = fields2 "type" (str type) "payload" payload

abbrev ended : Value
ended = entry_of "run.completed" (fields2 "summary" (str "Done") "answer" (str "All tests pass"))

abbrev broken : Value
broken = entry_of "run.failed" (fields2 "message" (str "No worker") "code" (num 3))

-- The entry of the timeline that a raw event becomes.
abbrev entry : Option Value → Value
entry none = undefined
entry (some v) = v

abbrev completion : Value
completion = entry (normalize_timeline_event ended)

abbrev failure : Value
failure = entry (normalize_timeline_event broken)

abbrev waiting_chat : ChatState
waiting_chat = started t0 "hello" fresh

abbrev waiting : Pending
waiting = pending_of "hello" fresh

stream-captured_run_example :
    let d =
      finish_send "api" "TypeError" t0 waiting
        (response 200 (parsed accepted_reply))
        waiting_chat in
    (d.run_id ≡ get accepted_reply "run_id")
    × ((st : Stream) × (d.stream ≡ some st) × (st.captured_run ≡ fresh.run_id))
unfolding Js.lookup_field
stream-captured_run_example =
    stream-captured_run "api" "TypeError" t0 t0 " hello " fresh waiting_chat waiting 200
      accepted_reply hello-begun refl refl refl

abbrev before : System
before = record { chat = fresh; pending = none }

project_answer_lost_example :
    let sent = send t0 " hello " ∷ answered t0 (response 200 (parsed accepted_reply)) ∷ [] in
    let after =
      run_actions "api" "TypeError"
        (run_actions "api" "TypeError" before sent)
        (deliveries ((t0, some ended) ∷ [])) in
    (after.chat.run_id ≡ str "r1")
    × (latest_answer after.chat.messages after.chat.run_id ≡ project_text)
unfolding Js.lookup_field Js.strict_eq Session.initial_chat
project_answer_lost_example =
    project_answer_lost "api" "TypeError" t0 t0 " hello " before waiting_chat waiting 200
      accepted_reply "r1" ((t0, some ended) ∷ []) hello-begun refl refl refl refl refl

abbrev draft : Composer
draft = record { draft = units "Fix the build"; capture_state = Composer.idle; attachments = [] }

abbrev cleared : Composer
cleared = (submit false draft).1

submit_fits_example :
    (false ≡ false)
    × (is_blank draft.draft ≡ false)
    × (length (outgoing draft) ≤ max context_limit (length draft.draft))
    × ((rest : Text) × (outgoing draft ≡ draft.draft ++ rest))
    × (cleared.draft ≡ [])
    × (cleared.attachments ≡ [])
unfolding submit Prelude.is_blank units
submit_fits_example = submit_fits false draft (outgoing draft) refl

abbrev notes_file : LocalFile
notes_file = record {
  name = units "notes.md";
  type = units "text/markdown";
  contents = some (units "todo");
}

select_attachments_bounded_example :
    let d = select_attachments (notes_file ∷ []) draft in
    (1 ≤ length d.attachments)
    × (length d.attachments ≤ 4)
    × All IsClipped d.attachments
    × (d.draft ≡ draft.draft)
select_attachments_bounded_example = select_attachments_bounded notes_file [] draft
