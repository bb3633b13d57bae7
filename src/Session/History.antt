-- ===== src/Session/History.antt =====
-- The conversation only grows.
use v.Prelude.{
  String, Bool, true, false, List, [], ◌∷◌, ◌++◌, Option, none, some, ◌≡◌, refl, arith, inl, inr,
  append-nil, append_assoc, sym, ◌∙◌, ap, if◌then◌else◌, ◌&&◌,
}
use v.Js.{
  Value, Fetched, rejected, response, parsed, unreadable, is_ok, is_nullish, is_str, get, truthy,
}
use v.Types.Run.{ChatMessage, PlanStep}
use v.Timeline.{normalize_timeline_event}
use v.Session.{ChatState, Stamp, Stream}
use v.Session.Events.{
  plan_created, mark_step, finish_completed, finish_failed, apply_event, with_plan,
  append_normalized, append_event, unreadable_event, on_timeline, on_stream_error,
}
use v.Session.Approvals.{refresh_approvals, begin_decision, finish_decision}
use v.Session.Send.{Pending, finish_send}
use v.Session.System.{
  System, Action, send, answered, timeline, stream_error, polled, deciding, decided, choose_mode,
  step, run_actions, resumed, delivered, disconnected,
}
use v.Session.Frames.{begin_send-cases}

-- `after` is `before` with messages added at the end.
abbrev pub Extends : List ChatMessage → List ChatMessage → Type 0
Extends before after = (new : List ChatMessage) × (after ≡ before ++ new)

same-Extends : {xs ys : List ChatMessage} → ys ≡ xs → Extends xs ys
same-Extends {xs} e = ([], e ∙ sym (append-nil xs))

Extends-trans : (xs ys zs : List ChatMessage) → Extends xs ys → Extends ys zs → Extends xs zs
Extends-trans xs ys zs (new, e) (more, f) =
    (new ++ more, f ∙ ap (λ l. l ++ more) e ∙ append_assoc xs new more)

-- A branch extends the messages if both of its arms do.
Extends-if :
    (ms : List ChatMessage) (b : Bool) (x y : ChatState)
    → Extends ms x.messages
    → Extends ms y.messages
    → Extends ms (if b then x else y).messages
Extends-if ms true x y h k = h
Extends-if ms false x y h k = k

finish_send-Extends :
    (api e : String) (t : Stamp) (p : Pending) (outcome : Fetched Value) (c : ChatState)
    → Extends c.messages (finish_send api e t p outcome c).messages
unfolding finish_send
finish_send-Extends api e t p (rejected x) c = (_, refl)
finish_send-Extends api e t p (response status (parsed v)) c =
    Extends-if c.messages (is_ok status) _ _
      (Extends-if c.messages (is_nullish v) _ _ (_, refl)
        (Extends-if c.messages (is_str (get v "mode") "chat") _ _
          (Extends-if c.messages (is_str (get v "status") "completed" && truthy (get v "answer")) _
            _ (_, refl) (same-Extends refl))
          (Extends-if c.messages (is_str (get v "mode") "project") _ _ (_, refl)
            (same-Extends refl))))
      (_, refl)
finish_send-Extends api e t p (response status (unreadable x)) c =
    Extends-if c.messages (is_ok status) _ _ (_, refl) (_, refl)

finish_completed-Extends :
    (t : Stamp) (r event : Value) (c : ChatState)
    → Extends c.messages (finish_completed t r event c).messages
unfolding finish_completed
finish_completed-Extends t r event c =
    Extends-if c.messages (is_str (get event "type") "run.completed") _ _ (_, refl)
      (same-Extends refl)

finish_failed-messages :
    (event : Value) (c : ChatState) → (finish_failed event c).messages ≡ c.messages
unfolding finish_failed
finish_failed-messages event c = ground arith

apply_event-Extends :
    (t : Stamp) (r event : Value) (plan : List PlanStep) (c : ChatState)
    → Extends c.messages (apply_event t r event plan c).messages
unfolding apply_event
apply_event-Extends t r event plan c =
    let marked = record c { plan = mark_step event plan } in
    let ended = finish_completed t r event marked in
    Extends-trans c.messages ended.messages _ (finish_completed-Extends t r event marked)
      (same-Extends (finish_failed-messages event ended))

unreadable-Extends :
    (ms : List ChatMessage) (r : ChatState × Bool)
    → Extends ms r.0.messages
    → Extends ms (unreadable_event r).messages
unreadable-Extends ms (c, true) h = h
unreadable-Extends ms (c, false) h = h

with_plan-Extends :
    (t : Stamp) (r event : Value) (plan : Option (List PlanStep)) (c : ChatState)
    → Extends c.messages (with_plan t r event plan c).0.messages
with_plan-Extends t r event none c = same-Extends refl
with_plan-Extends t r event (some plan) c = apply_event-Extends t r event plan c

append_normalized-Extends :
    (t : Stamp) (r : Value) (event : Option Value) (c : ChatState)
    → Extends c.messages (append_normalized t r event c).0.messages
append_normalized-Extends t r none c = same-Extends refl
append_normalized-Extends t r (some event) c =
    with_plan-Extends t r event (plan_created event c.plan) _

on_timeline-Extends :
    (t : Stamp) (r : Value) (d : Option Value) (c : ChatState)
    → Extends c.messages (on_timeline t r d c).messages
unfolding on_timeline append_event
on_timeline-Extends t r none c = same-Extends refl
on_timeline-Extends t r (some raw) c =
    unreadable-Extends c.messages (append_normalized t r (normalize_timeline_event raw) c)
      (append_normalized-Extends t r (normalize_timeline_event raw) c)

on_stream_error-messages :
    (closed : Bool) (c : ChatState) → (on_stream_error closed c).messages ≡ c.messages
unfolding on_stream_error
on_stream_error-messages closed c = ground arith

refresh_approvals-messages :
    (e : String) (run : Value) (outcome : Fetched Value) (c : ChatState)
    → (refresh_approvals e run outcome c).messages ≡ c.messages
unfolding refresh_approvals
refresh_approvals-messages e run (rejected x) c = ground arith
refresh_approvals-messages e run (response status (parsed v)) c = ground arith
refresh_approvals-messages e run (response status (unreadable x)) c = ground arith

begin_decision-messages :
    (run : Value) (c : ChatState) → (begin_decision run c).0.messages ≡ c.messages
unfolding begin_decision
begin_decision-messages run c = ground arith

finish_decision-messages :
    (outcome : Fetched Value) (c : ChatState) → (finish_decision outcome c).0.messages ≡ c.messages
unfolding finish_decision
finish_decision-messages (rejected x) c = refl
finish_decision-messages (response status b) c = ground arith

delivered-Extends :
    (t : Stamp) (d : Option Value) (c : ChatState) (st : Option Stream)
    → Extends c.messages (delivered t d c st).messages
delivered-Extends t d c none = same-Extends refl
delivered-Extends t d c (some st) = on_timeline-Extends t st.captured_run d c

disconnected-messages :
    (closed : Bool) (c : ChatState) (st : Option Stream)
    → (disconnected closed c st).messages ≡ c.messages
disconnected-messages closed c none = refl
disconnected-messages closed c (some st) = on_stream_error-messages closed c

resumed-Extends :
    (api e : String) (t : Stamp) (outcome : Fetched Value) (c : ChatState) (p : Option Pending)
    → Extends c.messages (resumed api e t outcome c p).chat.messages
resumed-Extends api e t outcome c none = same-Extends refl
resumed-Extends api e t outcome c (some p) = finish_send-Extends api e t p outcome c

step-Extends :
    (api e : String) (s : System) (a : Action)
    → Extends s.chat.messages (step api e s a).chat.messages
unfolding step
step-Extends api e s (send t text) = elim (begin_send-cases t text s.chat) [
  | inl none_eq ↦ rw none_eq (same-Extends refl)
  | inr some_eq ↦ rw some_eq (_, refl)
]
step-Extends api e s (answered t outcome) = resumed-Extends api e t outcome s.chat s.pending
step-Extends api e s (timeline t d) = delivered-Extends t d s.chat s.chat.stream
step-Extends api e s (stream_error closed) =
    same-Extends (disconnected-messages closed s.chat s.chat.stream)
step-Extends api e s (polled run outcome) =
    same-Extends (refresh_approvals-messages e run outcome s.chat)
step-Extends api e s (deciding run) = same-Extends (begin_decision-messages run s.chat)
step-Extends api e s (decided outcome) = same-Extends (finish_decision-messages outcome s.chat)
step-Extends api e s (choose_mode mode) = same-Extends refl

-- Whatever happens, no message is ever removed, changed or moved: the conversation after any actions
-- is the one before them with messages added at its end.
pub messages_append_only :
    (api e : String) (s : System) (actions : List Action)
    → Extends s.chat.messages (run_actions api e s actions).chat.messages
unfolding run_actions
messages_append_only api e s [] = same-Extends refl
messages_append_only api e s (a ∷ rest) =
    Extends-trans s.chat.messages _ _ (step-Extends api e s a)
      (messages_append_only api e (step api e s a) rest)
