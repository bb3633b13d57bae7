-- ===== src/Session/Frames.antt =====
-- What each handler leaves alone, or adds to, in the list of events.
use mathlib.Core.Path.{subst}
use v.Prelude.{
  String, Bool, true, false, List, [], Option, none, some, ◌≡◌, refl, ◌⊎◌, inl, inr, arith, sym,
  ◌∷◌, Bool-cases, trim,
}
use v.Js.{Value, Fetched, rejected, response, parsed, unreadable}
use v.Types.Run.{PlanStep}
use v.Timeline.{normalize_timeline_event}
use v.Session.{ChatState, Stamp, Stream}
use v.Session.Events.{
  push_event, plan_created, apply_event, with_plan, append_normalized, append_event,
  unreadable_event, on_timeline, on_stream_error,
}
use v.Session.Approvals.{refresh_approvals, begin_decision, finish_decision}
use v.Session.Send.{Pending, begin_send, started, pending_of, refuses, finish_send}
use v.Session.System.{
  System, Action, send, answered, timeline, stream_error, polled, deciding, decided, choose_mode,
  step, run_actions, resumed, delivered, disconnected,
}

pub finish_send-events :
    (api type_error : String) (t : Stamp) (p : Pending) (outcome : Fetched Value) (s : ChatState)
    → (finish_send api type_error t p outcome s).events ≡ s.events
unfolding finish_send
finish_send-events api type_error t p (rejected e) s = refl
finish_send-events api type_error t p (response status (parsed v)) s = ground arith
finish_send-events api type_error t p (response status (unreadable e)) s = ground arith

pub on_stream_error-events :
    (closed : Bool) (s : ChatState) → (on_stream_error closed s).events ≡ s.events
unfolding on_stream_error
on_stream_error-events closed s = ground arith

pub refresh_approvals-events :
    (type_error : String) (run : Value) (outcome : Fetched Value) (s : ChatState)
    → (refresh_approvals type_error run outcome s).events ≡ s.events
unfolding refresh_approvals
refresh_approvals-events type_error run (rejected e) s = ground arith
refresh_approvals-events type_error run (response status (parsed v)) s = ground arith
refresh_approvals-events type_error run (response status (unreadable e)) s = ground arith

pub begin_decision-events :
    (run : Value) (s : ChatState) → (begin_decision run s).0.events ≡ s.events
unfolding begin_decision
begin_decision-events run s = ground arith

pub finish_decision-events :
    (outcome : Fetched Value) (s : ChatState) → (finish_decision outcome s).0.events ≡ s.events
unfolding finish_decision
finish_decision-events (rejected e) s = refl
finish_decision-events (response status b) s = ground arith

apply_event-events :
    (t : Stamp) (c event : Value) (plan : List PlanStep) (s : ChatState)
    → (apply_event t c event plan s).events ≡ s.events
unfolding apply_event
apply_event-events t c event plan s = ground arith

unreadable-events : (r : ChatState × Bool) → (unreadable_event r).events ≡ r.0.events
unreadable-events (s, true) = refl
unreadable-events (s, false) = refl

with_plan-events :
    (t : Stamp) (c event : Value) (plan : Option (List PlanStep)) (s : ChatState)
    → (with_plan t c event plan s).0.events ≡ s.events
with_plan-events t c event none s = refl
with_plan-events t c event (some plan) s = apply_event-events t c event plan s

-- The events after an update: as before, or with one pushed.
abbrev pub Pushed : List Value → List Value → Type 0
Pushed before after = (after ≡ before) ⊎ ((event : Value) × (after ≡ push_event event before))

append_normalized-events :
    (t : Stamp) (c : Value) (event : Option Value) (s : ChatState)
    → Pushed s.events (append_normalized t c event s).0.events
append_normalized-events t c none s = inl refl
append_normalized-events t c (some event) s =
    inr (event, with_plan-events t c event (plan_created event s.plan) _)

-- A delivery leaves the events alone or pushes one.
pub on_timeline-events :
    (t : Stamp) (c : Value) (delivered : Option Value) (s : ChatState)
    → Pushed s.events (on_timeline t c delivered s).events
unfolding on_timeline append_event
on_timeline-events t c none s = inl refl
on_timeline-events t c (some raw) s =
    rw (unreadable-events (append_normalized t c (normalize_timeline_event raw) s))
      (append_normalized-events t c (normalize_timeline_event raw) s)

pub begin_send-cases :
    (t : Stamp) (text : String) (s : ChatState)
    → (begin_send t text s ≡ none)
      ⊎ (begin_send t text s ≡ some (started t (trim text) s, pending_of (trim text) s))
unfolding begin_send
begin_send-cases t text s = elim (Bool-cases (refuses (trim text) s)) [
  | inl e ↦ inl (rw e)
  | inr e ↦ inr (rw e)
]

-- What an action does to the events: nothing, one push, or it empties them.
abbrev pub Touched : List Value → List Value → Type 0
Touched before after = (after ≡ []) ⊎ Pushed before after

delivered-events :
    (t : Stamp) (d : Option Value) (s : ChatState) (st : Option Stream)
    → Pushed s.events (delivered t d s st).events
delivered-events t d s none = inl refl
delivered-events t d s (some st) = on_timeline-events t st.captured_run d s

disconnected-events :
    (closed : Bool) (s : ChatState) (st : Option Stream)
    → (disconnected closed s st).events ≡ s.events
disconnected-events closed s none = refl
disconnected-events closed s (some st) = on_stream_error-events closed s

resumed-events :
    (api e : String) (t : Stamp) (outcome : Fetched Value) (s : ChatState) (p : Option Pending)
    → (resumed api e t outcome s p).chat.events ≡ s.events
resumed-events api e t outcome s none = refl
resumed-events api e t outcome s (some p) = finish_send-events api e t p outcome s

pub step-events :
    (api e : String) (s : System) (a : Action) → Touched s.chat.events (step api e s a).chat.events
unfolding step
step-events api e s (send t text) = elim (begin_send-cases t text s.chat) [
  | inl none_eq ↦ rw none_eq (inr (inl refl))
  | inr some_eq ↦ rw some_eq (inl refl)
]
step-events api e s (answered t outcome) =
    inr (inl (resumed-events api e t outcome s.chat s.pending))
step-events api e s (timeline t d) = inr (delivered-events t d s.chat s.chat.stream)
step-events api e s (stream_error closed) =
    inr (inl (disconnected-events closed s.chat s.chat.stream))
step-events api e s (polled run outcome) = inr (inl (refresh_approvals-events e run outcome s.chat))
step-events api e s (deciding run) = inr (inl (begin_decision-events run s.chat))
step-events api e s (decided outcome) = inr (inl (finish_decision-events outcome s.chat))
step-events api e s (choose_mode mode) = inr (inl refl)

-- What holds of no events and of each push holds after any actions.
pub run_actions-events {ℓ} :
    (api e : String) (P : List Value → Type ℓ)
    → P []
    → ((event : Value) (current : List Value) → P current → P (push_event event current))
    → (s : System) (as' : List Action) → P s.chat.events
    → P (run_actions api e s as').chat.events
unfolding run_actions
run_actions-events api e P base push s [] h = h
run_actions-events api e P base push s (a ∷ rest) h =
    run_actions-events api e P base push (step api e s a) rest (elim (step-events api e s a) [
      | inl cleared ↦ subst P (sym cleared) base
      | inr (inl same) ↦ subst P (sym same) h
      | inr (inr (event, pushed)) ↦ subst P (sym pushed) (push event s.chat.events h)
    ])
