-- ===== src/Session/Lifecycle.antt =====
-- The life of a run: at most one request waits, a stream is open only between the answer and the end
-- of the run, and the hook is busy only while one of the two is there.
use v.Prelude.{
  String, Bool, true, false, List, [], ◌∷◌, Option, none, some, ◌≡◌, refl, inl, inr, arith, trim,
}
use v.Js.{Value, Fetched, rejected, response, parsed, unreadable}
use v.Types.Run.{PlanStep}
use v.Timeline.{normalize_timeline_event}
use v.Session
use v.Session.{ChatState, Stamp, Stream}
use v.Session.Events.{
  plan_created, push_event, apply_event, with_plan, append_normalized, append_event,
  unreadable_event, on_timeline, on_stream_error,
}
use v.Session.Approvals.{refresh_approvals, begin_decision, finish_decision}
use v.Session.Send.{Pending, begin_send, finish_send, started}
use v.Session.System.{
  System, Action, send, answered, timeline, stream_error, polled, deciding, decided, choose_mode,
  step, run_actions, resumed, delivered, disconnected, start,
}
use v.Session.Frames.{begin_send-cases}

abbrev pub is_some {ℓ} : {A : Type ℓ} → Option A → Bool
is_some none = false
is_some (some _) = true

-- The state while a send waits for its answer.
pub record IsWaiting (c : ChatState) : Type 0 where
  pub busy : c.loading ≡ true
  pub closed : is_some c.stream ≡ false
  pub live : c.terminal ≡ false

-- The state while none does: after the end of a run nothing is left open, and only an open stream
-- keeps the hook busy.
pub record IsResting (c : ChatState) : Type 0 where
  pub ended_idle : c.terminal ≡ true → c.loading ≡ false
  pub ended_closed : c.terminal ≡ true → is_some c.stream ≡ false
  pub busy_open : c.loading ≡ true → is_some c.stream ≡ true

abbrev pub IsSoundAt : Option Pending → ChatState → Type 0
IsSoundAt none c = IsResting c
IsSoundAt (some _) c = IsWaiting c

abbrev pub IsSound : System → Type 0
IsSound s = IsSoundAt s.pending s.chat

started-IsWaiting : (t : Stamp) (message : String) (c : ChatState) → IsWaiting (started t message c)
started-IsWaiting t message c = ground arith

finish_send-IsResting :
    (api e : String) (t : Stamp) (p : Pending) (outcome : Fetched Value) (c : ChatState)
    → IsWaiting c
    → IsResting (finish_send api e t p outcome c)
unfolding finish_send
finish_send-IsResting api e t p (rejected x) c w = ground arith
finish_send-IsResting api e t p (response status (parsed v)) c w = ground arith
finish_send-IsResting api e t p (response status (unreadable x)) c w = ground arith

apply_event-IsResting :
    (t : Stamp) (r event : Value) (plan : List PlanStep) (c : ChatState)
    → IsResting c
    → IsResting (apply_event t r event plan c)
unfolding apply_event
apply_event-IsResting t r event plan c h = ground arith

unreadable-IsResting : (r : ChatState × Bool) → IsResting r.0 → IsResting (unreadable_event r)
unreadable-IsResting (c, true) h = ground arith
unreadable-IsResting (c, false) h = h

with_plan-IsResting :
    (t : Stamp) (r event : Value) (plan : Option (List PlanStep)) (c : ChatState)
    → IsResting c
    → IsResting (with_plan t r event plan c).0
with_plan-IsResting t r event none c h = h
with_plan-IsResting t r event (some plan) c h = apply_event-IsResting t r event plan c h

append_normalized-IsResting :
    (t : Stamp) (r : Value) (event : Option Value) (c : ChatState)
    → IsResting c
    → IsResting (append_normalized t r event c).0
append_normalized-IsResting t r none c h = h
append_normalized-IsResting t r (some event) c h =
    with_plan-IsResting t r event (plan_created event c.plan)
      (record c { events = push_event event c.events }) (ground arith)

on_timeline-IsResting :
    (t : Stamp) (r : Value) (d : Option Value) (c : ChatState)
    → IsResting c
    → IsResting (on_timeline t r d c)
unfolding on_timeline append_event
on_timeline-IsResting t r none c h = ground arith
on_timeline-IsResting t r (some raw) c h =
    unreadable-IsResting (append_normalized t r (normalize_timeline_event raw) c)
      (append_normalized-IsResting t r (normalize_timeline_event raw) c h)

-- A stream that fails is not that of a waiting send, so the hook rests.
on_stream_error-IsResting :
    (closed : Bool) (c : ChatState) → IsResting c → IsResting (on_stream_error closed c)
unfolding on_stream_error
on_stream_error-IsResting closed c h = ground arith

delivered-IsSoundAt :
    (t : Stamp) (d : Option Value) (c : ChatState) (st : Option Stream) (p : Option Pending)
    → c.stream ≡ st
    → IsSoundAt p c
    → IsSoundAt p (delivered t d c st)
delivered-IsSoundAt t d c none p e h = h
delivered-IsSoundAt t d c (some st) none e h = on_timeline-IsResting t st.captured_run d c h
delivered-IsSoundAt t d c (some st) (some p) e h = absurd (ground arith)

disconnected-IsSoundAt :
    (closed : Bool) (c : ChatState) (st : Option Stream) (p : Option Pending)
    → c.stream ≡ st
    → IsSoundAt p c
    → IsSoundAt p (disconnected closed c st)
disconnected-IsSoundAt closed c none p e h = h
disconnected-IsSoundAt closed c (some st) none e h = on_stream_error-IsResting closed c h
disconnected-IsSoundAt closed c (some st) (some p) e h = absurd (ground arith)

-- The handlers of approvals and modes leave the life of the run alone.
abbrev SameLife : ChatState → ChatState → Type 0
SameLife c d = (d.loading ≡ c.loading) × (d.stream ≡ c.stream) × (d.terminal ≡ c.terminal)

IsSoundAt-SameLife :
    (p : Option Pending) (c d : ChatState) → SameLife c d → IsSoundAt p c → IsSoundAt p d
IsSoundAt-SameLife none c d l h = ground arith
IsSoundAt-SameLife (some p) c d l h = ground arith

refresh_approvals-SameLife :
    (e : String) (run : Value) (outcome : Fetched Value) (c : ChatState)
    → SameLife c (refresh_approvals e run outcome c)
unfolding refresh_approvals
refresh_approvals-SameLife e run (rejected x) c = ground arith
refresh_approvals-SameLife e run (response status (parsed v)) c = ground arith
refresh_approvals-SameLife e run (response status (unreadable x)) c = ground arith

begin_decision-SameLife : (run : Value) (c : ChatState) → SameLife c (begin_decision run c).0
unfolding begin_decision
begin_decision-SameLife run c = ground arith

finish_decision-SameLife :
    (outcome : Fetched Value) (c : ChatState) → SameLife c (finish_decision outcome c).0
unfolding finish_decision
finish_decision-SameLife (rejected x) c = (refl, refl, refl)
finish_decision-SameLife (response status b) c = ground arith

resumed-IsSound :
    (api e : String) (t : Stamp) (outcome : Fetched Value) (c : ChatState) (p : Option Pending)
    → IsSoundAt p c
    → IsSound (resumed api e t outcome c p)
resumed-IsSound api e t outcome c none h = h
resumed-IsSound api e t outcome c (some p) h = finish_send-IsResting api e t p outcome c h

pub step-IsSound : (api e : String) (s : System) (a : Action) → IsSound s → IsSound (step api e s a)
unfolding step
step-IsSound api e s (send t text) h = elim (begin_send-cases t text s.chat) [
  | inl none_eq ↦ rw none_eq h
  | inr some_eq ↦ rw some_eq (started-IsWaiting t (trim text) s.chat)
]
step-IsSound api e s (answered t outcome) h = resumed-IsSound api e t outcome s.chat s.pending h
step-IsSound api e s (timeline t d) h =
    delivered-IsSoundAt t d s.chat s.chat.stream s.pending refl h
step-IsSound api e s (stream_error closed) h =
    disconnected-IsSoundAt closed s.chat s.chat.stream s.pending refl h
step-IsSound api e s (polled run outcome) h =
    IsSoundAt-SameLife s.pending _ _ (refresh_approvals-SameLife e run outcome s.chat) h
step-IsSound api e s (deciding run) h =
    IsSoundAt-SameLife s.pending _ _ (begin_decision-SameLife run s.chat) h
step-IsSound api e s (decided outcome) h =
    IsSoundAt-SameLife s.pending _ _ (finish_decision-SameLife outcome s.chat) h
step-IsSound api e s (choose_mode mode) h = IsSoundAt-SameLife s.pending _ _ (refl, refl, refl) h

run_actions-IsSound :
    (api e : String) (s : System) (actions : List Action)
    → IsSound s
    → IsSound (run_actions api e s actions)
unfolding run_actions
run_actions-IsSound api e s [] h = h
run_actions-IsSound api e s (a ∷ rest) h =
    run_actions-IsSound api e (step api e s a) rest (step-IsSound api e s a h)

-- After any actions from a fresh hook: while a send waits, the hook is loading, no stream is open and
-- the run is not over; while none waits, a run that is over has left neither a stream nor the loading
-- state, and the hook is loading only if a stream is open.
pub lifecycle_IsSound :
    (api e iso : String) (actions : List Action) → IsSound (run_actions api e (start iso) actions)
unfolding Session.initial_chat
lifecycle_IsSound api e iso actions = run_actions-IsSound api e (start iso) actions (ground arith)

send_refused_at :
    (p : Option Pending) (t : Stamp) (text : String) (c : ChatState)
    → is_some p ≡ true
    → IsSoundAt p c
    → begin_send t text c ≡ none
unfolding begin_send
send_refused_at none t text c e h = cc
send_refused_at (some p) t text c e h = ground arith

-- While a send waits for its answer, a further send changes nothing: at most one request is out.
pub send_refused :
    (api e iso : String) (actions : List Action) (t : Stamp) (text : String)
    → is_some (run_actions api e (start iso) actions).pending ≡ true
    → step api e (run_actions api e (start iso) actions) (send t text)
      ≡ run_actions api e (start iso) actions
unfolding step
send_refused api e iso actions t text waits =
    let s = run_actions api e (start iso) actions in
    rw (send_refused_at s.pending t text s.chat waits (lifecycle_IsSound api e iso actions))
