-- ===== src/Session/Stage.antt =====
-- useChat.ts: the `stage` memo, and how the handlers move it.
use v.Prelude.{
  String, Bool, true, false, ◌&&◌, List, [], Option, none, some, ◌≡◌, arith, eq_iff, ◌↔◌,
  if◌then◌else◌, some_of, not, ◌===◌, trim, ◌⊎◌,
}
use v.Js.{Value, is_str, get}
use v.Types.Run.{AgentStage, planning, executing, review, completed, idle}
use v.Session.{ChatState, Stamp}
use v.Session.Send.{Pending, begin_send}

-- `if (error)`: an empty text is falsy.
abbrev pub has_error : Option String → Bool
has_error none = false
has_error (some e) = not (e === "")

abbrev pub has_type : String → List Value → Bool
has_type kind events = some_of (λ event. is_str (get event "type") kind) events

unfoldable pub stage : ChatState → AgentStage
stage s =
    if has_error s.error
    then AgentStage.error
    else if has_type "run.completed" s.events
    then completed
    else if has_type "review.updated" s.events
    then review
    else if s.loading && has_type "plan.created" s.events
    then executing
    else if s.loading
    then planning
    else idle

-- A send that passes the guard starts over: the stage is `planning`, with no error, plan, events,
-- approvals or stream of the run before, and the trimmed text as the last message.
pub begin_send-planning :
    (t : Stamp) (text : String) (s c : ChatState) (p : Pending)
    → begin_send t text s ≡ some (c, p)
    → (stage c ≡ planning)
      × (c.error ≡ none)
      × (c.plan ≡ [])
      × (c.events ≡ [])
      × (c.approvals ≡ [])
      × (c.stream ≡ none)
      × (c.terminal ≡ false)
      × (p.message ≡ trim text)
      × (p.captured_run ≡ s.run_id)
unfolding begin_send stage
begin_send-planning t text s c p h = ground arith

-- A send is refused exactly when the trimmed text is empty or the hook is loading.
begin_send-none_iff :
    (t : Stamp) (text : String) (s : ChatState)
    → (begin_send t text s ≡ none) ↔ ((trim text ≡ "") ⊎ (s.loading ≡ true))
unfolding begin_send
begin_send-none_iff t text s = ground (arith, eq_iff (trim text) "")
