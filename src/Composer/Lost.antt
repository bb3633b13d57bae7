-- ===== src/Composer/Lost.antt =====
-- useChat.ts and Chat.tsx together: what `capture` finds of the answer of a project run, whose stream
-- holds the run before it.
use v.Prelude.{
  String, Bool, true, false, List, [], ◌∷◌, ◌++◌, Option, none, some, ◌≡◌, refl, ◌∙◌, eq_iff,
  Bool-cases, inl, inr, ℕ,
}
use v.Js.{Value, str, get, strict_eq, is_str, response, parsed, is_ok, is_nullish}
use v.Types.Run.{PlanStep, ChatMessage}
use v.Timeline.{normalize_timeline_event}
use v.Session.{ChatState, Stamp, Stream}
use v.Session.Events.{
  append_event, completion_message, apply_event, finish_failed, finish_completed, with_plan,
  append_normalized, plan_created, push_event, unreadable_event, on_timeline,
}
use v.Session.System.{System, Action, send, answered, timeline, delivered, step, run_actions}
use v.Session.Send.{Pending, begin_send, finish_send, project_message, project_text}
use v.Session.Ends.{stream-captured_run, finish_send-project}
use v.Composer.Answer.{latest_answer, latest_answer-concat}

own_run : (run : Value) (r : String) → run ≡ str r → strict_eq run (str r) ≡ true
unfolding strict_eq
own_run run r e = rw e ((eq_iff r r).1 refl)

module _ (run : String) where
  -- Where a stream is open, its listener holds another run.
  abbrev IsForeign : Option Stream → Type 0
  IsForeign none = Unit
  IsForeign (some st) = strict_eq st.captured_run (str run) ≡ false

  -- The answer of the run is the provisional text.
  record Lost (c : ChatState) : Type 0 where
    now : c.run_id ≡ str run
    latest : latest_answer c.messages (str run) ≡ project_text
    foreign : IsForeign c.stream

  foreign_message :
      (t : Stamp) (captured event : Value) (messages : List ChatMessage)
      → strict_eq captured (str run) ≡ false
      → latest_answer messages (str run) ≡ project_text
      → latest_answer (messages ++ completion_message t captured event ∷ []) (str run)
        ≡ project_text
  foreign_message t captured event messages other h =
      rw (latest_answer-concat messages (completion_message t captured event) (str run), other) h

  apply_event-Lost :
      (t : Stamp) (captured event : Value) (plan : List PlanStep) (c : ChatState)
      → strict_eq captured (str run) ≡ false
      → Lost c
      → Lost (apply_event t captured event plan c)
  unfolding apply_event finish_failed finish_completed
  apply_event-Lost t captured event plan c other h =
      elim (Bool-cases (is_str (get event "type") "run.completed")) [
        | inl done ↦ elim (Bool-cases (is_str (get event "type") "run.failed")) [
          | inl k ↦
              rw (done, k)
                (record {
                  now = h.now;
                  latest = foreign_message t captured event c.messages other h.latest;
                  foreign = tt;
                })
          | inr k ↦
              rw (done, k)
                (record {
                  now = h.now;
                  latest = foreign_message t captured event c.messages other h.latest;
                  foreign = tt;
                })
        ]
        | inr going ↦ elim (Bool-cases (is_str (get event "type") "run.failed")) [
          | inl k ↦ rw (going, k) (record { now = h.now; latest = h.latest; foreign = tt })
          | inr k ↦ rw (going, k) (record { now = h.now; latest = h.latest; foreign = h.foreign })
        ]
      ]

  with_plan-Lost :
      (t : Stamp) (captured event : Value) (plan : Option (List PlanStep)) (c : ChatState)
      → strict_eq captured (str run) ≡ false
      → Lost c
      → Lost (with_plan t captured event plan c).0
  with_plan-Lost t captured event none c other h = h
  with_plan-Lost t captured event (some plan) c other h =
      apply_event-Lost t captured event plan c other h

  append-Lost :
      (t : Stamp) (captured : Value) (event : Option Value) (c : ChatState)
      → strict_eq captured (str run) ≡ false
      → Lost c
      → Lost (append_normalized t captured event c).0
  append-Lost t captured none c other h = h
  append-Lost t captured (some event) c other h =
      with_plan-Lost t captured event (plan_created event c.plan)
        (record c { events = push_event event c.events }) other
        (record { now = h.now; latest = h.latest; foreign = h.foreign })

  unreadable-Lost : (r : ChatState × Bool) → Lost r.0 → Lost (unreadable_event r)
  unreadable-Lost (c, true) h = record { now = h.now; latest = h.latest; foreign = h.foreign }
  unreadable-Lost (c, false) h = h

  on_timeline-Lost :
      (t : Stamp) (captured : Value) (raw : Option Value) (c : ChatState)
      → strict_eq captured (str run) ≡ false
      → Lost c
      → Lost (on_timeline t captured raw c)
  unfolding on_timeline append_event
  on_timeline-Lost t captured none c other h = unreadable-Lost (c, true) h
  on_timeline-Lost t captured (some raw) c other h =
      unreadable-Lost (append_normalized t captured (normalize_timeline_event raw) c)
        (append-Lost t captured (normalize_timeline_event raw) c other h)

  delivered-Lost :
      (t : Stamp) (raw : Option Value) (c : ChatState) (open_stream : Option Stream)
      → IsForeign open_stream
      → Lost c
      → Lost (delivered t raw c open_stream)
  delivered-Lost t raw c none f h = h
  delivered-Lost t raw c (some st) f h = on_timeline-Lost t st.captured_run raw c f h

-- The events that the server sends on the open stream, readable or not.
unfoldable pub deliveries : List (Stamp × Option Value) → List Action
deliveries [] = []
deliveries ((t, raw) ∷ rest) = timeline t raw ∷ deliveries rest

deliveries-Lost :
    (api e run : String) (events : List (Stamp × Option Value)) (s : System)
    → Lost run s.chat
    → Lost run (run_actions api e s (deliveries events)).chat
unfolding deliveries run_actions step
deliveries-Lost api e run [] s h = h
deliveries-Lost api e run ((t, raw) ∷ rest) s h =
    deliveries-Lost api e run rest (step api e s (timeline t raw))
      (delivered-Lost run t raw s.chat s.chat.stream h.foreign h)

accepted-Lost :
    (api e : String) (t t' : Stamp) (text : String) (s c : ChatState) (p : Pending) (status : ℕ)
    (data' : Value) (run : String)
    → begin_send t text s ≡ some (c, p)
    → is_ok status ≡ true
    → is_nullish data' ≡ false
    → get data' "mode" ≡ str "project"
    → get data' "run_id" ≡ str run
    → strict_eq s.run_id (str run) ≡ false
    → Lost run (finish_send api e t' p (response status (parsed data')) c)
accepted-Lost api e t t' text s c p status data' run begun okay there mode run_eq other =
    let (d_run, d_messages) =
      finish_send-project api e t' p status data' c okay there (rw mode) (rw mode) in
    let (_, (st, open_eq, captured)) =
      stream-captured_run api e t t' text s c p status data' begun okay there (rw mode) in
    record {
      now = d_run ∙ run_eq;
      latest = rw d_messages (
          rw (
            latest_answer-concat c.messages (project_message t' data') (str run),
            own_run _ run run_eq,
          ));
      foreign = rw open_eq (rw captured other);
    }

-- The answer of a project run is filed under the run before it, so the composer does not find it: when
-- a message has been sent and accepted as a project run, whose id is not that of the hook's run before
-- the send, then whatever events the stream delivers, the completion with its answer among them, the
-- latest answer of the run is still the provisional text with which it was accepted.
pub project_answer_lost :
    (api e : String) (t t' : Stamp) (text : String) (s : System) (c : ChatState) (p : Pending)
    (status : ℕ) (data' : Value) (run : String) (events : List (Stamp × Option Value))
    → begin_send t text s.chat ≡ some (c, p)
    → is_ok status ≡ true
    → is_nullish data' ≡ false
    → get data' "mode" ≡ str "project"
    → get data' "run_id" ≡ str run
    → strict_eq s.chat.run_id (str run) ≡ false
    → let sent = send t text ∷ answered t' (response status (parsed data')) ∷ [] in
      let ended = run_actions api e (run_actions api e s sent) (deliveries events) in
      (ended.chat.run_id ≡ str run)
      × (latest_answer ended.chat.messages ended.chat.run_id ≡ project_text)
unfolding run_actions step
project_answer_lost api e t t' text s c p status data' run events begun okay there mode run_eq
      other =
    let d = finish_send api e t' p (response status (parsed data')) c in
    let lost =
      deliveries-Lost api e run events (record { chat = d; pending = none })
        (accepted-Lost api e t t' text s.chat c p status data' run begun okay there mode run_eq
          other) in
    rw begun (lost.now, rw lost.now lost.latest)
