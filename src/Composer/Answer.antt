-- ===== src/Composer/Answer.antt =====
-- Chat.tsx: `latestAnswer` and `capture`, over the conversation of the hook.
use mathlib.Core.List.{reverse, reverse-append}
use v.Prelude.{
  String, Bool, true, false, not, ◌||◌, ◌&&◌, List, [], ◌∷◌, ◌++◌, Option, none, some, ◌≡◌,
  if◌then◌else◌, find, ◌===◌, Bool-cases, inl, inr,
}
use v.Js.{Value, strict_eq, truthy}
use v.Types.Run.{ChatMessage, Role, assistant}
use v.Composer.{Composer, saving, saved, error}

abbrev is_assistant : Role → Bool
is_assistant assistant = true
is_assistant _ = false

abbrev pub answers : Value → ChatMessage → Bool
answers run message = is_assistant message.role && strict_eq message.run_id run

abbrev content_or_empty : Option ChatMessage → String
content_or_empty none = ""
content_or_empty (some message) = message.content

-- `[...messages].reverse().find(...)?.content || ''`
unfoldable pub latest_answer : List ChatMessage → Value → String
latest_answer messages run = content_or_empty (find (answers run) (reverse messages))

-- What is captured, and where to.
pub data CaptureKind : Type 0 where
  note task : CaptureKind

pub record Captured : Type 0 where
  pub kind : CaptureKind
  pub run : Value
  pub title : String
  pub content : String

abbrev capture_title : CaptureKind → String
capture_title note = "Conversation decision"
capture_title task = "Follow up from conversation"

-- `capture` up to its `await`: the call that it makes, if any, and the state meanwhile.
unfoldable pub begin_capture :
    CaptureKind → Value → Bool → List ChatMessage → Composer → Option Captured × Composer
begin_capture kind run loading messages c =
    let answer = latest_answer messages run in
    if not (truthy run) || loading || answer === "" then (none, c) else (
      some (record { kind = kind; run = run; title = capture_title kind; content = answer }),
      record c { capture_state = saving },
    )

-- After it, with whether the call succeeded.
unfoldable pub finish_capture : Bool → Composer → Composer
finish_capture true c = record c { capture_state = saved }
finish_capture false c = record c { capture_state = error }

-- A message added at the end is the latest answer of its own run, and changes that of no other.
pub latest_answer-concat :
    (messages : List ChatMessage) (m : ChatMessage) (run : Value)
    → latest_answer (messages ++ m ∷ []) run
      ≡ (if answers run m then m.content else latest_answer messages run)
unfolding latest_answer
latest_answer-concat messages m run = elim (Bool-cases (answers run m)) [
  | inl e ↦ rw (reverse-append messages (m ∷ []), e)
  | inr e ↦ rw (reverse-append messages (m ∷ []), e)
]
