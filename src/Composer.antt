-- ===== src/Composer.antt =====
-- frontend/client/src/components/Chat.tsx: the message composer. The draft and the attachments are
-- texts by code units, since the component measures and cuts them.
pub mod Attachments
pub mod Answer
pub mod Lost
pub mod Budget
use v.Prelude.{
  ℕ, ◌-◌, String, Bool, true, false, not, ◌||◌, ◌&&◌, List, [], ◌∷◌, ◌++◌, map, Option, none, some,
  if◌then◌else◌, Text, units, is_empty, is_blank, length, take, last?,
}
use v.Js.{Value, is_str, get, truthy}
use v.Types.Run.{AgentStage, planning, executing, review, ApprovalMode, confirm_each}

-- `latest?.type === kind`
abbrev latest_is : Option Value → String → Bool
latest_is none kind = false
latest_is (some event) kind = is_str (get event "type") kind

abbrev stage_copy : AgentStage → String
stage_copy planning = "Understanding your request"
stage_copy executing = "Working with the project"
stage_copy review = "Reviewing the result"
stage_copy _ = "Working quietly in the background"

unfoldable pub activity_copy : AgentStage → List Value → Bool → Option String
activity_copy stage events loading =
    let latest = last? events in
    if not loading
    then none
    else some (
        if latest_is latest "conversation.started"
        then "Thinking through your message"
        else if latest_is latest "conversation.completed"
        then "Preparing a concise answer"
        else if latest_is latest "plan.created"
        then "Understanding the project task"
        else if latest_is latest "tool.result"
        then "Checking the workspace result"
        else if latest_is latest "approval.requested"
        then "Waiting for your decision"
        else stage_copy stage)

pub data CaptureState : Type 0 where
  idle saving saved error : CaptureState

pub record Attachment : Type 0 where
  pub name : Text
  pub excerpt : Option Text
  pub unsupported : Bool

pub record Composer : Type 0 where
  pub draft : Text
  pub capture_state : CaptureState
  pub attachments : List Attachment

abbrev newline : Text
newline = 10 ∷ []

-- `attachment.excerpt ? … : …`: an empty excerpt is falsy.
abbrev excerpt_or_notice : Option Text → Text
excerpt_or_notice (some (c ∷ s)) = c ∷ s
excerpt_or_notice _ =
    units
      "Binary or unsupported attachment remains local; ask the user for a text export or an explicit local-agent task to inspect it."

describe_attachment : Attachment → Text
describe_attachment a =
    units "--- " ++ (a.name ++ (units " ---" ++ (newline ++ excerpt_or_notice a.excerpt)))

-- `texts.join('\n\n')`
join_paragraphs : List Text → Text
join_paragraphs [] = []
join_paragraphs (t ∷ []) = t
join_paragraphs (t ∷ u ∷ rest) = t ++ (newline ++ (newline ++ join_paragraphs (u ∷ rest)))

unfoldable pub attachment_context : List Attachment → Text
unfolding describe_attachment join_paragraphs
attachment_context [] = []
attachment_context (a ∷ rest) =
    newline
    ++ (newline
        ++ (units "[Local attachments shared with this message]"
            ++ (newline ++ join_paragraphs (map describe_attachment (a ∷ rest)))))

abbrev pub context_limit : ℕ
context_limit = 18000

-- The draft, and as much of the context as the limit leaves room for. The truncated subtraction is the
-- source's `Math.max(0, 18_000 - draft.length)`.
unfoldable pub fit : ℕ → Text → Text → Text
fit limit draft context = draft ++ take (limit - length draft) context

unfoldable pub outgoing : Composer → Text
unfolding fit
outgoing c = fit context_limit c.draft (attachment_context c.attachments)

-- `submit`: the text given to `onSend`, if any, and the state after.
unfoldable pub submit : Bool → Composer → Option Text × Composer
submit loading c =
    if is_blank c.draft || loading
    then (none, c)
    else (some (outgoing c), record c { draft = []; attachments = [] })

-- `onKeyDown` of the text area: the key, with its shift modifier.
abbrev pub submits : String → Bool → Bool
submits key shift = is_str (Value.str key) "Enter" && not shift

unfoldable pub press_key : String → Bool → Bool → Composer → Option Text × Composer
unfolding submit
press_key key shift loading c = if submits key shift then submit loading c else (none, c)

-- Whether a run asks before it changes anything.
unfoldable pub ask_before_changes : ApprovalMode → Bool
ask_before_changes confirm_each = true
ask_before_changes ApprovalMode.plan = true
ask_before_changes _ = false
