-- ===== src/Legacy/View.antt =====
-- frontend/src/components: the chat rail, the message bubble and the task graph of the first client.
use v.Prelude.{
  ℕ, suc, String, Bool, true, false, not, ◌&&◌, ◌||◌, List, [], ◌∷◌, Option, none, some,
  if◌then◌else◌, ◌===◌, ◌==◌, ltb, trim, take_last, map, map_index, last?, ◌*◌, ◌+◌, ◌/◌, ◌%◌, show,
  ◌<>◌,
}
use v.Js.{Value, undefined, str, get, or_else, truthy, is_str, strict_eq}
use v.Types.Run.{
  AgentStage, planning, executing, review, completed, PlanStep, Role, user, assistant, system,
}

-- The place of a stage in `stageMeta`, from one; zero for the stages without one.
abbrev stage_place : AgentStage → ℕ
stage_place planning = 1
stage_place executing = 2
stage_place review = 3
stage_place completed = 4
stage_place _ = 0

abbrev is_completed : AgentStage → Bool
is_completed completed = true
is_completed _ = false

-- How the marker at a place (from one) is drawn: whether its stage is done, and whether it is active.
unfoldable pub stage_marker : AgentStage → ℕ → Bool × Bool
stage_marker stage place =
    (ltb place (stage_place stage) || is_completed stage, stage_place stage == place)

-- `submit`: the text given to `onSend`, if any, and the draft after.
unfoldable pub submit_draft : String → Option String × String
submit_draft draft = if trim draft === "" then (none, draft) else (some draft, "")

-- Whether a key submits.
unfoldable pub submits_draft : String → Bool → Bool
submits_draft key shift = key === "Enter" && not shift

-- The button is disabled.
unfoldable pub send_disabled : Bool → String → Bool
send_disabled loading draft = loading || trim draft === ""

-- The event trace: the texts of the last five events.
unfoldable pub event_trace : List Value → List Value
event_trace events =
    map
      (λ e.
        or_else (or_else (or_else (get e "message") (get e "content")) (get e "text"))
          (str "Agent event received"))
      (take_last 5 events)

-- How a message is drawn, by its role.
pub data Speaker : Type 0 where
  you transport agent : Speaker

unfoldable pub speaker : Role → Speaker
speaker user = you
speaker system = transport
speaker assistant = agent

pub data StepIcon : Type 0 where
  check loader wrench dashed : StepIcon

-- `GraphNode`: the icon and the caption of a step.
unfoldable pub step_icon : PlanStep → StepIcon
step_icon p =
    if is_str p.status "completed"
    then check
    else if is_str p.status "active"
    then loader
    else if truthy p.tool
    then wrench
    else dashed

unfoldable pub step_caption : PlanStep → Value
step_caption p =
    if is_str p.status "active"
    then str "Executing"
    else if is_str p.status "completed"
    then str "Complete"
    else or_else p.tool (str "Queued")

-- A node of the task graph: the step, and where it stands.
pub record StepNode : Type 0 where
  pub step : PlanStep
  pub x : ℕ
  pub y : ℕ

abbrev latest_step : Option Value → Value
latest_step none = undefined
latest_step (some e) = or_else (get e "step_id") (get e "stepId")

abbrev activate : Value → PlanStep → PlanStep
activate latest p =
    if strict_eq latest p.id && is_str p.status "pending"
    then record p { status = str "active" }
    else p

-- The nodes after an event: the pending step that the latest event names is drawn as active.
unfoldable pub step_nodes : List Value → List PlanStep → List StepNode
step_nodes events plan =
    map_index
      (λ i p. record {
        step = activate (latest_step (last? events)) p;
        x = 100 + i % 2 * 300;
        y = 90 + i / 2 * 180;
      })
      0 plan

-- The edges: one from each step to the next, by their ids.
unfoldable pub step_edges : ℕ → List PlanStep → List (String × (Value × Value))
step_edges index [] = []
step_edges index (p ∷ []) = []
step_edges index (p ∷ q ∷ ps) =
    ("edge-" <> show index, (p.id, q.id)) ∷ step_edges (suc index) (q ∷ ps)
