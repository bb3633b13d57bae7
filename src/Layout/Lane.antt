-- ===== src/Layout/Lane.antt =====
-- App.tsx, `TASK_META` and `TaskLane`: the task cards and the status that their button sets.
use v.Prelude.{
  ℕ, ◌+◌, String, Bool, true, false, not, List, [], ◌∷◌, Option, none, some, if◌then◌else◌, ◌===◌,
  ◌≡◌, refl, find, keep, length, arith,
}
use v.Js.{Value, undefined, strict_eq, is_str}
use v.Types.Run.{PlanStep}
use v.Types.Project.{
  WorkspaceTaskStatus, backlog, todo, in_progress, blocked, done, clarifying, ready, working,
  needs_you, review, deferred, WorkspaceTask, WorkspaceModule, WorkspaceSnapshot,
}

-- The colour of a card's dot, by its class name.
pub data Tint : Type 0 where
  amber violet ice : Tint

pub record TaskMeta : Type 0 where
  pub label : String
  pub tint : Tint
  pub next : Option WorkspaceTaskStatus
  pub action : Option String

abbrev meta : String → Tint → Option WorkspaceTaskStatus → Option String → TaskMeta
meta label tint next action = record { label = label; tint = tint; next = next; action = action }

-- `TASK_META[status]`
unfoldable pub task_meta : WorkspaceTaskStatus → Option TaskMeta
task_meta clarifying = some (meta "Clarifying" amber (some ready) (some "Ready"))
task_meta ready = some (meta "Ready" ice (some working) (some "Start"))
task_meta working = some (meta "Working" violet (some review) (some "Review"))
task_meta needs_you = some (meta "Needs you" amber none none)
task_meta review = some (meta "Review" ice (some done) (some "Archive"))
task_meta deferred = some (meta "Deferred" ice (some clarifying) (some "Resume"))
task_meta todo = some (meta "Clarifying" amber (some ready) (some "Ready"))
task_meta in_progress = some (meta "Working" violet (some review) (some "Review"))
task_meta backlog = some (meta "Deferred" ice (some clarifying) (some "Resume"))
task_meta blocked = some (meta "Needs you" amber none none)
task_meta done = none

abbrev or_clarifying : Option TaskMeta → TaskMeta
or_clarifying none = meta "Clarifying" amber (some ready) (some "Ready")
or_clarifying (some m) = m

-- `TASK_META[task.status] || TASK_META.clarifying`
unfoldable pub meta_of : WorkspaceTaskStatus → TaskMeta
unfolding task_meta
meta_of status = or_clarifying (task_meta status)

abbrev pub is_done : WorkspaceTaskStatus → Bool
is_done done = true
is_done _ = false

abbrev tasks_of : Option WorkspaceSnapshot → List WorkspaceTask
tasks_of none = []
tasks_of (some w) = w.tasks

unfoldable pub active_tasks : Option WorkspaceSnapshot → List WorkspaceTask
active_tasks workspace = keep (λ t. not (is_done t.status)) (tasks_of workspace)

unfoldable pub done_count : Option WorkspaceSnapshot → ℕ
done_count workspace = length (keep (λ t. is_done t.status) (tasks_of workspace))

abbrev title_or_project : Option WorkspaceModule → String
title_or_project none = "Project"
title_or_project (some m) = if m.title === "" then "Project" else m.title

abbrev lane_modules : Option WorkspaceSnapshot → List WorkspaceModule
lane_modules none = []
lane_modules (some w) = w.modules

-- `moduleName`
unfoldable pub module_name : Option WorkspaceSnapshot → String → String
module_name workspace id = title_or_project (find (λ m. m.id === id) (lane_modules workspace))

-- The label of a card of the plan.
unfoldable pub step_label : PlanStep → String
step_label p =
    if is_str p.status "active"
    then "Clarifying"
    else if is_str p.status "completed"
    then "Ready"
    else "Draft"

-- A click on a card: `setExpandedTask(expanded ? undefined : id)`
unfoldable pub toggle_card : Value → Value → Value
toggle_card id expanded = if strict_eq expanded id then undefined else id

-- The status that the button of a card sets, where there is a button.
unfoldable pub advance : WorkspaceTaskStatus → Option WorkspaceTaskStatus
unfolding meta_of
advance status = (meta_of status).next

-- The lane shows or counts every task of the workspace once: active cards and the count of the done
-- ones add up to the tasks.
active_tasks-done_count :
    (w : WorkspaceSnapshot) → length (active_tasks (some w)) + done_count (some w) ≡ length w.tasks
unfolding active_tasks done_count
active_tasks-done_count w = count w.tasks
  where
    count :
        (ts : List WorkspaceTask)
        → length (keep (λ t. not (is_done t.status)) ts) + length (keep (λ t. is_done t.status) ts)
          ≡ length ts
    count [] = refl
    count (t ∷ ts) = ground (arith, count ts)
