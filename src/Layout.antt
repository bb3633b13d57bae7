-- ===== src/Layout.antt =====
-- frontend/client/src/App.tsx: the widths of the panes and their dividers, the right pane, the task lane
-- and its status buttons, the health light, and the module that captured answers are saved in.
pub mod Lane
pub mod Widths
use v.Prelude.{
  ℕ, zero, suc, ◌+◌, ◌-◌, min, max, String, Bool, true, false, not, List, [], ◌∷◌, Option, none,
  some, if◌then◌else◌, ◌===◌, ◌==◌, leb,
}
use v.Js.{Fetched, rejected, response, is_ok}
use v.Types.Project.{WorkspaceModule}

-- `clamp`, on the naturals: a pointer left of the start by more than the width gives a negative value,
-- which is clamped like 0, as every lower limit is positive.
unfoldable pub clamp : ℕ → ℕ → ℕ → ℕ
clamp value low high = min high (max low value)

pub data ResizeTarget : Type 0 where
  sidebar chat_pane tasks_pane : ResizeTarget

pub data RightPane : Type 0 where
  project_pane settings_pane : RightPane

pub record AppState : Type 0 where
  pub sidebar_width : ℕ
  pub chat_width : ℕ
  pub task_width : ℕ
  pub right_pane : RightPane
  pub api_healthy : Option Bool

-- `Number(localStorage.getItem(key)) || fallback`: a missing or unreadable number is `none`.
abbrev stored_or : Option ℕ → ℕ → ℕ
stored_or none fallback = fallback
stored_or (some n) fallback = if n == 0 then fallback else n

unfoldable pub initial_app : Option ℕ → Option ℕ → Option ℕ → AppState
initial_app stored_sidebar stored_chat stored_tasks = record {
  sidebar_width = stored_or stored_sidebar 132;
  chat_width = stored_or stored_chat 500;
  task_width = stored_or stored_tasks 220;
  right_pane = project_pane;
  api_healthy = none;
}

abbrev pub width_of : ResizeTarget → AppState → ℕ
width_of sidebar s = s.sidebar_width
width_of chat_pane s = s.chat_width
width_of tasks_pane s = s.task_width

abbrev pub lower : ResizeTarget → ℕ
lower sidebar = 112
lower chat_pane = 360
lower tasks_pane = 168

abbrev pub upper : ResizeTarget → ℕ
upper sidebar = 260
upper chat_pane = 820
upper tasks_pane = 340

abbrev pub set_width : ResizeTarget → ℕ → AppState → AppState
set_width sidebar w s = record s { sidebar_width = w }
set_width chat_pane w s = record s { chat_width = w }
set_width tasks_pane w s = record s { task_width = w }

-- A drag that `startResize` began: the divider, the pointer's place and the width at the start.
pub record Drag : Type 0 where
  pub target : ResizeTarget
  pub start_x : ℕ
  pub start_width : ℕ

unfoldable pub start_resize : ResizeTarget → ℕ → AppState → Drag
start_resize target x s = record { target = target; start_x = x; start_width = width_of target s }

-- `onMove`
unfoldable pub move : Drag → ℕ → AppState → AppState
unfolding clamp
move d x s =
    set_width d.target (clamp (d.start_width + x - d.start_x) (lower d.target) (upper d.target)) s

-- The moves of one drag, until the pointer goes up.
unfoldable pub moves : Drag → List ℕ → AppState → AppState
unfolding move
moves d [] s = s
moves d (x ∷ xs) s = moves d xs (move d x s)

-- What the effect writes to the storage: the three widths under their keys.
unfoldable pub stored_widths : AppState → List (String × ℕ)
stored_widths s =
    ("agent-room-sidebar-width", s.sidebar_width)
    ∷ ("agent-room-chat-width", s.chat_width)
    ∷ ("agent-room-task-width", s.task_width)
    ∷ []

-- `checkHealth`
unfoldable pub check_health : {A : Type 0} → Fetched A → AppState → AppState
check_health (rejected e) s = record s { api_healthy = some false }
check_health (response status body) s = record s { api_healthy = some (is_ok status) }

-- The rows of `GlobalSidebar` that do something.
pub data SidebarRow : Type 0 where
  agent_row project_row work_row settings_row : SidebarRow

unfoldable pub press_row : SidebarRow → AppState → AppState
press_row agent_row s = record s { right_pane = project_pane }
press_row project_row s = record s { right_pane = project_pane }
press_row work_row s = record s { right_pane = project_pane }
press_row settings_row s = record s { right_pane = settings_pane }

-- Whether a row is drawn as the active one.
unfoldable pub is_active_row : SidebarRow → RightPane → Bool
is_active_row agent_row settings_pane = false
is_active_row agent_row project_pane = true
is_active_row project_row project_pane = true
is_active_row project_row settings_pane = false
is_active_row work_row pane = false
is_active_row settings_row settings_pane = true
is_active_row settings_row project_pane = false

-- `workspace.selectedModule || workspace.workspace?.modules[0]`
unfoldable pub capture_target :
    Option WorkspaceModule → List WorkspaceModule → Option WorkspaceModule
capture_target (some m) modules = some m
capture_target none [] = none
capture_target none (m ∷ ms) = some m
