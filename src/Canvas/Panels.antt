-- ===== src/Canvas/Panels.antt =====
-- TaskGraph.tsx: the clicks on the canvas, and what the inspectors and the module cards list.
use v.Prelude.{
  ℕ, String, Bool, true, false, ◌&&◌, List, [], Option, none, some, if◌then◌else◌, ◌===◌, keep,
  take, length, starts_with,
}
use v.Types.Project.{
  RepositoryFile, WorkspaceModule, WorkspaceMarker, WorkspaceMarkerType, task, note, decision,
  WorkspaceNote, WorkspaceTask, WorkspaceSnapshot,
}
use v.Canvas.{MapLens, files_lens, is_file}

-- The state of the component, and the selection that its parent keeps.
pub record CanvasState : Type 0 where
  pub lens : MapLens
  pub inspector_open : Bool
  pub selected_file_path : Option String
  pub selected_module_id : Option String

unfoldable pub initial_canvas : Option String → CanvasState
initial_canvas chosen = record {
  lens = files_lens;
  inspector_open = true;
  selected_file_path = none;
  selected_module_id = chosen;
}

-- What the user clicks. The nodes of the starter plan do nothing.
pub data Click : Type 0 where
  click_module : String → Click
  click_file : RepositoryFile → Click
  click_mission : Click
  click_lens : MapLens → Click
  click_close : Click

unfoldable pub click : Click → CanvasState → CanvasState
click (click_module id) s = record s {
  selected_file_path = none;
  selected_module_id = some id;
  inspector_open = true;
}
click (click_file f) s = record s { selected_file_path = some f.path; inspector_open = true }
click click_mission s = s
click (click_lens lens) s = record s { lens = lens }
click click_close s = record s { inspector_open = false }

-- The lists of the module inspector.
pub record ModuleDetails : Type 0 where
  pub module_files : List RepositoryFile
  pub notes : List WorkspaceNote
  pub tasks : List WorkspaceTask

abbrev notes_in : Option WorkspaceSnapshot → String → List WorkspaceNote
notes_in none id = []
notes_in (some w) id = keep (λ n. n.module_id === id) w.notes

abbrev tasks_in : Option WorkspaceSnapshot → String → List WorkspaceTask
tasks_in none id = []
tasks_in (some w) id = keep (λ t. t.module_id === id) w.tasks

unfoldable pub module_details :
    WorkspaceModule → Option WorkspaceSnapshot → List RepositoryFile → ModuleDetails
module_details m workspace all = record {
  module_files = take 8 (keep (λ f. is_file f && starts_with f.path m.source_scope) all);
  notes = take 3 (notes_in workspace m.id);
  tasks = take 4 (tasks_in workspace m.id);
}

-- What the inspector shows: nothing, a file, or a module.
pub data Inspector : Type 0 where
  closed : Inspector
  shows_file : RepositoryFile → Inspector
  shows_module : WorkspaceModule → ModuleDetails → Inspector

abbrev inspect_module :
    Option WorkspaceModule → Option WorkspaceSnapshot → List RepositoryFile → Inspector
inspect_module none workspace all = closed
inspect_module (some m) workspace all = shows_module m (module_details m workspace all)

abbrev inspect_file : Option RepositoryFile → Inspector → Inspector
inspect_file none other = other
inspect_file (some f) other = shows_file f

unfoldable pub inspector :
    CanvasState
    → Option WorkspaceModule
    → Option RepositoryFile
    → Option WorkspaceSnapshot
    → List RepositoryFile
    → Inspector
unfolding module_details
inspector s selected selected_file workspace all =
    if s.inspector_open
    then inspect_file selected_file (inspect_module selected workspace all)
    else closed

abbrev is_task : WorkspaceMarkerType → Bool
is_task task = true
is_task _ = false

abbrev is_context : WorkspaceMarkerType → Bool
is_context note = true
is_context decision = true
is_context _ = false

-- The two counts on a module card: tasks, and notes with decisions.
unfoldable pub marker_counts : List WorkspaceMarker → ℕ × ℕ
marker_counts markers =
    (length (keep (λ m. is_task m.type) markers), length (keep (λ m. is_context m.type) markers))
