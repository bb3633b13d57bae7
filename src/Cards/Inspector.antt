-- ===== src/Cards/Inspector.antt =====
-- frontend/client/src/components/WorkspaceInspector.tsx: the lists of a module and the two forms.
use v.Prelude.{
  String, Bool, true, false, not, ◌&&◌, ◌||◌, List, [], Option, none, some, if◌then◌else◌, ◌===◌,
  ◌≡◌, refl, take, keep, trim, starts_with,
}
use v.Types.Project.{
  RepositoryFile, WorkspaceModule, WorkspaceNote, WorkspaceTask, WorkspaceMarker, WorkspaceSnapshot,
  WorkspaceTaskStatus, todo, done,
}
use v.Canvas.{is_file}
use v.Layout.Lane.{is_done}

pub record Form : Type 0 where
  pub note_title : String
  pub note_content : String
  pub task_title : String
  pub task_description : String
  pub submitting : Bool

unfoldable pub empty_form : Form
empty_form = record {
  note_title = "";
  note_content = "";
  task_title = "";
  task_description = "";
  submitting = false;
}

abbrev filed_notes : Option WorkspaceSnapshot → String → List WorkspaceNote
filed_notes none id = []
filed_notes (some w) id = keep (λ n. n.module_id === id) w.notes

-- The notes of the module; without a module no note has its id.
unfoldable pub notes_of : Option WorkspaceModule → Option WorkspaceSnapshot → List WorkspaceNote
notes_of none w = []
notes_of (some m) w = filed_notes w m.id

abbrev filed_tasks : Option WorkspaceSnapshot → String → List WorkspaceTask
filed_tasks none id = []
filed_tasks (some w) id = keep (λ t. t.module_id === id) w.tasks

unfoldable pub tasks_of : Option WorkspaceModule → Option WorkspaceSnapshot → List WorkspaceTask
tasks_of none w = []
tasks_of (some m) w = filed_tasks w m.id

abbrev filed_markers : Option WorkspaceSnapshot → String → List WorkspaceMarker
filed_markers none id = []
filed_markers (some w) id = keep (λ t. t.module_id === id) w.markers

unfoldable pub markers_for :
    Option WorkspaceModule → Option WorkspaceSnapshot → List WorkspaceMarker
markers_for none w = []
markers_for (some m) w = filed_markers w m.id

unfoldable pub module_files : Option WorkspaceModule → List RepositoryFile → List RepositoryFile
module_files none all = []
module_files (some m) all =
    take 12 (
      keep (λ f. is_file f && not (m.source_scope === "") && starts_with f.path m.source_scope) all)

-- A call that a form makes: the module, and the two texts.
pub record Submission : Type 0 where
  pub for_module : WorkspaceModule
  pub title : String
  pub text : String

abbrev note_for : Option WorkspaceModule → Form → Option Submission
note_for none f = none
note_for (some m) f =
    if trim f.note_title === "" || trim f.note_content === ""
    then none
    else some (record { for_module = m; title = trim f.note_title; text = trim f.note_content })

abbrev task_for : Option WorkspaceModule → Form → Option Submission
task_for none f = none
task_for (some m) f =
    if trim f.task_title === ""
    then none
    else some (record { for_module = m; title = trim f.task_title; text = trim f.task_description })

abbrev submitting_if : Option Submission → Form → Form
submitting_if none f = f
submitting_if (some _) f = record f { submitting = true }

-- `addNote` up to its request, and the request.
unfoldable pub begin_note : Option WorkspaceModule → Form → Form × Option Submission
begin_note m f = (submitting_if (note_for m f) f, note_for m f)

-- `addNote` after its request, by whether the request succeeded.
unfoldable pub end_note : Bool → Form → Form
end_note true f = record f { note_title = ""; note_content = ""; submitting = false }
end_note false f = record f { submitting = false }

-- `addTask` up to its request, and the request.
unfoldable pub begin_task : Option WorkspaceModule → Form → Form × Option Submission
begin_task m f = (submitting_if (task_for m f) f, task_for m f)

unfoldable pub end_task : Bool → Form → Form
end_task true f = record f { task_title = ""; task_description = ""; submitting = false }
end_task false f = record f { submitting = false }

-- The status that the check mark of a task sets.
unfoldable pub toggled_status : WorkspaceTaskStatus → WorkspaceTaskStatus
toggled_status s = if is_done s then todo else done

abbrev finish_note : Bool → Form → Option Submission → Form
finish_note saved f none = f
finish_note saved f (some _) = end_note saved f

-- `addNote`: the form after it, and the request it made.
unfoldable pub add_note : Bool → Option WorkspaceModule → Form → Form × Option Submission
unfolding begin_note end_note
add_note saved m f = let begun = begin_note m f in (finish_note saved begun.0 begun.1, begun.1)

abbrev finish_task : Bool → Form → Option Submission → Form
finish_task saved f none = f
finish_task saved f (some _) = end_task saved f

-- `addTask`: the form after it, and the request it made.
unfoldable pub add_task : Bool → Option WorkspaceModule → Form → Form × Option Submission
unfolding begin_task end_task
add_task saved m f = let begun = begin_task m f in (finish_task saved begun.0 begun.1, begun.1)

finish_note-texts :
    (f : Form) (s : Option Submission)
    → ((finish_note false (submitting_if s f) s).note_title ≡ f.note_title)
      × ((finish_note false (submitting_if s f) s).note_content ≡ f.note_content)
unfolding end_note
finish_note-texts f none = (refl, refl)
finish_note-texts f (some s) = (refl, refl)

-- A note that could not be saved, or was not sent, leaves the form with the texts as they were typed;
-- without a module nothing is sent and the form stays as it is.
add_note-kept :
    (saved : Bool) (m : Option WorkspaceModule) (f : Form)
    → ((add_note false m f).0.note_title ≡ f.note_title)
      × ((add_note false m f).0.note_content ≡ f.note_content)
      × (add_note saved none f ≡ (f, none))
unfolding add_note begin_note
add_note-kept saved m f = let texts = finish_note-texts f (note_for m f) in (texts.0, texts.1, refl)
