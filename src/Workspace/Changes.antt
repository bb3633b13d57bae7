-- ===== src/Workspace/Changes.antt =====
-- What the operations of useWorkspace.ts do to the canvas, all of them at once.
use v.Prelude.{String, Bool, true, false, Option, none, some, ◌≡◌, refl, if◌then◌else◌}
use v.Js.{Thrown, Fetched, rejected, response, Body, parsed, unreadable, is_ok}
use v.Types.Project.{WorkspaceSnapshot}
use v.Types.Device.{DeviceJob, ProjectSource}
use v.Workspace.{WorkspaceState, DevicePairing}
use v.Workspace.Refresh.{Outcomes, refresh}
use v.Workspace.Selection.{HasSelection, refresh-HasSelection}
use v.Workspace.Operations.{
  Result, done, threw, create_device_pairing, select_project_source, create_device_job,
  approve_device_job, create_note, create_task, update_task_status, checked, with_workspace,
  on_json, not_ready, refresh_after, read_then_refresh, quiet_then_refresh,
}

-- An operation with the outcome of its request.
pub data Operation : Type 0 where
  pair : Fetched DevicePairing → Operation
  select_source : Fetched ProjectSource → Operation
  queue_job : Fetched DeviceJob → Operation
  decide_job add_note add_task set_status : Fetched (Unit {0}) → Operation

abbrev thrown_of : {A : Type 0} → Result A → Option Thrown
thrown_of (done a) = none
thrown_of (threw e) = some e

abbrev pub outcome_of : {A : Type 0} → WorkspaceState × Result A → WorkspaceState × Option Thrown
outcome_of (s, r) = (s, thrown_of r)

-- The state after an operation, and what it threw.
abbrev pub perform : Operation → Outcomes → WorkspaceState → WorkspaceState × Option Thrown
perform (pair f) o s = outcome_of (create_device_pairing f s)
perform (select_source f) o s = outcome_of (select_project_source f o s)
perform (queue_job f) o s = outcome_of (create_device_job f o s)
perform (decide_job f) o s = outcome_of (approve_device_job f o s)
perform (add_note f) o s = outcome_of (create_note f o s)
perform (add_task f) o s = outcome_of (create_task f o s)
perform (set_status f) o s = outcome_of (update_task_status f o s)

-- How an operation may leave the canvas: as it was, with a new pairing, or refreshed; only the first
-- of these with an error.
pub data Leaves (o : Outcomes) (s : WorkspaceState) (r : WorkspaceState × Option Thrown)
    : Type 0 where
  unchanged : (e : Option Thrown) → r ≡ (s, e) → Leaves o s r
  paired : (p : DevicePairing) → r ≡ (record s { pairing = some p }, none) → Leaves o s r
  refreshed : r ≡ (refresh false o s, none) → Leaves o s r

module _ (o : Outcomes) (s : WorkspaceState) (A : Type 0) where
  Leaves-with :
      (w : Option WorkspaceSnapshot) (missing ready : WorkspaceState × Result A)
      → Leaves o s (outcome_of missing)
      → Leaves o s (outcome_of ready)
      → Leaves o s (outcome_of (with_workspace w missing ready))
  Leaves-with none missing ready h k = h
  Leaves-with (some w) missing ready h k = k

  Leaves-failed : (e : Thrown) → Leaves o s (outcome_of {A = A} (s, threw e))
  Leaves-failed e = unchanged (some e) refl

  Leaves-if :
      (b : Bool) (x y : WorkspaceState × Result A)
      → Leaves o s (outcome_of x)
      → Leaves o s (outcome_of y)
      → Leaves o s (outcome_of (if b then x else y))
  Leaves-if true x y h k = h
  Leaves-if false x y h k = k

  Leaves-checked :
      {B : Type 0} (text : String) (f : Fetched B) (next : Body B → WorkspaceState × Result A)
      → ((b : Body B) → Leaves o s (outcome_of (next b)))
      → Leaves o s (outcome_of (checked text f (λ e. (s, threw e)) next))
  unfolding checked
  Leaves-checked text (rejected e) next h = Leaves-failed e
  Leaves-checked text (response status b) next h =
      Leaves-if (is_ok status) (next b) (s, threw (Thrown.error text)) (h b)
        (Leaves-failed (Thrown.error text))

  Leaves-on_json :
      (k : A → WorkspaceState × Result A)
      → ((a : A) → Leaves o s (outcome_of (k a)))
      → (b : Body A) → Leaves o s (outcome_of (on_json s k b))
  Leaves-on_json k h (parsed a) = h a
  Leaves-on_json k h (unreadable e) = Leaves-failed e

  read_then_refresh-Leaves :
      (text : String) (f : Fetched A) → Leaves o s (outcome_of (read_then_refresh text f o s))
  unfolding read_then_refresh
  read_then_refresh-Leaves text f =
      Leaves-with s.workspace (not_ready s) _ (unchanged (some _) refl) (
        Leaves-checked text f (on_json s (λ a. (refresh false o s, done a)))
          (Leaves-on_json (λ a. (refresh false o s, done a)) (λ a. refreshed refl)))

module _ (o : Outcomes) (s : WorkspaceState) where
  refresh_any :
      (text : String) (f : Fetched (Unit {0}))
      → Leaves o s (outcome_of (checked text f (λ e. (s, threw e)) (λ _. refresh_after o s)))
  refresh_any text f = Leaves-checked o s _ text f (λ _. refresh_after o s) (λ _. refreshed refl)

  quiet-Leaves :
      (text : String) (f : Fetched (Unit {0}))
      → Leaves o s (outcome_of (quiet_then_refresh text f o s))
  unfolding quiet_then_refresh
  quiet-Leaves text f =
      Leaves-with o s _ s.workspace (s, done tt) _ (unchanged none refl) (refresh_any text f)

-- Every operation leaves the canvas in one of these ways.
pub perform-Leaves :
    (op : Operation) (o : Outcomes) (s : WorkspaceState) → Leaves o s (perform op o s)
unfolding create_device_pairing select_project_source create_device_job approve_device_job
    create_note create_task update_task_status
perform-Leaves (pair f) o s =
    Leaves-with o s _ s.workspace (not_ready s) _ (unchanged (some _) refl) (
      Leaves-checked o s _ "Could not create a device pairing token" f
        (on_json s (λ pairing. (record s { pairing = some pairing }, done pairing)))
        (Leaves-on_json o s _ (λ pairing. (record s { pairing = some pairing }, done pairing))
          (λ p. paired p refl)))
perform-Leaves (select_source f) o s =
    read_then_refresh-Leaves o s _ "Could not select project source" f
perform-Leaves (queue_job f) o s =
    read_then_refresh-Leaves o s _ "Could not create local semantic request" f
perform-Leaves (decide_job f) o s =
    Leaves-with o s _ s.workspace (not_ready s) _ (unchanged (some _) refl)
      (refresh_any o s "Could not approve local semantic request" f)
perform-Leaves (add_note f) o s = quiet-Leaves o s "Could not create note" f
perform-Leaves (add_task f) o s = quiet-Leaves o s "Could not create task" f
perform-Leaves (set_status f) o s = quiet-Leaves o s "Could not update task" f

HasSelection-Leaves :
    (o : Outcomes) (s : WorkspaceState) (r : WorkspaceState × Option Thrown)
    → Leaves o s r
    → HasSelection s
    → HasSelection r.0
HasSelection-Leaves o s r (unchanged e h) k = rw h k
HasSelection-Leaves o s r (paired p h) k = rw h k
HasSelection-Leaves o s r (refreshed h) k = rw h (refresh-HasSelection false o s k)

-- Every operation keeps the selection valid.
pub perform-HasSelection :
    (op : Operation) (o : Outcomes) (s : WorkspaceState)
    → HasSelection s
    → HasSelection (perform op o s).0
perform-HasSelection op o s h = HasSelection-Leaves o s (perform op o s) (perform-Leaves op o s) h
