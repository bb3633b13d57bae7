-- ===== src/Workspace/Operations.antt =====
-- useWorkspace.ts: the operations that change the project. Each sends one request and then refreshes;
-- what it throws goes to its caller.
use v.Prelude.{String, Bool, false, List, [], ◌∷◌, Option, none, some, if◌then◌else◌, ◌<>◌}
use v.Js.{
  Value, Items, Fields, str, obj, bool, undefined, Thrown, Fetched, rejected, response, Body,
  parsed, unreadable, is_ok,
}
use v.Types.Project.{WorkspaceSnapshot, WorkspaceModule}
use v.Types.Device.{DeviceJob, ProjectSource, ProjectSourceKind}
use v.Workspace.{WorkspaceState, DevicePairing}
use v.Workspace.Refresh.{Outcomes, refresh}

pub record Request : Type 0 where
  pub method : String
  pub url : String
  pub body : Fields

pub data Result (A : Type 0) : Type 0 where
  done : A → Result A
  threw : Thrown → Result A

abbrev project_url : String → WorkspaceSnapshot → String
project_url root w = root <> "/v1/projects/" <> w.project.id

abbrev optional : Option String → Value
optional none = undefined
optional (some s) = str s

abbrev texts : List String → Items
texts [] = Items.nil
texts (s ∷ rest) = Items.cons (str s) (texts rest)

abbrev field_of : String → Value → Fields → Fields
field_of k v rest = Fields.field k v rest

unfoldable pub pairing_request : String → Option String → WorkspaceSnapshot → Request
pairing_request root hint w = record {
  method = "POST";
  url = project_url root w <> "/devices/pair";
  body =
      field_of "name_hint" (str (elim hint [ none ↦ "Local Agent Room Runtime" | some s ↦ s ]))
        Fields.end;
}

pub record SourceOptions : Type 0 where
  pub local_workspace_id : Option String
  pub repository_url : Option String
  pub ref : Option String

abbrev kind_text : ProjectSourceKind → String
kind_text ProjectSourceKind.paired_local = "paired_local"
kind_text ProjectSourceKind.github_repository = "github_repository"

unfoldable pub source_request :
    String → ProjectSourceKind → SourceOptions → WorkspaceSnapshot → Request
source_request root kind options w = record {
  method = "PUT";
  url = project_url root w <> "/source";
  body = field_of "kind" (str (kind_text kind)) (
      field_of "local_workspace_id" (optional options.local_workspace_id) (
        field_of "repository_url" (optional options.repository_url)
          (field_of "ref" (optional options.ref) Fields.end)));
}

unfoldable pub job_request : String → String → String → Fields → WorkspaceSnapshot → Request
job_request root device type payload w = record {
  method = "POST";
  url = project_url root w <> "/devices/jobs";
  body =
      field_of "device_id" (str device)
        (field_of "type" (str type) (field_of "payload" (obj payload) Fields.end));
}

unfoldable pub job_approval_request : String → String → Bool → WorkspaceSnapshot → Request
job_approval_request root job approved w = record {
  method = "POST";
  url = project_url root w <> "/devices/jobs/" <> job <> "/approval";
  body = field_of "approved" (bool approved) Fields.end;
}

unfoldable pub note_request :
    String → WorkspaceModule → String → String → Option String → WorkspaceSnapshot → Request
note_request root module_ title content run w = record {
  method = "POST";
  url = project_url root w <> "/notes";
  body = field_of "module_id" (str module_.id) (
      field_of "title" (str title)
        (field_of "content" (str content) (field_of "source_run_id" (optional run) Fields.end)));
}

unfoldable pub task_request :
    String
    → WorkspaceModule
    → String
    → String
    → Option String
    → List String
    → WorkspaceSnapshot
    → Request
task_request root module_ title description run criteria w = record {
  method = "POST";
  url = project_url root w <> "/tasks";
  body = field_of "module_id" (str module_.id) (
      field_of "title" (str title) (
        field_of "description" (str description) (
          field_of "source_run_id" (optional run)
            (field_of "acceptance_criteria" (Value.arr (texts criteria)) Fields.end))));
}

unfoldable pub task_status_request : String → String → String → WorkspaceSnapshot → Request
task_status_request root task status w = record {
  method = "PATCH";
  url = project_url root w <> "/tasks/" <> task;
  body = field_of "status" (str status) Fields.end;
}

-- `if (!response.ok) throw new Error(text)`, then the rest on the body.
unfoldable pub checked {ℓ} :
    {A : Type 0} {B : Type ℓ} → String → Fetched A → (Thrown → B) → (Body A → B) → B
checked text (rejected e) fail next = fail e
checked text (response status body) fail next =
    if is_ok status then next body else fail (Thrown.error text)

-- `if (!workspace) …`
abbrev pub with_workspace {ℓ} : {A : Type ℓ} → Option WorkspaceSnapshot → A → A → A
with_workspace none missing ready = missing
with_workspace (some _) missing ready = ready

abbrev pub not_ready : {A : Type 0} → WorkspaceState → WorkspaceState × Result A
not_ready s = (s, threw (Thrown.error "Workspace is not ready"))

-- `await response.json()`, with what follows it.
abbrev pub on_json :
    {A : Type 0}
    → WorkspaceState
    → (A → WorkspaceState × Result A)
    → Body A
    → WorkspaceState × Result A
on_json s k (parsed a) = k a
on_json s k (unreadable e) = (s, threw e)

unfoldable pub create_device_pairing :
    Fetched DevicePairing → WorkspaceState → WorkspaceState × Result DevicePairing
unfolding checked
create_device_pairing outcome s = with_workspace s.workspace (not_ready s) (
    checked "Could not create a device pairing token" outcome (λ e. (s, threw e))
      (on_json s (λ pairing. (record s { pairing = some pairing }, done pairing))))

-- `selectProjectSource` and `createDeviceJob`: the body is read before the refresh.
unfoldable pub read_then_refresh :
    {A : Type 0} → String → Fetched A → Outcomes → WorkspaceState → WorkspaceState × Result A
unfolding checked
read_then_refresh text outcome o s =
    with_workspace s.workspace (not_ready s)
      (checked text outcome (λ e. (s, threw e)) (on_json s (λ a. (refresh false o s, done a))))

unfoldable pub select_project_source :
    Fetched ProjectSource → Outcomes → WorkspaceState → WorkspaceState × Result ProjectSource
unfolding read_then_refresh
select_project_source = read_then_refresh "Could not select project source"

unfoldable pub create_device_job :
    Fetched DeviceJob → Outcomes → WorkspaceState → WorkspaceState × Result DeviceJob
unfolding read_then_refresh
create_device_job = read_then_refresh "Could not create local semantic request"

abbrev pub refresh_after : Outcomes → WorkspaceState → WorkspaceState × Result (Unit {0})
refresh_after o s = (refresh false o s, done tt)

unfoldable pub approve_device_job :
    Fetched (Unit {0}) → Outcomes → WorkspaceState → WorkspaceState × Result (Unit {0})
unfolding checked
approve_device_job outcome o s = with_workspace s.workspace (not_ready s) (
    checked "Could not approve local semantic request" outcome (λ e. (s, threw e))
      (λ _. refresh_after o s))

-- `createNote`, `createTask` and `updateTaskStatus`: without a workspace they return quietly.
unfoldable pub quiet_then_refresh :
    String → Fetched (Unit {0}) → Outcomes → WorkspaceState → WorkspaceState × Result (Unit {0})
unfolding checked
quiet_then_refresh text outcome o s =
    with_workspace s.workspace (s, done tt)
      (checked text outcome (λ e. (s, threw e)) (λ _. refresh_after o s))

unfoldable pub create_note :
    Fetched (Unit {0}) → Outcomes → WorkspaceState → WorkspaceState × Result (Unit {0})
unfolding quiet_then_refresh
create_note = quiet_then_refresh "Could not create note"

unfoldable pub create_task :
    Fetched (Unit {0}) → Outcomes → WorkspaceState → WorkspaceState × Result (Unit {0})
unfolding quiet_then_refresh
create_task = quiet_then_refresh "Could not create task"

unfoldable pub update_task_status :
    Fetched (Unit {0}) → Outcomes → WorkspaceState → WorkspaceState × Result (Unit {0})
unfolding quiet_then_refresh
update_task_status = quiet_then_refresh "Could not update task"
