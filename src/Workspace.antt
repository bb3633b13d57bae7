-- ===== src/Workspace.antt =====
-- frontend/client/src/hooks/useWorkspace.ts: the state of the project canvas. The children
-- hold `refresh`, the operations that change the project, and what `refresh` keeps true.
pub mod Refresh
pub mod Selection
pub mod Loading
pub mod Operations
pub mod Changes
pub mod Failing
pub mod Life
use v.Prelude.{
  String, Bool, true, false, not, ◌&&◌, List, [], ◌∷◌, Option, none, some, if◌then◌else◌, ◌===◌,
  some_of, strip_slash, find,
}
use v.Js.{Thrown, Fetched, rejected, response, Body, parsed, unreadable, is_ok, message_of}
use v.Types.Project.{WorkspaceSnapshot, WorkspaceModule, RepositoryIndex, RepositoryFile}
use v.Types.Device.{
  ProjectDevice, DeviceJob, LocalWorkspace, ProjectSource, GraphitiEpisodeEnvelope,
}

pub record DevicePairing : Type 0 where
  pub pairing_token : String
  pub expires_at : String
  pub name_hint : String

pub record WorkspaceState : Type 0 where
  pub workspace : Option WorkspaceSnapshot
  pub repository : Option RepositoryIndex
  pub files : List RepositoryFile
  pub devices : List ProjectDevice
  pub device_jobs : List DeviceJob
  pub local_workspaces : List LocalWorkspace
  pub project_source : Option ProjectSource
  pub graphiti_episodes : List GraphitiEpisodeEnvelope
  pub pairing : Option DevicePairing
  pub selected_module_id : Option String
  pub loading : Bool
  pub indexing : Bool
  pub error : Option String

unfoldable pub initial_workspace : WorkspaceState
initial_workspace = record {
  workspace = none;
  repository = none;
  files = [];
  devices = [];
  device_jobs = [];
  local_workspaces = [];
  project_source = none;
  graphiti_episodes = [];
  pairing = none;
  selected_module_id = none;
  loading = true;
  indexing = false;
  error = none;
}

-- The configured address or the default one, without a final slash.
unfoldable pub api_root : Option String → String
api_root none = strip_slash "https://app-production-cc16.up.railway.app"
api_root (some url) =
    strip_slash (if url === "" then "https://app-production-cc16.up.railway.app" else url)

-- The module that the canvas shows as selected.
unfoldable pub selected_module : WorkspaceState → Option WorkspaceModule
selected_module s = elim s.workspace [
  | none ↦ none
  | some w ↦ elim s.selected_module_id [
    | none ↦ none
    | some id ↦ find (λ module_. module_.id === id) w.modules
  ]
]
