-- ===== src/Workspace/Refresh.antt =====
-- frontend/client/src/hooks/useWorkspace.ts: `refresh`, which loads the whole project again.
use v.Prelude.{
  String, Bool, true, false, not, ◌&&◌, List, [], ◌∷◌, Option, none, some, if◌then◌else◌, ◌===◌,
  some_of,
}
use v.Js.{Thrown, Fetched, rejected, response, Body, parsed, unreadable, is_ok, message_of}
use v.Types.Project.{WorkspaceSnapshot, WorkspaceModule, RepositoryIndex, RepositoryFile}
use v.Types.Device.{
  ProjectDevice, DeviceJob, LocalWorkspace, ProjectSource, GraphitiEpisodeEnvelope,
}
use v.Workspace.{WorkspaceState}

-- A project of the list, of which only the id is read.
pub record ProjectRef : Type 0 where
  pub id : String

pub record Reply (A : Type 0) : Type 0 where
  pub ok : Bool
  pub body : Body A

-- The replies of `Promise.all`; of each status only `response.ok` is read.
pub record Replies : Type 0 where
  pub workspace : Reply WorkspaceSnapshot
  pub repository : Reply (Option RepositoryIndex)
  pub files : Reply (List RepositoryFile)
  pub devices : Reply (List ProjectDevice)
  pub episodes : Reply (List GraphitiEpisodeEnvelope)
  pub jobs : Reply (List DeviceJob)
  pub local_workspaces : Reply (List LocalWorkspace)
  pub source : Reply (Option ProjectSource)

-- `Promise.all` rejects with the first of its requests that does.
pub data Gathered : Type 0 where
  one_rejected : Thrown → Gathered
  all_replied : Replies → Gathered

-- What the server does during one refresh.
pub record Outcomes : Type 0 where
  pub projects : Fetched (List ProjectRef)
  pub index : Fetched (Unit {0})
  pub gathered : Gathered

-- The body of the `try`: the state so far, and what was thrown, if anything.
abbrev pub Attempt : Type 0
Attempt = WorkspaceState × Option Thrown

infixl 4 ◌then_do◌
abbrev pub ◌then_do◌ : Attempt → (WorkspaceState → Attempt) → Attempt
(s, none) then_do f = f s
(s, some e) then_do f = (s, some e)

abbrev pub fails : String → WorkspaceState → Attempt
fails text s = (s, some (Thrown.error text))

-- The project list, from which only the first project is used.
unfoldable pub load_projects : Fetched (List ProjectRef) → WorkspaceState → Attempt
load_projects (rejected e) s = (s, some e)
load_projects (response status (unreadable e)) s =
    if is_ok status then (s, some e) else fails "Could not load projects" s
load_projects (response status (parsed [])) s =
    if is_ok status
    then fails "No workspace project is available" s
    else fails "Could not load projects" s
load_projects (response status (parsed (p ∷ ps))) s =
    if is_ok status then (s, none) else fails "Could not load projects" s

unfoldable pub index_reply : Fetched (Unit {0}) → WorkspaceState → Attempt
index_reply (rejected e) s = (s, some e)
index_reply (response status _) s =
    if is_ok status then (s, none) else fails "Could not refresh the Git project map" s

unfoldable pub index_phase : Bool → Fetched (Unit {0}) → WorkspaceState → Attempt
unfolding index_reply
index_phase index_repository outcome s =
    if index_repository then index_reply outcome (record s { indexing = true }) else (s, none)

abbrev pub has_module : String → List WorkspaceModule → Bool
has_module id modules = some_of (λ module_. module_.id === id) modules

abbrev pub first_id : List WorkspaceModule → Option String
first_id [] = none
first_id (m ∷ _) = some m.id

-- The selection is kept while its module exists; otherwise the first module is selected.
unfoldable pub reselect : List WorkspaceModule → Option String → Option String
reselect modules none = first_id modules
reselect modules (some current) =
    if not (current === "") && has_module current modules then some current else first_id modules

unfoldable pub read_snapshot : Body WorkspaceSnapshot → WorkspaceState → Attempt
read_snapshot (unreadable e) s = (s, some e)
read_snapshot (parsed snapshot) s = (
  record s {
    workspace = some snapshot;
    selected_module_id = reselect snapshot.modules s.selected_module_id;
  },
  none,
)

unfoldable pub load_snapshot : Reply WorkspaceSnapshot → WorkspaceState → Attempt
unfolding read_snapshot
load_snapshot reply s =
    if reply.ok then read_snapshot reply.body s else fails "Could not load workspace" s

module _ {A : Type 0} (fallback : A) (put : A → WorkspaceState → WorkspaceState) where
  unfoldable pub put_body : Body A → WorkspaceState → Attempt
  put_body (parsed value) s = (put value s, none)
  put_body (unreadable e) s = (s, some e)

  -- `set(reply.ok ? await reply.json() : fallback)`
  unfoldable pub load_optional : Reply A → WorkspaceState → Attempt
  unfolding put_body
  load_optional reply s = if reply.ok then put_body reply.body s else (put fallback s, none)

abbrev pub put_repository : Option RepositoryIndex → WorkspaceState → WorkspaceState
put_repository v s = record s { repository = v }

abbrev pub put_files : List RepositoryFile → WorkspaceState → WorkspaceState
put_files v s = record s { files = v }

abbrev pub put_devices : List ProjectDevice → WorkspaceState → WorkspaceState
put_devices v s = record s { devices = v }

abbrev pub put_episodes : List GraphitiEpisodeEnvelope → WorkspaceState → WorkspaceState
put_episodes v s = record s { graphiti_episodes = v }

abbrev pub put_jobs : List DeviceJob → WorkspaceState → WorkspaceState
put_jobs v s = record s { device_jobs = v }

abbrev pub put_local_workspaces : List LocalWorkspace → WorkspaceState → WorkspaceState
put_local_workspaces v s = record s { local_workspaces = v }

abbrev pub put_source : Option ProjectSource → WorkspaceState → WorkspaceState
put_source v s = record s { project_source = v }

unfoldable pub load_repository : Replies → WorkspaceState → Attempt
load_repository r = load_optional none put_repository r.repository

unfoldable pub load_files : Replies → WorkspaceState → Attempt
load_files r = load_optional [] put_files r.files

unfoldable pub load_devices : Replies → WorkspaceState → Attempt
load_devices r = load_optional [] put_devices r.devices

unfoldable pub load_episodes : Replies → WorkspaceState → Attempt
load_episodes r = load_optional [] put_episodes r.episodes

unfoldable pub load_jobs : Replies → WorkspaceState → Attempt
load_jobs r = load_optional [] put_jobs r.jobs

unfoldable pub load_local_workspaces : Replies → WorkspaceState → Attempt
load_local_workspaces r = load_optional [] put_local_workspaces r.local_workspaces

unfoldable pub load_source : Replies → WorkspaceState → Attempt
load_source r = load_optional none put_source r.source

unfoldable pub clear_error : WorkspaceState → Attempt
clear_error s = (record s { error = none }, none)

infixr 6 ◌and_then◌
abbrev pub ◌and_then◌ :
    (WorkspaceState → Attempt) → (WorkspaceState → Attempt) → WorkspaceState → Attempt
◌and_then◌ f g s = f s then_do g

-- What follows the snapshot: the seven optional parts in order, and the end of the error.
unfoldable pub load_parts : Replies → WorkspaceState → Attempt
unfolding load_repository load_files load_devices load_episodes load_jobs load_local_workspaces
    load_source clear_error
load_parts r =
    load_repository r
    and_then load_files r
    and_then load_devices r
    and_then load_episodes r
    and_then load_jobs r
    and_then load_local_workspaces r
    and_then load_source r
    and_then clear_error

unfoldable pub gather : Gathered → WorkspaceState → Attempt
unfolding load_snapshot
gather (one_rejected e) s = (s, some e)
gather (all_replied r) s = load_snapshot r.workspace s then_do load_parts r

-- The `try` block.
unfoldable pub attempt : Bool → Outcomes → WorkspaceState → Attempt
unfolding load_projects index_phase gather
attempt index_repository o =
    load_projects o.projects
    and_then index_phase index_repository o.index
    and_then gather o.gathered

-- `catch`, then `finally`.
unfoldable pub settled : Attempt → WorkspaceState
settled (s, none) = record s { indexing = false; loading = false }
settled (s, some e) = record s {
  error = some (message_of e "Could not load workspace");
  indexing = false;
  loading = false;
}

unfoldable pub refresh : Bool → Outcomes → WorkspaceState → WorkspaceState
unfolding attempt settled
refresh index_repository o s = settled (attempt index_repository o (record s { loading = true }))
