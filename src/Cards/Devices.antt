-- ===== src/Cards/Devices.antt =====
-- frontend/client/src/components/RuntimePanel.tsx: the paired devices, their jobs and the project source.
use v.Prelude.{
  ℕ, String, Bool, true, false, List, [], ◌∷◌, ◌++◌, Option, none, some, if◌then◌else◌, ◌===◌, ltb,
  length, take, keep, find, Text,
}
use v.Types.Device.{
  ProjectDevice, DeviceStatus, online, DeviceJob, DeviceJobStatus, pending_approval, LocalWorkspace,
  ProjectSource, ProjectSourceKind, paired_local, github_repository,
}

abbrev cut : ℕ → Text → Text
cut size value = take size value ++ (if ltb size (length value) then 8230 ∷ [] else [])

-- `short(value, size)`, by code units; an ellipsis marks what was cut, a dash what is missing.
unfoldable pub short : Option Text → ℕ → Text
short none size = 8212 ∷ []
short (some []) size = 8212 ∷ []
short (some (c ∷ cs)) size = cut size (c ∷ cs)

abbrev is_online : DeviceStatus → Bool
is_online online = true
is_online _ = false

abbrev is_pending : DeviceJobStatus → Bool
is_pending pending_approval = true
is_pending _ = false

unfoldable pub online_count : List ProjectDevice → ℕ
online_count devices = length (keep (λ d. is_online d.status) devices)

unfoldable pub pending_jobs : List DeviceJob → List DeviceJob
pending_jobs jobs = keep (λ j. is_pending j.status) jobs

-- `workspaceForDevice`
unfoldable pub workspace_for_device : String → List LocalWorkspace → Option LocalWorkspace
workspace_for_device id local = find (λ w. w.device_id === id) local

pub data SourceBadge : Type 0 where
  local_pc github unselected : SourceBadge

-- The badge of the project source.
unfoldable pub source_badge : Option ProjectSource → SourceBadge
source_badge none = unselected
source_badge (some s) = badge s.kind
  where
    badge : ProjectSourceKind → SourceBadge
    badge paired_local = local_pc
    badge github_repository = github

-- The jobs listed: the first three, each with whether it has its two buttons.
unfoldable pub listed_jobs : List DeviceJob → List (DeviceJob × Bool)
listed_jobs jobs = mark (take 3 jobs)
  where
    mark : List DeviceJob → List (DeviceJob × Bool)
    mark [] = []
    mark (j ∷ js) = (j, is_pending j.status) ∷ mark js
