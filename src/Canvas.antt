-- ===== src/Canvas.antt =====
-- frontend/client/src/components/TaskGraph.tsx, the component itself: which files, nodes and edges the
-- project canvas shows through each lens, what a click selects, and what the inspectors list.
pub mod Graph
pub mod Joined
pub mod Panels
use v.Prelude.{
  ℕ, zero, suc, String, Bool, true, false, not, ◌&&◌, ◌||◌, List, [], ◌∷◌, ◌++◌, Option, none, some,
  if◌then◌else◌, ◌===◌, ◌==◌, ◌<>◌, starts_with, length, take, map, map_index, flat_map, keep,
  some_of, find, last?, show, ◌*◌, ◌+◌, ◌/◌, ◌%◌,
}
use v.Js.{Value, undefined, str, truthy, strict_eq}
use v.Types.Run.{PlanStep}
use v.Types.Project.{
  Double, FileKind, file, directory, RepositoryFile, RepositoryFileDependency, RepositoryIndex,
  WorkspaceModule, WorkspaceMarker, WorkspaceNote, WorkspaceTask, WorkspaceSnapshot,
}
use v.Spider.{has}
use v.Spider.Places.{put_all}

pub data MapLens : Type 0 where
  modules_lens files_lens dependencies_lens changes_lens tasks_lens : MapLens

-- `lens === 'files' || lens === 'changes'`
abbrev pub shows_files : MapLens → Bool
shows_files files_lens = true
shows_files changes_lens = true
shows_files _ = false

abbrev pub is_changes : MapLens → Bool
is_changes changes_lens = true
is_changes _ = false

-- `Boolean(selected?.source_scope && path.startsWith(selected.source_scope))`
abbrev pub in_scope : Option WorkspaceModule → String → Bool
in_scope none path = false
in_scope (some m) path = not (m.source_scope === "") && starts_with path m.source_scope

abbrev pub is_file : RepositoryFile → Bool
is_file f = kind_is_file f.kind
  where
    kind_is_file : FileKind → Bool
    kind_is_file file = true
    kind_is_file directory = false

unfoldable pub visible_files :
    MapLens → Option WorkspaceModule → List RepositoryFile → List RepositoryFile
visible_files lens selected all =
    keep (λ f. not (is_changes lens) || in_scope selected f.path) (keep is_file all)

abbrev pub dependencies_of : Option RepositoryIndex → List RepositoryFileDependency
dependencies_of none = []
dependencies_of (some index) = index.file_dependencies

abbrev pub path_of : RepositoryFile → String
path_of f = f.path

-- The imports between two visible files.
unfoldable pub visible_file_dependencies :
    Option RepositoryIndex → List RepositoryFile → List RepositoryFileDependency
visible_file_dependencies repository visible =
    keep (λ e. has e.source_path (map path_of visible) && has e.target_path (map path_of visible))
      (dependencies_of repository)

-- `text === selected`, for a selection that may be undefined
abbrev pub is_selected : Option String → String → Bool
is_selected none text = false
is_selected (some s) text = text === s

abbrev next_to : Option String → RepositoryFileDependency → List String
next_to selected e =
    if is_selected selected e.source_path
    then e.target_path ∷ []
    else if is_selected selected e.target_path
    then e.source_path ∷ []
    else []

unfoldable pub selected_file_neighbors : Option String → List RepositoryFileDependency → List String
selected_file_neighbors selected edges = flat_map (next_to selected) edges

-- `{ ...groups, [marker.module_id]: [...(groups[marker.module_id] || []), marker] }`
unfoldable pub group_marker :
    WorkspaceMarker → List (String × List WorkspaceMarker) → List (String × List WorkspaceMarker)
group_marker m [] = (m.module_id, m ∷ []) ∷ []
group_marker m ((id, group) ∷ groups) =
    let rest = group_marker m groups in
    if id === m.module_id then (id, group ++ m ∷ []) ∷ groups else (id, group) ∷ rest

unfoldable pub module_markers : List WorkspaceMarker → List (String × List WorkspaceMarker)
unfolding group_marker
module_markers markers = go markers []
  where
    go :
        List WorkspaceMarker
        → List (String × List WorkspaceMarker)
        → List (String × List WorkspaceMarker)
    go [] groups = groups
    go (m ∷ ms) groups = go ms (group_marker m groups)

unfoldable pub markers_of : String → List (String × List WorkspaceMarker) → List WorkspaceMarker
markers_of id [] = []
markers_of id ((key, group) ∷ groups) =
    let rest = markers_of id groups in if key === id then group else rest

-- `Object.fromEntries(modules.map((module) => [module.source_scope, (moduleMarkers[module.id] || []).length]))`
unfoldable pub marker_by_scope :
    List WorkspaceModule → List (String × List WorkspaceMarker) → List (String × ℕ)
unfolding markers_of
marker_by_scope modules groups =
    put_all
      (map (λ (m : WorkspaceModule). (m.source_scope, length (markers_of m.id groups))) modules) []

-- The count of the first scope that the path lies in.
unfoldable pub marker_count : String → List (String × ℕ) → ℕ
marker_count path [] = 0
marker_count path ((scope, count) ∷ scopes) =
    let rest = marker_count path scopes in
    if not (scope === "") && starts_with path scope then count else rest

-- A node of the canvas; `P` is the type of the places of files.
pub data GraphNode (P : Type 0) : Type 0 where
  mission : Value → ℕ × ℕ → PlanStep → GraphNode P
  file_node : String → Option P → RepositoryFile → Bool → Bool → ℕ → GraphNode P
  module_node :
      String → Double × Double → WorkspaceModule → List WorkspaceMarker → Bool → GraphNode P

abbrev pub node_id : {P : Type 0} → GraphNode P → Value
node_id (mission id _ _) = id
node_id (file_node id _ _ _ _ _) = str id
node_id (module_node id _ _ _ _) = str id

-- The styles of an edge: of the starter plan, and of the other edges by the selection.
pub data Look : Type 0 where
  plan_look focused_look dimmed_look plain_look : Look

pub record GraphEdge : Type 0 where
  pub id : String
  pub source : Value
  pub target : Value
  pub animated : Bool
  pub look : Look

-- What the canvas shows.
pub record Scene : Type 0 where
  pub lens : MapLens
  pub plan : List PlanStep
  pub workspace : Option WorkspaceSnapshot
  pub repository : Option RepositoryIndex
  pub files : List RepositoryFile
  pub selected_module_id : Option String
  pub selected_file_path : Option String

abbrev pub modules_of : Option WorkspaceSnapshot → List WorkspaceModule
modules_of none = []
modules_of (some w) = w.modules

abbrev pub all_markers : Option WorkspaceSnapshot → List WorkspaceMarker
all_markers none = []
all_markers (some w) = w.markers

abbrev pub is_nil {ℓ} : {A : Type ℓ} → List A → Bool
is_nil [] = true
is_nil (_ ∷ _) = false

abbrev using_workspace : Scene → Bool
using_workspace s = not (is_nil (modules_of s.workspace))

abbrev pub selected : Scene → Option WorkspaceModule
selected s = find (λ m. is_selected s.selected_module_id m.id) (modules_of s.workspace)

abbrev pub scene_files : Scene → List RepositoryFile
scene_files s = visible_files s.lens (selected s) s.files

abbrev pub scene_imports : Scene → List RepositoryFileDependency
scene_imports s = visible_file_dependencies s.repository (scene_files s)

-- `!usingWorkspace && visibleFiles.length === 0`
abbrev pub is_bare : Scene → Bool
is_bare s = not (using_workspace s) && is_nil (scene_files s)

abbrev starter_step : String → String → String → String → PlanStep
starter_step id title description tool = record {
  id = str id;
  title = str title;
  description = str description;
  depends_on = undefined;
  status = str "pending";
  tool = str tool;
}

abbrev pub starter_plan : List PlanStep
starter_plan =
    starter_step "step-1" "Describe the work" "Share the outcome you want from the project."
      "Conversation"
    ∷ starter_step "step-2" "Clarify the scope"
        "Agent Room will collect only the context needed to begin safely." "Context"
    ∷ []

abbrev pub safe_plan : List PlanStep → List PlanStep
safe_plan [] = starter_plan
safe_plan (p ∷ ps) = p ∷ ps
