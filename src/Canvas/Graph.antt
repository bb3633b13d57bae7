-- ===== src/Canvas/Graph.antt =====
-- TaskGraph.tsx, `desiredNodes` and `desiredEdges`: the graph handed to the drawing library.
use v.Prelude.{
  ℕ, suc, String, Bool, true, false, not, ◌&&◌, ◌||◌, List, [], ◌∷◌, ◌++◌, Option, none, some,
  if◌then◌else◌, ◌===◌, ◌<>◌, map, map_index, keep, some_of, show, ◌*◌, ◌+◌, ◌/◌, ◌%◌,
}
use v.Js.{str}
use v.Types.Run.{PlanStep}
use v.Types.Project.{RepositoryFile, RepositoryFileDependency, WorkspaceModule, WorkspaceSnapshot}
use v.Spider.{has}
use v.Canvas.{
  Scene, GraphNode, mission, file_node, module_node, GraphEdge, Look, plan_look, focused_look,
  dimmed_look, plain_look, is_bare, is_nil, safe_plan, shows_files, scene_files, scene_imports,
  selected, is_selected, in_scope, selected_file_neighbors, marker_by_scope, marker_count,
  module_markers, markers_of, all_markers, modules_of,
}

-- `positions.get(path)`; the callers put { x: 80, y: 80 } for a missing place.
unfoldable pub place_at {ℓ} : {P : Type ℓ} → String → List (String × P) → Option P
place_at path [] = none
place_at path ((q, place) ∷ places) =
    let rest = place_at path places in if q === path then some place else rest

unfoldable pub mission_node : {P : Type 0} → ℕ → PlanStep → GraphNode P
mission_node index step = mission step.id (110 + index % 2 * 310, 120 + index / 2 * 180) step

-- `` `file:${path}` ``
abbrev pub file_id : String → String
file_id path = "file:" <> path

unfoldable pub is_connected : Scene → String → Bool
is_connected s path =
    has path (selected_file_neighbors s.selected_file_path (scene_imports s))
    || some_of (λ e. e.source_path === path || e.target_path === path) (scene_imports s)

unfoldable pub draw_file : {P : Type 0} → Scene → List (String × P) → RepositoryFile → GraphNode P
unfolding place_at is_connected
draw_file s positions f =
    file_node (file_id f.path) (place_at f.path positions) f
      (is_selected s.selected_file_path f.path || in_scope (selected s) f.path)
      (is_connected s f.path)
      (marker_count f.path
        (marker_by_scope (modules_of s.workspace) (module_markers (all_markers s.workspace))))

unfoldable pub draw_module : {P : Type 0} → Scene → WorkspaceModule → GraphNode P
draw_module s m =
    module_node m.id (m.position_x, m.position_y) m
      (markers_of m.id (module_markers (all_markers s.workspace)))
      (is_selected s.selected_module_id m.id)

abbrev pub draw_modules :
    {P : Type 0} → Scene → Option WorkspaceSnapshot → Option (List (GraphNode P))
draw_modules s none = none
draw_modules s (some w) = some (map (draw_module s) w.modules)

-- `desiredNodes`; `none` where `workspace!.modules` reads a property of undefined.
unfoldable pub desired_nodes :
    {P : Type 0} → Scene → List (String × P) → Option (List (GraphNode P))
unfolding draw_file draw_module
desired_nodes s positions =
    if is_bare s
    then some (map_index mission_node 0 (safe_plan s.plan))
    else if shows_files s.lens
    then some (map (draw_file s positions) (scene_files s))
    else draw_modules s s.workspace

-- One edge from each step of the plan to the next.
unfoldable pub plan_edges : ℕ → PlanStep → List PlanStep → List GraphEdge
plan_edges index previous [] = []
plan_edges index previous (step ∷ steps) =
    record {
      id = "edge-" <> show index;
      source = previous.id;
      target = step.id;
      animated = true;
      look = plan_look;
    }
    ∷ plan_edges (suc index) step steps

abbrev pub plan_links : List PlanStep → List GraphEdge
plan_links [] = []
plan_links (step ∷ steps) = plan_edges 0 step steps

-- `Boolean(selected)`
abbrev pub is_set : Option String → Bool
is_set none = false
is_set (some s) = not (s === "")

unfoldable pub edge_look : Bool → Bool → Look
edge_look any focused =
    if any && not focused then dimmed_look else if focused then focused_look else plain_look

unfoldable pub file_edge : Option String → RepositoryFileDependency → GraphEdge
unfolding edge_look
file_edge choice e =
    let focused =
      is_set choice && (is_selected choice e.source_path || is_selected choice e.target_path) in
    record {
      id = "file-edge:" <> e.source_path <> ":" <> e.target_path;
      source = str (file_id e.source_path);
      target = str (file_id e.target_path);
      animated = focused;
      look = edge_look (is_set choice) focused;
    }

unfoldable pub module_edge : Option String → String → String → GraphEdge
unfolding edge_look
module_edge choice source target =
    let focused = is_set choice && (is_selected choice source || is_selected choice target) in
    record {
      id = source <> "-" <> target;
      source = str source;
      target = str target;
      animated = focused;
      look = edge_look (is_set choice) focused;
    }

-- `modules.some((candidate) => candidate.id === id)`
abbrev pub knows : List WorkspaceModule → String → Bool
knows all id = some_of (λ c. c.id === id) all

abbrev pub from_previous : Option String → Option WorkspaceModule → WorkspaceModule → List GraphEdge
from_previous choice none m = []
from_previous choice (some p) m = module_edge choice p.id m.id ∷ []

-- A module with dependencies is joined to those that exist, another to the module before it.
abbrev pub edges_into :
    Option String → List WorkspaceModule → Option WorkspaceModule → WorkspaceModule → List GraphEdge
edges_into choice all previous m =
    if is_nil m.dependencies
    then from_previous choice previous m
    else map (λ d. module_edge choice d m.id) (keep (knows all) m.dependencies)

unfoldable pub module_edges :
    Option String
    → List WorkspaceModule
    → Option WorkspaceModule
    → List WorkspaceModule
    → List GraphEdge
unfolding module_edge
module_edges choice all previous [] = []
module_edges choice all previous (m ∷ ms) =
    edges_into choice all previous m ++ module_edges choice all (some m) ms

abbrev pub draw_module_edges : Scene → Option WorkspaceSnapshot → Option (List GraphEdge)
draw_module_edges s none = none
draw_module_edges s (some w) = some (module_edges s.selected_module_id w.modules none w.modules)

-- `desiredEdges`
unfoldable pub desired_edges : Scene → Option (List GraphEdge)
unfolding plan_edges file_edge module_edges
desired_edges s =
    if is_bare s
    then some (plan_links (safe_plan s.plan))
    else if shows_files s.lens
    then some (map (file_edge s.selected_file_path) (scene_imports s))
    else draw_module_edges s s.workspace
