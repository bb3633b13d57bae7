-- ===== src/Examples/Project.antt =====
-- The theorems on the project canvas and its map, at concrete inputs.
use v.Prelude.{
  if◌then◌else◌, ◌↔◌, Any, ℕ, ◌+◌, ◌*◌, ◌/◌, String, true, false, List, [], ◌∷◌, none, some, ◌≡◌,
  refl, All,
}
use v.Js.{response, parsed, Thrown, message_of}
use v.Types.Project.{
  Double, FileKind, RepositoryFile, RepositoryIndex, WorkspaceModule, WorkspaceSnapshot,
}
use v.Workspace.{WorkspaceState, initial_workspace}
use v.Workspace.Refresh.{Reply, Replies, one_rejected, all_replied, Outcomes, refresh}
use v.Workspace.Selection.{HasSelection}
use v.Workspace.Loading.{refresh-Fails, data_of, rejecting}
use v.Workspace.Changes.{add_task, perform}
use v.Workspace.Failing.{is_thrown, request_failed, applied, perform-settles}
use v.Workspace.Life.{loads, operates, happen_all, selection-valid}
use v.Spider.{Edge, has, components, components_from, search_from}
use v.Spider.Sets.{IsDistinct}
use v.Spider.Cover.{concat}
use v.Spider
use v.Spider.Partition.{components_partition}
use v.Spider.Together.{HoldsBoth}
use v.Spider.Joined.{Joined}
use v.Spider.Connected.{components_iff}
use v.Spider.Places.{Geometry, file_spider_positions}
use v.Spider.Placed.{keys, file_spider_positions-places}
use v.Canvas.{Scene, files_lens}
use v.Canvas.Graph.{desired_nodes, desired_edges}
use v.Canvas.Joined.{AreJoined, desired_edges-AreJoined}

abbrev origin : Double
origin = record { negative = false; mantissa = 0; up = 0; down = 0 }

abbrev core : WorkspaceModule
core = record {
  id = "m1";
  project_id = "p1";
  title = "Core";
  kind = "package";
  source_scope = "src";
  aliases = [];
  dependencies = [];
  position_x = origin;
  position_y = origin;
  status = "ready";
  origin = "git";
  created_at = "";
  updated_at = "";
}

abbrev pub snapshot : WorkspaceSnapshot
snapshot = record {
  project = record { id = "p1"; name = "Room"; description = ""; created_at = ""; updated_at = "" };
  modules = core ∷ [];
  notes = [];
  tasks = [];
  markers = [];
}

abbrev reply : {A : Type 0} → A → Reply A
reply a = record { ok = true; body = parsed a }

abbrev replies : Replies
replies = record {
  workspace = reply snapshot;
  repository = reply none;
  files = reply [];
  devices = reply [];
  episodes = reply [];
  jobs = reply [];
  local_workspaces = reply [];
  source = reply none;
}

abbrev good : Outcomes
good = record {
  projects = response 200 (parsed (record { id = "p1" } ∷ []));
  index = response 200 (parsed tt);
  gathered = all_replied replies;
}

abbrev cut_off : Outcomes
cut_off = record {
  projects = response 200 (parsed (record { id = "p1" } ∷ []));
  index = response 200 (parsed tt);
  gathered = one_rejected (Thrown.error "Network down");
}

selection-valid_example : HasSelection (
    happen_all
      (loads true good ∷ operates (add_task (response 200 (parsed tt))) cut_off ∷ [])
      initial_workspace)
selection-valid_example =
    selection-valid (loads true good ∷ operates (add_task (response 200 (parsed tt))) cut_off ∷ [])

refresh-Fails_example :
    let t = refresh true cut_off initial_workspace in
    (data_of t ≡ data_of initial_workspace)
    × ((e : Thrown) × (t.error ≡ some (message_of e "Could not load workspace")))
refresh-Fails_example =
    refresh-Fails true cut_off initial_workspace (rejecting (Thrown.error "Network down"))

abbrev loaded : WorkspaceState
loaded = refresh true good initial_workspace

perform-settles_example :
    let op = add_task (response 500 (parsed tt)) in
    (is_thrown (perform op good loaded).1 ≡ request_failed op)
    × ((perform op good loaded).0 ≡ (if request_failed op then loaded else applied op good loaded))
unfolding initial_workspace refresh v.Workspace.Refresh.load_parts v.Workspace.Refresh.load_optional
perform-settles_example = perform-settles (add_task (response 500 (parsed tt))) good loaded _ refl

abbrev three_paths : List String
three_paths = "a.ts" ∷ "b.ts" ∷ "c.ts" ∷ []

abbrev one_import : List Edge
one_import = record { source_path = "a.ts"; target_path = "c.ts" } ∷ []

components_partition_example :
    (groups : List (List String)) × (components three_paths one_import ≡ some groups)
    × IsDistinct (concat groups)
    × All (λ p. has p (concat groups) ≡ true) three_paths
components_partition_example = components_partition three_paths one_import ((refl, refl), tt)

-- An engine of whole numbers, whose turns are exact and whose texts are all of one rank.
abbrev whole_numbers : Geometry
whole_numbers = record {
  Real = ℕ;
  nat = λ n. n;
  plus = λ a b. a + b;
  times = λ a b. a * b;
  over = λ a b. a / b;
  cos = λ a. 1;
  sin = λ a. 0;
  pi = 3;
  golden_angle = 2;
  locale_le = λ a b. true;
}

file_spider_positions-places_example :
    (positions : List (String × (ℕ × ℕ))) × (file_spider_positions whole_numbers three_paths
        one_import
      ≡ some positions)
    × All (λ p. has p (keys positions) ≡ true) three_paths
file_spider_positions-places_example =
    file_spider_positions-places whole_numbers three_paths one_import ((refl, refl), tt)

abbrev two_groups : List (List String)
two_groups = ("a.ts" ∷ "c.ts" ∷ []) ∷ ("b.ts" ∷ []) ∷ []

components_iff_example : Any (HoldsBoth "a.ts" "c.ts") two_groups ↔ Joined one_import "a.ts" "c.ts"
unfolding components components_from search_from Spider.visit Spider.neighbours Spider.adjacency
    Spider.link Spider.add
components_iff_example =
    components_iff three_paths one_import two_groups "a.ts" "c.ts" ((refl, refl), tt) refl refl

abbrev third : ℕ
third = 3

abbrev file_at : String → RepositoryFile
file_at path = record { path = path; kind = FileKind.file; language = none; size = none }

abbrev imports : RepositoryIndex
imports = record {
  project_id = "p1";
  repository_url = "https://example.org/room.git";
  branch = "main";
  commit_sha = "0";
  indexed_at = "";
  files_count = 2;
  modules_count = 1;
  dependencies = [];
  file_dependencies =
      record { source_path = "src/a.ts"; target_path = "src/b.ts"; kind = "import" } ∷ [];
}

abbrev scene : Scene
scene = record {
  lens = files_lens;
  plan = [];
  workspace = some snapshot;
  repository = some imports;
  files = file_at "src/a.ts" ∷ file_at "src/b.ts" ∷ [];
  selected_module_id = some "m1";
  selected_file_path = some "src/a.ts";
}

abbrev places : List (String × ℕ)
places = ("src/a.ts", 1) ∷ []

desired_edges-AreJoined_example : AreJoined (desired_nodes scene places) (desired_edges scene)
desired_edges-AreJoined_example = desired_edges-AreJoined scene places
