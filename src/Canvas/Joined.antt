-- ===== src/Canvas/Joined.antt =====
-- The edges of the canvas join nodes of the canvas.
use v.Prelude.{
  ℕ, suc, String, true, List, [], ◌∷◌, Option, none, some, ◌≡◌, refl, ap, inl, inr, ◌===◌, eq_iff,
  arith, Bool-cases, All, All-append, All-imp, Any, ◌&&◌, map, map_index, keep,
}
use v.Js.{Value, str}
use v.Types.Run.{PlanStep}
use v.Types.Project.{RepositoryFile, RepositoryFileDependency, WorkspaceModule, WorkspaceSnapshot}
use v.Spider.{has}
use v.Canvas.{
  Scene, GraphNode, node_id, GraphEdge, is_bare, is_nil, safe_plan, shows_files, scene_files,
  path_of, visible_file_dependencies, dependencies_of,
}
use v.Canvas.Graph.{
  desired_nodes, desired_edges, mission_node, draw_file, draw_module, plan_edges, file_edge,
  module_edge, module_edges, file_id, knows, from_previous, edges_into, draw_modules,
  draw_module_edges, plan_links,
}

-- A node with the id is drawn.
abbrev pub IsDrawn : List Value → Value → Type 0
IsDrawn ids id = Any (λ i. i ≡ id) ids

-- Both ends of the edge are drawn.
abbrev pub IsJoined : List Value → GraphEdge → Type 0
IsJoined ids e = IsDrawn ids e.source × IsDrawn ids e.target

abbrev ids_of : {P : Type 0} → List (GraphNode P) → List Value
ids_of nodes = map node_id nodes

-- The nodes and the edges are both drawn, and every edge ends at drawn nodes, or neither is.
abbrev pub AreJoined : {P : Type 0} → Option (List (GraphNode P)) → Option (List GraphEdge) → Type 0
AreJoined none none = Unit
AreJoined none (some edges) = ⊥
AreJoined (some nodes) none = ⊥
AreJoined (some nodes) (some edges) = All (IsJoined (ids_of nodes)) edges

has-IsDrawn :
    {P : Type 0} (s : Scene) (positions : List (String × P)) (path : String)
    (fs : List RepositoryFile)
    → has path (map path_of fs) ≡ true
    → IsDrawn (ids_of (map (draw_file s positions) fs)) (str (file_id path))
unfolding draw_file
has-IsDrawn s positions path [] h = absurd (ground (arith, h))
has-IsDrawn s positions path (f ∷ fs) h = elim (Bool-cases (f.path === path)) [
  | inl e ↦ inl (ap (λ p. str (file_id p)) ((eq_iff f.path path).0 e))
  | inr e ↦ inr (has-IsDrawn s positions path fs (ground (arith, h, e)))
]

knows-IsDrawn :
    (P : Type 0) (s : Scene) (id : String) (ms : List WorkspaceModule)
    → knows ms id ≡ true
    → IsDrawn (ids_of (map (draw_module {P = P} s) ms)) (str id)
unfolding draw_module
knows-IsDrawn P s id [] h = absurd (ground (arith, h))
knows-IsDrawn P s id (m ∷ ms) h = elim (Bool-cases (m.id === id)) [
  | inl e ↦ inl (ap str ((eq_iff m.id id).0 e))
  | inr e ↦ inr (knows-IsDrawn P s id ms (ground (arith, h, e)))
]

-- Every kept import joins drawn files.
files-IsJoined :
    {P : Type 0} (s : Scene) (positions : List (String × P)) (choice : Option String)
    (fs : List RepositoryFile) (es : List RepositoryFileDependency)
    → All (IsJoined (ids_of (map (draw_file s positions) fs))) (
        map
          (file_edge choice)
          (keep (λ e. has e.source_path (map path_of fs) && has e.target_path (map path_of fs)) es))
unfolding file_edge
files-IsJoined s positions choice fs [] = tt
files-IsJoined s positions choice fs (e ∷ es) =
    elim (Bool-cases (has e.source_path (map path_of fs) && has e.target_path (map path_of fs))) [
      | inl k ↦ rw k (
        (
          has-IsDrawn s positions e.source_path fs (ground (arith, k)),
          has-IsDrawn s positions e.target_path fs (ground (arith, k)),
        ),
        files-IsJoined s positions choice fs es,
      )
      | inr k ↦ rw k (files-IsJoined s positions choice fs es)
    ]

dependencies-IsJoined :
    (choice : Option String) (ids : List Value) (all : List WorkspaceModule) (m : WorkspaceModule)
    → ((id : String) → knows all id ≡ true → IsDrawn ids (str id))
    → IsDrawn ids (str m.id)
    → (ds : List String)
    → All (IsJoined ids) (map (λ d. module_edge choice d m.id) (keep (knows all) ds))
unfolding module_edge
dependencies-IsJoined choice ids all m known own [] = tt
dependencies-IsJoined choice ids all m known own (d ∷ ds) =
    let rest = dependencies-IsJoined choice ids all m known own ds in
    elim (Bool-cases (knows all d)) [ inl k ↦ rw k ((known d k, own), rest) | inr k ↦ rw k rest ]

abbrev IsPrevious : List Value → Option WorkspaceModule → Type 0
IsPrevious ids none = Unit
IsPrevious ids (some p) = IsDrawn ids (str p.id)

previous-IsJoined :
    (choice : Option String) (ids : List Value) (previous : Option WorkspaceModule)
    (m : WorkspaceModule)
    → IsPrevious ids previous
    → IsDrawn ids (str m.id)
    → All (IsJoined ids) (from_previous choice previous m)
unfolding module_edge
previous-IsJoined choice ids none m before own = tt
previous-IsJoined choice ids (some p) m before own = ((before, own), tt)

module_edges-IsJoined :
    (choice : Option String) (ids : List Value) (all : List WorkspaceModule)
    → ((id : String) → knows all id ≡ true → IsDrawn ids (str id))
    → (previous : Option WorkspaceModule) → IsPrevious ids previous
    → (ms : List WorkspaceModule) → All (λ (m : WorkspaceModule). IsDrawn ids (str m.id)) ms
    → All (IsJoined ids) (module_edges choice all previous ms)
unfolding module_edges
module_edges-IsJoined choice ids all known previous before [] h = tt
module_edges-IsJoined choice ids all known previous before (m ∷ ms) h =
    All-append (IsJoined ids) (edges_into choice all previous m) _
      (elim (Bool-cases (is_nil m.dependencies)) [
        | inl k ↦ rw k (previous-IsJoined choice ids previous m before h.0)
        | inr k ↦ rw k (dependencies-IsJoined choice ids all m known h.0 m.dependencies)
      ])
      (module_edges-IsJoined choice ids all known (some m) h.0 ms h.1)

plan-IsJoined :
    (P : Type 0) (index first : ℕ) (p : PlanStep) (ps : List PlanStep)
    → All
        (IsJoined (ids_of (map_index (mission_node {P = P}) index (p ∷ ps))))
        (plan_edges first p ps)
unfolding mission_node plan_edges
plan-IsJoined P index first p [] = tt
plan-IsJoined P index first p (q ∷ qs) = (
  (inl refl, inr (inl refl)),
  All-imp
      (λ e (h : IsJoined (ids_of (map_index (mission_node {P = P}) (suc index) (q ∷ qs))) e).
        (inr h.0, inr h.1))
      _ (plan-IsJoined P (suc index) (suc first) q qs),
)

own_modules :
    (P : Type 0) (s : Scene) (ms : List WorkspaceModule)
    → All (λ (m : WorkspaceModule). IsDrawn (ids_of (map (draw_module {P = P} s) ms)) (str m.id)) ms
unfolding draw_module
own_modules P s [] = tt
own_modules P s (m ∷ ms) = (
  inl refl,
  All-imp
      (λ (n : WorkspaceModule) (h : IsDrawn (ids_of (map (draw_module {P = P} s) ms)) (str n.id)).
        inr h)
      ms (own_modules P s ms),
)

modules_joined :
    (P : Type 0) (s : Scene) (w : Option WorkspaceSnapshot)
    → AreJoined (draw_modules {P = P} s w) (draw_module_edges s w)
unfolding draw_module
modules_joined P s none = tt
modules_joined P s (some w) =
    module_edges-IsJoined s.selected_module_id (ids_of (map (draw_module {P = P} s) w.modules))
      w.modules (λ id. knows-IsDrawn P s id w.modules) none tt w.modules (own_modules P s w.modules)

starter-IsJoined :
    (P : Type 0) (ps : List PlanStep)
    → All
        (IsJoined (ids_of (map_index (mission_node {P = P}) 0 (safe_plan ps))))
        (plan_links (safe_plan ps))
unfolding mission_node
starter-IsJoined P [] = plan-IsJoined P 0 0 _ _
starter-IsJoined P (p ∷ ps) = plan-IsJoined P 0 0 p ps

-- Through every lens, in every state of the canvas, the nodes and the edges are computed together or
-- fail together, and every edge starts and ends at the id of a computed node.
pub desired_edges-AreJoined :
    {P : Type 0} (s : Scene) (positions : List (String × P))
    → AreJoined (desired_nodes s positions) (desired_edges s)
unfolding desired_nodes desired_edges visible_file_dependencies
desired_edges-AreJoined {P} s positions = elim (Bool-cases (is_bare s)) [
  | inl k ↦ rw k (starter-IsJoined P s.plan)
  | inr k ↦ elim (Bool-cases (shows_files s.lens)) [
    | inl l ↦
        rw (k, l)
          (files-IsJoined s positions s.selected_file_path (scene_files s)
            (dependencies_of s.repository))
    | inr l ↦ rw (k, l) (modules_joined P s s.workspace)
  ]
]
