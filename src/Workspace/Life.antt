-- ===== src/Workspace/Life.antt =====
-- The project canvas of useWorkspace.ts from its first state on: refreshes, operations and selections.
use v.Prelude.{
  String, Bool, List, [], ◌∷◌, Option, none, some, if◌then◌else◌, ◌≡◌, refl, Bool-cases, inl, inr,
}
use v.Types.Project.{WorkspaceSnapshot}
use v.Workspace.{WorkspaceState, initial_workspace}
use v.Workspace.Refresh.{Outcomes, refresh, has_module}
use v.Workspace.Selection.{HasSelection, refresh-HasSelection}
use v.Workspace.Changes.{Operation, perform, perform-HasSelection}

-- A click on the node of a module goes on the canvas of the workspace, which has a node for each of its
-- modules and for no other.
pub data Event : Type 0 where
  loads : Bool → Outcomes → Event
  operates : Operation → Outcomes → Event
  clicks : String → Event

-- `setSelectedModuleId(node.id)`, where there is such a node.
abbrev click_in : Option WorkspaceSnapshot → String → WorkspaceState → WorkspaceState
click_in none id s = s
click_in (some w) id s =
    if has_module id w.modules then record s { selected_module_id = some id } else s

unfoldable pub happen : Event → WorkspaceState → WorkspaceState
happen (loads index o) s = refresh index o s
happen (operates op o) s = (perform op o s).0
happen (clicks id) s = click_in s.workspace id s

unfoldable pub happen_all : List Event → WorkspaceState → WorkspaceState
happen_all [] s = s
happen_all (e ∷ rest) s = happen_all rest (happen e s)

click-HasSelection :
    (w : Option WorkspaceSnapshot) (id : String) (s : WorkspaceState)
    → s.workspace ≡ w
    → HasSelection s
    → HasSelection (click_in w id s)
click-HasSelection none id s e h = h
click-HasSelection (some w) id s e h = elim (Bool-cases (has_module id w.modules)) [
  | inl k ↦ rw (k, e) k
  | inr k ↦ rw k h
]

happen-HasSelection : (e : Event) (s : WorkspaceState) → HasSelection s → HasSelection (happen e s)
unfolding happen
happen-HasSelection (loads index o) s h = refresh-HasSelection index o s h
happen-HasSelection (operates op o) s h = perform-HasSelection op o s h
happen-HasSelection (clicks id) s h = click-HasSelection s.workspace id s refl h

happen_all-HasSelection :
    (events : List Event) (s : WorkspaceState) → HasSelection s → HasSelection (happen_all events s)
unfolding happen_all
happen_all-HasSelection [] s h = h
happen_all-HasSelection (e ∷ rest) s h =
    happen_all-HasSelection rest (happen e s) (happen-HasSelection e s h)

-- From the hook's first state, after any refreshes and operations, however each of their requests ends,
-- and any clicks on nodes of the workspace's modules: once a workspace is there, the selected id is
-- that of one of its modules, or it has no modules.
pub selection-valid : (events : List Event) → HasSelection (happen_all events initial_workspace)
unfolding initial_workspace
selection-valid events = happen_all-HasSelection events initial_workspace tt
