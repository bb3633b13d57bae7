-- ===== src/Desktop/Status.antt =====
-- desktop/main.mjs: the status call.
use v.Prelude.{Bool, true, false, [], ◌∷◌, if◌then◌else◌, not, ◌&&◌}
use v.Js.{Value, Fields, str, obj, bool, null, truthy, lookup_field, or_else, strict_eq}
use v.Desktop.{Desk, ◌>>=◌, ◌>>◌, give, exists_sync, read_state, patch_state, object}
use v.Desktop.Outside.{Host}
use v.Desktop.Paths.{runtime_paths}
use v.Desktop.Services.{when}

abbrev pub workspace_of : Fields → Value
workspace_of state = lookup_field "workspacePath" state

abbrev pub paired_workspace_of : Fields → Value
paired_workspace_of state = lookup_field "pairedWorkspacePath" state

abbrev pub migrated_fields : Fields → Fields
migrated_fields state = object (("pairedWorkspacePath", workspace_of state) ∷ [])

abbrev pub needs_migration : Fields → Bool
needs_migration state =
    truthy (workspace_of state) && not (strict_eq (paired_workspace_of state) (workspace_of state))

abbrev pub is_paired_here : Fields → Bool
is_paired_here state =
    truthy (paired_workspace_of state) && strict_eq (paired_workspace_of state) (workspace_of state)

module _ (host : Host) where
  -- The second disjunct is asked for only when the first fails and there is a workspace.
  abbrev pub is_paired : Fields → Desk Bool
  is_paired state =
      if is_paired_here state
      then give true
      else when (truthy (workspace_of state)) false (exists_sync host (runtime_paths host).config)

  abbrev pub migrate : Bool → Fields → Desk (Unit {0})
  migrate paired state =
      if paired && needs_migration state then patch_state host (migrated_fields state) else give tt

  abbrev pub status_value : Bool → Fields → Value
  status_value paired state = obj (
      object (
        ("connected", bool (truthy (lookup_field "sessionToken" state)))
        ∷ ("paired", bool paired)
        ∷ ("user", or_else (lookup_field "user" state) null)
        ∷ ("workspacePath", or_else (workspace_of state) (str ""))
        ∷ ("projectSource", or_else (lookup_field "projectSource" state) null)
        ∷ ("version", str host.version)
        ∷ []))

  abbrev pub report : Fields → Desk Value
  report state = do paired ← is_paired state; migrate paired state; give (status_value paired state)

  unfoldable pub on_status : Desk Value
  on_status = read_state host >>= report
