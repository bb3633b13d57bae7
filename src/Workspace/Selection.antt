-- ===== src/Workspace/Selection.antt =====
-- The selected module is always one of the modules that the canvas shows.
use v.Prelude.{
  String, Bool, true, false, not, ◌&&◌, List, [], ◌∷◌, Option, none, some, ◌≡◌, refl, arith,
  if◌then◌else◌, ◌===◌, eq_iff, find, Bool-cases, inl, inr,
}
use v.Js.{Fetched, rejected, response, Body, parsed, unreadable, is_ok}
use v.Types.Project.{WorkspaceSnapshot, WorkspaceModule}
use v.Workspace.{WorkspaceState}
use v.Workspace.Refresh.{
  Reply, Attempt, ◌then_do◌, Outcomes, ProjectRef, Replies, Gathered, one_rejected, all_replied,
  load_projects, index_phase, has_module, first_id, reselect, read_snapshot, load_snapshot,
  put_body, load_optional, load_parts, gather, ◌and_then◌, put_repository, put_files, put_devices,
  put_episodes, put_jobs, put_local_workspaces, put_source, load_repository, load_files,
  load_devices, load_episodes, load_jobs, load_local_workspaces, load_source, clear_error, attempt,
  settled, refresh,
}

-- A module is selected by an id that it has; no module is selected only where there is none.
abbrev pub IsSelection : List WorkspaceModule → Option String → Type 0
IsSelection modules none = modules ≡ []
IsSelection modules (some id) = has_module id modules ≡ true

abbrev pub IsSelectionOf : Option WorkspaceSnapshot → Option String → Type 0
IsSelectionOf none selected = Unit
IsSelectionOf (some w) selected = IsSelection w.modules selected

abbrev pub HasSelection : WorkspaceState → Type 0
HasSelection s = IsSelectionOf s.workspace s.selected_module_id

first_id-IsSelection : (modules : List WorkspaceModule) → IsSelection modules (first_id modules)
first_id-IsSelection [] = refl
first_id-IsSelection (m ∷ ms) = ground (arith, eq_iff m.id m.id)

reselect-IsSelection :
    (modules : List WorkspaceModule) (current : Option String)
    → IsSelection modules (reselect modules current)
unfolding reselect
reselect-IsSelection modules none = first_id-IsSelection modules
reselect-IsSelection modules (some current) =
    elim (Bool-cases (not (current === "") && has_module current modules)) [
      | inl kept ↦ rw kept (ground arith)
      | inr lost ↦ rw lost (first_id-IsSelection modules)
    ]

-- A branch keeps the selection if both of its arms do.
if_keeps :
    (b : Bool) (x y : Attempt)
    → HasSelection x.0
    → HasSelection y.0
    → HasSelection (if b then x else y).0
if_keeps true x y h k = h
if_keeps false x y h k = k

then_keeps :
    (a : Attempt) (f : WorkspaceState → Attempt)
    → HasSelection a.0
    → ((s : WorkspaceState) → HasSelection s → HasSelection (f s).0)
    → HasSelection (a then_do f).0
then_keeps (s, none) f h k = k s h
then_keeps (s, some e) f h k = h

load_projects_keeps :
    (o : Fetched (List ProjectRef)) (s : WorkspaceState)
    → HasSelection s
    → HasSelection (load_projects o s).0
unfolding load_projects
load_projects_keeps (rejected e) s h = h
load_projects_keeps (response status (unreadable e)) s h = if_keeps (is_ok status) _ _ h h
load_projects_keeps (response status (parsed [])) s h = if_keeps (is_ok status) _ _ h h
load_projects_keeps (response status (parsed (p ∷ ps))) s h = if_keeps (is_ok status) _ _ h h

index_phase_keeps :
    (index_repository : Bool) (o : Fetched (Unit {0})) (s : WorkspaceState)
    → HasSelection s
    → HasSelection (index_phase index_repository o s).0
unfolding index_phase
index_phase_keeps false o s h = h
index_phase_keeps true (rejected e) s h = h
index_phase_keeps true (response status b) s h = if_keeps (is_ok status) _ _ h h

read_snapshot_selects :
    (b : Body WorkspaceSnapshot) (s : WorkspaceState)
    → HasSelection s
    → HasSelection (read_snapshot b s).0
unfolding read_snapshot
read_snapshot_selects (unreadable e) s h = h
read_snapshot_selects (parsed w) s h = reselect-IsSelection w.modules s.selected_module_id

load_snapshot_selects :
    (r : Reply WorkspaceSnapshot) (s : WorkspaceState)
    → HasSelection s
    → HasSelection (load_snapshot r s).0
unfolding load_snapshot
load_snapshot_selects r s h = if_keeps r.ok _ _ (read_snapshot_selects r.body s h) h

module _ {A : Type 0} (fallback : A) (put : A → WorkspaceState → WorkspaceState)
    (keeps : (v : A) (s : WorkspaceState) → HasSelection s → HasSelection (put v s)) where
  put_body_keeps :
      (b : Body A) (s : WorkspaceState)
      → HasSelection s
      → HasSelection (put_body fallback put b s).0
  unfolding put_body
  put_body_keeps (parsed v) s h = keeps v s h
  put_body_keeps (unreadable e) s h = h

  load_optional_keeps :
      (r : Reply A) (s : WorkspaceState)
      → HasSelection s
      → HasSelection (load_optional fallback put r s).0
  unfolding load_optional
  load_optional_keeps r s h = if_keeps r.ok _ _ (put_body_keeps r.body s h) (keeps fallback s h)

-- A step that keeps the selection.
record Keeps (f : WorkspaceState → Attempt) : Type 0 where
  keep : (s : WorkspaceState) → HasSelection s → HasSelection (f s).0

and_then-Keeps : {f g : WorkspaceState → Attempt} → Keeps f → Keeps g → Keeps (f and_then g)
and_then-Keeps {f} {g} kf kg = record { keep = λ s h. then_keeps (f s) g (kf.keep s h) kg.keep }

module _ (r : Replies) where
  repository-Keeps : Keeps (load_repository r)
  unfolding load_repository
  repository-Keeps = record {
    keep = load_optional_keeps none put_repository (λ v t k. k) r.repository;
  }

  files-Keeps : Keeps (load_files r)
  unfolding load_files
  files-Keeps = record { keep = load_optional_keeps [] put_files (λ v t k. k) r.files }

  devices-Keeps : Keeps (load_devices r)
  unfolding load_devices
  devices-Keeps = record { keep = load_optional_keeps [] put_devices (λ v t k. k) r.devices }

  episodes-Keeps : Keeps (load_episodes r)
  unfolding load_episodes
  episodes-Keeps = record { keep = load_optional_keeps [] put_episodes (λ v t k. k) r.episodes }

  jobs-Keeps : Keeps (load_jobs r)
  unfolding load_jobs
  jobs-Keeps = record { keep = load_optional_keeps [] put_jobs (λ v t k. k) r.jobs }

  local_workspaces-Keeps : Keeps (load_local_workspaces r)
  unfolding load_local_workspaces
  local_workspaces-Keeps = record {
    keep = load_optional_keeps [] put_local_workspaces (λ v t k. k) r.local_workspaces;
  }

  source-Keeps : Keeps (load_source r)
  unfolding load_source
  source-Keeps = record { keep = load_optional_keeps none put_source (λ v t k. k) r.source }

clear_error-Keeps : Keeps clear_error
unfolding clear_error
clear_error-Keeps = record { keep = λ s h. h }

load_parts-Keeps : (r : Replies) → Keeps (load_parts r)
unfolding load_parts
load_parts-Keeps r = and_then-Keeps (repository-Keeps r) (
    and_then-Keeps (files-Keeps r) (
      and_then-Keeps (devices-Keeps r) (
        and_then-Keeps (episodes-Keeps r) (
          and_then-Keeps (jobs-Keeps r) (
            and_then-Keeps (local_workspaces-Keeps r)
              (and_then-Keeps (source-Keeps r) clear_error-Keeps))))))

gather_keeps : (g : Gathered) (s : WorkspaceState) → HasSelection s → HasSelection (gather g s).0
unfolding gather
gather_keeps (one_rejected e) s h = h
gather_keeps (all_replied r) s h =
    then_keeps (load_snapshot r.workspace s) (load_parts r) (load_snapshot_selects r.workspace s h)
      (load_parts-Keeps r).keep

projects_keep : (o : Fetched (List ProjectRef)) → Keeps (load_projects o)
projects_keep o = record { keep = load_projects_keeps o }

indexing-Keeps : (b : Bool) (o : Fetched (Unit {0})) → Keeps (index_phase b o)
indexing-Keeps b o = record { keep = index_phase_keeps b o }

gathering-Keeps : (g : Gathered) → Keeps (gather g)
gathering-Keeps g = record { keep = gather_keeps g }

attempt-Keeps : (index_repository : Bool) (o : Outcomes) → Keeps (attempt index_repository o)
unfolding attempt
attempt-Keeps index_repository o =
    and_then-Keeps (projects_keep o.projects)
      (and_then-Keeps (indexing-Keeps index_repository o.index) (gathering-Keeps o.gathered))

settled_keeps : (a : Attempt) → HasSelection a.0 → HasSelection (settled a)
unfolding settled
settled_keeps (s, none) h = h
settled_keeps (s, some e) h = h

-- A refresh, however it ends, leaves a selection that is valid for the modules on the canvas: the
-- selected id is that of one of them, and there is none only if there are no modules.
pub refresh-HasSelection :
    (index_repository : Bool) (o : Outcomes) (s : WorkspaceState)
    → HasSelection s
    → HasSelection (refresh index_repository o s)
unfolding refresh
refresh-HasSelection index_repository o s h =
    settled_keeps (attempt index_repository o (record s { loading = true }))
      ((attempt-Keeps index_repository o).keep (record s { loading = true }) h)

find_of_has_module :
    (id : String) (modules : List WorkspaceModule)
    → has_module id modules ≡ true
    → (m : WorkspaceModule) × (find (λ module_. module_.id === id) modules ≡ some m) × (m.id ≡ id)
find_of_has_module id [] h = cc
find_of_has_module id (m ∷ ms) h = elim (Bool-cases (m.id === id)) [
  | inl e ↦ (m, rw e refl, (eq_iff m.id id).0 e)
  | inr e ↦
      let (found, there, same) = find_of_has_module id ms (rw e at h) in (found, rw e there, same)
]
