-- ===== src/Workspace/Loading.antt =====
-- useWorkspace.ts: an early failure of a refresh keeps the data.
use mathlib.Core.Option.{none-ne-some}
use v.Prelude.{
  Bool, true, false, List, [], ◌∷◌, none, some, ◌≡◌, refl, if◌then◌else◌, Bool-cases, inl, inr, ◌∙◌,
}
use v.Js.{Thrown, Fetched, rejected, response, Body, parsed, unreadable, is_ok, message_of}
use v.Types.Project.{WorkspaceSnapshot}
use v.Workspace.{WorkspaceState}
use v.Workspace.Refresh.{
  Reply, Attempt, ◌then_do◌, Outcomes, ProjectRef, Replies, Gathered, one_rejected, all_replied,
  load_projects, index_phase, read_snapshot, load_snapshot, load_parts, gather, ◌and_then◌, attempt,
  settled, refresh,
}

-- The data of the canvas, without the flags and the error.
abbrev pub data_of : WorkspaceState → WorkspaceState
data_of s = record s { loading = false; indexing = false; error = none }

abbrev KeepsData : WorkspaceState → Attempt → Type 0
KeepsData s a = data_of a.0 ≡ data_of s

if_data :
    (s : WorkspaceState) (b : Bool) (x y : Attempt)
    → KeepsData s x
    → KeepsData s y
    → KeepsData s (if b then x else y)
if_data s true x y h k = h
if_data s false x y h k = k

load_projects_data :
    (o : Fetched (List ProjectRef)) (s : WorkspaceState) → KeepsData s (load_projects o s)
unfolding load_projects
load_projects_data (rejected e) s = refl
load_projects_data (response status (unreadable e)) s = if_data s (is_ok status) _ _ refl refl
load_projects_data (response status (parsed [])) s = if_data s (is_ok status) _ _ refl refl
load_projects_data (response status (parsed (p ∷ ps))) s = if_data s (is_ok status) _ _ refl refl

index_phase_data :
    (b : Bool) (o : Fetched (Unit {0})) (s : WorkspaceState) → KeepsData s (index_phase b o s)
unfolding index_phase
index_phase_data false o s = refl
index_phase_data true (rejected e) s = refl
index_phase_data true (response status r) s =
    if_data (record s { indexing = true }) (is_ok status) _ _ refl refl

-- The requests behind the canvas fail as a whole: one of them is rejected, or the snapshot's is not
-- ok, or its body cannot be read.
pub data Fails : Gathered → Type 0 where
  rejecting : (e : Thrown) → Fails (one_rejected e)
  refused : (r : Replies) → r.workspace.ok ≡ false → Fails (all_replied r)
  garbled : (r : Replies) (e : Thrown) → r.workspace.body ≡ unreadable e → Fails (all_replied r)

read_snapshot_data :
    (b : Body WorkspaceSnapshot) (e : Thrown) (s : WorkspaceState)
    → b ≡ unreadable e
    → read_snapshot b s ≡ (s, some e)
unfolding read_snapshot
read_snapshot_data b e s h = rw h

-- The attempt stops with the state as it was.
abbrev Stops : WorkspaceState → Attempt → Type 0
Stops s a = (e : Thrown) × (a ≡ (s, some e))

then-Stops :
    (s : WorkspaceState) (a : Attempt) (f : WorkspaceState → Attempt)
    → Stops s a
    → Stops s (a then_do f)
then-Stops s a f (e, h) = (e, rw h)

load_snapshot_refused :
    (r : Reply WorkspaceSnapshot) (s : WorkspaceState) → r.ok ≡ false → Stops s (load_snapshot r s)
unfolding load_snapshot
load_snapshot_refused r s h = (Thrown.error "Could not load workspace", rw h)

load_snapshot_garbled :
    (r : Reply WorkspaceSnapshot) (s : WorkspaceState) (e : Thrown)
    → r.body ≡ unreadable e
    → Stops s (load_snapshot r s)
unfolding load_snapshot
load_snapshot_garbled r s e h = elim (Bool-cases r.ok) [
  | inl okay ↦ (e, rw okay (read_snapshot_data r.body e s h))
  | inr bad ↦ (Thrown.error "Could not load workspace", rw bad)
]

gather-Fails : (g : Gathered) (s : WorkspaceState) → Fails g → Stops s (gather g s)
unfolding gather
gather-Fails g s (rejecting e) = (e, refl)
gather-Fails g s (refused r h) =
    then-Stops s (load_snapshot r.workspace s) (load_parts r)
      (load_snapshot_refused r.workspace s h)
gather-Fails g s (garbled r e h) =
    then-Stops s (load_snapshot r.workspace s) (load_parts r)
      (load_snapshot_garbled r.workspace s e h)

-- An attempt that keeps the data of `s`, and has thrown.
abbrev FailsAt : WorkspaceState → Attempt → Type 0
FailsAt s a = KeepsData s a × ((e : Thrown) × (a.1 ≡ some e))

then_fails :
    (s : WorkspaceState) (a : Attempt) (f : WorkspaceState → Attempt)
    → KeepsData s a
    → ((t : WorkspaceState) → data_of t ≡ data_of s → FailsAt s (f t))
    → FailsAt s (a then_do f)
then_fails s (t, none) f h k = k t h
then_fails s (t, some e) f h k = (h, (e, refl))

gather-FailsAt :
    (g : Gathered) (s t : WorkspaceState) → Fails g → data_of t ≡ data_of s → FailsAt s (gather g t)
gather-FailsAt g s t h e = let (thrown, stops) = gather-Fails g t h in rw stops (e, (thrown, refl))

attempt-Fails :
    (b : Bool) (o : Outcomes) (s : WorkspaceState) → Fails o.gathered → FailsAt s (attempt b o s)
unfolding attempt
attempt-Fails b o s h =
    then_fails s (load_projects o.projects s) (index_phase b o.index and_then gather o.gathered)
      (load_projects_data o.projects s)
      (λ t e.
        then_fails s (index_phase b o.index t) (gather o.gathered)
          (index_phase_data b o.index t ∙ e) (λ u e'. gather-FailsAt o.gathered s u h e'))

settled_fails :
    (s : WorkspaceState) (a : Attempt)
    → FailsAt s a
    → (data_of (settled a) ≡ data_of s)
      × ((e : Thrown) × ((settled a).error ≡ some (message_of e "Could not load workspace")))
unfolding settled
settled_fails s (t, none) (h, (e, k)) = absurd (none-ne-some e k)
settled_fails s (t, some x) (h, (e, k)) = (h, (x, refl))

-- A refresh whose requests for the canvas fail shows an error and keeps all the data, the selection
-- included, whatever the project list and the indexing answered.
pub refresh-Fails :
    (index_repository : Bool) (o : Outcomes) (s : WorkspaceState)
    → Fails o.gathered
    → let t = refresh index_repository o s in
      (data_of t ≡ data_of s)
      × ((e : Thrown) × (t.error ≡ some (message_of e "Could not load workspace")))
unfolding refresh
refresh-Fails index_repository o s h =
    settled_fails s (attempt index_repository o (record s { loading = true }))
      (attempt-Fails index_repository o (record s { loading = true }) h)
