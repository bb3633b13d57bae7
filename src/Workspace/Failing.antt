-- ===== src/Workspace/Failing.antt =====
-- Which requests of the operations of useWorkspace.ts fail, and what an operation does then and else.
use v.Prelude.{
  String, ℕ, Bool, true, false, not, ◌||◌, ◌&&◌, Option, none, some, ◌≡◌, refl, if◌then◌else◌,
  Bool-cases, inl, inr,
}
use v.Js.{Thrown, Fetched, rejected, response, Body, parsed, unreadable, is_ok}
use v.Types.Project.{WorkspaceSnapshot}
use v.Workspace.{WorkspaceState, DevicePairing}
use v.Workspace.Refresh.{Outcomes, refresh}
use v.Workspace.Operations.{
  Result, threw, done, create_device_pairing, select_project_source, create_device_job,
  approve_device_job, create_note, create_task, update_task_status, checked, with_workspace,
  on_json, refresh_after, read_then_refresh, quiet_then_refresh,
}
use v.Workspace.Changes.{
  Operation, pair, select_source, queue_job, decide_job, add_note, add_task, set_status, perform,
  outcome_of,
}

abbrev is_unreadable : {A : Type 0} → Body A → Bool
is_unreadable (parsed a) = false
is_unreadable (unreadable e) = true

-- The network fails, the status is no success, or a body that is read is no JSON.
abbrev pub has_failed : {A : Type 0} → Bool → Fetched A → Bool
has_failed reads (rejected e) = true
has_failed reads (response status body) = not (is_ok status) || (reads && is_unreadable body)

-- The answers of the last four are not read.
abbrev pub request_failed : Operation → Bool
request_failed (pair f) = has_failed true f
request_failed (select_source f) = has_failed true f
request_failed (queue_job f) = has_failed true f
request_failed (decide_job f) = has_failed false f
request_failed (add_note f) = has_failed false f
request_failed (add_task f) = has_failed false f
request_failed (set_status f) = has_failed false f

abbrev pairing_in : Fetched DevicePairing → Option DevicePairing
pairing_in (response status (parsed p)) = some p
pairing_in _ = none

-- What a success makes of the canvas.
abbrev pub applied : Operation → Outcomes → WorkspaceState → WorkspaceState
applied (pair f) o s = record s { pairing = pairing_in f }
applied _ o s = refresh false o s

abbrev pub is_thrown : Option Thrown → Bool
is_thrown none = false
is_thrown (some e) = true

abbrev Settles : Bool → WorkspaceState → WorkspaceState → WorkspaceState × Option Thrown → Type 0
Settles failed s next r = (is_thrown r.1 ≡ failed) × (r.0 ≡ (if failed then s else next))

read-Settles :
    {A : Type 0} (text : String) (f : Fetched A) (s next : WorkspaceState)
    (k : A → WorkspaceState × Result A)
    → ((status : ℕ) (a : A) → f ≡ response status (parsed a) → k a ≡ (next, done a))
    → Settles
        (has_failed true f)
        s
        next
        (outcome_of (checked text f (λ e. (s, threw e)) (on_json s k)))
unfolding checked
read-Settles text (rejected e) s next k h = (refl, refl)
read-Settles text (response status (unreadable e)) s next k h = elim (Bool-cases (is_ok status)) [
  | inl c ↦ rw c (refl, refl)
  | inr c ↦ rw c (refl, refl)
]
read-Settles text (response status (parsed a)) s next k h = elim (Bool-cases (is_ok status)) [
  | inl c ↦ rw (c, h status a refl) (refl, refl)
  | inr c ↦ rw c (refl, refl)
]

unread-Settles :
    (text : String) (f : Fetched (Unit {0})) (o : Outcomes) (s : WorkspaceState)
    → Settles
        (has_failed false f)
        s
        (refresh false o s)
        (outcome_of (checked text f (λ e. (s, threw e)) (λ _. refresh_after o s)))
unfolding checked
unread-Settles text (rejected e) o s = (refl, refl)
unread-Settles text (response status b) o s = elim (Bool-cases (is_ok status)) [
  | inl c ↦ rw c (refl, refl)
  | inr c ↦ rw c (refl, refl)
]

ready-Settles :
    {A : Type 0} (found : Option WorkspaceSnapshot) (w : WorkspaceSnapshot) (failed : Bool)
    (s next : WorkspaceState) (missing after : WorkspaceState × Result A)
    → found ≡ some w
    → Settles failed s next (outcome_of after)
    → Settles failed s next (outcome_of (with_workspace found missing after))
ready-Settles none w failed s next missing after h k = absurd cc
ready-Settles (some v) w failed s next missing after h k = k

-- With a workspace, each operation throws exactly when its request fails, and the canvas is then as it
-- was; when it succeeds, the pairing is recorded, or the canvas refreshed without a new index.
pub perform-settles :
    (op : Operation) (o : Outcomes) (s : WorkspaceState) (w : WorkspaceSnapshot)
    → s.workspace ≡ some w
    → (is_thrown (perform op o s).1 ≡ request_failed op)
      × ((perform op o s).0 ≡ (if request_failed op then s else applied op o s))
unfolding create_device_pairing select_project_source create_device_job approve_device_job
    create_note create_task update_task_status read_then_refresh quiet_then_refresh
perform-settles (pair f) o s w h =
    ready-Settles s.workspace w _ s _ _ _ h
      (read-Settles _ f s (applied (pair f) o s) _ λ status a e. rw e refl)
perform-settles (select_source f) o s w h =
    ready-Settles s.workspace w _ s _ _ _ h
      (read-Settles _ f s (refresh false o s) _ λ status a e. refl)
perform-settles (queue_job f) o s w h =
    ready-Settles s.workspace w _ s _ _ _ h
      (read-Settles _ f s (refresh false o s) _ λ status a e. refl)
perform-settles (decide_job f) o s w h =
    ready-Settles s.workspace w _ s _ _ _ h (unread-Settles _ f o s)
perform-settles (add_note f) o s w h =
    ready-Settles s.workspace w _ s _ _ _ h (unread-Settles _ f o s)
perform-settles (add_task f) o s w h =
    ready-Settles s.workspace w _ s _ _ _ h (unread-Settles _ f o s)
perform-settles (set_status f) o s w h =
    ready-Settles s.workspace w _ s _ _ _ h (unread-Settles _ f o s)
