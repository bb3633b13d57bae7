-- ===== src/Renderer/Elsewhere.antt =====
-- What the rest of the page of desktop/renderer/app.mjs leaves to the authorization.
use v.Prelude.{
  Bool, true, false, if◌then◌else◌, List, Option, none, some, ◌≡◌, refl, ◌&&◌, Bool-cases, inl, inr,
  ◌<>◌, ◌∙◌, ap,
}
use v.Js.{Value, truthy, as_array, get, to_string}
use v.Desktop.{Outcome, returned, threw}
use v.Renderer.{
  Mode, Panel, authorizing, Screen, show_panel, update_clone_action, continue_to_setup,
}
use v.Renderer.Repositories.{
  load_repositories, select_repository, set_source_mode, repositories_answered, workspace_answered,
  destination_answered, clone_selected, clone_answered, render_repositories, load_list,
}
use v.Renderer.Authorization.{restore_workspace, restore_panel, restore_answered}
use v.Renderer.Setup.{install_and_pair, install_answered}
use v.Renderer.Page.{load_if, change_mode}

abbrev pub is_authorizing : Panel → Bool
is_authorizing authorizing = true
is_authorizing _ = false

-- The timer of the polls stays, and the page shows what it showed, or has left the authorizing panel.
pub data Calm (s t : Screen) : Type 0 where
  same : t.authorization_poll ≡ s.authorization_poll → t.panel ≡ s.panel → Calm s t
  left : t.authorization_poll ≡ s.authorization_poll → is_authorizing t.panel ≡ false → Calm s t

-- What happens elsewhere on the page is calm.
load_list-Calm : (o : Option (List Value)) (v : Value) (s : Screen) → Calm s (load_list o v s)
unfolding render_repositories update_clone_action
load_list-Calm none v s = same refl refl
load_list-Calm (some xs) v s = same refl refl

pub listed-Calm : (o : Outcome Value) (s : Screen) → Calm s (repositories_answered o s)
unfolding repositories_answered render_repositories update_clone_action
listed-Calm (returned v) s = load_list-Calm (as_array v) v s
listed-Calm (threw e) s = same refl refl

pub row-Calm : (v : Value) (s : Screen) → Calm s (select_repository v s)
unfolding select_repository render_repositories update_clone_action
row-Calm v s = same refl refl

pub load-Calm : (s : Screen) → Calm s (load_repositories s)
unfolding load_repositories
load-Calm s = same refl refl

pub chosen-Calm : (o : Outcome Value) (s : Screen) → Calm s (workspace_answered o s)
unfolding workspace_answered continue_to_setup show_panel
chosen-Calm (returned v) s = elim (Bool-cases (truthy v)) [
  | inl k ↦ rw k (left refl refl)
  | inr k ↦ rw k (same refl refl)
]
chosen-Calm (threw e) s = same refl refl

pub destination-Calm : (o : Outcome Value) (s : Screen) → Calm s (destination_answered o s)
unfolding destination_answered update_clone_action
destination-Calm (returned v) s = elim (Bool-cases (truthy v)) [
  | inl k ↦ rw k (same refl refl)
  | inr k ↦ rw k (same refl refl)
]
destination-Calm (threw e) s = same refl refl

pub cloned-Calm : (o : Outcome Value) (s : Screen) → Calm s (clone_answered o s)
unfolding clone_answered continue_to_setup show_panel update_clone_action
cloned-Calm (returned v) s = left refl refl
cloned-Calm (threw e) s = same refl refl

pub installed-Calm : (o : Outcome Value) (s : Screen) → Calm s (install_answered o s)
unfolding install_answered show_panel
installed-Calm (returned v) s = left refl refl
installed-Calm (threw e) s = same refl refl

pub clone-Calm : (s : Screen) → Calm s (clone_selected s).0
unfolding clone_selected
clone-Calm s = elim (Bool-cases (truthy s.selected_repository && truthy s.clone_destination)) [
  | inl k ↦ rw k (same refl refl)
  | inr k ↦ rw k (same refl refl)
]

pub install-Calm : (s : Screen) → Calm s (install_and_pair s).0
unfolding install_and_pair
install-Calm s = elim (Bool-cases (truthy s.selected_workspace)) [
  | inl k ↦ rw k (same refl refl)
  | inr k ↦ rw k (same refl refl)
]

load_if-Calm : (s : Screen) (r : Screen × Bool) → Calm s r.0 → Calm s (load_if r)
unfolding load_repositories
load_if-Calm s (t, true) (same p q) = same p q
load_if-Calm s (t, true) (left p q) = left p q
load_if-Calm s (t, false) h = h

pub mode-Calm : (m : Mode) (s : Screen) → Calm s (change_mode m s)
unfolding set_source_mode
mode-Calm m s = load_if-Calm s (set_source_mode m true s) (same refl refl)

if-Calm :
    (b : Bool) (r q : Screen × Bool) (s : Screen)
    → Calm s r.0
    → Calm s q.0
    → Calm s (if b then r else q).0
if-Calm true r q s hr hq = hr
if-Calm false r q s hr hq = hq

carry :
    {s t u : Screen}
    → u.authorization_poll ≡ t.authorization_poll
    → u.panel ≡ t.panel
    → Calm s t
    → Calm s u
carry p q (same a b) = same (p ∙ a) (q ∙ b)
carry p q (left a b) = left (p ∙ a) (ap is_authorizing q ∙ b)

workspace-Calm : (v : Value) (s t : Screen) → Calm s t → Calm s (restore_workspace v t)
workspace-Calm v s t h = elim (Bool-cases (truthy (get v "workspacePath"))) [
  | inl k ↦ rw k (carry refl refl h)
  | inr k ↦ rw k h
]

poll_of-Calm : {s t : Screen} → Calm s t → t.authorization_poll ≡ s.authorization_poll
poll_of-Calm (same p q) = p
poll_of-Calm (left p q) = p

panel-Calm : (v : Value) (s t : Screen) → Calm s t → Calm s (restore_panel v t).0
unfolding show_panel
panel-Calm v s t h = if-Calm (truthy (get v "workspacePath") && truthy (get v "paired")) _ _ s h (
    if-Calm (truthy (get v "workspacePath")) _ _ s (left (poll_of-Calm h) refl)
      (left (poll_of-Calm h) refl))

pub restored-Calm : (o : Outcome Value) (s : Screen) → Calm s (restore_answered o s).0
unfolding restore_answered
restored-Calm (returned v) s =
    let built : Screen = record s {
      build = "Agent Room Desktop · " <> to_string (get v "version");
    } in
    let known = restore_workspace v built in
    let calm : Calm s known = workspace-Calm v s built (same refl refl) in
    if-Calm (truthy (get v "connected")) (restore_panel v known) (known, false) s
      (panel-Calm v s known calm) calm
restored-Calm (threw e) s = same refl refl
