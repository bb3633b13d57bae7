-- ===== src/Desktop/Keeps/Calls.antt =====
-- What the handlers that write no settings keep.
use v.Prelude.{String, refl}
use v.Js.{Value, Fields}
use v.Desktop.{Desktop, perform}
use v.Desktop.Outside.{Host, opened_external, opened_path, picked}
use v.Desktop.Calls.{
  on_reopen_authorization, on_authorization_status, on_list_github_repositories,
  on_choose_clone_destination, on_open_diagnostics, reopen, with_pending, check_pending,
  list_repositories, pick, take_destination,
}
use v.Desktop.Keeps.{
  Keeps, IsStable, bind-Keeps, if-Keeps, give-Keeps, throw-Keeps, perform-Keeps, read_state-Keeps,
  ask-Keeps,
}
use v.Desktop.Keeps.Services.{fetch_json-Keeps, github_api_request-Keeps}
use v.Desktop.Keeps.Clone.{require_empty-Keeps}

module _ (P : Desktop → Type 0) (host : Host) (stable : IsStable P) where
  opened-Keeps : (url : Value) → Keeps P (perform host (opened_external url))
  opened-Keeps url = perform-Keeps P host stable (opened_external url) refl

  reopen-Keeps : (fs : Fields) → Keeps P (reopen host fs)
  reopen-Keeps fs = search (if-Keeps, bind-Keeps, opened-Keeps, give-Keeps, throw-Keeps)

  pub on_reopen_authorization-Keeps : Keeps P (on_reopen_authorization host)
  unfolding on_reopen_authorization
  on_reopen_authorization-Keeps = bind-Keeps P (read_state-Keeps P host stable) reopen-Keeps

  check-Keeps : (fs : Fields) → Keeps P (with_pending (check_pending host) fs)
  check-Keeps fs = let json = fetch_json-Keeps P host stable in search (if-Keeps, json, throw-Keeps)

  pub on_authorization_status-Keeps : Keeps P (on_authorization_status host)
  unfolding on_authorization_status
  on_authorization_status-Keeps = bind-Keeps P (read_state-Keeps P host stable) check-Keeps

  list-Keeps : (fs : Fields) → Keeps P (list_repositories host fs)
  list-Keeps fs =
      let json = github_api_request-Keeps P host stable in search (if-Keeps, json, throw-Keeps)

  pub on_list_github_repositories-Keeps : Keeps P (on_list_github_repositories host)
  unfolding on_list_github_repositories
  on_list_github_repositories-Keeps = bind-Keeps P (read_state-Keeps P host stable) list-Keeps

  pub pick-Keeps : (title : String) → Keeps P (pick host title)
  pick-Keeps title = ask-Keeps P host stable (picked title) (λ h. host.pick h title) refl

  take_destination-Keeps : (path : String) → Keeps P (take_destination host path)
  take_destination-Keeps path =
      let empty = require_empty-Keeps P host stable in
      search (if-Keeps, bind-Keeps, empty, give-Keeps)

  pub on_choose_clone_destination-Keeps : Keeps P (on_choose_clone_destination host)
  unfolding on_choose_clone_destination
  on_choose_clone_destination-Keeps = search (bind-Keeps, pick-Keeps, take_destination-Keeps)

  pub on_open_diagnostics-Keeps : Keeps P (on_open_diagnostics host)
  unfolding on_open_diagnostics
  on_open_diagnostics-Keeps = ask-Keeps P host stable (opened_path _) _ refl
