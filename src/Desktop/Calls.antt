-- ===== src/Desktop/Calls.antt =====
-- desktop/main.mjs: the handlers that the renderer calls through desktop/preload.cjs.
use v.Prelude.{String, [], ◌∷◌, if◌then◌else◌, ◌===◌, ◌<>◌}
use v.Js.{Value, Fields, str, obj, undefined, null, truthy, lookup_field, get, to_string}
use v.Desktop.{Desk, ◌>>=◌, ◌>>◌, give, fail, ask, perform, read_state, patch_state, object}
use v.Desktop.Outside.{Host, Selection, Request, picked, opened_external, opened_path}
use v.Desktop.Paths.{runtime_home, api_url}
use v.Desktop.Commands.{ensure_git_workspace}
use v.Desktop.Cloud.{read, fetch_json, github_api_request, set_session_cookie}
use v.Desktop.Clone.{Cloned, cloned_value, require_empty, clone_github_repository}
use v.Desktop.Services.{local_runtime_status}
use v.Desktop.Status.{on_status}
use v.Desktop.Setup.{optional, install_and_pair, repair_local_runtime}
use v.Desktop.Pages.{open_workspace}

-- What `window.agentRoom` offers the renderer, a call of each kind with its argument.
pub data Call : Type 0 where
  status : Call
  begin_authorization : Call
  reopen_authorization : Call
  authorization_status : Call
  claim_authorization : Call
  choose_workspace : Call
  list_github_repositories : Call
  choose_clone_destination : Call
  clone_repository : Value → Call
  install : Value → Call
  runtime_status : Call
  repair_runtime : Value → Call
  open_room : Call
  open_diagnostics : Call

abbrev pub no_pending : String
no_pending = "There is no pending browser authorization"

-- `selection.canceled || !selection.filePaths[0]`, and otherwise the path.
abbrev pub chosen : Selection → String
chosen s = elim s.paths [ [] ↦ "" | path ∷ _ ↦ if s.canceled then "" else path ]

abbrev pub pending_fields : Value → Fields
pending_fields payload = object (
    (
      "pendingAuthorization",
      obj (
          object (
            ("requestId", get payload "request_id")
            ∷ ("requestSecret", get payload "request_secret")
            ∷ ("authorizeUrl", get payload "authorize_url")
            ∷ ("expiresAt", get payload "expires_at")
            ∷ [])),
    )
    ∷ [])

abbrev pub claimed_fields : Value → Fields
claimed_fields payload = object (
    ("sessionToken", get payload "session_token")
    ∷ ("user", get payload "user")
    ∷ ("pendingAuthorization", null)
    ∷ [])

abbrev pub local_fields : String → Fields
local_fields path = object (
    ("workspacePath", str path) ∷ ("projectSource", obj (object (("kind", str "local") ∷ []))) ∷ [])

abbrev pub cloned_fields : Cloned → Fields
cloned_fields c = object (
    ("workspacePath", c.workspace)
    ∷ (
      "projectSource",
      obj (
          object (
            ("kind", str "github")
            ∷ ("repositoryId", c.id)
            ∷ ("repositoryFullName", c.full_name)
            ∷ [])),
    )
    ∷ [])

abbrev pub with_pending : (Value → Desk Value) → Fields → Desk Value
with_pending next state =
    let pending = lookup_field "pendingAuthorization" state in
    if truthy pending then next pending else fail no_pending

module _ (host : Host) where
  abbrev pub start_request : Request
  start_request = record {
    method = "POST";
    url = api_url host <> "/v1/auth/desktop/start";
    headers = [];
    body = Fields.end;
  }

  unfoldable pub on_begin_authorization : Desk Value
  on_begin_authorization = do
    payload ← fetch_json host start_request "Cloud authorization request failed"
    _ ← read payload "request_id"
    patch_state host (pending_fields payload)
    perform host (opened_external (get payload "authorize_url"))
    give (obj (object (("expiresAt", get payload "expires_at") ∷ [])))

  abbrev pub reopen : Fields → Desk Value
  reopen state =
      let url = optional (lookup_field "pendingAuthorization" state) "authorizeUrl" in
      if truthy url
      then (perform host (opened_external url) >>= λ _. give undefined)
      else fail no_pending

  unfoldable pub on_reopen_authorization : Desk Value
  on_reopen_authorization = read_state host >>= reopen

  abbrev pub pending_request : String → String → Value → Request
  pending_request method path pending = record {
    method = method;
    url = api_url host <> "/v1/auth/desktop/" <> to_string (get pending "requestId") <> path;
    headers = ("X-Desktop-Authorization", get pending "requestSecret") ∷ [];
    body = Fields.end;
  }

  abbrev pub check_pending : Value → Desk Value
  check_pending pending =
      fetch_json host (pending_request "GET" "" pending) "Authorization check failed"

  unfoldable pub on_authorization_status : Desk Value
  on_authorization_status = read_state host >>= with_pending check_pending

  abbrev pub claim : Value → Desk Value
  claim pending = do
    payload ←
        fetch_json host (pending_request "POST" "/claim" pending) "Authorization completion failed"
    token ← read payload "session_token"
    set_session_cookie host token
    patch_state host (claimed_fields payload)
    give (obj (object (("user", get payload "user") ∷ [])))

  unfoldable pub on_claim_authorization : Desk Value
  on_claim_authorization = read_state host >>= with_pending claim

  abbrev pub pick : String → Desk Selection
  pick title = ask (picked title) λ h. host.pick h title

  abbrev pub take_workspace : String → Desk Value
  take_workspace path =
      if path === ""
      then give null
      else (ensure_git_workspace host (str path) >>= λ _.
          patch_state host (local_fields path) >>= λ _. give (str path))

  unfoldable pub on_choose_workspace : Desk Value
  on_choose_workspace = do
    selection ← pick "Select a local Git workspace"
    take_workspace (chosen selection)

  abbrev pub list_repositories : Fields → Desk Value
  list_repositories state =
      let token = lookup_field "sessionToken" state in
      if truthy token
      then github_api_request host token "/auth/github/repositories"
      else fail "Browser authorization is required before loading GitHub repositories"

  unfoldable pub on_list_github_repositories : Desk Value
  on_list_github_repositories = read_state host >>= list_repositories

  abbrev pub take_destination : String → Desk Value
  take_destination path =
      if path === "" then give null else (require_empty host (str path) >>= λ _. give (str path))

  unfoldable pub on_choose_clone_destination : Desk Value
  on_choose_clone_destination = do
    selection ← pick "Choose an empty destination folder for the repository clone"
    take_destination (chosen selection)

  abbrev pub clone_and_record : Value → Value → Desk Value
  clone_and_record token payload = do
    result ←
        clone_github_repository host token (optional payload "repositoryId")
          (optional payload "destination")
    patch_state host (cloned_fields result)
    give (cloned_value result)

  abbrev pub clone_guarded : Value → Fields → Desk Value
  clone_guarded payload state =
      let token = lookup_field "sessionToken" state in
      if truthy token
      then clone_and_record token payload
      else fail "Browser authorization is required before cloning a repository"

  unfoldable pub on_clone_github_repository : Value → Desk Value
  on_clone_github_repository payload = read_state host >>= clone_guarded payload

  unfoldable pub on_open_diagnostics : Desk Value
  on_open_diagnostics =
      ask (opened_path (runtime_home host)) λ h. str (host.open_path_error h (runtime_home host))

  -- `ipcMain.handle`, for every channel of the program.
  unfoldable pub handle : Call → Desk Value
  handle status = on_status host
  handle begin_authorization = on_begin_authorization
  handle reopen_authorization = on_reopen_authorization
  handle authorization_status = on_authorization_status
  handle claim_authorization = on_claim_authorization
  handle choose_workspace = on_choose_workspace
  handle list_github_repositories = on_list_github_repositories
  handle choose_clone_destination = on_choose_clone_destination
  handle (clone_repository payload) = on_clone_github_repository payload
  handle (install payload) = install_and_pair host payload
  handle runtime_status = local_runtime_status host
  handle (repair_runtime payload) = repair_local_runtime host (optional payload "component")
  handle open_room = open_workspace host >>= λ _. give undefined
  handle open_diagnostics = on_open_diagnostics
