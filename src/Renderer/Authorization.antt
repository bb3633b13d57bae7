-- ===== src/Renderer/Authorization.antt =====
-- desktop/renderer/app.mjs: starting an authorization, polling it, and restoring the state.
use v.Prelude.{ℕ, String, Bool, true, false, none, some, if◌then◌else◌, ◌&&◌, ◌<>◌}
use v.Js.{Value, Items, str, null, arr, truthy, get, is_str, is_nullish, to_string}
use v.Desktop.{Outcome, returned, threw}
use v.Desktop.Setup.{optional}
use v.Renderer.{Screen, intro, authorizing, source, setup, github, message, alert, show_panel}
use v.Renderer.Repositories.{set_source_mode, load_repositories, repositories_answered}

-- `startAuthorization`, up to its call. The connect button passes its event, which asks for no refresh.
unfoldable pub start_authorization : Bool → Screen → Screen
start_authorization refresh s = record s {
  refresh_after = refresh;
  connect_disabled = true;
  reconnect_disabled = true;
}

-- `startAuthorization`, with the answer of `desktop:begin-authorization`, and the id that
-- `setInterval` gives. The expiry is shown as a time of day.
unfoldable pub authorization_answered : Outcome Value → ℕ → Screen → Screen
unfolding show_panel
authorization_answered (returned authorization) id s =
    record (show_panel authorizing (record s { expiry = get authorization "expiresAt" })) {
      authorization_poll = some id;
    }
authorization_answered (threw e) id s =
    alert ("Could not start browser authorization: " <> message e)
      (record s { connect_disabled = false; reconnect_disabled = false })

-- The `catch` of `pollAuthorization`.
unfoldable pub poll_failed : String → Screen → Screen
unfolding show_panel
poll_failed text s =
    alert ("Authorization check failed: " <> text)
      (show_panel intro (record s { authorization_poll = none; connect_disabled = false }))

abbrev pub poll_expired : Screen → Screen
unfolding show_panel
poll_expired s = alert "Browser authorization expired. Please try again." (
    show_panel intro (record s {
      authorization_poll = none;
      connect_disabled = false;
      reconnect_disabled = false;
    }))

abbrev pub no_status : String
no_status = "Cannot read properties of null (reading 'status')"

-- `pollAuthorization`, with the answer of `desktop:authorization-status`, and whether it goes on to
-- claim the authorization.
unfoldable pub poll_answered : Outcome Value → Screen → Screen × Bool
unfolding poll_failed show_panel
poll_answered (returned result) s =
    if is_nullish result
    then (poll_failed no_status s, false)
    else if is_str (get result "status") "completed"
    then (record s { authorization_poll = none }, true)
    else if is_str (get result "status") "expired"
    then (poll_expired s, false)
    else (s, false)
poll_answered (threw e) s = (poll_failed (message e) s, false)

abbrev pub no_login : Value → String
no_login user = "Cannot read properties of " <> to_string user <> " (reading 'login')"

abbrev pub connected_note : Value → String
connected_note user =
    "Connected as "
    <> to_string (get user "login")
    <> ". Choose the project source for this computer."

abbrev pub begin_refresh : Screen → Screen
unfolding set_source_mode load_repositories
begin_refresh s =
    load_repositories
      (record (set_source_mode github false (record s {
        refresh_after = false;
        repositories = arr Items.nil;
        selected_repository = null;
      })).0 { github_note = "GitHub access refreshed. Loading repositories…" })

abbrev pub connected_as : Value → Screen → Screen × Bool
unfolding show_panel poll_failed set_source_mode load_repositories
connected_as user s =
    if is_nullish user
    then (poll_failed (no_login user) (show_panel source s), false)
    else if s.refresh_after
    then (begin_refresh (record (show_panel source s) { source_note = connected_note user }), true)
    else (
      record (show_panel source s) {
        source_note = connected_note user;
        reconnect_disabled = false;
      },
      false,
    )

-- `pollAuthorization`, with the answer of `desktop:claim-authorization`, and whether it goes on to
-- load the repositories.
unfoldable pub claim_answered : Outcome Value → Screen → Screen × Bool
unfolding poll_failed show_panel set_source_mode load_repositories
claim_answered (returned connected) s = connected_as (get connected "user") s
claim_answered (threw e) s = (poll_failed (message e) s, false)

-- `pollAuthorization`, with the answer of the list that it loads.
unfoldable pub refresh_answered : Outcome Value → Screen → Screen
unfolding repositories_answered
refresh_answered answer s = record (repositories_answered answer s) { reconnect_disabled = false }

abbrev pub login_of : Value → String
login_of user =
    if is_nullish (optional user "login") then "GitHub user" else to_string (get user "login")

abbrev pub restore_workspace : Value → Screen → Screen
restore_workspace status s =
    let workspace = get status "workspacePath" in
    if truthy workspace
    then record s {
      selected_workspace = workspace;
      workspace_shown = workspace;
      local_shown =
          if is_str (optional (get status "projectSource") "kind") "local"
          then workspace
          else str "";
      install_disabled = false;
    }
    else s

abbrev pub restore_panel : Value → Screen → Screen × Bool
unfolding show_panel
restore_panel status s =
    let who = "Connected as " <> login_of (get status "user") in
    if truthy (get status "workspacePath") && truthy (get status "paired")
    then (s, true)
    else if truthy (get status "workspacePath")
    then (
      record (show_panel setup s) {
        setup_note =
            who
            <> ". Finish pairing this local project once to open it automatically on future launches.";
      },
      false,
    )
    else (
      record (show_panel source s) {
        source_note = who <> ". Choose the project source for this computer.";
      },
      false,
    )

-- `restoreState`, with the answer of `desktop:status`, and whether it goes on to open the workspace.
unfoldable pub restore_answered : Outcome Value → Screen → Screen × Bool
unfolding show_panel
restore_answered (returned status) s =
    let known =
      restore_workspace status
        (record s { build = "Agent Room Desktop · " <> to_string (get status "version") }) in
    if truthy (get status "connected") then restore_panel status known else (known, false)
restore_answered (threw e) s = (alert ("Could not restore desktop state: " <> message e) s, false)
