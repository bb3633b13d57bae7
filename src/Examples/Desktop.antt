-- ===== src/Examples/Desktop.antt =====
-- The theorems on the desktop program, at concrete inputs.
use v.Prelude.{
  ◌||◌, ltb, ◌⊎◌, String, Bool, true, false, not, List, [], ◌∷◌, ◌++◌, map, none, some, ◌≡◌, refl,
  ◌<>◌, ◌&&◌, ◌⊎◌, Any, show,
}
use v.Prelude
use v.Js.{
  get, bool, Value, Items, Fields, str, obj, arr, truthy, lookup_field, strict_eq, spread_fields,
  error, parsed,
}
use v.Desktop
use v.Desktop.{Desktop, absent, shown, returned, threw, object, text_or, read_state}
use v.Desktop.Outside.{kept_old, Host, Executed, finished, failed, answered, missing}
use v.Desktop.Paths
use v.Desktop.Cloud
use v.Desktop.Account
use v.Desktop.Paths.{runtime_paths}
use v.Desktop.Commands
use v.Desktop.Calls
use v.Desktop.Status
use v.Desktop.Setup.{install_and_record}
use v.Desktop.Calls.{
  Call, status, claim_authorization, choose_workspace, clone_repository, install,
  list_github_repositories, handle, no_pending,
}
use v.Desktop.Status.{migrated_fields, status_value}
use v.Desktop.Account.{Moves, account}
use v.Desktop.Refinement.{handle-Moves}
use v.Desktop.Keeps.Leads.{Reaches}
use v.Desktop.Guards.{serve_calls, first_calls-IsPlaced}
use v.Desktop.Errors.{WriteFailed}
use v.Desktop.Errors.Calls.{writes_last, handle_thrown}
use v.Desktop.Adoption.{settled_with, status-adopts}
use v.Desktop.Claims.{claim-once}
use v.Desktop.Tidy.{owed, clone-Settled_after}
use v.Renderer.{first_screen}
use v.Renderer.Repositories.{repositories_answered}
use v.Renderer.Setup
use v.Renderer
use v.Renderer.Page
use v.Renderer.Authorization
use v.Renderer.Page.{Action, press_connect, began, tick, act_all, first_page}
use v.Renderer.Attended.{polls, act_all-attended}
use v.Renderer.Repositories.{workspace_answered}
use v.Renderer.Handover.{choose-hands_over}
use v.Renderer.Rows.{IsChosen, IsShown, repositories_answered-IsChosen}

abbrev join : List String → String
join [] = ""
join (s ∷ rest) = s <> "/" <> join rest

-- What every request is answered with.
abbrev reply : Value
reply = obj (
    object (
      ("session_token", str "token")
      ∷ ("user", obj (object (("login", str "ada") ∷ [])))
      ∷ ("pairing_token", str "pair")
      ∷ ("access_token", str "secret")
      ∷ ("clone_url", str "https://github.com/ada/notes.git")
      ∷ ("id", str "7")
      ∷ ("full_name", str "ada/notes")
      ∷ []))

abbrev host_with : Executed → Host
host_with result = record {
  platform = "linux";
  packaged = true;
  variable = λ name. "";
  user_data = "/data";
  home = "/home/ada";
  resources = "/resources";
  directory = "/app";
  temporary = "/tmp";
  hostname = "lab";
  version = "1.0.0";
  join = join;
  dirname = λ path. path;
  encode = λ s. s;
  iso = show;
  can_encrypt = λ h. true;
  now = λ h. 0;
  random = λ h. "";
  exists = λ h. λ path. true;
  execute = λ h. λ c. result;
  fetch = λ h. λ r. answered 200 (parsed reply) (parsed "");
  pick = λ h. λ title. record { canceled = false; paths = "/notes" ∷ [] };
  entries = λ h. λ path. parsed [];
  temporary_directory = λ h. λ prefix. parsed "/tmp/agent-room-git-1";
  open_path_error = λ h. λ path. "";
  fails = λ h. λ e. none;
  left_over = λ h. kept_old;
}

-- A computer with Git, and one without.
abbrev with_git : Host
with_git = host_with (finished "true" "")

abbrev without_git : Host
without_git = host_with (failed none none "spawn git ENOENT")

abbrev pending_state : Fields
pending_state = object (
    (
      "pendingAuthorization",
      obj (object (("requestId", str "r1") ∷ ("requestSecret", str "s1") ∷ [])),
    )
    ∷ [])

abbrev chosen_state : Fields
chosen_state = object (("sessionToken", str "token") ∷ ("workspacePath", str "/notes") ∷ [])

abbrev rest_with : Fields → Desktop
rest_with state = settled_with state true shown []

handle-Moves_example :
    Reaches
      (λ d. Moves claim_authorization (account (rest_with pending_state)) (account d))
      (handle with_git claim_authorization (rest_with pending_state))
handle-Moves_example = handle-Moves with_git claim_authorization (rest_with pending_state)

handle_thrown_example :
    ((handle without_git choose_workspace (rest_with chosen_state)).0.secrets
      ≡ (rest_with chosen_state).secrets)
    ⊎ WriteFailed without_git (handle without_git choose_workspace (rest_with chosen_state)).0
unfolding handle Calls.on_choose_workspace Commands.ensure_git_workspace Commands.ensure_git
    Commands.run Commands.git_program writes_last
handle_thrown_example =
    handle_thrown without_git choose_workspace (rest_with chosen_state) refl refl

clone_payload : Value
clone_payload = obj (object (("repositoryId", str "7") ∷ ("destination", str "/notes") ∷ []))

clone-Settled_after_example :
    owed "/tmp/agent-room-git-1"
      (handle with_git (clone_repository clone_payload) (rest_with chosen_state)).0.history
    ≡ false
unfolding owed
clone-Settled_after_example =
    clone-Settled_after with_git (λ h path text. refl) clone_payload (rest_with chosen_state)
      "/tmp/agent-room-git-1" refl

status-adopts_example :
    let after = handle with_git status (rest_with chosen_state) in
    ((account after.0).paired ≡ str "/notes")
    × ((v : Value) × (after.1 ≡ returned v)
        × (get v "paired" ≡ bool true)
        × (get v "workspacePath" ≡ str "/notes"))
unfolding truthy lookup_field strict_eq
status-adopts_example =
    status-adopts with_git chosen_state true shown [] (λ h. refl) (λ h e. refl) refl refl refl

abbrev fresh : Desktop
fresh = record { secrets = missing; session_ready = true; window = absent; history = [] }

abbrev first_calls : List Call
first_calls = choose_workspace ∷ status ∷ []

first_calls-IsPlaced_example :
    truthy (account (serve_calls with_git first_calls fresh)).workspace ≡ true
unfolding serve_calls handle Calls.on_choose_workspace Status.on_status
    Commands.ensure_git_workspace Commands.ensure_git Commands.run Commands.git_program read_state
    Desktop.patch_state Desktop.write_state spread_fields truthy lookup_field strict_eq
    runtime_paths Paths.runtime_home Account.account_of Prelude.trim
first_calls-IsPlaced_example = first_calls-IsPlaced with_git first_calls fresh refl refl

claim-once_example :
    handle with_git claim_authorization
      (handle with_git claim_authorization (rest_with pending_state)).0
    ≡ ((handle with_git claim_authorization (rest_with pending_state)).0, threw (error no_pending))
unfolding handle Calls.on_claim_authorization read_state Desktop.patch_state Desktop.write_state
    Cloud.set_session_cookie truthy lookup_field
claim-once_example = claim-once with_git (rest_with pending_state) (λ h. refl) refl

abbrev presses : List Action
presses = press_connect ∷ began (returned reply) 4 ∷ tick 4 ∷ []

act_all-attended_example :
    let p = act_all presses first_page in
    (polls p.screen.authorization_poll p.timers || ltb 0 p.claiming) ≡ true
unfolding act_all Page.act Page.start_if first_page first_screen
    Authorization.authorization_answered Renderer.show_panel Authorization.start_authorization
act_all-attended_example = act_all-attended presses refl

abbrev one_repository : Value
one_repository = arr (Items.cons reply Items.nil)

repositories_answered-IsChosen_example :
    IsChosen first_screen.selected_repository
      (repositories_answered (returned one_repository) first_screen)
    × IsShown (repositories_answered (returned one_repository) first_screen)
repositories_answered-IsChosen_example =
    repositories_answered-IsChosen (returned one_repository) first_screen

-- A session, and no workspace.
abbrev signed_in : Desktop
signed_in = rest_with (object (("sessionToken", str "token") ∷ []))

choose-hands_over_example :
    let after = (handle with_git choose_workspace signed_in).0 in
    (payload : Value) × ((Setup.install_and_pair
        (workspace_answered (returned (str "/notes")) first_screen)).1
      ≡ some payload)
    × (handle with_git (install payload) after
        ≡ install_and_record with_git (account after).token (account after).workspace after)
    × ((account after).workspace ≡ str "/notes")
unfolding handle Calls.on_choose_workspace Commands.ensure_git_workspace Commands.ensure_git
    Commands.run Commands.git_program read_state Desktop.patch_state Desktop.write_state truthy
    Prelude.trim spread_fields lookup_field Account.account_of
choose-hands_over_example =
    choose-hands_over with_git signed_in (str "/notes") first_screen (λ h. refl) refl refl refl
