-- ===== src/Renderer/Repositories.antt =====
-- desktop/renderer/app.mjs: the list of repositories, and the two ways to choose a source.
use v.Prelude.{
  String, Bool, true, false, List, [], ◌∷◌, map, Option, none, some, if◌then◌else◌, ◌&&◌, ◌<>◌,
  find,
}
use v.Js.{
  Value, Items, str, null, arr, obj, truthy, get, strict_eq, as_array, to_string, or_else, Thrown,
  error,
}
use v.Desktop.{Outcome, returned, threw, object}
use v.Desktop.Services.{includes}
use v.Desktop.Setup.{optional}
use v.Renderer.{Screen, Row, Mode, local, github, message, update_clone_action, continue_to_setup}

-- `repository.id === selectedRepository?.id`
abbrev pub is_selected : Value → Value → Bool
is_selected selected repository = strict_eq (get repository "id") (optional selected "id")

abbrev pub row_of : Value → Value → Row
row_of selected repository = record {
  repository = repository;
  selected = is_selected selected repository;
  name = to_string (get repository "full_name");
  meta =
      (if truthy (get repository "private") then "Private" else "Public")
      <> " · "
      <> to_string (or_else (get repository "default_branch") (str "default branch"));
  description = to_string (or_else (get repository "description") (str "No description"));
}

abbrev pub listed : Value → List Value
listed v = elim (as_array v) [ none ↦ [] | some xs ↦ xs ]

abbrev pub has_none : List Value → Bool
has_none [] = true
has_none (x ∷ xs) = false

-- `renderRepositories`: the elements are objects.
unfoldable pub render_repositories : Screen → Screen
render_repositories s = record s {
  rows = map (row_of s.selected_repository) (listed s.repositories);
  no_rows = has_none (listed s.repositories);
}

-- A click on a row.
unfoldable pub select_repository : Value → Screen → Screen
unfolding render_repositories update_clone_action
select_repository repository s =
    record (update_clone_action
      (render_repositories (record s { selected_repository = repository }))) {
        github_note =
            "Selected "
            <> to_string (get repository "full_name")
            <> ". Choose an empty folder for the local clone.";
      }

-- `loadGitHubRepositories`, up to its call.
unfoldable pub load_repositories : Screen → Screen
load_repositories s = record s {
  refresh_disabled = true;
  github_note = "Loading repositories available to your authorized GitHub account…";
}

abbrev pub or_null : Option Value → Value
or_null none = null
or_null (some v) = or_else v null

abbrev pub list_note : List Value → String
list_note [] = "No repositories were returned. You can refresh after adjusting GitHub access."
list_note (x ∷ xs) =
    "Select a repository. Private and public repositories are shown when your GitHub authorization allows them."

abbrev pub failure_note : String → String
failure_note text =
    if includes text "GitHub request failed (409)"
    then "Repository access needs a one-time GitHub refresh. Select “Reconnect GitHub” below, approve access in the browser, then this list will reload automatically."
    else "Repository list could not be loaded. Select “Reconnect GitHub” below to renew access, then try again."

abbrev pub load_failed : Thrown → Screen → Screen
unfolding render_repositories update_clone_action
load_failed e s =
    record (update_clone_action (
      render_repositories
        (record s { repositories = arr Items.nil; selected_repository = null }))) {
          github_note = failure_note (message e);
          refresh_disabled = false;
        }

abbrev pub not_a_list : Thrown
not_a_list = error "repositories.find is not a function"

abbrev pub load_list : Option (List Value) → Value → Screen → Screen
unfolding render_repositories update_clone_action
load_list none answer s = load_failed not_a_list s
load_list (some xs) answer s =
    record (update_clone_action (
      render_repositories (record s {
        repositories = answer;
        selected_repository = or_null (find (is_selected s.selected_repository) xs);
      }))) { github_note = list_note xs; refresh_disabled = false }

-- `loadGitHubRepositories`, with the answer of `desktop:list-github-repositories`.
unfoldable pub repositories_answered : Outcome Value → Screen → Screen
unfolding render_repositories update_clone_action
repositories_answered (returned answer) s = load_list (as_array answer) answer s
repositories_answered (threw e) s = load_failed e s

abbrev pub mode_note : Mode → String
mode_note local = "Select a local Git project to prepare this computer."
mode_note github = "Choose a repository, then select an empty local destination for its clone."

-- `setSourceMode`, and whether it goes on to load the repositories.
unfoldable pub set_source_mode : Mode → Bool → Screen → Screen × Bool
set_source_mode mode load s = (
  record s { source_mode = mode; source_note = mode_note mode },
  elim mode [ local ↦ false | github ↦ load && has_none (listed s.repositories) ],
)

-- `chooseWorkspace`, with the answer of `desktop:choose-workspace`.
unfoldable pub workspace_answered : Outcome Value → Screen → Screen
unfolding continue_to_setup
workspace_answered (returned folder) s =
    if truthy folder
    then continue_to_setup folder "Local Git project selected." (record s { local_shown = folder })
    else s
workspace_answered (threw e) s = record s { source_note = message e }

-- `chooseCloneDestination`, with the answer of `desktop:choose-clone-destination`.
unfoldable pub destination_answered : Outcome Value → Screen → Screen
unfolding update_clone_action
destination_answered (returned folder) s =
    if truthy folder
    then record (update_clone_action
        (record s { clone_destination = folder; destination_shown = folder })) {
          github_note =
              if truthy s.selected_repository
              then "Ready to clone "
                <> to_string (get s.selected_repository "full_name")
                <> " into the selected empty folder."
              else "Choose a repository to continue.";
        }
    else s
destination_answered (threw e) s = record s { github_note = message e }

-- `cloneSelectedRepository`, up to its call, with the call's payload.
unfoldable pub clone_selected : Screen → Screen × Option Value
clone_selected s =
    if truthy s.selected_repository && truthy s.clone_destination
    then (
      record s {
        clone_disabled = true;
        refresh_disabled = true;
        destination_disabled = true;
        github_note =
            "Cloning "
            <> to_string (get s.selected_repository "full_name")
            <> ". Private credentials remain inside the desktop main process…";
      },
      some (
          obj (
            object (
              ("repositoryId", get s.selected_repository "id")
              ∷ ("destination", s.clone_destination)
              ∷ []))),
    )
    else (s, none)

-- `cloneSelectedRepository`, with the answer of `desktop:clone-github-repository`.
unfoldable pub clone_answered : Outcome Value → Screen → Screen
unfolding continue_to_setup update_clone_action
clone_answered (returned result) s =
    record (continue_to_setup (get result "workspacePath")
      ("GitHub repository "
        <> to_string (get (get result "repository") "fullName")
        <> " cloned locally.")
      s) { refresh_disabled = false; destination_disabled = false }
clone_answered (threw e) s = record (update_clone_action (record s { github_note = message e })) {
  refresh_disabled = false;
  destination_disabled = false;
}
