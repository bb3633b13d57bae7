-- ===== src/Desktop/Clone.antt =====
-- desktop/main.mjs: cloning a GitHub repository with a temporary askpass script.
use v.Prelude.{String, Bool, List, [], ◌∷◌, if◌then◌else◌, ◌&&◌, ◌<>◌, length, ltb}
use v.Js.{Value, str, obj, get, truthy, to_string, Body, parsed, unreadable}
use v.Desktop.{Desk, ◌>>=◌, ◌>>◌, give, fail, ask, settle, perform, finally, text_or, object, throw}
use v.Desktop.Outside.{Host, Command, listed, wrote, made_temporary, removed}
use v.Desktop.Paths.{is_windows}
use v.Desktop.Commands.{run, ensure_git, output_of}
use v.Desktop.Cloud.{read, github_api_request}

pub record Askpass : Type 0 where
  pub directory : String
  pub script_path : String

pub record Cloned : Type 0 where
  pub workspace : Value
  pub id : Value
  pub full_name : Value

-- What the handler sends to the renderer.
unfoldable pub cloned_value : Cloned → Value
cloned_value c = obj (
    object (
      ("workspacePath", c.workspace)
      ∷ ("repository", obj (object (("id", c.id) ∷ ("fullName", c.full_name) ∷ [])))
      ∷ []))

abbrev pub askpass_script : Bool → String
askpass_script windows =
    if windows
    then "@echo off\r\necho %1 | findstr /I \"username\" >nul\r\nif not errorlevel 1 (echo x-access-token) else (echo %AGENT_ROOM_GIT_TOKEN%)\r\n"
    else "#!/bin/sh\ncase \"$1\" in *Username*) printf \"%s\\n\" \"x-access-token\" ;; *) printf \"%s\\n\" \"$AGENT_ROOM_GIT_TOKEN\" ;; esac\n"

abbrev pub not_empty : String
not_empty = "Choose an empty folder for the repository clone."

abbrev pub cloned_to : Value → Value → Cloned
cloned_to source destination = record {
  workspace = destination;
  id = get source "id";
  full_name = get source "full_name";
}

-- `mkdtemp`: a directory is on record when there is one.
abbrev pub directory_made : Body String → Desk String
directory_made (parsed path) = ask (made_temporary path) λ _. path
directory_made (unreadable e) = throw e

module _ (host : Host) where
  abbrev pub read_directory : Value → Desk (List String)
  read_directory path = do result ← ask (listed path) λ h. host.entries h path; settle result

  abbrev pub require_empty : Value → Desk (Unit {0})
  require_empty path = do
    found ← read_directory path
    if ltb 0 (length found) then fail not_empty else give tt

  abbrev pub script_path : String → String
  script_path directory =
      host.join (directory ∷ (if is_windows host then "askpass.cmd" else "askpass.sh") ∷ [])

  abbrev pub write_script : String → Desk Askpass
  write_script directory = do
    perform host (wrote (script_path directory) (askpass_script (is_windows host)))
    give (record { directory = directory; script_path = script_path directory })

  abbrev pub temporary_prefix : String
  temporary_prefix = host.join (host.temporary ∷ "agent-room-git-" ∷ [])

  abbrev pub make_temporary : Desk String
  make_temporary d = directory_made (host.temporary_directory d.history temporary_prefix) d

  -- `createGitAskpass`
  unfoldable pub create_git_askpass : Desk Askpass
  create_git_askpass = make_temporary >>= write_script

  -- What `git clone` is started with: the token is a variable of its environment only.
  unfoldable pub clone_command : String → Askpass → Value → Value → Value → Command
  clone_command git askpass token clone_url destination = record {
    program = git;
    arguments =
        str "clone" ∷ str "--origin" ∷ str "origin" ∷ str "--" ∷ clone_url ∷ destination ∷ [];
    added =
        ("GIT_ASKPASS", str askpass.script_path)
        ∷ ("AGENT_ROOM_GIT_TOKEN", token)
        ∷ ("GIT_TERMINAL_PROMPT", str "0")
        ∷ [];
    timeout = 900000;
  }

  abbrev pub clone_with : Command → Desk (Unit {0})
  clone_with c = do
    result ← run host c
    if result.ok
        then give tt
        else fail (
            "Repository clone failed: "
            <> text_or (output_of result) "Git returned a non-zero exit code")

  abbrev pub clone_and_clean : Command → String → Desk (Unit {0})
  clone_and_clean c directory = finally (clone_with c) (perform host (removed directory))

  abbrev pub clone_source : Value → String
  clone_source id = "/auth/github/repositories/" <> host.encode (to_string id) <> "/clone-source"

  abbrev pub clone_using : String → Value → Value → Value → Askpass → Desk Cloned
  clone_using git token source destination askpass = do
    clone_and_clean (clone_command git askpass token (get source "clone_url") destination)
        askpass.directory
    give (cloned_to source destination)

  abbrev pub clone_from : Value → Value → Desk Cloned
  clone_from source destination = do
    git ← ensure_git host
    token ← read source "access_token"
    create_git_askpass >>= clone_using git token source destination

  abbrev pub missing_argument : String
  missing_argument = "A repository and an empty destination folder are required."

  -- `cloneGitHubRepository`
  unfoldable pub clone_github_repository : Value → Value → Value → Desk Cloned
  clone_github_repository token id destination =
      if truthy id && truthy destination
      then (require_empty destination >>= λ _.
          github_api_request host token (clone_source id) >>= λ source.
          clone_from source destination)
      else fail missing_argument
