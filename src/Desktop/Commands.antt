-- ===== src/Desktop/Commands.antt =====
-- desktop/main.mjs: the programs that the main process starts: Git, the runtime's installer, services.
use v.Prelude.{
  ℕ, String, Bool, true, false, List, [], ◌∷◌, map, Option, none, some, if◌then◌else◌, ◌===◌, ◌&&◌,
  ◌<>◌, trim,
}
use v.Js.{Value, str}
use v.Desktop.{Desk, ◌>>=◌, give, fail, ask, perform, exists_sync, text_or}
use v.Desktop.Outside.{Host, Command, Executed, finished, failed, ran, spawned}
use v.Desktop.Paths.{RuntimePaths, runtime_paths, installer_path, is_windows}

pub record Ran : Type 0 where
  pub ok : Bool
  pub stdout : String
  pub stderr : String

abbrev pub texts : List String → List Value
texts = map str

abbrev pub command : String → List Value → ℕ → Command
command program args timeout = record {
  program = program;
  arguments = args;
  added = [];
  timeout = timeout;
}

-- `output?.trim() || fallback`
abbrev pub trimmed_or : Option String → String → String
trimmed_or none fallback = fallback
trimmed_or (some s) fallback = text_or (trim s) fallback

abbrev pub ran_result : Executed → Ran
ran_result (finished out err) = record { ok = true; stdout = trim out; stderr = trim err }
ran_result (failed out err message) = record {
  ok = false;
  stdout = trimmed_or out "";
  stderr = trimmed_or err message;
}

-- `result.stderr || result.stdout`
abbrev pub output_of : Ran → String
output_of r = text_or r.stderr r.stdout

abbrev pub no_git : String
no_git = "Git is required to open a project. Install Git for Windows and restart Agent Room."

abbrev pub no_project : String
no_project = "Select a folder that contains a Git project, or choose a GitHub repository to clone."

module _ (host : Host) where
  -- `run`: it never throws.
  unfoldable pub run : Command → Desk Ran
  run c = ask (ran c) λ h. ran_result (host.execute h c)

  -- `startDetached`
  unfoldable pub start_detached : String → List Value → Desk (Unit {0})
  start_detached program args = perform host (spawned (command program args 0))

  unfoldable pub git_program : String
  git_program = if is_windows host then "git.exe" else "git"

  abbrev pub git_version : Command
  git_version = command git_program (texts ("--version" ∷ [])) 20000

  abbrev pub install_git : Command
  install_git =
      command "winget.exe"
        (texts (
          "install" ∷ "--id" ∷ "Git.Git" ∷ "--exact" ∷ "--source" ∷ "winget"
          ∷ "--accept-package-agreements" ∷ "--accept-source-agreements" ∷ []))
        600000

  abbrev pub git_or_fail : Ran → Desk String
  git_or_fail r = if r.ok then give git_program else fail no_git

  abbrev pub check_installed : Ran → Desk String
  check_installed r = if r.ok then run git_version >>= git_or_fail else fail no_git

  abbrev pub install_if_missing : Ran → Desk String
  install_if_missing r =
      if r.ok
      then give git_program
      else if is_windows host
      then run install_git >>= check_installed
      else fail no_git

  -- `ensureGit`
  unfoldable pub ensure_git : Desk String
  unfolding run
  ensure_git = run git_version >>= install_if_missing

  abbrev pub inside_work_tree : Value → String → Command
  inside_work_tree workspace git =
      command git (str "-C" ∷ workspace ∷ texts ("rev-parse" ∷ "--is-inside-work-tree" ∷ [])) 20000

  -- `ensureGitWorkspace`
  unfoldable pub ensure_git_workspace : Value → Desk String
  unfolding ensure_git run
  ensure_git_workspace workspace = do
    git ← ensure_git
    result ← run (inside_work_tree workspace git)
    if result.ok && result.stdout === "true" then give git else fail no_project

  abbrev pub install_command : Command
  install_command =
      let added : List (String × Value) = ("AGENT_ROOM_HOME", str (runtime_paths host).home) ∷ [] in
      if is_windows host
      then record {
        program = "powershell.exe";
        arguments =
            texts
              ("-NoProfile" ∷ "-ExecutionPolicy" ∷ "Bypass" ∷ "-File" ∷ installer_path host ∷ []);
        added = added;
        timeout = 600000;
      }
      else record {
        program = "bash";
        arguments = texts (installer_path host ∷ []);
        added = added;
        timeout = 600000;
      }

  abbrev pub install_failed : Ran → String
  install_failed r =
      "Verified runtime installation failed: "
      <> text_or (output_of r) "runtime executable was not created"

  -- The executable is looked for only after an installer that succeeded.
  abbrev pub after_install : Ran → Desk RuntimePaths
  after_install r =
      if r.ok
      then (exists_sync host (runtime_paths host).binary >>= λ found.
          if found then give (runtime_paths host) else fail (install_failed r))
      else fail (install_failed r)

  abbrev pub install_unless : Bool → Desk RuntimePaths
  install_unless found =
      if found then give (runtime_paths host) else run install_command >>= after_install

  -- `bootstrapRuntime`
  unfoldable pub bootstrap_runtime : Desk RuntimePaths
  unfolding run
  bootstrap_runtime = exists_sync host (runtime_paths host).binary >>= install_unless
