-- ===== src/Desktop/Keeps/Clone.antt =====
-- What a clone keeps of a state that no effect on record can change, and what it returns.
use v.Prelude.{String, Bool, true, false, if◌then◌else◌, ◌≡◌, refl, ◌&&◌, arith}
use v.Js.{Value, Body, parsed, unreadable, truthy}
use v.Desktop.{Desktop, Desk, give, fail, perform, log}
use v.Desktop.Outside.{Host, Effect, made_temporary, removed, wrote, Command}
use v.Desktop.Clone.{
  Cloned, read_directory, require_empty, make_temporary, directory_made, cloned_to, write_script,
  create_git_askpass, clone_with, clone_and_clean, clone_from, clone_github_repository,
  temporary_prefix,
}
use v.Desktop.Keeps.{
  Keeps, IsStable, bind-Keeps, if-Keeps, give-Keeps, throw-Keeps, settle-Keeps, run-Keeps,
  ensure_git-Keeps, ask-Keeps, perform-Keeps, finally-Keeps,
}
use v.Desktop.Keeps.Services.{read-Keeps, github_api_request-Keeps}
use v.Desktop.Keeps.Leads.{Yields, bind-Yields}

-- Every effect on record leaves it.
abbrev pub IsSteady : (Desktop → Type 0) → Type 0
IsSteady P = (e : Effect) (d : Desktop) → P d → P (log e d)

module _ (P : Desktop → Type 0) (host : Host) where
  module _ (stable : IsStable P) where
    read_directory-Keeps : (path : Value) → Keeps P (read_directory host path)
    read_directory-Keeps path = bind-Keeps P (ask-Keeps P host stable _ _ refl) (settle-Keeps P)

    pub require_empty-Keeps : (path : Value) → Keeps P (require_empty host path)
    require_empty-Keeps path =
        search (bind-Keeps, read_directory-Keeps, if-Keeps, give-Keeps, throw-Keeps)

    pub clone_with-Keeps : (c : Command) → Keeps P (clone_with host c)
    clone_with-Keeps c =
        let run_k = run-Keeps P host stable in
        search (bind-Keeps, run_k, if-Keeps, give-Keeps, throw-Keeps)

    write-Keeps : (path text : String) → Keeps P (perform host (wrote path text))
    write-Keeps path text = perform-Keeps P host stable (wrote path text) refl

    pub write_script-Keeps : (directory : String) → Keeps P (write_script host directory)
    write_script-Keeps directory = search (bind-Keeps, write-Keeps, give-Keeps)

  module _ (steady : IsSteady P) where
    steady-IsStable : IsStable P
    steady-IsStable e d passing p = steady e d p

    directory_made-Keeps : (made : Body String) → Keeps P (directory_made made)
    directory_made-Keeps (parsed path) = record { kept = λ d. steady (made_temporary path) d }
    directory_made-Keeps (unreadable e) = throw-Keeps P

    make_temporary-Keeps : Keeps P (make_temporary host)
    make_temporary-Keeps = record {
      kept = λ d.
          (directory_made-Keeps (host.temporary_directory d.history (temporary_prefix host))).kept
            d;
    }

    create_git_askpass-Keeps : Keeps P (create_git_askpass host)
    unfolding create_git_askpass
    create_git_askpass-Keeps =
        bind-Keeps P make_temporary-Keeps (write_script-Keeps steady-IsStable)

    perform_any-Keeps : (e : Effect) → Keeps P (perform host e)
    perform_any-Keeps e = record { kept = λ d. steady e d }

    clone_and_clean-Keeps :
        (c : Command) (directory : String) → Keeps P (clone_and_clean host c directory)
    clone_and_clean-Keeps c directory =
        finally-Keeps P (clone_with-Keeps steady-IsStable c) (perform_any-Keeps (removed directory))

    clone_from-Keeps : (source destination : Value) → Keeps P (clone_from host source destination)
    clone_from-Keeps source destination =
        let git = ensure_git-Keeps P host steady-IsStable in
        bind-Keeps P git λ program.
          search
            (bind-Keeps, read-Keeps, create_git_askpass-Keeps, clone_and_clean-Keeps, give-Keeps)
            depth 20

    pub clone_github_repository-Keeps :
        (token id destination : Value) → Keeps P (clone_github_repository host token id destination)
    unfolding clone_github_repository
    clone_github_repository-Keeps token id destination =
        let empty = require_empty-Keeps steady-IsStable in
        let source = github_api_request-Keeps P host steady-IsStable in
        search (if-Keeps, bind-Keeps, empty, source, clone_from-Keeps, throw-Keeps) depth 20

module _ (host : Host) (destination : Value) where
  abbrev IsThere : Cloned → Type 0
  IsThere c = (c.workspace ≡ destination) × (truthy destination ≡ true)

  if_given :
      (b : Bool) (message : String) {m : Desk Cloned}
      → (b ≡ true → Yields IsThere m)
      → Yields IsThere (if b then m else fail message)
  if_given true message y = y refl
  if_given false message y = record { yielded = λ d. tt }

  given :
      (source : Value)
      → truthy destination ≡ true
      → Yields IsThere (give (cloned_to source destination))
  given source h = record { yielded = λ d. (refl, h) }

  clone_from-Yields :
      (source : Value)
      → truthy destination ≡ true
      → Yields IsThere (clone_from host source destination)
  clone_from-Yields source h = search (bind-Yields, given) depth 12

  -- A clone that returns has cloned into the folder that it was given, and was given one.
  pub clone_github_repository-Yields :
      (token id : Value) → Yields IsThere (clone_github_repository host token id destination)
  unfolding clone_github_repository
  clone_github_repository-Yields token id = if_given (truthy id && truthy destination) _ λ h.
      let is_given : truthy destination ≡ true = ground (h, arith) in
      search (bind-Yields, clone_from-Yields) depth 8
