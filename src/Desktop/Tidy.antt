-- ===== src/Desktop/Tidy.antt =====
-- The temporary directory of a clone's askpass script, in desktop/main.mjs.
use v.Prelude.{
  String, Bool, true, false, [], ◌∷◌, Option, none, some, ◌≡◌, refl, if◌then◌else◌, ◌===◌, arith,
}
use v.Js.{Value, Fields, Body, parsed, unreadable, Thrown}
use v.Desktop.{
  Desktop, Outcome, returned, threw, ◌>>=◌, continue, give, perform, finish, log, outcome_of,
  patch_state, write_state, save, save_outcome, check_encryption,
}
use v.Desktop.Outside.{
  Host, History, Effect, saved, made_directory, made_temporary, removed, wrote, Command,
}
use v.Desktop.Clone.{
  Askpass, cloned_to, create_git_askpass, directory_made, write_script, clone_with, clone_and_clean,
  clone_from, clone_github_repository, temporary_prefix, script_path, clone_using,
}
use v.Desktop.Calls.{clone_repository, handle, on_clone_github_repository, clone_guarded}
use v.Desktop.Keeps.{
  Keeps, IsStable, is_passing, bind-Keeps, if-Keeps, give-Keeps, throw-Keeps, ensure_git-Keeps,
  read_state-Keeps, perform-Keeps,
}
use v.Desktop.Keeps.Services.{read-Keeps, github_api_request-Keeps}
use v.Desktop.Keeps.Clone.{require_empty-Keeps, clone_with-Keeps}

abbrev pub owed_after : String → Effect → Bool → Bool
owed_after dir (made_temporary path) rest = if path === dir then true else rest
owed_after dir (removed path) rest = if path === dir then false else rest
owed_after dir _ rest = rest

-- Whether a temporary directory was made and not removed since.
unfoldable pub owed : String → History → Bool
owed dir [] = false
owed dir (e ∷ h) = let rest = owed dir h in if is_passing e then rest else owed_after dir e rest

abbrev Settled : String → Desktop → Type 0
Settled dir d = owed dir d.history ≡ false

-- At most one directory is owed.
abbrev OwesOnly : String → String → Desktop → Type 0
OwesOnly path dir d = (path === dir) ≡ false → owed dir d.history ≡ false

Settled-IsStable : (dir : String) → IsStable (Settled dir)
unfolding owed
Settled-IsStable dir e d passing p = rw passing p

OwesOnly-IsStable : (path dir : String) → IsStable (OwesOnly path dir)
unfolding owed
OwesOnly-IsStable path dir e d passing p = rw passing p

module _ (host : Host) (dir : String) where
  continue-outcome :
      {A : Type 0} (o : Option Thrown) (d : Desktop) (x : Outcome A)
      → Settled dir d
      → Settled dir (continue (d, outcome_of o) λ _. λ d'. (d', x)).0
  continue-outcome none d x p = p
  continue-outcome (some e) d x p = p

  finish_removed :
      {A : Type 0} (path : String) (r : Desktop × Outcome A)
      → OwesOnly path dir r.0
      → Settled dir (finish r (perform host (removed path))).0
  unfolding owed
  finish_removed path (d, o) p =
      continue-outcome (host.fails d.history (removed path)) (log (removed path) d) o
        (ground (arith, p))

  clone_and_clean-Settled :
      (c : Command) (path : String) (d : Desktop)
      → OwesOnly path dir d
      → Settled dir (clone_and_clean host c path d).0
  clone_and_clean-Settled c path d p =
      finish_removed path (clone_with host c d)
        ((clone_with-Keeps (OwesOnly path dir) host (OwesOnly-IsStable path dir) c).kept d p)

  continue-give :
      {A B : Type 0} (r : Desktop × Outcome A) (b : B)
      → Settled dir r.0
      → Settled dir (continue r λ _. give b).0
  continue-give (d, returned a) b p = p
  continue-give (d, threw e) b p = p

  module _ (written : (h : History) (path text : String) → host.fails h (wrote path text) ≡ none)
      (git : String) (token source destination : Value) where
    using-Settled :
        (a : Askpass) (d : Desktop)
        → OwesOnly a.directory dir d
        → Settled dir (clone_using host git token source destination a d).0
    using-Settled a d p =
        continue-give (clone_and_clean host _ a.directory d) (cloned_to source destination)
          (clone_and_clean-Settled _ a.directory d p)

    script-Settled :
        (path : String) (d : Desktop)
        → OwesOnly path dir d
        → Settled dir
            (continue (write_script host path d) (clone_using host git token source destination)).0
    script-Settled path d p = rw (written d.history (script_path host path) _) (
        using-Settled (record { directory = path; script_path = script_path host path }) _
          (OwesOnly-IsStable path dir (wrote _ _) d refl p))

    made-Settled :
        (made : Body String) (d : Desktop)
        → Settled dir d
        → Settled dir
            (continue
              (continue (directory_made made d) (write_script host))
              (clone_using host git token source destination)).0
    unfolding owed
    made-Settled (parsed path) d p =
        script-Settled path (log (made_temporary path) d) λ k. rw (k, p) refl
    made-Settled (unreadable e) d p = p

    askpass-Settled :
        Keeps
          (Settled dir)
          (create_git_askpass host >>= clone_using host git token source destination)
    unfolding create_git_askpass
    askpass-Settled = record {
      kept = λ d. made-Settled (host.temporary_directory d.history (temporary_prefix host)) d;
    }

  module _
      (written : (h : History) (path text : String) → host.fails h (wrote path text) ≡ none) where
    from-Settled :
        (source destination : Value) → Keeps (Settled dir) (clone_from host source destination)
    from-Settled source destination =
        let askpass = askpass-Settled written in
        bind-Keeps (Settled dir) (ensure_git-Keeps (Settled dir) host (Settled-IsStable dir))
          λ git. search (bind-Keeps, read-Keeps, askpass)

    clone-Settled :
        (token id destination : Value)
        → Keeps (Settled dir) (clone_github_repository host token id destination)
    unfolding clone_github_repository
    clone-Settled token id destination =
        let empty = require_empty-Keeps (Settled dir) host (Settled-IsStable dir) in
        let source = github_api_request-Keeps (Settled dir) host (Settled-IsStable dir) in
        search (if-Keeps, bind-Keeps, empty, source, from-Settled, throw-Keeps) depth 20

    save_outcome-Settled :
        (fs : Fields) (o : Option Thrown) → Keeps (Settled dir) (save_outcome host o fs)
    unfolding owed
    save_outcome-Settled fs none = record { kept = λ d p. p }
    save_outcome-Settled fs (some e) = record { kept = λ d p. p }

    save-Settled : (fs : Fields) → Keeps (Settled dir) (save host fs)
    save-Settled fs = record {
      kept = λ d. (save_outcome-Settled fs (host.fails d.history (saved fs))).kept d;
    }

    check-Settled : Keeps (Settled dir) (check_encryption host)
    check-Settled = record { kept = λ d p. p }

    patch-Settled : (patch : Fields) → Keeps (Settled dir) (patch_state host patch)
    unfolding patch_state write_state
    patch-Settled patch =
        let state = read_state-Keeps (Settled dir) host (Settled-IsStable dir) in
        bind-Keeps (Settled dir) state λ fs. bind-Keeps (Settled dir) check-Settled λ _.
          bind-Keeps (Settled dir)
            (perform-Keeps (Settled dir) host (Settled-IsStable dir) (made_directory _) refl)
            λ _. save-Settled _

    guarded-Settled :
        (payload : Value) (fs : Fields) → Keeps (Settled dir) (clone_guarded host payload fs)
    guarded-Settled payload fs =
        search (if-Keeps, bind-Keeps, clone-Settled, patch-Settled, give-Keeps, throw-Keeps) depth
          12

-- A clone that the renderer asks for removes the temporary directory of its askpass script, or asks
-- for its removal where that fails, on every outcome: Git missing, a failed or timed out clone, a
-- failed write of the settings. The condition is that the script itself can be written.
pub clone-Settled_after :
    (host : Host)
    → ((h : History) (path text : String) → host.fails h (wrote path text) ≡ none)
    → (payload : Value) (d : Desktop) (dir : String) → owed dir d.history ≡ false
    → owed dir (handle host (clone_repository payload) d).0.history ≡ false
unfolding handle on_clone_github_repository
clone-Settled_after host written payload d dir h =
    (bind-Keeps (Settled dir) (read_state-Keeps (Settled dir) host (Settled-IsStable dir))
        (guarded-Settled host dir written payload)).kept
      d h
