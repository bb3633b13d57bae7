-- ===== src/Desktop/Keeps.antt =====
-- Rules for what a run of the main process keeps, whatever its host answers: of its state, for the
-- functions that put only passing effects on record.
pub mod Services
pub mod Clone
pub mod Leads
pub mod Calls
use v.Prelude.{
  String, Bool, true, false, List, [], ◌∷◌, Option, none, some, if◌then◌else◌, ◌≡◌, refl, ◌&&◌,
  ◌===◌,
}
use v.Js.{Value, Body, parsed, unreadable, Thrown}
use v.Desktop.{
  Desktop, Outcome, returned, threw, Desk, ◌>>=◌, continue, give, fail, throw, ask, log, perform,
  settle, exists_sync, read_state, finally, finish,
}
use v.Desktop.Outside.{
  Host, Effect, saved, made_temporary, removed, spawned, ran, sent, History, looked, Request,
  Command,
}
use v.Desktop.Cloud.{fetch}
use v.Desktop.Paths.{is_windows}
use v.Desktop.Commands.{
  Ran, command, no_git, no_project, git_program, run, start_detached, ensure_git, git_version,
  install_git, git_or_fail, check_installed, install_if_missing, ensure_git_workspace,
  inside_work_tree, bootstrap_runtime, install_command, after_install, install_unless,
}

-- The effects that neither write the settings nor make or remove a temporary directory.
abbrev pub is_passing : Effect → Bool
is_passing (saved fs) = false
is_passing (made_temporary path) = false
is_passing (removed path) = false
is_passing _ = true

pub record Keeps {ℓ} {A : Type ℓ} (P : Desktop → Type 0) (m : Desk A) : Type 0 where
  pub kept : (d : Desktop) → P d → P (m d).0

abbrev pub IsStable : (Desktop → Type 0) → Type 0
IsStable P = (e : Effect) (d : Desktop) → is_passing e ≡ true → P d → P (log e d)

module _ (P : Desktop → Type 0) where
  continue-Keeps {ℓ κ} :
      {A : Type ℓ} {B : Type κ} (r : Desktop × Outcome A) (f : A → Desk B)
      → P r.0
      → ((a : A) → Keeps P (f a))
      → P (continue r f).0
  continue-Keeps (d, returned a) f p k = (k a).kept d p
  continue-Keeps (d, threw e) f p k = p

  pub bind-Keeps {ℓ κ} :
      {A : Type ℓ} {B : Type κ} {m : Desk A} {f : A → Desk B}
      → Keeps P m
      → ((a : A) → Keeps P (f a))
      → Keeps P (m >>= f)
  bind-Keeps {m} {f} km kf = record { kept = λ d p. continue-Keeps (m d) f (km.kept d p) kf }

  pub if-Keeps {ℓ} :
      {A : Type ℓ} (b : Bool) {m n : Desk A} → Keeps P m → Keeps P n → Keeps P (if b then m else n)
  if-Keeps true km kn = km
  if-Keeps false km kn = kn

  pub give-Keeps {ℓ} : {A : Type ℓ} {a : A} → Keeps P (give a)
  give-Keeps = record { kept = λ d p. p }

  pub throw-Keeps {ℓ} : {A : Type ℓ} {e : Thrown} → Keeps {A = A} P (throw e)
  throw-Keeps = record { kept = λ d p. p }

  pub settle-Keeps {ℓ} : {A : Type ℓ} (b : Body A) → Keeps P (settle b)
  settle-Keeps (parsed a) = give-Keeps
  settle-Keeps (unreadable e) = throw-Keeps

  finish-Keeps {ℓ} :
      {A : Type ℓ} (r : Desktop × Outcome A) {c : Desk (Unit {0})}
      → P r.0
      → Keeps P c
      → P (finish r c).0
  finish-Keeps (d, o) {c} p kc =
      continue-Keeps (c d) _ (kc.kept d p) λ _. record { kept = λ _ q. q }

  pub finally-Keeps {ℓ} :
      {A : Type ℓ} {m : Desk A} {c : Desk (Unit {0})}
      → Keeps P m
      → Keeps P c
      → Keeps P (finally m c)
  finally-Keeps {m} km kc = record { kept = λ d p. finish-Keeps (m d) (km.kept d p) kc }

  module _ (host : Host) (stable : IsStable P) where
    pub run-Keeps : (c : Command) → Keeps P (run host c)
    unfolding run
    run-Keeps c = record { kept = λ d. stable (ran c) d refl }

    pub start_detached-Keeps :
        (program : String) (args : List Value) → Keeps P (start_detached host program args)
    unfolding start_detached
    start_detached-Keeps program args = record {
      kept = λ d. stable (spawned (command program args 0)) d refl;
    }

    pub exists_sync-Keeps : (path : String) → Keeps P (exists_sync host path)
    exists_sync-Keeps path = record { kept = λ d. stable (looked path) d refl }

    pub fetch-Keeps : (r : Request) → Keeps P (fetch host r)
    fetch-Keeps r = record { kept = λ d. stable (sent r) d refl }

    pub read_state-Keeps : Keeps P (read_state host)
    unfolding read_state
    read_state-Keeps = record { kept = λ d p. p }

    check_installed-Keeps : (r : Ran) → Keeps P (check_installed host r)
    check_installed-Keeps r = search (if-Keeps, bind-Keeps, run-Keeps, throw-Keeps, give-Keeps)

    install_if_missing-Keeps : (r : Ran) → Keeps P (install_if_missing host r)
    install_if_missing-Keeps r =
        search (if-Keeps, bind-Keeps, run-Keeps, check_installed-Keeps, throw-Keeps, give-Keeps)

    pub ensure_git-Keeps : Keeps P (ensure_git host)
    unfolding ensure_git
    ensure_git-Keeps = bind-Keeps (run-Keeps _) install_if_missing-Keeps

    pub ensure_git_workspace-Keeps :
        (workspace : Value) → Keeps P (ensure_git_workspace host workspace)
    unfolding ensure_git_workspace
    ensure_git_workspace-Keeps workspace =
        search (if-Keeps, bind-Keeps, run-Keeps, ensure_git-Keeps, throw-Keeps, give-Keeps)

    pub bootstrap_runtime-Keeps : Keeps P (bootstrap_runtime host)
    unfolding bootstrap_runtime
    bootstrap_runtime-Keeps =
        search (if-Keeps, bind-Keeps, run-Keeps, exists_sync-Keeps, throw-Keeps, give-Keeps) depth
          12

    pub perform-Keeps : (e : Effect) → is_passing e ≡ true → Keeps P (perform host e)
    perform-Keeps e passing = record { kept = λ d. stable e d passing }

    pub ask-Keeps {ℓ} :
        {A : Type ℓ} (e : Effect) (answer : History → A)
        → is_passing e ≡ true
        → Keeps P (ask e answer)
    ask-Keeps e answer passing = record { kept = λ d. stable e d passing }
