-- ===== src/Desktop/Refinement.antt =====
-- The main process against its abstract account: each handler moves it as its call may.
use v.Prelude.{true, ◌≡◌, refl, ◌&&◌, arith}
use v.Js.{Value, undefined, truthy, lookup_field, strict_eq, or_else}
use v.Desktop.{Desktop, Desk, ◌>>=◌, give, fail, perform, Window}
use v.Desktop.Outside.{Host, Secrets, Effect}
use v.Desktop.Paths.{runtime_paths}
use v.Desktop.Setup.{
  install_guarded, install_and_record, install_and_pair, installed_value, repair_value,
  paired_fields, repaired_fields, clock, optional, repair_local_runtime, repair_guarded,
  repair_and_record, component_or_all, not_paired,
}
use v.Desktop.Pages.{set_window, is_open, create_main_window, ensure_window, open_workspace}
use v.Desktop.Calls.{
  Call, status, begin_authorization, reopen_authorization, authorization_status,
  claim_authorization, choose_workspace, list_github_repositories, choose_clone_destination,
  clone_repository, install, runtime_status, repair_runtime, open_room, open_diagnostics, handle,
}
use v.Desktop.Account.{
  contents, account_of, account, Moves, stays, pairs, account_of-stamped, account_of-repaired,
}
use v.Desktop.Keeps.{Keeps, bind-Keeps, if-Keeps, give-Keeps, throw-Keeps, exists_sync-Keeps}
use v.Desktop.Keeps.Services.{
  local_runtime_status-Keeps, install_runtime-Keeps, repair_components-Keeps,
}
use v.Desktop.Keeps.Calls.{
  on_reopen_authorization-Keeps, on_authorization_status-Keeps, on_list_github_repositories-Keeps,
  on_choose_clone_destination-Keeps, on_open_diagnostics-Keeps,
}
use v.Desktop.Keeps.Leads.{
  Leads, Reaches, At, if-Leads, skip-Leads, ask-Leads, before-Leads, read_state-Leads,
}
use v.Desktop.Moves.{
  Moved, unmoved, At-IsStable, Moved-IsStable, patched, on_status-Leads,
  on_begin_authorization-Leads, on_claim_authorization-Leads, on_choose_workspace-Leads,
  on_clone_github_repository-Leads,
}

module _ (host : Host) (s : Secrets) where
  pub clock-Keeps : Keeps (At s) (clock host)
  clock-Keeps = record { kept = λ d p. p }

  recorded-Leads :
      (payload : Value)
      → truthy (lookup_field "sessionToken" (contents s)) ≡ true
      → truthy (lookup_field "workspacePath" (contents s)) ≡ true
      → Leads (At s) (Moved host s (install payload)) (
          install_and_record host
            (lookup_field "sessionToken" (contents s))
            (lookup_field "workspacePath" (contents s)))
  unfolding account_of
  recorded-Leads payload signed there =
      let c = install payload in
      let workspace = lookup_field "workspacePath" (contents s) in
      ask-Leads (unmoved host s c)
        (install_runtime-Keeps (At s) host (At-IsStable host s) _ workspace)
        λ services. ask-Leads (unmoved host s c) clock-Keeps λ at.
          before-Leads
            (patched host s c (paired_fields workspace at)
              (account_of-stamped (contents s) workspace at) (pairs signed there))
            λ _. give-Keeps (Moved host s c) {a = installed_value services}

  install_and_pair-Leads :
      (payload : Value)
      → Leads (At s) (Moved host s (install payload)) (install_and_pair host payload)
  unfolding install_and_pair
  install_and_pair-Leads payload =
      let c = install payload in
      read_state-Leads host s (install_guarded host payload) (unmoved host s c) (
        if-Leads (truthy (lookup_field "sessionToken" (contents s)))
          (λ signed.
            if-Leads
              (truthy (lookup_field "workspacePath" (contents s))
                && strict_eq (optional payload "workspacePath")
                    (lookup_field "workspacePath" (contents s)))
              (λ h. recorded-Leads payload signed (ground (h, arith)))
              λ h. skip-Leads (unmoved host s c) (throw-Keeps (At s)))
          λ h. skip-Leads (unmoved host s c) (throw-Keeps (At s)))

  repair_and_record-Leads :
      (c : Call) (component workspace : Value)
      → Leads (At s) (Moved host s c) (repair_and_record host component workspace)
  repair_and_record-Leads c component workspace =
      let stable = Moved-IsStable host s c in
      ask-Leads (unmoved host s c)
        (repair_components-Keeps (At s) host (At-IsStable host s) component workspace)
        λ repaired. ask-Leads (unmoved host s c) clock-Keeps λ at.
          before-Leads
            (patched host s c (repaired_fields at) (account_of-repaired (contents s) at) stays)
            λ _.
              bind-Keeps (Moved host s c) (local_runtime_status-Keeps (Moved host s c) host stable)
                λ status. give-Keeps (Moved host s c) {a = repair_value repaired status}

  repair_local_runtime-Leads :
      (c : Call) (component : Value)
      → Leads (At s) (Moved host s c) (repair_local_runtime host component)
  unfolding repair_local_runtime
  repair_local_runtime-Leads c component =
      let workspace =
        or_else (lookup_field "pairedWorkspacePath" (contents s))
          (lookup_field "workspacePath" (contents s)) in
      read_state-Leads host s (repair_guarded host (component_or_all component)) (unmoved host s c)
        (if-Leads (truthy workspace)
          (λ h.
            ask-Leads (unmoved host s c)
              (exists_sync-Keeps (At s) host (At-IsStable host s) (runtime_paths host).config)
              λ found.
                if-Leads found {n = fail (not_paired host)}
                  (λ k. repair_and_record-Leads c (component_or_all component) workspace)
                  λ k. skip-Leads (unmoved host s c) (throw-Keeps (At s)))
          λ h. skip-Leads (unmoved host s c) (throw-Keeps (At s)))

  quiet-Leads :
      (c : Call) {A : Type 0} {m : Desk A} → Keeps (At s) m → Leads (At s) (Moved host s c) m
  quiet-Leads c km = skip-Leads (unmoved host s c) km

  perform-At : (e : Effect) → Keeps (At s) (perform host e)
  perform-At e = record { kept = λ d p. p }

  set_window-At : (w : Window) → Keeps (At s) (set_window w)
  set_window-At w = record { kept = λ d p. p }

  create_main_window-At : Keeps (At s) (create_main_window host)
  unfolding create_main_window
  create_main_window-At = search (bind-Keeps, perform-At, set_window-At)

  ensure_window-At : Keeps (At s) (ensure_window host)
  ensure_window-At = record {
    kept =
        λ d. (if-Keeps (At s) (is_open d.window) (give-Keeps (At s)) create_main_window-At).kept d;
  }

  pub open_workspace-At : Keeps (At s) (open_workspace host >>= λ _. give undefined)
  unfolding open_workspace
  open_workspace-At = search (bind-Keeps, ensure_window-At, perform-At, give-Keeps)

  handle-Leads : (c : Call) → Leads (At s) (Moved host s c) (handle host c)
  unfolding handle
  handle-Leads status = on_status-Leads host s
  handle-Leads begin_authorization = on_begin_authorization-Leads host s
  handle-Leads claim_authorization = on_claim_authorization-Leads host s
  handle-Leads choose_workspace = on_choose_workspace-Leads host s
  handle-Leads (clone_repository payload) = on_clone_github_repository-Leads host s payload
  handle-Leads (install payload) = install_and_pair-Leads payload
  handle-Leads (repair_runtime payload) = repair_local_runtime-Leads (repair_runtime payload) _
  handle-Leads reopen_authorization =
      quiet-Leads _ (on_reopen_authorization-Keeps (At s) host (At-IsStable host s))
  handle-Leads authorization_status =
      quiet-Leads _ (on_authorization_status-Keeps (At s) host (At-IsStable host s))
  handle-Leads list_github_repositories =
      quiet-Leads _ (on_list_github_repositories-Keeps (At s) host (At-IsStable host s))
  handle-Leads choose_clone_destination =
      quiet-Leads _ (on_choose_clone_destination-Keeps (At s) host (At-IsStable host s))
  handle-Leads runtime_status =
      quiet-Leads _ (local_runtime_status-Keeps (At s) host (At-IsStable host s))
  handle-Leads open_room = quiet-Leads _ open_workspace-At
  handle-Leads open_diagnostics =
      quiet-Leads _ (on_open_diagnostics-Keeps (At s) host (At-IsStable host s))

-- Whatever the host answers, a call that returns has changed the account only as the specification
-- lets it: starting an authorization makes one pending, claiming needs a pending one and clears it,
-- choosing and cloning set a workspace, cloning and pairing need a session, pairing and the migration
-- need a workspace and pair that one, and each call may leave the account as it was, which every call
-- of another kind does. A call that throws has done no more than that either, unless a failed write
-- has cut the settings file short.
pub handle-Moves :
    (host : Host) (c : Call) (d : Desktop)
    → Reaches (λ d'. Moves c (account d) (account d')) (handle host c d)
handle-Moves host c d = (handle-Leads host d.secrets c).led d refl
