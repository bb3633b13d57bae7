-- ===== src/Desktop/Errors/Calls.antt =====
-- Which calls of desktop/main.mjs write the settings as the last thing that may throw.
use v.Prelude.{String, Bool, true, false, ◌≡◌, refl, arith, ◌⊎◌}
use v.Js.{Value, Fields, str, lookup_field}
use v.Desktop.{Desktop, give, fail, read_state, patch_state}
use v.Desktop.Outside.{Host, Secrets}
use v.Desktop.Setup.{
  install_guarded, install_and_record, install_and_pair, installed_value, paired_fields,
}
use v.Desktop.Calls.{
  Call, status, begin_authorization, reopen_authorization, authorization_status,
  claim_authorization, choose_workspace, list_github_repositories, choose_clone_destination,
  clone_repository, install, runtime_status, repair_runtime, open_room, open_diagnostics,
  pending_request, on_claim_authorization, with_pending as if_pending, claim, on_choose_workspace,
  take_workspace, chosen, on_clone_github_repository, clone_guarded, handle,
}
use v.Desktop.Status.{on_status, report}
use v.Desktop.Keeps.{Keeps, give-Keeps, throw-Keeps, read_state-Keeps, ensure_git_workspace-Keeps}
use v.Desktop.Keeps.Services.{
  fetch_json-Keeps, read-Keeps, set_session_cookie-Keeps, local_runtime_status-Keeps,
  install_runtime-Keeps,
}
use v.Desktop.Keeps.Clone.{clone_github_repository-Keeps}
use v.Desktop.Keeps.Leads.{At}
use v.Desktop.Keeps.Calls.{
  on_reopen_authorization-Keeps, on_authorization_status-Keeps, on_list_github_repositories-Keeps,
  on_choose_clone_destination-Keeps, on_open_diagnostics-Keeps,
}
use v.Desktop.Moves.{At-IsStable, pick-Keeps, is_paired-Keeps}
use v.Desktop.Refinement.{clock-Keeps, open_workspace-At}
use v.Desktop.Errors.{
  Atomic, WriteFailed, has_thrown, bind-Atomic, last-Atomic, unwritten-Atomic, if-Atomic,
  patch_state-Atomic,
}

-- Starting an authorization opens the browser after its write, and a repair reads the status after
-- its write: these may throw with the settings written.
unfoldable pub writes_last : Call → Bool
writes_last begin_authorization = false
writes_last (repair_runtime payload) = false
writes_last c = true

module _ (host : Host) (s : Secrets) where
  state-Keeps : Keeps (At s) (read_state host)
  state-Keeps = read_state-Keeps (At s) host (At-IsStable host s)

  written-Atomic : (patch : Fields) → Atomic host s (patch_state host patch)
  written-Atomic = patch_state-Atomic host s

  failed-Atomic : (message : String) → Atomic host {A = Value} s (fail message)
  failed-Atomic message = unwritten-Atomic host s (throw-Keeps (At s))

  given-Atomic : {A : Type 0} (a : A) → Atomic host s (give a)
  given-Atomic a = unwritten-Atomic host s (give-Keeps (At s))

  report-Atomic : (fs : Fields) → Atomic host s (report host fs)
  report-Atomic fs =
      bind-Atomic host s (is_paired-Keeps host s fs)
        λ paired. last-Atomic host s _ (if-Atomic host s _ (written-Atomic _) (given-Atomic tt))

  claim-Atomic : (fs : Fields) → Atomic host s (if_pending (claim host) fs)
  claim-Atomic fs =
      let json = fetch_json-Keeps (At s) host (At-IsStable host s) in
      let cookie = set_session_cookie-Keeps (At s) host (At-IsStable host s) in
      if-Atomic host s _
        (bind-Atomic host s
          (json (pending_request host "POST" "/claim" (lookup_field "pendingAuthorization" fs))
            "Authorization completion failed")
          λ payload.
            bind-Atomic host s (read-Keeps (At s) payload "session_token") λ token.
              bind-Atomic host s (cookie token) λ _. last-Atomic host s _ (written-Atomic _))
        (failed-Atomic _)

  choose-Atomic : (path : String) → Atomic host s (take_workspace host path)
  choose-Atomic path = if-Atomic host s _ (given-Atomic _) (
      bind-Atomic host s (ensure_git_workspace-Keeps (At s) host (At-IsStable host s) (str path))
        λ _. last-Atomic host s _ (written-Atomic _))

  clone-Atomic : (payload : Value) (fs : Fields) → Atomic host s (clone_guarded host payload fs)
  clone-Atomic payload fs =
      if-Atomic host s _
        (bind-Atomic host s (clone_github_repository-Keeps (At s) host (λ e d p. p) _ _ _)
          λ c. last-Atomic host s _ (written-Atomic _))
        (failed-Atomic _)

  recorded-Atomic :
      (token workspace : Value) → Atomic host s (install_and_record host token workspace)
  recorded-Atomic token workspace =
      bind-Atomic host s (install_runtime-Keeps (At s) host (At-IsStable host s) token workspace)
        λ services. bind-Atomic host s (clock-Keeps host s) λ at.
          last-Atomic host s (installed_value services)
            (written-Atomic (paired_fields workspace at))

  install-Atomic : (payload : Value) (fs : Fields) → Atomic host s (install_guarded host payload fs)
  install-Atomic payload fs =
      if-Atomic host s _ (if-Atomic host s _ (recorded-Atomic _ _) (failed-Atomic _))
        (failed-Atomic _)

  handle-Atomic : (c : Call) → writes_last c ≡ true → Atomic host s (handle host c)
  unfolding writes_last handle on_status on_claim_authorization on_choose_workspace
      on_clone_github_repository install_and_pair
  handle-Atomic status h = bind-Atomic host s state-Keeps report-Atomic
  handle-Atomic begin_authorization h = absurd (ground (h, arith))
  handle-Atomic claim_authorization h = bind-Atomic host s state-Keeps claim-Atomic
  handle-Atomic choose_workspace h =
      bind-Atomic host s (pick-Keeps host s "Select a local Git workspace")
        λ selection. choose-Atomic (chosen selection)
  handle-Atomic (clone_repository payload) h = bind-Atomic host s state-Keeps (clone-Atomic payload)
  handle-Atomic (install payload) h = bind-Atomic host s state-Keeps (install-Atomic payload)
  handle-Atomic (repair_runtime payload) h = absurd (ground (h, arith))
  handle-Atomic reopen_authorization h =
      unwritten-Atomic host s (on_reopen_authorization-Keeps (At s) host (At-IsStable host s))
  handle-Atomic authorization_status h =
      unwritten-Atomic host s (on_authorization_status-Keeps (At s) host (At-IsStable host s))
  handle-Atomic list_github_repositories h =
      unwritten-Atomic host s (on_list_github_repositories-Keeps (At s) host (At-IsStable host s))
  handle-Atomic choose_clone_destination h =
      unwritten-Atomic host s (on_choose_clone_destination-Keeps (At s) host (At-IsStable host s))
  handle-Atomic runtime_status h =
      unwritten-Atomic host s (local_runtime_status-Keeps (At s) host (At-IsStable host s))
  handle-Atomic open_room h = unwritten-Atomic host s (open_workspace-At host s)
  handle-Atomic open_diagnostics h =
      unwritten-Atomic host s (on_open_diagnostics-Keeps (At s) host (At-IsStable host s))

-- A call that throws leaves the settings as they were, at whatever point it failed, unless what failed
-- is the write of the settings, as the last thing that the call did. Starting an authorization and
-- repairing are left out: they may throw after their write.
pub handle_thrown :
    (host : Host) (c : Call) (d : Desktop)
    → writes_last c ≡ true
    → has_thrown (handle host c d).1 ≡ true
    → ((handle host c d).0.secrets ≡ d.secrets) ⊎ WriteFailed host (handle host c d).0
handle_thrown host c d h e = (handle-Atomic host d.secrets c h).undone d refl e
