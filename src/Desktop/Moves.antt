-- ===== src/Desktop/Moves.antt =====
-- The handlers of desktop/main.mjs that change the account, each against the change its call may make.
use v.Prelude.{String, Bool, true, ◌≡◌, refl, ap, ◌∙◌, ◌&&◌, ◌===◌, arith}
use v.Js.{Value, Fields, str, truthy, lookup_field, get, spread_fields}
use v.Desktop.{Desktop, patch_state}
use v.Desktop.Outside.{Host, Secrets, opened_external}
use v.Desktop.Calls.{
  Call, status, begin_authorization, claim_authorization, choose_workspace, clone_repository,
  start_request, pending_request, on_begin_authorization, on_claim_authorization,
  with_pending as if_pending, claim, on_choose_workspace, take_workspace, chosen, pick,
  on_clone_github_repository, clone_guarded, pending_fields, local_fields, cloned_fields,
}
use v.Desktop.Status.{on_status, report, needs_migration, workspace_of, is_paired, migrate}
use v.Desktop.Account.{
  Account, contents, account_of, account, Moves, stays, authorizes, claims, chooses, clones,
  migrates, account_of-pending, account_of-claimed, account_of-workspace, account_of-paired,
}
use v.Desktop.Keeps.{
  Keeps, IsStable, bind-Keeps, if-Keeps, give-Keeps, throw-Keeps, exists_sync-Keeps,
  ensure_git_workspace-Keeps, perform-Keeps,
}
use v.Desktop.Keeps.Services.{fetch_json-Keeps, read-Keeps, set_session_cookie-Keeps}
use v.Desktop.Keeps.Clone.{clone_github_repository-Keeps, clone_github_repository-Yields}
use v.Desktop.Keeps.Leads.{
  Leads, At, if-Leads, skip-Leads, after-Leads, ask-Leads, before-Leads, read_state-Leads,
  patch_state-Leads,
}

module _ (host : Host) (s : Secrets) where
  -- The account has moved, from that of the settings `s`.
  abbrev pub Moved : Call → Desktop → Type 0
  Moved c d = Moves c (account_of (contents s)) (account d)

  pub unmoved : (c : Call) (d : Desktop) → At s d → Moved c d
  unmoved c d p = rw p stays

  pub At-IsStable : IsStable (At s)
  At-IsStable e d passing p = p

  pub Moved-IsStable : (c : Call) → IsStable (Moved c)
  Moved-IsStable c e d passing p = p

  pub patched :
      (c : Call) (patch : Fields) {a : Account}
      → account_of (spread_fields (contents s) patch) ≡ a
      → Moves c (account_of (contents s)) a
      → Leads (At s) (Moved c) (patch_state host patch)
  patched c patch e m = patch_state-Leads host s patch (unmoved c) λ d p. rw (p, e) m

  migrate-Leads : (paired : Bool) → Leads (At s) (Moved status) (migrate host paired (contents s))
  unfolding account_of
  migrate-Leads paired =
      if-Leads (paired && needs_migration (contents s))
        (λ h.
          let w : truthy (workspace_of (contents s)) ≡ true = ground (h, arith) in
          patched status _ (account_of-paired (contents s) _) (migrates w))
        λ h. skip-Leads (unmoved status) (give-Keeps (At s))

  pub is_paired-Keeps : (fs : Fields) → Keeps (At s) (is_paired host fs)
  is_paired-Keeps fs =
      let look = exists_sync-Keeps (At s) host At-IsStable in search (if-Keeps, give-Keeps, look)

  pub on_status-Leads : Leads (At s) (Moved status) (on_status host)
  unfolding on_status
  on_status-Leads = read_state-Leads host s (report host) (unmoved status) (
      ask-Leads (unmoved status) (is_paired-Keeps (contents s))
        λ paired. before-Leads (migrate-Leads paired) λ _. give-Keeps (Moved status))

  pending-Leads :
      (payload : Value)
      → Leads (At s) (Moved begin_authorization) (patch_state host (pending_fields payload))
  unfolding truthy lookup_field
  pending-Leads payload =
      patched begin_authorization (pending_fields payload) (account_of-pending (contents s) payload)
        (authorizes _ refl)

  pub on_begin_authorization-Leads :
      Leads (At s) (Moved begin_authorization) (on_begin_authorization host)
  unfolding on_begin_authorization
  on_begin_authorization-Leads =
      ask-Leads (unmoved begin_authorization)
        (fetch_json-Keeps (At s) host At-IsStable (start_request host)
          "Cloud authorization request failed")
        λ payload.
          ask-Leads (unmoved begin_authorization) (read-Keeps (At s) payload "request_id") λ _.
            before-Leads (pending-Leads payload) λ _.
              bind-Keeps (Moved begin_authorization)
                (perform-Keeps (Moved begin_authorization) host (Moved-IsStable begin_authorization)
                  (opened_external (get payload "authorize_url")) refl)
                λ _. give-Keeps (Moved begin_authorization)

  claim-Leads :
      (pending : Value)
      → truthy (account_of (contents s)).pending ≡ true
      → Leads (At s) (Moved claim_authorization) (claim host pending)
  claim-Leads pending h =
      ask-Leads (unmoved claim_authorization)
        (fetch_json-Keeps (At s) host At-IsStable (pending_request host "POST" "/claim" pending)
          "Authorization completion failed")
        λ payload.
          ask-Leads (unmoved claim_authorization) (read-Keeps (At s) payload "session_token")
            λ token.
              ask-Leads (unmoved claim_authorization)
                (set_session_cookie-Keeps (At s) host At-IsStable token)
                λ _.
                  before-Leads
                    (patched claim_authorization _ (account_of-claimed (contents s) payload)
                      (claims _ _ h))
                    λ _. give-Keeps (Moved claim_authorization)

  pub on_claim_authorization-Leads :
      Leads (At s) (Moved claim_authorization) (on_claim_authorization host)
  unfolding on_claim_authorization account_of
  on_claim_authorization-Leads =
      read_state-Leads host s (if_pending (claim host)) (unmoved claim_authorization) (
        if-Leads (truthy (lookup_field "pendingAuthorization" (contents s)))
          (claim-Leads (lookup_field "pendingAuthorization" (contents s)))
          λ h. skip-Leads (unmoved claim_authorization) (throw-Keeps (At s)))

  take_workspace-Leads :
      (path : String) → Leads (At s) (Moved choose_workspace) (take_workspace host path)
  unfolding truthy
  take_workspace-Leads path =
      if-Leads (path === "") (λ h. skip-Leads (unmoved choose_workspace) (give-Keeps (At s)))
        λ h.
          let w : truthy (str path) ≡ true = rw h refl in
          ask-Leads (unmoved choose_workspace)
            (ensure_git_workspace-Keeps (At s) host At-IsStable (str path))
            λ _.
              before-Leads
                (patched choose_workspace (local_fields path)
                  (account_of-workspace (contents s) (str path) _) (chooses (str path) w))
                λ _. give-Keeps (Moved choose_workspace)

  pub pick-Keeps : (title : String) → Keeps (At s) (pick host title)
  pick-Keeps title = record { kept = λ d p. p }

  pub on_choose_workspace-Leads : Leads (At s) (Moved choose_workspace) (on_choose_workspace host)
  unfolding on_choose_workspace
  on_choose_workspace-Leads =
      ask-Leads (unmoved choose_workspace) (pick-Keeps "Select a local Git workspace")
        λ selection. take_workspace-Leads (chosen selection)

  clone-Leads :
      (payload : Value)
      → Leads (At s) (Moved (clone_repository payload)) (clone_guarded host payload (contents s))
  unfolding account_of
  clone-Leads payload =
      if-Leads (truthy (lookup_field "sessionToken" (contents s)))
        (λ signed.
          after-Leads (unmoved (clone_repository payload))
            (clone_github_repository-Keeps (At s) host (λ e d p. p) _ _ _)
            (clone_github_repository-Yields host _ _ _)
            λ c there.
              before-Leads
                (patched (clone_repository payload) (cloned_fields c)
                  (account_of-workspace (contents s) c.workspace _)
                  (clones c.workspace signed (ap truthy there.0 ∙ there.1)))
                λ _. give-Keeps (Moved (clone_repository payload)))
        λ h. skip-Leads (unmoved (clone_repository payload)) (throw-Keeps (At s))

  pub on_clone_github_repository-Leads :
      (payload : Value)
      → Leads (At s) (Moved (clone_repository payload)) (on_clone_github_repository host payload)
  unfolding on_clone_github_repository
  on_clone_github_repository-Leads payload =
      read_state-Leads host s (clone_guarded host payload) (unmoved (clone_repository payload))
        (clone-Leads payload)
