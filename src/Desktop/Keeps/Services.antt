-- ===== src/Desktop/Keeps/Services.antt =====
-- What the requests, the services and the parts of the set-up keep, by the rules.
use v.Prelude.{String, ℕ, Bool, true, false, refl}
use v.Js.{Value, Fields, Body}
use v.Desktop.{Desktop, Outcome, returned, threw, Desk}
use v.Desktop.Outside.{Host, Answer, refused, answered, Request, Command}
use v.Desktop.Paths.{RuntimePaths}
use v.Desktop.Cloud.{
  json_or, read, request_pairing, github_api_request, set_session_cookie, set_cookie, fetch_json,
}
use v.Desktop.Services.{
  Service, configure_serena, configure_graphiti, local_http_service_ready, local_runtime_status,
  write_password, inspect,
}
use v.Desktop.Setup.{
  both, both_of, install_runtime, repair_components, repaired_entry, restart, run_or_fail,
}
use v.Desktop.Keeps.{
  Keeps, IsStable, bind-Keeps, if-Keeps, give-Keeps, throw-Keeps, settle-Keeps, run-Keeps,
  start_detached-Keeps, exists_sync-Keeps, fetch-Keeps, read_state-Keeps,
  ensure_git_workspace-Keeps, bootstrap_runtime-Keeps, perform-Keeps,
}

module _ (P : Desktop → Type 0) where
  pub json_or-Keeps :
      (a : Answer) (message : ℕ → Body String → String) → Keeps P (json_or a message)
  json_or-Keeps (refused e) message = throw-Keeps P
  json_or-Keeps (answered status json text) message =
      if-Keeps P _ (settle-Keeps P json) (throw-Keeps P)

  pub read-Keeps : (v : Value) (k : String) → Keeps P (read v k)
  read-Keeps v k = if-Keeps P _ (throw-Keeps P) (give-Keeps P)

  both_of-Keeps :
      {A B : Type 0} (r : Desktop × Outcome A) (n : Desk B) → P r.0 → Keeps P n → P (both_of r n).0
  both_of-Keeps (d, returned a) n p kn = (bind-Keeps P kn λ b. give-Keeps P {a = (a, b)}).kept d p
  both_of-Keeps (d, threw e) n p kn = kn.kept d p

  pub both-Keeps :
      {A B : Type 0} {m : Desk A} {n : Desk B} → Keeps P m → Keeps P n → Keeps P (both m n)
  both-Keeps {m} {n} km kn = record { kept = λ d p. both_of-Keeps (m d) n (km.kept d p) kn }

  module _ (host : Host) (stable : IsStable P) where
    pub fetch_json-Keeps : (r : Request) (label : String) → Keeps P (fetch_json host r label)
    fetch_json-Keeps r label =
        let request = fetch-Keeps P host stable in search (bind-Keeps, request, json_or-Keeps)

    pub request_pairing-Keeps : (token : Value) → Keeps P (request_pairing host token)
    unfolding request_pairing
    request_pairing-Keeps token = search fetch_json-Keeps

    pub github_api_request-Keeps :
        (token : Value) (path : String) → Keeps P (github_api_request host token path)
    unfolding github_api_request
    github_api_request-Keeps token path =
        let request = fetch-Keeps P host stable in search (bind-Keeps, request, json_or-Keeps)

    set_cookie-Keeps : (token : Value) (ready : Bool) → Keeps P (set_cookie host token ready)
    set_cookie-Keeps token true = record { kept = λ d. stable _ d refl }
    set_cookie-Keeps token false = throw-Keeps P

    pub set_session_cookie-Keeps : (token : Value) → Keeps P (set_session_cookie host token)
    unfolding set_session_cookie
    set_session_cookie-Keeps token = record {
      kept = λ d p. (set_cookie-Keeps token d.session_ready).kept d p;
    }

    pub configure_serena-Keeps :
        (paths : RuntimePaths) (workspace : Value) → Keeps P (configure_serena host paths workspace)
    unfolding configure_serena
    configure_serena-Keeps paths workspace =
        let run_k = run-Keeps P host stable in
        let start_k = start_detached-Keeps P host stable in
        search (if-Keeps, bind-Keeps, run_k, start_k, give-Keeps) depth 30

    write_password-Keeps : (found : Bool) → Keeps P (write_password host found)
    write_password-Keeps true = give-Keeps P
    write_password-Keeps false = record { kept = λ d. stable _ d refl }

    pub configure_graphiti-Keeps : (paths : RuntimePaths) → Keeps P (configure_graphiti host paths)
    unfolding configure_graphiti
    configure_graphiti-Keeps paths =
        let run_k = run-Keeps P host stable in
        let look = exists_sync-Keeps P host stable in
        let make = perform-Keeps P host stable in
        search (if-Keeps, bind-Keeps, run_k, look, make, write_password-Keeps, give-Keeps) depth 40

    local_http-Keeps : (url : String) → Keeps P (local_http_service_ready host url)
    unfolding local_http_service_ready
    local_http-Keeps url =
        let request = fetch-Keeps P host stable in search (bind-Keeps, request, give-Keeps)

    inspect-Keeps : (state : Fields) → Keeps P (inspect host state)
    inspect-Keeps state =
        let run_k = run-Keeps P host stable in
        let look = exists_sync-Keeps P host stable in
        search (if-Keeps, bind-Keeps, run_k, look, local_http-Keeps, give-Keeps) depth 40

    pub local_runtime_status-Keeps : Keeps P (local_runtime_status host)
    unfolding local_runtime_status
    local_runtime_status-Keeps = bind-Keeps P (read_state-Keeps P host stable) inspect-Keeps

    run_or_fail-Keeps : (c : Command) (failure : String) → Keeps P (run_or_fail host c failure)
    run_or_fail-Keeps c failure =
        bind-Keeps P (run-Keeps P host stable c) λ r. if-Keeps P _ (give-Keeps P) (throw-Keeps P)

    pub install_runtime-Keeps :
        (token workspace : Value) → Keeps P (install_runtime host token workspace)
    unfolding install_runtime
    install_runtime-Keeps token workspace =
        let git = ensure_git_workspace-Keeps P host stable in
        let boot = bootstrap_runtime-Keeps P host stable in
        let start_k = start_detached-Keeps P host stable in
        bind-Keeps P (git workspace) λ _. bind-Keeps P boot λ paths.
          search
            (
              bind-Keeps, run_or_fail-Keeps, request_pairing-Keeps, read-Keeps, start_k, both-Keeps,
              configure_serena-Keeps, configure_graphiti-Keeps,
            )
            depth 40

    repaired_entry-Keeps :
        (wanted : Bool) (name : String) {m : Desk Service} (rest : Fields)
        → Keeps P m
        → Keeps P (repaired_entry wanted name m rest)
    repaired_entry-Keeps wanted name rest km = search (if-Keeps, bind-Keeps, give-Keeps)

    restart-Keeps : (paths : RuntimePaths) → Keeps P (restart host paths)
    restart-Keeps paths =
        let start_k = start_detached-Keeps P host stable in search (bind-Keeps, start_k, give-Keeps)

    pub repair_components-Keeps :
        (component workspace : Value) → Keeps P (repair_components host component workspace)
    unfolding repair_components
    repair_components-Keeps component workspace =
        let git = ensure_git_workspace-Keeps P host stable in
        let boot = bootstrap_runtime-Keeps P host stable in
        bind-Keeps P (git workspace) λ _. bind-Keeps P boot λ paths.
          search
            (
              bind-Keeps, restart-Keeps, repaired_entry-Keeps, configure_serena-Keeps,
              configure_graphiti-Keeps,
            )
            depth 40
