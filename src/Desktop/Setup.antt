-- ===== src/Desktop/Setup.antt =====
-- desktop/main.mjs: pairing this computer, repairing its runtime, and the window.
use v.Prelude.{String, Bool, true, [], ◌∷◌, ◌++◌, if◌then◌else◌, ◌&&◌, ◌||◌, ◌<>◌}
use v.Js.{
  Value, Fields, str, obj, bool, undefined, truthy, lookup_field, get, or_else, is_str, is_nullish,
  strict_eq, assign,
}
use v.Desktop.{
  Desktop, Outcome, returned, threw, Desk, ◌>>=◌, ◌>>◌, give, fail, exists_sync, read_state,
  patch_state, continue, object,
}
use v.Desktop.Outside.{Host, Command}
use v.Desktop.Paths.{RuntimePaths, runtime_paths, api_url}
use v.Desktop.Commands.{
  run, texts, command, start_detached, output_of, ensure_git_workspace, bootstrap_runtime,
}
use v.Desktop.Cloud.{read, device_name, request_pairing}
use v.Desktop.Services.{Service, configure_serena, configure_graphiti, local_runtime_status}

-- `payload?.key`
abbrev pub optional : Value → String → Value
optional v k = if is_nullish v then undefined else get v k

unfoldable pub service_value : Service → Value
service_value s = obj (object (("ready", bool s.ready) ∷ ("detail", str s.detail) ∷ []))

-- `Promise.all` of two: both run, and it throws if either does.
abbrev pub both_of : {A B : Type 0} → Desktop × Outcome A → Desk B → Desktop × Outcome (A × B)
both_of (d, returned a) m = continue (m d) λ b. give (a, b)
both_of (d, threw e) m = ((m d).0, threw e)

abbrev pub both : {A B : Type 0} → Desk A → Desk B → Desk (A × B)
both m n d = both_of (m d) n

abbrev pub wants : Value → String → Bool
wants component name = is_str component "all" || is_str component name

abbrev pub repaired_entry : Bool → String → Desk Service → Fields → Desk Fields
repaired_entry wanted name m rest =
    if wanted then (m >>= λ s. give (assign name (service_value s) rest)) else give rest

abbrev pub installed_value : Service × Service → Value
installed_value services = obj (
    object (
      ("runtime", str "Registered and synchronizing with verified auto-update.")
      ∷ ("serena", service_value services.0)
      ∷ ("graphiti", service_value services.1)
      ∷ []))

-- The parameter's default.
abbrev pub component_or_all : Value → Value
component_or_all undefined = str "all"
component_or_all v = v

abbrev pub paired_fields : Value → Value → Fields
paired_fields workspace at = object (("pairedWorkspacePath", workspace) ∷ ("pairedAt", at) ∷ [])

abbrev pub repaired_fields : Value → Fields
repaired_fields at = object (("runtimeLastRepairAt", at) ∷ [])

abbrev pub repair_value : Fields → Value → Value
repair_value repaired status = obj (object (("repaired", obj repaired) ∷ ("status", status) ∷ []))

module _ (host : Host) where
  abbrev pub serve : RuntimePaths → Desk (Unit {0})
  serve paths =
      start_detached host paths.binary
        (texts ("serve" ∷ "--config" ∷ paths.config ∷ "--auto-update" ∷ []))

  abbrev pub init_command : RuntimePaths → Value → Command
  init_command paths workspace =
      command paths.binary
        (texts (
            "init"
            ∷ "--cloud-url"
            ∷ api_url host
            ∷ "--project-id"
            ∷ "default"
            ∷ "--workspace-root"
            ∷ [])
          ++ workspace
            ∷ texts (
                "--state-dir"
                ∷ host.dirname paths.config
                ∷ "--device-name"
                ∷ device_name host
                ∷ []))
        300000

  abbrev pub register_command : RuntimePaths → Value → Command
  register_command paths token =
      command paths.binary
        (texts ("register" ∷ "--config" ∷ paths.config ∷ "--pairing-token" ∷ []) ++ token ∷ [])
        300000

  abbrev pub run_or_fail : Command → String → Desk (Unit {0})
  run_or_fail c failure = do
    result ← run host c
    if result.ok then give tt else fail (failure <> output_of result)

  -- The part of `desktop:install-and-pair` that writes no settings.
  unfoldable pub install_runtime : Value → Value → Desk (Service × Service)
  install_runtime token workspace = do
    ensure_git_workspace host workspace
    paths ← bootstrap_runtime host
    run_or_fail (init_command paths workspace) "Runtime configuration failed: "
    pairing ← request_pairing host token
    pairing_token ← read pairing "pairing_token"
    run_or_fail (register_command paths pairing_token) "Device registration failed: "
    serve paths
    both (configure_serena host paths workspace) (configure_graphiti host paths)

  -- `new Date().toISOString()`
  abbrev pub clock : Desk Value
  clock d = (d, returned (str (host.iso (host.now d.history))))

  abbrev pub install_and_record : Value → Value → Desk Value
  install_and_record token workspace = do
    services ← install_runtime token workspace
    at ← clock
    patch_state host (paired_fields workspace at)
    give (installed_value services)

  -- What `desktop:install-and-pair` asks of the settings and of its payload.
  abbrev pub install_guarded : Value → Fields → Desk Value
  install_guarded payload state =
      let token = lookup_field "sessionToken" state in
      let workspace = lookup_field "workspacePath" state in
      if truthy token
      then (if truthy workspace && strict_eq (optional payload "workspacePath") workspace
          then install_and_record token workspace
          else fail "Choose a workspace using the native source chooser before installation")
      else fail "Browser authorization is required before pairing this computer"

  -- `desktop:install-and-pair`
  unfoldable pub install_and_pair : Value → Desk Value
  install_and_pair payload = read_state host >>= install_guarded payload

  abbrev pub restart : RuntimePaths → Desk Service
  restart paths = do
    serve paths
    give (record { ready = true; detail = "Runtime service was restarted in the background." })

  -- The part of a repair that writes no settings.
  unfoldable pub repair_components : Value → Value → Desk Fields
  repair_components component workspace = do
    ensure_git_workspace host workspace
    paths ← bootstrap_runtime host
    runtime ← repaired_entry (wants component "runtime") "runtime" (restart paths) Fields.end
    serena ←
        repaired_entry (wants component "serena") "serena" (configure_serena host paths workspace)
          runtime
    repaired_entry (wants component "graphiti") "graphiti" (configure_graphiti host paths) serena

  abbrev pub repair_and_record : Value → Value → Desk Value
  repair_and_record component workspace = do
    repaired ← repair_components component workspace
    at ← clock
    patch_state host (repaired_fields at)
    status ← local_runtime_status host
    give (repair_value repaired status)

  abbrev pub not_paired : String
  not_paired = "Pair a local project before repairing its runtime components."

  abbrev pub repair_guarded : Value → Fields → Desk Value
  repair_guarded component state =
      let workspace =
        or_else (lookup_field "pairedWorkspacePath" state) (lookup_field "workspacePath" state) in
      if truthy workspace
      then (exists_sync host (runtime_paths host).config >>= λ found.
          if found then repair_and_record component workspace else fail not_paired)
      else fail not_paired

  -- `repairLocalRuntime`
  unfoldable pub repair_local_runtime : Value → Desk Value
  repair_local_runtime component = read_state host >>= repair_guarded (component_or_all component)
