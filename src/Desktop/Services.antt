-- ===== src/Desktop/Services.antt =====
-- desktop/main.mjs: the two local services and the status of the local runtime.
use v.Prelude.{
  ℕ, String, Bool, true, false, List, [], ◌∷◌, ◌++◌, if◌then◌else◌, ◌&&◌, ◌<>◌, ltb, starts_with,
}
use v.Js.{Value, Fields, str, obj, bool, null, truthy, lookup_field, or_else}
use v.Desktop.{Desk, ◌>>=◌, ◌>>◌, give, perform, exists_sync, read_state, object}
use v.Desktop.Outside.{Host, Command, Answer, refused, answered, wrote, made_directory}
use v.Desktop.Paths.{RuntimePaths, runtime_paths, runtime_home, graphiti_compose_path, is_windows}
use v.Desktop.Commands.{Ran, run, texts, command, start_detached, output_of}
use v.Desktop.Cloud.{fetch}

pub record Service : Type 0 where
  pub ready : Bool
  pub detail : String

abbrev pub not_ready : String → Service
not_ready detail = record { ready = false; detail = detail }

abbrev pub is_ready : String → Service
is_ready detail = record { ready = true; detail = detail }

-- `{ ok: false, stdout: '', stderr: '' }`
abbrev pub not_run : Ran
not_run = record { ok = false; stdout = ""; stderr = "" }

-- `s.includes(part)`
unfoldable pub includes : String → String → Bool
includes String.[] part = starts_with String.[] part
includes (String.◌∷◌ c s) part =
    let rest = includes s part in if starts_with (String.◌∷◌ c s) part then true else rest

abbrev pub serena_command : List String → List Value
serena_command rest = texts ("tool" ∷ "run" ∷ "--from" ∷ "serena-agent" ∷ "serena" ∷ rest)

abbrev pub serve_arguments : Value → List Value
serve_arguments workspace =
    serena_command (
      "start-mcp-server" ∷ "--transport" ∷ "streamable-http" ∷ "--host" ∷ "127.0.0.1" ∷ "--port"
      ∷ "9121" ∷ "--project" ∷ [])
    ++ workspace ∷ texts ("--open-web-dashboard" ∷ "false" ∷ [])

-- One service's entry in the status: ready, present, or neither.
abbrev pub entry : String → String → Value
entry state detail = obj (object (("state", str state) ∷ ("detail", str detail) ∷ []))

unfoldable pub runtime_entry : Bool → Bool → Value
runtime_entry configured installed =
    if configured
    then entry "ready" "Verified runtime is configured for the paired workspace."
    else if installed
    then entry "installed" "Runtime is installed but is not paired to a workspace."
    else entry "not_installed" "Runtime is not installed on this computer."

unfoldable pub serena_entry : Bool → Bool → Value
serena_entry ready installed =
    if ready
    then entry "ready" "Serena semantic service is responding on local loopback."
    else if installed
    then entry "stopped" "Serena is installed but its local service is not responding."
    else entry "not_installed" "Serena is not installed yet."

unfoldable pub graphiti_entry : Bool → Bool → Bool → Value
graphiti_entry ready packages docker =
    if ready
    then entry "ready" "Graphiti client and local Neo4j memory profile are responding on loopback."
    else if packages && docker
    then entry "stopped" "Graphiti is installed, but the local Neo4j memory profile is not running."
    else if packages
    then entry "docker_required"
        "Graphiti is installed. Start Docker to launch its local Neo4j memory profile."
    else entry "not_installed" "Graphiti packages are not installed yet."

abbrev pub when : {A : Type 0} → Bool → A → Desk A → Desk A
when b otherwise m = if b then m else give otherwise

abbrev pub alive : Answer → Bool
alive (refused e) = false
alive (answered status json text) = ltb 0 status

-- The next step of a set-up, unless the last one failed.
abbrev pub then_or : Ran → String → Desk Service → Desk Service
then_or r failure next = if r.ok then next else give (not_ready (failure <> output_of r))

abbrev pub no_docker : String
no_docker =
    "Graphiti packages are installed, but Docker is not running. Start Docker to launch the local Neo4j memory profile."

abbrev pub pip : RuntimePaths → List String → ℕ → Command
pip paths packages timeout =
    command paths.python
      (texts ("-m" ∷ "pip" ∷ "install" ∷ "--disable-pip-version-check" ∷ "--upgrade" ∷ packages))
      timeout

module _ (host : Host) where
  abbrev pub serve_serena : RuntimePaths → Value → Desk Service
  serve_serena paths workspace = do
    start_detached host paths.uv (serve_arguments workspace)
    give (
        is_ready
          "Installed and running with the language-server backend on loopback; Agent Room exposes read-only tools only.")

  -- `configureSerena`
  unfoldable pub configure_serena : RuntimePaths → Value → Desk Service
  configure_serena paths workspace = do
    uv ← run host (pip paths ("uv" ∷ []) 300000)
    then_or uv "Could not install the Serena package manager: " do
      install ← run host (
          command paths.uv (texts ("tool" ∷ "install" ∷ "-p" ∷ "3.13" ∷ "serena-agent" ∷ []))
            600000)
      then_or install "Serena package install failed: " do
        init ← run host (command paths.uv (serena_command ("init" ∷ [])) 300000)
        then_or init "Serena initialization needs attention: " (serve_serena paths workspace)

  abbrev pub docker_program : String
  docker_program = if is_windows host then "docker.exe" else "docker"

  abbrev pub docker_info : Desk Ran
  docker_info = run host (command docker_program (texts ("info" ∷ [])) 20000)

  abbrev pub graphiti_directory : String
  graphiti_directory = host.join (runtime_home host ∷ "graphiti" ∷ [])

  abbrev pub env_file : String
  env_file = host.join (graphiti_directory ∷ ".env" ∷ [])

  -- A password is made once: an existing file is kept.
  abbrev pub write_password : Bool → Desk (Unit {0})
  write_password true = give tt
  write_password false =
      λ d. perform host (wrote env_file ("NEO4J_PASSWORD=" <> host.random d.history <> "\n")) d

  abbrev pub compose_up : Command
  compose_up =
      command docker_program
        (texts (
          "compose"
          ∷ "--env-file"
          ∷ env_file
          ∷ "-f"
          ∷ graphiti_compose_path host
          ∷ "up"
          ∷ "-d"
          ∷ []))
        300000

  abbrev pub start_neo4j : Desk Service
  start_neo4j = do
    perform host (made_directory graphiti_directory)
    found ← exists_sync host env_file
    write_password found
    result ← run host compose_up
    then_or result "Graphiti profile could not start: "
        (give (is_ready "Local Neo4j memory profile is running on loopback only."))

  abbrev pub start_if_docker : Ran → Desk Service
  start_if_docker docker = if docker.ok then start_neo4j else give (not_ready no_docker)

  -- `configureGraphiti`
  unfoldable pub configure_graphiti : RuntimePaths → Desk Service
  configure_graphiti paths = do
    packages ← run host (pip paths ("neo4j>=5.25.0" ∷ "graphiti-core>=0.17.0" ∷ []) 600000)
    then_or packages "Graphiti package installation failed: " (docker_info >>= start_if_docker)

  -- `localHttpServiceReady`: any answer of the service will do.
  unfoldable pub local_http_service_ready : String → Desk Bool
  local_http_service_ready url = do
    answer ← fetch host (record { method = "GET"; url = url; headers = []; body = Fields.end })
    give (alive answer)

  abbrev pub inspect : Fields → Desk Value
  inspect state = do
    installed ← exists_sync host (runtime_paths host).binary
    configured ← exists_sync host (runtime_paths host).config
    has_uv ← when installed false (exists_sync host (runtime_paths host).uv)
    tools ←
        when has_uv not_run
          (run host (command (runtime_paths host).uv (texts ("tool" ∷ "list" ∷ [])) 20000))
    let serena = tools.ok && includes tools.stdout "serena-agent"
    serena_ready ← when serena false (local_http_service_ready "http://127.0.0.1:9121")
    packages ← when installed not_run (
        run host (
          command (runtime_paths host).python (texts ("-c" ∷ "import graphiti_core, neo4j" ∷ []))
            20000))
    docker ← docker_info
    graphiti_ready ←
        when (packages.ok && docker.ok) false (local_http_service_ready "http://127.0.0.1:7474")
    give (
        obj (
          object (
            ("paired", bool (truthy (lookup_field "pairedWorkspacePath" state) && configured))
            ∷ ("runtime", runtime_entry configured installed)
            ∷ ("serena", serena_entry serena_ready serena)
            ∷ ("graphiti", graphiti_entry graphiti_ready packages.ok docker.ok)
            ∷ ("lastRepairAt", or_else (lookup_field "runtimeLastRepairAt" state) null)
            ∷ [])))

  -- `localRuntimeStatus`
  unfoldable pub local_runtime_status : Desk Value
  local_runtime_status = read_state host >>= inspect
