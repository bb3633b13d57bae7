-- ===== src/Desktop/Paths.antt =====
-- desktop/main.mjs: the addresses and paths that the main process uses.
use v.Prelude.{String, Bool, [], ◌∷◌, if◌then◌else◌, ◌===◌, strip_slash}
use v.Desktop.{text_or}
use v.Desktop.Outside.{Host}

pub record RuntimePaths : Type 0 where
  pub home : String
  pub config : String
  pub binary : String
  pub python : String
  pub uv : String

module _ (host : Host) where
  -- `API_URL`
  unfoldable pub api_url : String
  api_url =
      strip_slash
        (text_or (host.variable "AGENT_ROOM_API_URL") "https://app-production-cc16.up.railway.app")

  -- `FRONTEND_URL`
  unfoldable pub frontend_url : String
  frontend_url =
      text_or (host.variable "AGENT_ROOM_FRONTEND_URL") "https://frontend-swart-alpha-20.vercel.app"

  -- `COOKIE_NAME`
  unfoldable pub cookie_name : String
  cookie_name = text_or (host.variable "AGENT_ROOM_SESSION_COOKIE") "agent_platform_session"

  -- `process.platform === 'win32'`
  abbrev pub is_windows : Bool
  is_windows = host.platform === "win32"

  -- `runtimeHome`
  unfoldable pub runtime_home : String
  runtime_home =
      text_or (host.variable "AGENT_ROOM_HOME") (host.join (host.home ∷ ".agent-room" ∷ []))

  abbrev pub in_venv : String → String → String
  in_venv windows posix =
      if is_windows
      then host.join (runtime_home ∷ "venv" ∷ "Scripts" ∷ windows ∷ [])
      else host.join (runtime_home ∷ "venv" ∷ "bin" ∷ posix ∷ [])

  -- `runtimePaths`
  unfoldable pub runtime_paths : RuntimePaths
  runtime_paths = record {
    home = runtime_home;
    config = host.join (runtime_home ∷ "default" ∷ "runtime.json" ∷ []);
    binary = in_venv "agent-room-runtime.exe" "agent-room-runtime";
    python = in_venv "python.exe" "python";
    uv = in_venv "uv.exe" "uv";
  }

  abbrev pub installer_root : String
  installer_root =
      if host.packaged
      then host.join (host.resources ∷ "runtime-installer" ∷ [])
      else host.join (host.directory ∷ ".." ∷ "local-runtime" ∷ "installer" ∷ [])

  -- `installerPath`
  unfoldable pub installer_path : String
  installer_path =
      if is_windows
      then host.join (installer_root ∷ "install.ps1" ∷ [])
      else host.join (installer_root ∷ "install.sh" ∷ [])

  -- `graphitiComposePath`
  unfoldable pub graphiti_compose_path : String
  graphiti_compose_path =
      if host.packaged
      then host.join (host.resources ∷ "compose.graphiti.yml" ∷ [])
      else host.join (host.directory ∷ ".." ∷ "local-runtime" ∷ "compose.graphiti.yml" ∷ [])
