-- ===== src/Renderer.antt =====
-- desktop/renderer/app.mjs: the state of the desktop program's setup screens. Its asynchronous
-- functions are cut at their awaits: one function up to the call of the main process, one for the
-- answer. The children model them; what the page shows is part of the state.
pub mod Repositories
pub mod Authorization
pub mod Setup
pub mod Page
pub mod Elsewhere
pub mod Attended
pub mod Handover
pub mod Rows
use v.Prelude.{
  ℕ, String, Bool, true, false, not, List, [], ◌∷◌, ◌++◌, Option, none, some, if◌then◌else◌, ◌&&◌,
  ◌<>◌,
}
use v.Js.{Value, str, null, arr, truthy, Thrown, error, other, Items}

pub data Panel : Type 0 where
  intro : Panel
  authorizing : Panel
  source : Panel
  setup : Panel
  ready : Panel

pub data Mode : Type 0 where
  local : Mode
  github : Mode

-- A row of the list of repositories.
pub record Row : Type 0 where
  pub repository : Value
  pub selected : Bool
  pub name : String
  pub meta : String
  pub description : String

pub record Marker : Type 0 where
  pub state : String
  pub detail : String

pub record Screen : Type 0 where
  pub selected_workspace : Value
  pub selected_repository : Value
  pub clone_destination : Value
  pub repositories : Value
  pub source_mode : Mode
  pub authorization_poll : Option ℕ
  pub refresh_after : Bool
  pub panel : Panel
  pub rows : List Row
  -- The text in place of the rows when there are none.
  pub no_rows : Bool
  pub connect_disabled : Bool
  pub reconnect_disabled : Bool
  pub refresh_disabled : Bool
  pub destination_disabled : Bool
  pub clone_disabled : Bool
  pub install_disabled : Bool
  pub workspace_shown : Value
  pub local_shown : Value
  pub destination_shown : Value
  pub source_note : String
  pub github_note : String
  pub setup_note : String
  pub expiry : Value
  pub runtime : Marker
  pub serena : Marker
  pub graphiti : Marker
  pub ready_workspace : String
  pub ready_detail : String
  pub build : String
  pub alerts : List String

abbrev pub idle : Marker
idle = record { state = "idle"; detail = "" }

-- The page as it is loaded, before `restoreState` has its answer. The texts that the page comes with
-- are left out.
unfoldable pub first_screen : Screen
first_screen = record {
  selected_workspace = str "";
  selected_repository = null;
  clone_destination = str "";
  repositories = arr Items.nil;
  source_mode = local;
  authorization_poll = none;
  refresh_after = false;
  panel = intro;
  rows = [];
  no_rows = false;
  connect_disabled = false;
  reconnect_disabled = false;
  refresh_disabled = false;
  destination_disabled = false;
  clone_disabled = true;
  install_disabled = true;
  workspace_shown = str "";
  local_shown = str "";
  destination_shown = str "";
  source_note = "";
  github_note = "";
  setup_note = "";
  expiry = null;
  runtime = idle;
  serena = idle;
  graphiti = idle;
  ready_workspace = "";
  ready_detail = "";
  build = "";
  alerts = [];
}

-- `error.message`. The answers of the page's calls are those of `ipcRenderer.invoke`: where the main
-- process throws, it rejects with an `Error` of Electron's, whose text is not that of the main process.
abbrev pub message : Thrown → String
message (error m) = m
message other = ""

-- `showPanel`
unfoldable pub show_panel : Panel → Screen → Screen
show_panel p s = record s { panel = p }

-- `window.alert`
abbrev pub alert : String → Screen → Screen
alert text s = record s { alerts = s.alerts ++ text ∷ [] }

-- `updateCloneAction`
unfoldable pub update_clone_action : Screen → Screen
update_clone_action s = record s {
  clone_disabled = not (truthy s.selected_repository && truthy s.clone_destination);
}

-- `continueToSetup`
unfoldable pub continue_to_setup : Value → String → Screen → Screen
unfolding show_panel
continue_to_setup workspace detail s = show_panel setup (record s {
  selected_workspace = workspace;
  workspace_shown = workspace;
  install_disabled = false;
  setup_note =
      detail <> " Ready to install the loopback-only local runtime and pair this computer.";
})
