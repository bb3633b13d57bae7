-- ===== src/Renderer/Setup.antt =====
-- desktop/renderer/app.mjs: installing the runtime and pairing this computer.
use v.Prelude.{
  ℕ, String, Bool, true, false, [], ◌∷◌, Option, none, some, if◌then◌else◌, ◌||◌, ◌<>◌, ◌==◌,
}
use Prim.Native.Char.{code}
use Prim.Native.String as Text
use v.Js.{Value, obj, truthy, get, to_string}
use v.Desktop.{Outcome, returned, threw, object, text_or}
use v.Renderer.{Screen, Marker, ready, message, show_panel}

-- `setComponent`: an empty detail leaves the old one.
unfoldable pub set_component : String → String → Marker → Marker
set_component state detail m = record { state = state; detail = text_or detail m.detail }

abbrev pub is_separator : ℕ → Bool
is_separator c = c == 92 || c == 47

-- The last part of a path that is not empty.
unfoldable pub last_part : String → String → String → String
last_part best current Text.[] = text_or current best
last_part best current (Text.◌∷◌ c s) =
    let split = is_separator (code c) in
    last_part (if split then text_or current best else best)
      (if split then "" else current <> Text.◌∷◌ c "") s

-- `workspace.split(/[\\/]/).filter(Boolean).pop() || 'Selected'`
unfoldable pub workspace_name : String → String
unfolding last_part
workspace_name path = text_or (last_part "" "" path) "Selected"

-- `installAndPair`, up to its call, with the call's payload.
unfoldable pub install_and_pair : Screen → Screen × Option Value
unfolding set_component
install_and_pair s =
    if truthy s.selected_workspace
    then (
      record s {
        install_disabled = true;
        runtime = set_component "working" "Installing verified local runtime…" s.runtime;
        serena = set_component "idle" "Waiting for runtime registration" s.serena;
        graphiti =
            set_component "idle" "Will use the local Docker profile if Docker is available"
              s.graphiti;
        setup_note = "This may take several minutes the first time. You can keep this window open.";
      },
      some (obj (object (("workspacePath", s.selected_workspace) ∷ []))),
    )
    else (s, none)

abbrev pub service_state : Value → String
service_state service = if truthy (get service "ready") then "running" else "warning"

abbrev pub detail_text : Value → String
detail_text v = if truthy v then to_string v else ""

abbrev pub ready_text : Bool → String
ready_text graphiti =
    if graphiti
    then "The runtime, Serena semantic index and local Graphiti memory profile are running. Open the same secure Agent Room control surface used in the browser."
    else "The runtime and Serena are running. Graphiti will activate automatically when Docker is available; its durable provenance envelopes are already synchronized."

-- `installAndPair`, with the answer of `desktop:install-and-pair`.
unfoldable pub install_answered : Outcome Value → Screen → Screen
unfolding set_component show_panel workspace_name
install_answered (returned result) s =
    let serena_result = get result "serena" in
    let graphiti_result = get result "graphiti" in
    show_panel ready (record s {
      runtime = set_component "running" (detail_text (get result "runtime")) s.runtime;
      serena =
          set_component (service_state serena_result) (detail_text (get serena_result "detail"))
            s.serena;
      graphiti =
          set_component (service_state graphiti_result) (detail_text (get graphiti_result "detail"))
            s.graphiti;
      ready_workspace = workspace_name (to_string s.selected_workspace);
      ready_detail = ready_text (truthy (get graphiti_result "ready"));
    })
install_answered (threw e) s = record s {
  install_disabled = false;
  runtime = set_component "warning" "Setup did not complete" s.runtime;
  setup_note = message e;
}
