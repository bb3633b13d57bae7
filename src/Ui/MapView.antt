-- ===== src/Ui/MapView.antt =====
-- components/Map.tsx: the script of the map is loaded, and the map made when both it and the container
-- are there.
use v.Prelude.{ℕ, zero, suc, String, Bool, true, List, ◌∷◌, Option, some, if◌then◌else◌, ◌<>◌}

-- What the map is made with. Positions are the numbers that the caller gives.
pub record MapOptions (Real : Type 0) : Type 0 where
  pub zoom : ℕ
  pub center : Real × Real
  pub map_type_control : Bool
  pub fullscreen_control : Bool
  pub zoom_control : Bool
  pub street_view_control : Bool
  pub map_id : String

unfoldable pub map_options : {Real : Type 0} → ℕ → Real × Real → MapOptions Real
map_options zoom center = record {
  zoom = zoom;
  center = center;
  map_type_control = true;
  fullscreen_control = true;
  zoom_control = true;
  street_view_control = true;
  map_id = "DEMO_MAP_ID";
}

-- The address of the script.
unfoldable pub script_url : String → String → String
script_url forge_base_url api_key =
    forge_base_url <> "/v1/maps/proxy" <> "/maps/api/js?key=" <> api_key
    <> "&v=weekly&libraries=marker,places,geocoding,geometry"

-- The scripts in the document, the map if it is made, whether the caller was told, and the console.
pub record MapState (Real : Type 0) : Type 0 where
  pub scripts : ℕ
  pub map : Option (MapOptions Real)
  pub ready_called : Bool
  pub console : List String

pub data ScriptOutcome : Type 0 where
  loaded broken : ScriptOutcome

-- `init` from the outcome of its script on. A script that fails leaves the promise open, and its element
-- in the document.
unfoldable pub finish_init :
    {Real : Type 0} → ScriptOutcome → Bool → Bool → MapOptions Real → MapState Real → MapState Real
finish_init broken container has_callback options s = record {
  scripts = s.scripts;
  map = s.map;
  ready_called = s.ready_called;
  console = "Failed to load Google Maps script" ∷ s.console;
}
finish_init loaded container has_callback options s = record {
  scripts = removed s.scripts;
  map = if container then some options else s.map;
  ready_called =
      if container then (if has_callback then true else s.ready_called) else s.ready_called;
  console = if container then s.console else "Map container not found" ∷ s.console;
}
  where
    removed : ℕ → ℕ
    removed zero = zero
    removed (suc n) = n
