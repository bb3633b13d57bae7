-- ===== src/Ui/Sidebar.antt =====
-- components/ui/sidebar.tsx: `SidebarProvider`, the choice of what `Sidebar` renders, and its trigger.
use v.Prelude.{
  String, Bool, true, false, not, ◌&&◌, ◌||◌, List, [], ◌∷◌, Option, none, some, if◌then◌else◌,
  ◌===◌, ◌<>◌, ◌≡◌, arith,
}

-- The provider's state, the cookie it wrote last, and the values its owner was told. `open_prop` is the
-- property `open`, `has_owner` whether `onOpenChange` is given.
pub record Provider : Type 0 where
  pub open_prop : Option Bool
  pub has_owner : Bool
  pub open_state : Bool
  pub open_mobile : Bool
  pub is_mobile : Bool
  pub cookie : Option String
  pub told : List Bool

unfoldable pub initial_provider : Bool → Option Bool → Bool → Bool → Provider
initial_provider default_open open_prop has_owner is_mobile = record {
  open_prop = open_prop;
  has_owner = has_owner;
  open_state = default_open;
  open_mobile = false;
  is_mobile = is_mobile;
  cookie = none;
  told = [];
}

abbrev prop_or : Option Bool → Bool → Bool
prop_or none b = b
prop_or (some p) b = p

-- `openProp ?? _open`
unfoldable pub is_open : Provider → Bool
is_open s = prop_or s.open_prop s.open_state

abbrev bool_text : Bool → String
bool_text true = "true"
bool_text false = "false"

-- `setOpen(value)`
unfoldable pub set_open : Bool → Provider → Provider
set_open value s = record s {
  open_state = if s.has_owner then s.open_state else value;
  told = if s.has_owner then value ∷ s.told else s.told;
  cookie = some ("sidebar_state=" <> bool_text value <> "; path=/; max-age=604800");
}

-- `toggleSidebar`
unfoldable pub toggle_sidebar : Provider → Provider
unfolding set_open is_open
toggle_sidebar s =
    if s.is_mobile
    then record s { open_mobile = not s.open_mobile }
    else set_open (not (is_open s)) s

-- The keyboard shortcut; whether the browser's own handling is prevented.
unfoldable pub handle_key_down : String → Bool → Bool → Provider → Provider × Bool
unfolding toggle_sidebar
handle_key_down key meta ctrl s =
    let toggled = toggle_sidebar s in
    if key === "b" && (meta || ctrl) then (toggled, true) else (s, false)

-- `SidebarTrigger`: the caller's click handler first, here a change of the provider, then the toggle.
unfoldable pub press_trigger : (Provider → Provider) → Provider → Provider
unfolding toggle_sidebar
press_trigger on_click s = toggle_sidebar (on_click s)

pub data Side : Type 0 where
  left right : Side

pub data Variant : Type 0 where
  plain floating inset : Variant

pub data Collapsible : Type 0 where
  offcanvas icon never : Collapsible

-- What the desktop sidebar is drawn with: `data-state`, `data-collapsible`, the side, whether it is
-- padded (floating and inset ones), and whether its width changes in steps.
pub record Desktop : Type 0 where
  pub expanded : Bool
  pub collapsed_as : Option Collapsible
  pub side : Side
  pub padded : Bool
  pub animated : Bool

-- What `Sidebar` renders.
pub data SidebarView : Type 0 where
  fixed : SidebarView
  sheet : Bool → Side → SidebarView
  desktop : Desktop → SidebarView

abbrev is_padded : Variant → Bool
is_padded floating = true
is_padded inset = true
is_padded plain = false

unfoldable pub desktop_view : Side → Variant → Collapsible → Bool → Provider → SidebarView
unfolding is_open
desktop_view side variant collapsible disable_transition s = desktop (record {
  expanded = is_open s;
  collapsed_as = if is_open s then none else some collapsible;
  side = side;
  padded = is_padded variant;
  animated = not disable_transition;
})

unfoldable pub sidebar_view : Side → Variant → Collapsible → Bool → Provider → SidebarView
unfolding desktop_view
sidebar_view side variant never disable_transition s = fixed
sidebar_view side variant collapsible disable_transition s =
    if s.is_mobile
    then sheet s.open_mobile side
    else desktop_view side variant collapsible disable_transition s

-- Toggled twice without an owner, the sidebar is as open as before, on a phone and on a desktop.
toggle_sidebar-twice :
    (s : Provider)
    → s.open_prop ≡ none
    → s.has_owner ≡ false
    → (is_open (toggle_sidebar (toggle_sidebar s)) ≡ is_open s)
      × ((toggle_sidebar (toggle_sidebar s)).open_mobile ≡ s.open_mobile)
unfolding toggle_sidebar set_open is_open
toggle_sidebar-twice s free alone = rw (alone, free) (ground arith, ground arith)
