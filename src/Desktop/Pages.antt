-- ===== src/Desktop/Pages.antt =====
-- desktop/main.mjs: the window, and the start and the end of the program.
use v.Prelude.{Bool, true, false, [], ◌∷◌, if◌then◌else◌, ◌===◌}
use v.Js.{truthy, lookup_field}
use v.Desktop.{ask, Window, shown, returned, Desk, ◌>>=◌, ◌>>◌, give, perform, read_state}
use v.Desktop.Outside.{Host, Effect, created_window, maximized, loaded, quit}
use v.Desktop.Paths.{frontend_url}
use v.Desktop.Cloud.{set_session_cookie}
use v.Desktop.Services.{when}

abbrev pub set_window : Window → Desk (Unit {0})
set_window w d = (
  record { secrets = d.secrets; session_ready = d.session_ready; window = w; history = d.history },
  returned tt,
)

abbrev pub is_open : Window → Bool
is_open shown = true
is_open _ = false

-- A page is loaded without waiting for it.
abbrev pub asked : Effect → Desk (Unit {0})
asked e = ask e λ _. tt

module _ (host : Host) where
  -- `createMainWindow`
  unfoldable pub create_main_window : Desk (Unit {0})
  create_main_window = do
    perform host created_window
    set_window shown
    asked (loaded (host.join (host.directory ∷ "renderer" ∷ "index.html" ∷ [])))

  abbrev pub ensure_window : Desk (Unit {0})
  ensure_window d = (if is_open d.window then give tt else create_main_window) d

  -- `openWorkspaceInMainWindow`
  unfoldable pub open_workspace : Desk (Unit {0})
  open_workspace = do ensure_window; perform host maximized; asked (loaded (frontend_url host))

  -- `session.fromPartition`
  abbrev pub make_session : Desk (Unit {0})
  make_session d = (
    record { secrets = d.secrets; session_ready = true; window = d.window; history = d.history },
    returned tt,
  )

  -- `app.whenReady`
  unfoldable pub start : Desk (Unit {0})
  start = do
    make_session
    state ← read_state host
    when (truthy (lookup_field "sessionToken" state)) tt
        (set_session_cookie host (lookup_field "sessionToken" state))
    create_main_window

  -- `window-all-closed`
  unfoldable pub window_all_closed : Desk (Unit {0})
  window_all_closed = if host.platform === "darwin" then give tt else perform host quit
