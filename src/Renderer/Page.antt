-- ===== src/Renderer/Page.antt =====
-- The page of desktop/renderer/app.mjs over time: the listeners, the polls of the authorization, which
-- may overlap, and the answers of the main process, in any order.
use v.Prelude.{
  ℕ, zero, suc, Bool, true, false, not, List, [], ◌∷◌, Option, none, some, if◌then◌else◌, ◌==◌,
  some_of, keep,
}
use v.Js.{Value}
use v.Desktop.{Outcome}
use v.Renderer.{Screen, Mode, first_screen}
use v.Renderer.Repositories.{
  select_repository, repositories_answered, load_repositories, set_source_mode, workspace_answered,
  destination_answered, clone_selected, clone_answered,
}
use v.Renderer.Authorization.{
  restore_answered, start_authorization, authorization_answered, poll_answered, claim_answered,
  refresh_answered,
}
use v.Renderer.Setup.{install_and_pair, install_answered}

-- The intervals that the browser runs, and the calls of the authorization functions that await their
-- answers: starts, polls, claims, and reloads of the repositories.
pub record Page : Type 0 where
  pub screen : Screen
  pub timers : List ℕ
  pub starting : ℕ
  pub polling : ℕ
  pub claiming : ℕ
  pub reloading : ℕ

-- A press of a connect button, a tick of an interval, an answer to one of the awaited calls (`began`
-- with the id that `setInterval` then gives), and what the user and the main process do on the rest
-- of the page.
pub data Action : Type 0 where
  press_connect : Action
  press_reconnect : Action
  tick : ℕ → Action
  began : Outcome Value → ℕ → Action
  polled : Outcome Value → Action
  claimed : Outcome Value → Action
  reloaded : Outcome Value → Action
  press_row : Value → Action
  press_mode : Mode → Action
  press_refresh : Action
  press_clone : Action
  press_install : Action
  listed_again : Outcome Value → Action
  chosen : Outcome Value → Action
  destination : Outcome Value → Action
  cloned : Outcome Value → Action
  installed : Outcome Value → Action
  restored : Outcome Value → Action

abbrev pub is_running : ℕ → List ℕ → Bool
is_running id timers = some_of (λ t. t == id) timers

-- A disabled button gets no click.
unfoldable pub start_if : Bool → Bool → Page → Page
unfolding start_authorization
start_if disabled refresh p =
    if disabled
    then p
    else record p { screen = start_authorization refresh p.screen; starting = suc p.starting }

abbrev pub with_timer : Outcome Value → ℕ → List ℕ → List ℕ
with_timer (Outcome.returned v) id timers = id ∷ timers
with_timer (Outcome.threw e) id timers = timers

abbrev pub start_answered : ℕ → Outcome Value → ℕ → Page → Page
start_answered zero o id p = p
start_answered (suc n) o id p = record p {
  screen = authorization_answered o id p.screen;
  timers = with_timer o id p.timers;
  starting = n;
}

-- `clearInterval(authorizationPoll)`, where a poll sets the variable to null.
abbrev pub cleared : Option ℕ → Option ℕ → List ℕ → List ℕ
cleared (some id) none timers = keep (λ t. not (t == id)) timers
cleared _ _ timers = timers

abbrev pub check_answered : ℕ → Screen × Bool → Page → Page
check_answered zero r p = p
check_answered (suc n) r p = record p {
  screen = r.0;
  timers = cleared p.screen.authorization_poll r.0.authorization_poll p.timers;
  polling = n;
  claiming = if r.1 then suc p.claiming else p.claiming;
}

abbrev pub claim_done : ℕ → Screen × Bool → Page → Page
claim_done zero r p = p
claim_done (suc n) r p = record p {
  screen = r.0;
  timers = cleared p.screen.authorization_poll r.0.authorization_poll p.timers;
  claiming = n;
  reloading = if r.1 then suc p.reloading else p.reloading;
}

abbrev pub reload_done : ℕ → Outcome Value → Page → Page
reload_done zero o p = p
reload_done (suc n) o p = record p { screen = refresh_answered o p.screen; reloading = n }

abbrev pub elsewhere : (Screen → Screen) → Page → Page
elsewhere f p = record p { screen = f p.screen }

-- A change of the source mode loads the repositories if it asks for them.
abbrev pub load_if : Screen × Bool → Screen
load_if r = if r.1 then load_repositories r.0 else r.0

abbrev pub change_mode : Mode → Screen → Screen
change_mode m s = load_if (set_source_mode m true s)

unfoldable pub act : Action → Page → Page
unfolding start_if
act press_connect p = start_if p.screen.connect_disabled false p
act press_reconnect p = start_if p.screen.reconnect_disabled true p
act (tick id) p = if is_running id p.timers then record p { polling = suc p.polling } else p
act (began o id) p = start_answered p.starting o id p
act (polled o) p = check_answered p.polling (poll_answered o p.screen) p
act (claimed o) p = claim_done p.claiming (claim_answered o p.screen) p
act (reloaded o) p = reload_done p.reloading o p
act (press_row r) p = elsewhere (select_repository r) p
act (press_mode m) p = elsewhere (change_mode m) p
act press_refresh p = elsewhere load_repositories p
act press_clone p = elsewhere (λ s. (clone_selected s).0) p
act press_install p = elsewhere (λ s. (install_and_pair s).0) p
act (listed_again o) p = elsewhere (repositories_answered o) p
act (chosen o) p = elsewhere (workspace_answered o) p
act (destination o) p = elsewhere (destination_answered o) p
act (cloned o) p = elsewhere (clone_answered o) p
act (installed o) p = elsewhere (install_answered o) p
act (restored o) p = elsewhere (λ s. (restore_answered o s).0) p

unfoldable pub act_all : List Action → Page → Page
act_all [] p = p
act_all (a ∷ rest) p = act_all rest (act a p)

unfoldable pub first_page : Page
unfolding first_screen
first_page = record {
  screen = first_screen;
  timers = [];
  starting = 0;
  polling = 0;
  claiming = 0;
  reloading = 0;
}
