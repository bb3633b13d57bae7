-- ===== src/Renderer/Attended.antt =====
-- The page of desktop/renderer/app.mjs does not wait for the browser in vain.
use v.Prelude.{
  ℕ, zero, suc, Bool, true, false, ◌||◌, List, [], ◌∷◌, Option, none, some, if◌then◌else◌, ◌≡◌,
  refl, Bool-cases, inl, inr, arith, ltb,
}
use v.Js.{Value, get, is_nullish, is_str}
use v.Desktop.{Outcome, returned, threw}
use v.Renderer.{Screen, first_screen, show_panel}
use v.Renderer.Repositories.{
  repositories_answered, clone_selected, set_source_mode, load_repositories,
}
use v.Renderer.Setup.{install_and_pair}
use v.Renderer.Authorization.{
  restore_answered, start_authorization, authorization_answered, poll_answered, claim_answered,
  refresh_answered, poll_failed,
}
use v.Renderer.Elsewhere.{
  is_authorizing, Calm, same, left, listed-Calm, row-Calm, load-Calm, chosen-Calm, destination-Calm,
  cloned-Calm, installed-Calm, clone-Calm, install-Calm, mode-Calm, restored-Calm,
}
use v.Renderer.Page.{
  Page, Action, press_connect, press_reconnect, tick, began, polled, claimed, reloaded, press_row,
  press_mode, press_refresh, press_clone, press_install, listed_again, chosen, destination, cloned,
  installed, restored, is_running, start_if, start_answered, cleared, check_answered, claim_done,
  reload_done, elsewhere, act, act_all, first_page,
}

abbrev runs : Option ℕ → List ℕ → Bool
runs none timers = true
runs (some id) timers = is_running id timers

abbrev pub polls : Option ℕ → List ℕ → Bool
polls none timers = false
polls (some id) timers = is_running id timers

-- The variable holds an interval that runs, if any, and while the page shows that it waits for the
-- browser, there is one, or a claim is awaited.
IsAttended : Bool → Option ℕ → List ℕ → ℕ → Type 0
IsAttended waits poll timers claiming =
    (runs poll timers ≡ true) × (waits ≡ true → (polls poll timers || ltb 0 claiming) ≡ true)

abbrev Attended : Page → Type 0
Attended p =
    IsAttended (is_authorizing p.screen.panel) p.screen.authorization_poll p.timers p.claiming

Calm-Attended :
    (s t : Screen) (timers : List ℕ) (claiming : ℕ)
    → Calm s t
    → IsAttended (is_authorizing s.panel) s.authorization_poll timers claiming
    → IsAttended (is_authorizing t.panel) t.authorization_poll timers claiming
unfolding IsAttended
Calm-Attended s t timers claiming (same p q) h = rw (p, q) h
Calm-Attended s t timers claiming (left p q) h = rw (p, q) (h.0, λ k. absurd cc)

cleared-same : (poll : Option ℕ) (timers : List ℕ) → cleared poll poll timers ≡ timers
cleared-same none timers = refl
cleared-same (some id) timers = refl

-- What an answer to a poll does: it ends the authorization, goes on to claim it, or changes nothing.
data Checked (s : Screen) (r : Screen × Bool) : Type 0 where
  stopped : is_authorizing r.0.panel ≡ false → r.0.authorization_poll ≡ none → Checked s r
  claims : r.0.authorization_poll ≡ none → r.1 ≡ true → Checked s r
  waits : r ≡ (s, false) → Checked s r

poll_answered-Checked : (o : Outcome Value) (s : Screen) → Checked s (poll_answered o s)
unfolding poll_answered poll_failed show_panel
poll_answered-Checked (threw e) s = stopped refl refl
poll_answered-Checked (returned v) s = elim (Bool-cases (is_nullish v)) [
  | inl k ↦ rw k (stopped refl refl)
  | inr k ↦ elim (Bool-cases (is_str (get v "status") "completed")) [
    | inl c ↦ rw (k, c) (claims refl refl)
    | inr c ↦ elim (Bool-cases (is_str (get v "status") "expired")) [
      | inl x ↦ rw (k, c, x) (stopped refl refl)
      | inr x ↦ rw (k, c, x) (waits refl)
    ]
  ]
]

check-Attended :
    (n : ℕ) (r : Screen × Bool) (p : Page)
    → Checked p.screen r
    → Attended p
    → Attended (check_answered n r p)
unfolding IsAttended
check-Attended zero r p c h = h
check-Attended (suc n) r p (stopped a b) h = rw (a, b) (refl, λ k. absurd cc)
check-Attended (suc n) r p (claims a b) h = rw (a, b) (refl, λ k. ground arith)
check-Attended (suc n) r p (waits a) h = rw (a, cleared-same p.screen.authorization_poll p.timers) h

-- What an answer to a claim does: the page leaves the authorizing panel.
data Claimed (s : Screen) (r : Screen × Bool) : Type 0 where
  dropped : is_authorizing r.0.panel ≡ false → r.0.authorization_poll ≡ none → Claimed s r
  kept :
      is_authorizing r.0.panel ≡ false → r.0.authorization_poll ≡ s.authorization_poll → Claimed s r

claim_answered-Claimed : (o : Outcome Value) (s : Screen) → Claimed s (claim_answered o s)
unfolding claim_answered poll_failed show_panel set_source_mode load_repositories
claim_answered-Claimed (threw e) s = dropped refl refl
claim_answered-Claimed (returned v) s = elim (Bool-cases (is_nullish (get v "user"))) [
  | inl k ↦ rw k (dropped refl refl)
  | inr k ↦ elim (Bool-cases s.refresh_after) [
    | inl r ↦ rw (k, r) (kept refl refl)
    | inr r ↦ rw (k, r) (kept refl refl)
  ]
]

claim-Attended :
    (n : ℕ) (r : Screen × Bool) (p : Page)
    → Claimed p.screen r
    → Attended p
    → Attended (claim_done n r p)
unfolding IsAttended
claim-Attended zero r p c h = h
claim-Attended (suc n) r p (dropped a b) h = rw (a, b) (refl, λ k. absurd cc)
claim-Attended (suc n) r p (kept a b) h =
    rw (a, b, cleared-same p.screen.authorization_poll p.timers) (h.0, λ k. absurd cc)

started-Attended :
    (n : ℕ) (o : Outcome Value) (id : ℕ) (p : Page)
    → Attended p
    → Attended (start_answered n o id p)
unfolding authorization_answered show_panel IsAttended
started-Attended zero o id p h = h
started-Attended (suc n) (returned v) id p h = (ground arith, λ k. ground arith)
started-Attended (suc n) (threw e) id p h = h

reload-Attended : (n : ℕ) (o : Outcome Value) (p : Page) → Attended p → Attended (reload_done n o p)
unfolding refresh_answered
reload-Attended zero o p h = h
reload-Attended (suc n) o p h =
    Calm-Attended p.screen (refresh_answered o p.screen) p.timers p.claiming
      (reloaded-Calm (listed-Calm o p.screen)) h
  where
    reloaded-Calm :
        Calm p.screen (repositories_answered o p.screen)
        → Calm p.screen (refresh_answered o p.screen)
    reloaded-Calm (same a b) = same a b
    reloaded-Calm (left a b) = left a b

elsewhere-Attended :
    (f : Screen → Screen) (p : Page)
    → ((s : Screen) → Calm s (f s))
    → Attended p
    → Attended (elsewhere f p)
elsewhere-Attended f p calm h =
    Calm-Attended p.screen (f p.screen) p.timers p.claiming (calm p.screen) h

start_if-Attended :
    (disabled refresh : Bool) (p : Page) → Attended p → Attended (start_if disabled refresh p)
unfolding start_if start_authorization
start_if-Attended true refresh p h = h
start_if-Attended false refresh p h = h

tick-Attended :
    (b : Bool) (p : Page)
    → Attended p
    → Attended (if b then record p { polling = suc p.polling } else p)
tick-Attended true p h = h
tick-Attended false p h = h

act-Attended : (a : Action) (p : Page) → Attended p → Attended (act a p)
unfolding act
act-Attended press_connect p h = start_if-Attended p.screen.connect_disabled false p h
act-Attended press_reconnect p h = start_if-Attended p.screen.reconnect_disabled true p h
act-Attended (tick id) p h = tick-Attended (is_running id p.timers) p h
act-Attended (began o id) p h = started-Attended p.starting o id p h
act-Attended (polled o) p h =
    check-Attended p.polling (poll_answered o p.screen) p (poll_answered-Checked o p.screen) h
act-Attended (claimed o) p h =
    claim-Attended p.claiming (claim_answered o p.screen) p (claim_answered-Claimed o p.screen) h
act-Attended (reloaded o) p h = reload-Attended p.reloading o p h
act-Attended (press_row r) p h = elsewhere-Attended _ p (row-Calm r) h
act-Attended (press_mode m) p h = elsewhere-Attended _ p (mode-Calm m) h
act-Attended press_refresh p h = elsewhere-Attended _ p load-Calm h
act-Attended press_clone p h = elsewhere-Attended (λ s. (clone_selected s).0) p clone-Calm h
act-Attended press_install p h = elsewhere-Attended (λ s. (install_and_pair s).0) p install-Calm h
act-Attended (listed_again o) p h = elsewhere-Attended _ p (listed-Calm o) h
act-Attended (chosen o) p h = elsewhere-Attended _ p (chosen-Calm o) h
act-Attended (destination o) p h = elsewhere-Attended _ p (destination-Calm o) h
act-Attended (cloned o) p h = elsewhere-Attended _ p (cloned-Calm o) h
act-Attended (installed o) p h = elsewhere-Attended _ p (installed-Calm o) h
act-Attended (restored o) p h =
    elsewhere-Attended (λ s. (restore_answered o s).0) p (restored-Calm o) h

act_all-Attended : (actions : List Action) (p : Page) → Attended p → Attended (act_all actions p)
unfolding act_all
act_all-Attended [] p h = h
act_all-Attended (a ∷ rest) p h = act_all-Attended rest (act a p) (act-Attended a p h)

first-Attended : Attended first_page
unfolding first_page first_screen IsAttended
first-Attended = (refl, λ k. absurd cc)

-- From the loaded page, whatever the user presses, however the polls overlap and whatever the main
-- process answers, in any order: while the page shows that it waits for the browser's approval, the
-- interval that polls for it is running, or a claim of the authorization is awaited.
pub act_all-attended :
    (actions : List Action)
    → is_authorizing (act_all actions first_page).screen.panel ≡ true
    → let p = act_all actions first_page in
      (polls p.screen.authorization_poll p.timers || ltb 0 p.claiming) ≡ true
unfolding IsAttended
act_all-attended actions = (act_all-Attended actions first_page first-Attended).1
