-- ===== src/Examples/Screen.antt =====
-- The theorems on the panes, the small hooks, the cards and the first client, at concrete inputs.
use v.Prelude.{true, false, [], ◌∷◌, none, some, ◌≡◌, refl, ◌≤◌, length}
use v.Js.{undefined}
use v.Layout.{AppState, chat_pane, initial_app, start_resize, moves, width_of, lower, upper}
use v.Layout.Widths.{moves-bounded}
use v.Hooks.Composition.{initial_composition, on_composition_start, compose_all, turns, sessions}
use v.Hooks.Composition.Guard.{sessions-guarded}
use v.Hooks.Input.{InputState}
use v.Hooks.Display.{
  light, is_dark, Browser, mount_theme, toggle_times, first_theme, toggle_times-remount,
}
use v.Cards.Approval.{initial_cards, decide, decision_timeout, is_disabled, decision_timeout-later}
use v.Cards.Inspector.{Form}
use v.Ui.Sidebar.{Provider, initial_provider}
use v.Legacy.Socket.{closes, fires, mount, socket_run, socket_run-bounded}
use v.Legacy.Chat.{LegacyChat, Clock}

abbrev app : AppState
app = initial_app none (some 900) none

moves-bounded_example :
    (lower chat_pane
      ≤ width_of chat_pane (moves (start_resize chat_pane 600 app) (610 ∷ 90 ∷ []) app))
    × (width_of chat_pane (moves (start_resize chat_pane 600 app) (610 ∷ 90 ∷ []) app)
        ≤ upper chat_pane)
moves-bounded_example = moves-bounded chat_pane 600 610 (90 ∷ []) app

sessions-guarded_example :
    (compose_all
      (turns 3)
      (on_composition_start (sessions ((2, 1) ∷ (0, 2) ∷ []) initial_composition))).composing
    ≡ true
sessions-guarded_example = sessions-guarded ((2, 1) ∷ (0, 2) ∷ []) 3

abbrev typing : InputState
typing = record {
  guard = on_composition_start initial_composition;
  dialog = record { composing = true; just_ended = false };
}

abbrev clean : Browser
clean = record { dark_class = false; stored_theme = none }

toggle_times-remount_example :
    ((toggle_times 3 true (mount_theme true light clean)).1.dark_class
      ≡ is_dark (toggle_times 3 true (mount_theme true light clean)).0)
    × (first_theme true light (toggle_times 3 true (mount_theme true light clean)).1
        ≡ (toggle_times 3 true (mount_theme true light clean)).0)
toggle_times-remount_example = toggle_times-remount 3 light light clean

decision_timeout-later_example :
    is_disabled "a2"
      (decision_timeout "a1" (decide "a2" false (decide "a1" true initial_cards).0).0)
    ≡ true
decision_timeout-later_example = decision_timeout-later "a1" "a2" true false initial_cards refl

abbrev typed : Form
typed = record {
  note_title = " Decision ";
  note_content = "Use events";
  task_title = "";
  task_description = "";
  submitting = false;
}

abbrev phone : Provider
phone = initial_provider true none false true

socket_run-bounded_example :
    length (socket_run (closes ∷ closes ∷ fires ∷ closes ∷ []) mount).waiting ≤ 1
socket_run-bounded_example = socket_run-bounded (closes ∷ closes ∷ fires ∷ closes ∷ [])

abbrev clock : Clock
clock = record { millis = "1"; iso = "now" }

abbrev first_chat : LegacyChat
first_chat = record {
  messages = [];
  plan = [];
  events = [];
  run_id = undefined;
  loading = true;
  failure = none;
  crashed = false;
}
