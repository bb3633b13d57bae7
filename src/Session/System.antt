-- ===== src/Session/System.antt =====
-- The hook over time: the actions of the user and of the environment (outcomes of requests, stream
-- deliveries), in any order, as a step function on the state with the send that waits.
use v.Prelude.{String, Bool, List, [], ◌∷◌, Option, none, some}
use v.Js.{Value, Fetched}
use v.Types.Run.{ApprovalMode}
use v.Session.{ChatState, Stamp, Stream, initial_chat}
use v.Session.Events.{on_timeline, on_stream_error}
use v.Session.Approvals.{refresh_approvals, begin_decision, finish_decision}
use v.Session.Send.{Pending, begin_send, finish_send}

pub record System : Type 0 where
  pub chat : ChatState
  pub pending : Option Pending

-- `polled` and `decided` may arrive late, so they name the run of their closure.
pub data Action : Type 0 where
  send : Stamp → String → Action
  answered : Stamp → Fetched Value → Action
  timeline : Stamp → Option Value → Action
  stream_error : Bool → Action
  polled : Value → Fetched Value → Action
  deciding : Value → Action
  decided : Fetched Value → Action
  choose_mode : ApprovalMode → Action

abbrev pub begun : System → Option (ChatState × Pending) → System
begun s none = s
begun s (some (chat, p)) = record { chat = chat; pending = some p }

-- Deliveries come only while a stream is open.
abbrev pub delivered : Stamp → Option Value → ChatState → Option Stream → ChatState
delivered t parsed chat none = chat
delivered t parsed chat (some st) = on_timeline t st.captured_run parsed chat

abbrev pub disconnected : Bool → ChatState → Option Stream → ChatState
disconnected closed chat none = chat
disconnected closed chat (some _) = on_stream_error closed chat

module _ (api type_error : String) where
  abbrev pub resumed : Stamp → Fetched Value → ChatState → Option Pending → System
  resumed t outcome chat none = record { chat = chat; pending = none }
  resumed t outcome chat (some p) = record {
    chat = finish_send api type_error t p outcome chat;
    pending = none;
  }

  unfoldable pub step : System → Action → System
  step s (send t text) = begun s (begin_send t text s.chat)
  step s (answered t outcome) = resumed t outcome s.chat s.pending
  step s (timeline t parsed) = record s { chat = delivered t parsed s.chat s.chat.stream }
  step s (stream_error closed) = record s { chat = disconnected closed s.chat s.chat.stream }
  step s (polled run outcome) = record s { chat = refresh_approvals type_error run outcome s.chat }
  step s (deciding run) = record s { chat = (begin_decision run s.chat).0 }
  step s (decided outcome) = record s { chat = (finish_decision outcome s.chat).0 }
  step s (choose_mode mode) =
      let c = s.chat in record s { chat = record c { approval_mode = mode } }

  unfoldable pub run_actions : System → List Action → System
  run_actions s [] = s
  run_actions s (a ∷ rest) = run_actions (step s a) rest

abbrev pub start : String → System
start iso = record { chat = initial_chat iso; pending = none }
