-- ===== src/Legacy/Socket.antt =====
-- frontend/src/hooks/useWebSocket.ts: the socket, its callbacks, and the timer that reconnects.
use v.Prelude.{
  ℕ, suc, String, Bool, true, false, not, List, [], ◌∷◌, ◌++◌, Option, none, some, if◌then◌else◌,
  ◌==◌, ◌≡◌, refl, ◌<>◌, strip_slash, keep, length, ◌≤◌, arith,
}
use Prim.Native.Char.{code}
use v.Js.{Value, field, end, str, obj, arr}

-- An event as `normalizeEvent` makes it: a value of the engine.
unfoldable pub normalize_event : String → Value → Value
normalize_event now (str s) =
    obj (field "type" (str "system") (field "message" (str s) (field "timestamp" (str now) end)))
normalize_event now (obj fs) = obj fs
normalize_event now (arr xs) = arr xs
normalize_event now _ = obj (
    field "type" (str "system")
      (field "message" (str "Unknown event received") (field "timestamp" (str now) end)))

-- `apiUrl.replace(/^http/, 'ws')`
unfoldable pub ws_scheme : String → String
ws_scheme (String.◌∷◌ h (String.◌∷◌ t (String.◌∷◌ u (String.◌∷◌ p rest)))) =
    if code h == 104
    then (if code t == 116
        then (if code u == 116
            then (if code p == 112 then "ws" <> rest else whole h t u p rest)
            else whole h t u p rest)
        else whole h t u p rest)
    else whole h t u p rest
  where
    whole :
        Prim.Native.Char.Char
        → Prim.Native.Char.Char
        → Prim.Native.Char.Char
        → Prim.Native.Char.Char
        → String
        → String
    whole h t u p rest = String.◌∷◌ h (String.◌∷◌ t (String.◌∷◌ u (String.◌∷◌ p rest)))
ws_scheme s = s

unfoldable pub ws_url : String → String
unfolding ws_scheme
ws_url api_url = strip_slash (ws_scheme api_url) <> "/v1/ws"

-- The hook's state, the socket it holds, the reconnect timer it holds, the timers that wait, and the
-- events handed to the caller, latest first.
pub record Socket : Type 0 where
  pub connected : Bool
  pub last_event : Option Value
  pub error : Option String
  pub socket : Option ℕ
  pub reconnect : Option ℕ
  pub waiting : List ℕ
  pub fresh : ℕ
  pub handed : List Value

-- `connect`, which the mount and each timer call.
unfoldable pub connect : Socket → Socket
connect s = record s { socket = some s.fresh; fresh = suc s.fresh }

unfoldable pub mount : Socket
unfolding connect
mount = connect (record {
  connected = false;
  last_event = none;
  error = none;
  socket = none;
  reconnect = none;
  waiting = [];
  fresh = 1;
  handed = [];
})

-- What comes in: text that parses, or text that does not.
pub data Incoming : Type 0 where
  json : Value → Incoming
  plain_text : String → Incoming

unfoldable pub on_message : String → Incoming → Socket → Socket
unfolding normalize_event
on_message now (json v) s = record s {
  last_event = some (normalize_event now v);
  error = none;
  handed = normalize_event now v ∷ s.handed;
}
on_message now (plain_text t) s = record s {
  last_event = some (normalize_event now (str t));
  handed = normalize_event now (str t) ∷ s.handed;
}

-- `window.clearTimeout`
unfoldable pub drop_timer : Option ℕ → List ℕ → List ℕ
drop_timer none ws = ws
drop_timer (some id) ws = keep (λ w. not (w == id)) ws

unfoldable pub on_open : Socket → Socket
on_open s = record s { connected = true; last_event = none; error = none }

unfoldable pub on_error : Socket → Socket
on_error s = record s { connected = false; error = some "Transport unavailable" }

unfoldable pub on_close : Socket → Socket
unfolding drop_timer
on_close s = record s {
  connected = false;
  waiting = drop_timer s.reconnect s.waiting ++ s.fresh ∷ [];
  reconnect = some s.fresh;
  fresh = suc s.fresh;
}

abbrev fire : List ℕ → Socket → Socket
fire [] s = s
fire (_ ∷ ws) s = connect (record s { waiting = ws })

-- The timer that has waited longest runs.
unfoldable pub on_timer : Socket → Socket
unfolding connect
on_timer s = fire s.waiting s

-- The cleanup: the timer is cleared and the socket closed, whose own `onclose` still runs afterwards.
unfoldable pub unmount : Socket → Socket
unfolding drop_timer
unmount s = record s { waiting = drop_timer s.reconnect s.waiting }

pub data SocketEvent : Type 0 where
  opens fails closes fires : SocketEvent
  receives : String → Incoming → SocketEvent

unfoldable pub socket_step : SocketEvent → Socket → Socket
unfolding on_open on_error on_close on_timer on_message
socket_step opens s = on_open s
socket_step fails s = on_error s
socket_step closes s = on_close s
socket_step fires s = on_timer s
socket_step (receives now m) s = on_message now m s

unfoldable pub socket_run : List SocketEvent → Socket → Socket
unfolding socket_step
socket_run [] s = s
socket_run (e ∷ es) s = socket_run es (socket_step e s)

-- No timer waits, or exactly the one whose id the hook holds.
abbrev IsSingleFor : List ℕ → Option ℕ → Type 0
IsSingleFor [] r = Unit
IsSingleFor (w ∷ []) r = r ≡ some w
IsSingleFor (_ ∷ _ ∷ _) r = ⊥

drop_timer-single : (ws : List ℕ) (r : Option ℕ) → IsSingleFor ws r → drop_timer r ws ≡ []
unfolding drop_timer
drop_timer-single [] none h = refl
drop_timer-single [] (some id) h = refl
drop_timer-single (w ∷ []) r h = rw h (ground arith)
drop_timer-single (_ ∷ _ ∷ _) r h = absurd h

fire-single :
    (ws : List ℕ) (s : Socket)
    → IsSingleFor ws s.reconnect
    → s.waiting ≡ ws
    → IsSingleFor (fire ws s).waiting (fire ws s).reconnect
unfolding connect
fire-single [] s h e = rw e tt
fire-single (w ∷ []) s h e = tt
fire-single (_ ∷ _ ∷ _) s h e = absurd h

socket_step-single :
    (e : SocketEvent) (s : Socket)
    → IsSingleFor s.waiting s.reconnect
    → IsSingleFor (socket_step e s).waiting (socket_step e s).reconnect
unfolding socket_step on_open on_error on_close on_timer on_message
socket_step-single opens s h = h
socket_step-single fails s h = h
socket_step-single closes s h = rw (drop_timer-single s.waiting s.reconnect h) refl
socket_step-single fires s h = fire-single s.waiting s h refl
socket_step-single (receives now (json v)) s h = h
socket_step-single (receives now (plain_text t)) s h = h

socket_run-single :
    (es : List SocketEvent) (s : Socket)
    → IsSingleFor s.waiting s.reconnect
    → IsSingleFor (socket_run es s).waiting (socket_run es s).reconnect
unfolding socket_run
socket_run-single [] s h = h
socket_run-single (e ∷ es) s h = socket_run-single es (socket_step e s) (socket_step-single e s h)

single-bounded : (ws : List ℕ) (r : Option ℕ) → IsSingleFor ws r → length ws ≤ 1
single-bounded [] r h = omega arith
single-bounded (w ∷ []) r h = omega arith
single-bounded (_ ∷ _ ∷ _) r h = absurd h

-- Whatever the sockets do after the mount, at most one reconnection waits at any time.
pub socket_run-bounded : (es : List SocketEvent) → length (socket_run es mount).waiting ≤ 1
unfolding mount connect
socket_run-bounded es =
    single-bounded (socket_run es mount).waiting (socket_run es mount).reconnect
      (socket_run-single es mount tt)
