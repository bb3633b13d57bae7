-- ===== src/Settings.antt =====
-- frontend/client/src/components/RuntimeSettings.tsx: the status of the agent and of the local services,
-- its refresh and the repair of a service. The desktop bridge is outside of the repository's web client:
-- its answers are arguments.
use v.Prelude.{
  ℕ, String, Bool, true, false, not, ◌||◌, List, [], ◌∷◌, ◌++◌, Option, none, some, if◌then◌else◌,
  ◌===◌, ◌==◌, ◌<>◌, show, ◌≡◌, refl,
}
use v.Js.{Fetched, rejected, response, Body, parsed, unreadable, Thrown, error, message_of, is_ok}

pub record LocalService : Type 0 where
  pub state : String
  pub detail : String

pub record RuntimeStatus : Type 0 where
  pub paired : Bool
  pub runtime : LocalService
  pub serena : LocalService
  pub graphiti : LocalService
  pub last_repair_at : Option String

pub record AgentStatus : Type 0 where
  pub configured : Bool
  pub state : String
  pub detail : String
  pub provider : String
  pub preferred_chat_model : String
  pub fallback_models : ℕ

pub record SettingsState : Type 0 where
  pub runtime : Option RuntimeStatus
  pub agent : Option AgentStatus
  pub notice : Option String
  pub working : Option String

unfoldable pub initial_settings : SettingsState
initial_settings = record { runtime = none; agent = none; notice = none; working = none }

-- One result of `Promise.allSettled`.
pub data Settled (A : Type 0) : Type 0 where
  fulfilled : A → Settled A
  failed : Thrown → Settled A

abbrev settle_body : Body AgentStatus → Settled AgentStatus
settle_body (parsed a) = fulfilled a
settle_body (unreadable e) = failed e

-- The agent's request with its `then`.
unfoldable pub agent_result : Fetched AgentStatus → Settled AgentStatus
agent_result (rejected e) = failed e
agent_result (response status body) =
    let settled = settle_body body in
    if status == 401
    then failed (error "Session expired. Reconnect GitHub from the desktop setup screen.")
    else if not (is_ok status)
    then failed (error "Could not read the Agent connection status.")
    else settled

-- `bridge?.runtimeStatus()`: without a bridge the value is undefined, and so is the runtime then.
unfoldable pub runtime_result : Option (Settled RuntimeStatus) → Settled (Option RuntimeStatus)
runtime_result none = fulfilled none
runtime_result (some (fulfilled r)) = fulfilled (some r)
runtime_result (some (failed e)) = failed e

abbrev value_or {ℓ} : {A : Type 0} {B : Type ℓ} → Settled A → (A → B) → B → B
value_or (fulfilled a) f old = f a
value_or (failed e) f old = old

abbrev reason : {A : Type 0} → Settled A → List String
reason (fulfilled a) = []
reason (failed e) = message_of e "Status refresh failed." ∷ []

abbrev first_of : List String → Option String
first_of [] = none
first_of (e ∷ _) = some e

-- `refresh`, with what the bridge and the server answer.
unfoldable pub refresh_settings :
    Option (Settled RuntimeStatus) → Fetched AgentStatus → SettingsState → SettingsState
unfolding runtime_result agent_result
refresh_settings bridge fetched s =
    let r = runtime_result bridge in
    let a = agent_result fetched in
    record {
      runtime = value_or r (λ v. v) s.runtime;
      agent = value_or a some s.agent;
      notice = first_of (reason r ++ reason a);
      working = s.working;
    }

pub data RepairTarget : Type 0 where
  all_services serena_service graphiti_service runtime_service : RepairTarget

abbrev target_name : RepairTarget → String
target_name all_services = "all"
target_name serena_service = "serena"
target_name graphiti_service = "graphiti"
target_name runtime_service = "runtime"

-- `repair` up to its request; whether there is a bridge to ask.
unfoldable pub begin_repair : Bool → RepairTarget → SettingsState → SettingsState
begin_repair bridge target s =
    if bridge then record s { working = some (target_name target); notice = none } else record s {
      notice = some "Local runtime controls are available in the Agent Room desktop application.";
    }

-- `repair` after the bridge's answer, with its `finally`.
unfoldable pub end_repair : Settled RuntimeStatus → SettingsState → SettingsState
end_repair (fulfilled r) s = record s { runtime = some r; working = none }
end_repair (failed e) s = record s {
  notice = some (message_of e "Local runtime repair failed.");
  working = none;
}

-- The card of the agent.
abbrev agent_card : AgentStatus → LocalService
agent_card a = record {
  state = a.state;
  detail =
      if a.state === "ready"
      then a.detail
        <> " Chat prefers "
        <> a.preferred_chat_model
        <> " with "
        <> show a.fallback_models
        <> " fallback model"
        <> (if a.fallback_models == 1 then "" else "s")
        <> "."
      else a.detail;
}

unfoldable pub agent_service : Option AgentStatus → Option LocalService
agent_service none = none
agent_service (some a) = some (agent_card a)

pub data Dot : Type 0 where
  green yellow red : Dot

-- `StatusDot`
unfoldable pub status_dot : String → Dot
status_dot state =
    if state === "ready"
    then green
    else if state === "stopped" || state === "installed"
    then yellow
    else red

abbrev works_on : Option String → String → Bool
works_on none name = false
works_on (some w) name = w === name || w === "all"

abbrev is_paired : Option RuntimeStatus → Bool
is_paired none = false
is_paired (some r) = r.paired

-- Whether the card of a local service has its button, and whether the button is pressed in.
unfoldable pub card_action : RepairTarget → SettingsState → Bool × Bool
card_action runtime_service s = (is_paired s.runtime, works_on s.working "runtime")
card_action serena_service s = (true, works_on s.working "serena")
card_action graphiti_service s = (true, works_on s.working "graphiti")
card_action all_services s = (false, false)

-- The agent that a refresh shows does not depend on the bridge, nor do the local services on the
-- server: neither request can spoil the other, whatever they answer.
refresh_settings-independent :
    (bridge bridge' : Option (Settled RuntimeStatus)) (fetched fetched' : Fetched AgentStatus)
    (s : SettingsState)
    → ((refresh_settings bridge fetched s).agent ≡ (refresh_settings bridge' fetched s).agent)
      × ((refresh_settings bridge fetched s).runtime ≡ (refresh_settings bridge fetched' s).runtime)
unfolding refresh_settings
refresh_settings-independent bridge bridge' fetched fetched' s = (refl, refl)
