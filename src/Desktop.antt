-- ===== src/Desktop.antt =====
-- desktop/main.mjs: the desktop program's main process. Here: what surrounds it, its state, and the
-- way its asynchronous functions run. The children model its functions.
--
-- Electron, Node and the programs that it starts are the host, whose answers depend on everything
-- that was asked of it before. A function runs from its call to its end: other calls that are
-- served while it waits are not interleaved.
pub mod Outside
pub mod Paths
pub mod Commands
pub mod Cloud
pub mod Clone
pub mod Services
pub mod Setup
pub mod Pages
pub mod Status
pub mod Calls
pub mod Keeps
pub mod Account
pub mod Moves
pub mod Refinement
pub mod Guards
pub mod Errors
pub mod Adoption
pub mod Claims
pub mod Tidy
use v.Prelude.{
  ℕ, String, Bool, true, false, List, [], ◌∷◌, Option, none, some, if◌then◌else◌, ◌===◌,
}
use v.Js.{Value, Fields, obj, Thrown, error, other, Body, spread_fields}
use v.Desktop.Outside.{
  Command, History, Effect, Secrets, missing, unreadable, corrupt, sealed, Host, saved, looked,
  made_directory, Leftover, kept_old, cut_short, written_whole,
}

pub data Window : Type 0 where
  absent : Window
  shown : Window
  destroyed : Window

pub record Desktop : Type 0 where
  pub secrets : Secrets
  pub session_ready : Bool
  pub window : Window
  pub history : History

pub data Outcome {ℓ} (A : Type ℓ) : Type ℓ where
  returned : A → Outcome A
  threw : Thrown → Outcome A

abbrev pub Desk {ℓ} : Type ℓ → Type ℓ
Desk A = Desktop → Desktop × Outcome A

abbrev pub continue {ℓ κ} :
    {A : Type ℓ} {B : Type κ} → Desktop × Outcome A → (A → Desk B) → Desktop × Outcome B
continue (d, returned a) f = f a d
continue (d, threw e) f = (d, threw e)

infixl 5 ◌>>=◌ ◌>>◌
abbrev pub ◌>>=◌ {ℓ κ} : {A : Type ℓ} {B : Type κ} → Desk A → (A → Desk B) → Desk B
m >>= f = λ d. continue (m d) f

abbrev pub ◌>>◌ {ℓ κ} : {A : Type ℓ} {B : Type κ} → Desk A → Desk B → Desk B
m >> k = m >>= λ _. k

abbrev pub give {ℓ} : {A : Type ℓ} → A → Desk A
give a d = (d, returned a)

abbrev pub throw {ℓ} : {A : Type ℓ} → Thrown → Desk A
throw e d = (d, threw e)

abbrev pub fail {ℓ} : {A : Type ℓ} → String → Desk A
fail message = throw (error message)

-- `finally`: the clean-up runs after either outcome, and what it throws replaces that outcome.
abbrev pub finish {ℓ} : {A : Type ℓ} → Desktop × Outcome A → Desk (Unit {0}) → Desktop × Outcome A
finish (d, o) cleanup = continue (cleanup d) λ _. λ d'. (d', o)

abbrev pub finally {ℓ} : {A : Type ℓ} → Desk A → Desk (Unit {0}) → Desk A
finally m cleanup d = finish (m d) cleanup

abbrev pub log : Effect → Desktop → Desktop
log e d = record {
  secrets = d.secrets;
  session_ready = d.session_ready;
  window = d.window;
  history = e ∷ d.history;
}

-- The answer to a question, which is put on record.
abbrev pub ask {ℓ} : {A : Type ℓ} → Effect → (History → A) → Desk A
ask e answer d = (log e d, returned (answer d.history))

abbrev pub outcome_of : Option Thrown → Outcome (Unit {0})
outcome_of none = returned tt
outcome_of (some e) = threw e

abbrev pub settle {ℓ} : {A : Type ℓ} → Body A → Desk A
settle (Body.parsed a) = give a
settle (Body.unreadable e) = throw e

abbrev pub text_or : String → String → String
text_or a b = if a === "" then b else a

abbrev pub object : List (String × Value) → Fields
object [] = Fields.end
object (p ∷ rest) = Fields.field p.0 p.1 (object rest)

abbrev pub no_encryption : Thrown
no_encryption = error "Operating-system credential encryption is unavailable"

abbrev pub decrypt : Bool → Outcome Fields → Outcome Fields
decrypt available contents = if available then contents else threw no_encryption

-- The contents by name: a property that was saved as `undefined` is read as an absent one is.
abbrev pub read_secrets : Bool → Secrets → Outcome Fields
read_secrets available missing = returned Fields.end
read_secrets available (unreadable e) = threw e
read_secrets available (corrupt e) = decrypt available (threw e)
read_secrets available (sealed fs) = decrypt available (returned fs)

-- The settings that a failed write leaves; those of a file that is cut short cannot be read.
abbrev pub leave : Leftover → Fields → Secrets → Secrets
leave kept_old fs s = s
leave (cut_short e) fs s = corrupt e
leave written_whole fs s = sealed fs

module _ (host : Host) where
  -- An effect that may throw.
  abbrev pub perform : Effect → Desk (Unit {0})
  perform e d = (log e d, outcome_of (host.fails d.history e))

  abbrev pub exists_sync : String → Desk Bool
  exists_sync path = ask (looked path) λ h. host.exists h path

  -- `readState`
  unfoldable pub read_state : Desk Fields
  read_state d = (d, read_secrets (host.can_encrypt d.history) d.secrets)

  abbrev pub state_path : String
  state_path = host.join (host.user_data ∷ "desktop-secrets.bin" ∷ [])

  abbrev pub save_outcome : Option Thrown → Fields → Desk (Unit {0})
  save_outcome none fs d = (
    record {
      secrets = sealed fs;
      session_ready = d.session_ready;
      window = d.window;
      history = saved fs ∷ d.history;
    },
    returned tt,
  )
  save_outcome (some e) fs d = (
    record {
      secrets = leave (host.left_over d.history) fs d.secrets;
      session_ready = d.session_ready;
      window = d.window;
      history = saved fs ∷ d.history;
    },
    threw e,
  )

  abbrev pub save : Fields → Desk (Unit {0})
  save fs d = save_outcome (host.fails d.history (saved fs)) fs d

  abbrev pub check_encryption : Desk (Unit {0})
  check_encryption d =
      (d, (if host.can_encrypt d.history then returned tt else threw no_encryption))

  -- `writeState`
  unfoldable pub write_state : Fields → Desk (Unit {0})
  write_state fs = do check_encryption; perform (made_directory (host.dirname state_path)); save fs

  -- `patchState`
  unfoldable pub patch_state : Fields → Desk (Unit {0})
  unfolding read_state write_state
  patch_state patch = do state ← read_state; write_state (spread_fields state patch)
