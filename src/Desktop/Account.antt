-- ===== src/Desktop/Account.antt =====
-- What the renderer can rely on, without the files, processes and requests behind it: the account
-- that the settings of desktop/main.mjs hold, and the changes that each call may make to it.
use v.Prelude.{true, [], ◌∷◌, ◌≡◌}
use v.Js.{Value, Fields, null, truthy, lookup_field, spread_fields}
use v.Js.Laws.{lookup-assign}
use v.Desktop.{Desktop, object}
use v.Desktop.Outside.{Secrets, missing, unreadable, corrupt, sealed}
use v.Desktop.Calls.{
  Call, status, begin_authorization, claim_authorization, choose_workspace, clone_repository,
  install, pending_fields, claimed_fields,
}

pub record Account : Type 0 where
  pub token : Value
  pub user : Value
  pub pending : Value
  pub workspace : Value
  pub paired : Value

-- The settings that can be read.
abbrev pub contents : Secrets → Fields
contents missing = Fields.end
contents (unreadable e) = Fields.end
contents (corrupt e) = Fields.end
contents (sealed fs) = fs

unfoldable pub account_of : Fields → Account
account_of fs = record {
  token = lookup_field "sessionToken" fs;
  user = lookup_field "user" fs;
  pending = lookup_field "pendingAuthorization" fs;
  workspace = lookup_field "workspacePath" fs;
  paired = lookup_field "pairedWorkspacePath" fs;
}

abbrev pub account : Desktop → Account
account d = account_of (contents d.secrets)

abbrev pub with_pending : Value → Account → Account
with_pending p a = record {
  token = a.token;
  user = a.user;
  pending = p;
  workspace = a.workspace;
  paired = a.paired;
}

abbrev pub with_session : Value → Value → Account → Account
with_session t u a = record {
  token = t;
  user = u;
  pending = null;
  workspace = a.workspace;
  paired = a.paired;
}

abbrev pub with_workspace : Value → Account → Account
with_workspace w a = record {
  token = a.token;
  user = a.user;
  pending = a.pending;
  workspace = w;
  paired = a.paired;
}

abbrev pub with_paired : Value → Account → Account
with_paired w a = record {
  token = a.token;
  user = a.user;
  pending = a.pending;
  workspace = a.workspace;
  paired = w;
}

-- What a call may do to the account.
pub data Moves : Call → Account → Account → Type 0 where
  stays : {c : Call} {a : Account} → Moves c a a
  authorizes :
      {a : Account} (p : Value) → truthy p ≡ true → Moves begin_authorization a (with_pending p a)
  claims :
      {a : Account} (t u : Value)
      → truthy a.pending ≡ true
      → Moves claim_authorization a (with_session t u a)
  chooses :
      {a : Account} (w : Value) → truthy w ≡ true → Moves choose_workspace a (with_workspace w a)
  clones :
      {a : Account} {payload : Value} (w : Value)
      → truthy a.token ≡ true
      → truthy w ≡ true
      → Moves (clone_repository payload) a (with_workspace w a)
  pairs :
      {a : Account} {payload : Value}
      → truthy a.token ≡ true
      → truthy a.workspace ≡ true
      → Moves (install payload) a (with_paired a.workspace a)
  migrates : {a : Account} → truthy a.workspace ≡ true → Moves status a (with_paired a.workspace a)

pub account_of-pending :
    (fs : Fields) (payload : Value)
    → account_of (spread_fields fs (pending_fields payload))
      ≡ with_pending (lookup_field "pendingAuthorization" (pending_fields payload)) (account_of fs)
unfolding account_of spread_fields lookup_field
account_of-pending fs payload = simp lookup-assign

pub account_of-claimed :
    (fs : Fields) (payload : Value)
    → account_of (spread_fields fs (claimed_fields payload))
      ≡ with_session
          (lookup_field "sessionToken" (claimed_fields payload))
          (lookup_field "user" (claimed_fields payload))
          (account_of fs)
unfolding account_of spread_fields lookup_field
account_of-claimed fs payload = simp lookup-assign

pub account_of-workspace :
    (fs : Fields) (w source : Value)
    → account_of (spread_fields fs (object (("workspacePath", w) ∷ ("projectSource", source) ∷ [])))
      ≡ with_workspace w (account_of fs)
unfolding account_of spread_fields
account_of-workspace fs w source = simp lookup-assign

pub account_of-paired :
    (fs : Fields) (w : Value)
    → account_of (spread_fields fs (object (("pairedWorkspacePath", w) ∷ [])))
      ≡ with_paired w (account_of fs)
unfolding account_of spread_fields
account_of-paired fs w = simp lookup-assign

pub account_of-stamped :
    (fs : Fields) (w at : Value)
    → account_of (spread_fields fs (object (("pairedWorkspacePath", w) ∷ ("pairedAt", at) ∷ [])))
      ≡ with_paired w (account_of fs)
unfolding account_of spread_fields
account_of-stamped fs w at = simp lookup-assign

pub account_of-repaired :
    (fs : Fields) (at : Value)
    → account_of (spread_fields fs (object (("runtimeLastRepairAt", at) ∷ []))) ≡ account_of fs
unfolding account_of spread_fields
account_of-repaired fs at = simp lookup-assign
