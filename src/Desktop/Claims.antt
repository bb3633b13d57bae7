-- ===== src/Desktop/Claims.antt =====
-- An authorization of desktop/main.mjs is claimed once.
use v.Prelude.{Bool, true, false, none, some, Option, ◌≡◌, refl, ap, ◌∙◌, if◌then◌else◌, String}
use v.Js.{Value, Fields, null, truthy, lookup_field, spread_fields, Thrown, error}
use v.Js.Laws.{lookup-assign}
use v.Desktop.{
  Desktop, Outcome, returned, threw, Desk, ◌>>=◌, continue, give, fail, read_state, read_secrets,
  write_state, patch_state, save, save_outcome,
}
use v.Desktop.Outside.{Host, History, sealed, saved}
use v.Desktop.Calls.{
  claim_authorization, handle, on_claim_authorization, claim, claimed_fields, no_pending,
}
use v.Desktop.Errors.{has_thrown}

-- A run that returns ends as stated.
pub record Ends {ℓ} {A : Type ℓ} (Q : Desktop → Type 0) (m : Desk A) : Type 0 where
  pub ended : (d : Desktop) → has_thrown (m d).1 ≡ false → Q (m d).0

module _ (Q : Desktop → Type 0) where
  continue-Ends {ℓ κ} :
      {A : Type ℓ} {B : Type κ} (r : Desktop × Outcome A) (f : A → Desk B)
      → ((a : A) → Ends Q (f a))
      → has_thrown (continue r f).1 ≡ false
      → Q (continue r f).0
  continue-Ends (d, returned a) f k h = (k a).ended d h
  continue-Ends (d, threw e) f k h = absurd cc

  pub bind-Ends {ℓ κ} :
      {A : Type ℓ} {B : Type κ} (m : Desk A) {f : A → Desk B}
      → ((a : A) → Ends Q (f a))
      → Ends Q (m >>= f)
  bind-Ends m {f} k = record { ended = λ d. continue-Ends (m d) f k }

  last-continue {ℓ κ} :
      {A : Type ℓ} {B : Type κ} (r : Desktop × Outcome A) (b : B)
      → (has_thrown r.1 ≡ false → Q r.0)
      → has_thrown (continue r λ _. give b).1 ≡ false
      → Q (continue r λ _. give b).0
  last-continue (d, returned a) b k h = k refl
  last-continue (d, threw e) b k h = absurd cc

  pub last-Ends {ℓ κ} :
      {A : Type ℓ} {B : Type κ} {m : Desk A} (b : B) → Ends Q m → Ends Q (m >>= λ _. give b)
  last-Ends {m} b em = record { ended = λ d h. last-continue (m d) b (em.ended d) h }

  guarded-Ends {ℓ} :
      {A : Type ℓ} (b : Bool) (text : String) {m : Desk A}
      → Ends Q m
      → Ends Q (if b then m else fail text)
  guarded-Ends true text em = em
  guarded-Ends false text em = record { ended = λ d h. absurd cc }

-- The settings are some others with a patch written over them.
abbrev pub Patched : Fields → Desktop → Type 0
Patched patch d = (fs : Fields) × (d.secrets ≡ sealed (spread_fields fs patch))

module _ (host : Host) where
  saved-Ends :
      (patch fs : Fields) (o : Option Thrown)
      → Ends (Patched patch) (save_outcome host o (spread_fields fs patch))
  saved-Ends patch fs none = record { ended = λ d h. (fs, refl) }
  saved-Ends patch fs (some e) = record { ended = λ d h. absurd cc }

  save-Ends : (patch fs : Fields) → Ends (Patched patch) (save host (spread_fields fs patch))
  save-Ends patch fs = record {
    ended =
        λ d. (saved-Ends patch fs (host.fails d.history (saved (spread_fields fs patch)))).ended d;
  }

  pub patch-Ends : (patch : Fields) → Ends (Patched patch) (patch_state host patch)
  unfolding patch_state write_state
  patch-Ends patch = let save_k = save-Ends patch in search (bind-Ends, save_k) depth 12

  -- The settings hold no pending authorization.
  abbrev IsCleared : Desktop → Type 0
  IsCleared d =
      (fs : Fields) × (d.secrets ≡ sealed fs) × (lookup_field "pendingAuthorization" fs ≡ null)

  cleared : (payload : Value) (d : Desktop) → Patched (claimed_fields payload) d → IsCleared d
  unfolding spread_fields
  cleared payload d p = (spread_fields p.0 (claimed_fields payload), p.1, simp lookup-assign)

  cleared-Ends : (payload : Value) → Ends IsCleared (patch_state host (claimed_fields payload))
  cleared-Ends payload = record {
    ended = λ d h.
        cleared payload (patch_state host (claimed_fields payload) d).0
          ((patch-Ends (claimed_fields payload)).ended d h);
  }

  claim-Ends : (pending : Value) → Ends IsCleared (claim host pending)
  claim-Ends pending = search (bind-Ends, last-Ends, cleared-Ends) depth 12

  on_claim-Ends : Ends IsCleared (on_claim_authorization host)
  unfolding on_claim_authorization
  on_claim-Ends =
      bind-Ends IsCleared (read_state host)
        λ state. guarded-Ends IsCleared _ no_pending (claim-Ends _)

pub read_state-sealed :
    (host : Host) (d : Desktop) (fs : Fields)
    → ((h : History) → host.can_encrypt h ≡ true)
    → d.secrets ≡ sealed fs
    → read_state host d ≡ (d, returned fs)
unfolding read_state
read_state-sealed host d fs enc e =
    ap (λ s. (d, read_secrets (host.can_encrypt d.history) s)) e ∙ rw (enc d.history) refl

claim-cleared :
    (host : Host) (d : Desktop)
    → ((h : History) → host.can_encrypt h ≡ true)
    → IsCleared host d
    → on_claim_authorization host d ≡ (d, threw (error no_pending))
unfolding on_claim_authorization truthy
claim-cleared host d enc c = rw (read_state-sealed host d c.0 enc c.1, c.2) refl

-- After a claim that returned there is nothing to claim: claiming again throws, sends no request and
-- changes nothing, on a host whose encryption works.
pub claim-once :
    (host : Host) (d : Desktop)
    → ((h : History) → host.can_encrypt h ≡ true)
    → has_thrown (handle host claim_authorization d).1 ≡ false
    → handle host claim_authorization (handle host claim_authorization d).0
      ≡ ((handle host claim_authorization d).0, threw (error no_pending))
unfolding handle
claim-once host d enc h =
    claim-cleared host (on_claim_authorization host d).0 enc ((on_claim-Ends host).ended d h)
