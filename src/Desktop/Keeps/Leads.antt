-- ===== src/Desktop/Keeps/Leads.antt =====
-- Rules for a function that reads the settings, asks, and writes the settings once.
use v.Prelude.{◌∷◌, Bool, true, false, Option, none, some, if◌then◌else◌, ◌≡◌, refl}
use v.Js.{Fields, Thrown, spread_fields}
use v.Desktop.{
  Desktop, Outcome, returned, threw, Desk, ◌>>=◌, continue, read_state, write_state, patch_state,
  read_secrets, Window, leave, save_outcome, save, perform, check_encryption,
}
use v.Desktop.Outside.{
  Host, History, Leftover, kept_old, cut_short, written_whole, Secrets, missing, unreadable,
  corrupt, sealed, saved, Effect,
}
use v.Desktop.Account.{contents}
use v.Desktop.Keeps.{Keeps}

-- The settings were cut short by a write that failed.
pub data IsCut : Secrets → Type 0 where
  cut : {e : Thrown} → IsCut (corrupt e)

-- A run that returns has reached `Q`; one that throws has reached `Q` or cut the settings short.
pub data Reaches {ℓ} {A : Type ℓ} (Q : Desktop → Type 0) : Desktop × Outcome A → Type ℓ where
  reached : {d : Desktop} {o : Outcome A} → Q d → Reaches Q (d, o)
  broken : {d : Desktop} {e : Thrown} → IsCut d.secrets → Reaches Q (d, threw e)

pub reach {ℓ} : {A : Type ℓ} {Q : Desktop → Type 0} (r : Desktop × Outcome A) → Q r.0 → Reaches Q r
reach (d, o) q = reached q

-- A run from a state with `P` reaches `Q`.
pub record Leads {ℓ} {A : Type ℓ} (P Q : Desktop → Type 0) (m : Desk A) : Type ℓ where
  pub led : (d : Desktop) → P d → Reaches Q (m d)

abbrev pub Good {ℓ} : {A : Type ℓ} → (A → Type 0) → Outcome A → Type 0
Good V (returned a) = V a
Good V (threw e) = Unit

-- What is returned, if anything, is as stated.
pub record Yields {ℓ} {A : Type ℓ} (V : A → Type 0) (m : Desk A) : Type 0 where
  pub yielded : (d : Desktop) → Good V (m d).1

pub bind-Yields {ℓ κ} :
    {A : Type ℓ} {B : Type κ} {V : B → Type 0} (m : Desk A) {f : A → Desk B}
    → ((a : A) → Yields V (f a))
    → Yields V (m >>= f)
bind-Yields {V} m {f} y = record { yielded = λ d. continued (m d) }
  where
    continued : (r : Desktop × Outcome _) → Good V (continue r f).1
    continued (d, returned a) = (y a).yielded d
    continued (d, threw e) = tt

module _ {P Q : Desktop → Type 0} where
  pub if-Leads {ℓ} :
      {A : Type ℓ} (b : Bool) {m n : Desk A}
      → (b ≡ true → Leads P Q m)
      → (b ≡ false → Leads P Q n)
      → Leads P Q (if b then m else n)
  if-Leads true lm ln = lm refl
  if-Leads false lm ln = ln refl

  pub skip-Leads {ℓ} :
      {A : Type ℓ} {m : Desk A} → ((d : Desktop) → P d → Q d) → Keeps P m → Leads P Q m
  skip-Leads {m} weaken km = record { led = λ d p. reach (m d) (weaken _ (km.kept d p)) }

  continue-Leads {ℓ κ} :
      {A : Type ℓ} {B : Type κ} {V : A → Type 0} (r : Desktop × Outcome A) (f : A → Desk B)
      → ((d : Desktop) → P d → Q d)
      → P r.0
      → Good V r.1
      → ((a : A) → V a → Leads P Q (f a))
      → Reaches Q (continue r f)
  continue-Leads (d, returned a) f weaken p v k = (k a v).led d p
  continue-Leads (d, threw e) f weaken p v k = reached (weaken d p)

  -- First what keeps the start, and returns what is stated, if anything.
  pub after-Leads {ℓ κ} :
      {A : Type ℓ} {B : Type κ} {V : A → Type 0} {m : Desk A} {f : A → Desk B}
      → ((d : Desktop) → P d → Q d)
      → Keeps P m
      → Yields V m
      → ((a : A) → V a → Leads P Q (f a))
      → Leads P Q (m >>= f)
  after-Leads {m} {f} weaken km ym k = record {
    led = λ d p. continue-Leads (m d) f weaken (km.kept d p) (ym.yielded d) k;
  }

  pub ask-Leads {ℓ κ} :
      {A : Type ℓ} {B : Type κ} {m : Desk A} {f : A → Desk B}
      → ((d : Desktop) → P d → Q d)
      → Keeps P m
      → ((a : A) → Leads P Q (f a))
      → Leads P Q (m >>= f)
  ask-Leads {m} {f} weaken km k = record { led = λ d p. continued (m d) (km.kept d p) }
    where
      continued : (r : Desktop × Outcome _) → P r.0 → Reaches Q (continue r f)
      continued (d, returned a) p = (k a).led d p
      continued (d, threw e) p = reached (weaken d p)

  -- Last what keeps the end.
  pub before-Leads {ℓ κ} :
      {A : Type ℓ} {B : Type κ} {m : Desk A} {f : A → Desk B}
      → Leads P Q m
      → ((a : A) → Keeps Q (f a))
      → Leads P Q (m >>= f)
  before-Leads {m} {f} lm k = record { led = λ d p. continued (m d) (lm.led d p) }
    where
      continued : (r : Desktop × Outcome _) → Reaches Q r → Reaches Q (continue r f)
      continued (d, returned a) (reached q) = reach (f a d) ((k a).kept d q)
      continued (d, threw e) (reached q) = reached q
      continued (d, threw e) (broken c) = broken c

-- The settings are these.
abbrev pub At : Secrets → Desktop → Type 0
At s d = d.secrets ≡ s

read-Yields :
    (s : Secrets) (available : Bool) → Good (λ fs. fs ≡ contents s) (read_secrets available s)
read-Yields missing available = refl
read-Yields (unreadable e) available = tt
read-Yields (corrupt e) true = tt
read-Yields (corrupt e) false = tt
read-Yields (sealed fs) true = refl
read-Yields (sealed fs) false = tt

module _ (host : Host) where
  -- A handler that starts by reading the settings goes on with those that can be read.
  pub read_state-Leads {ℓ} :
      {A : Type ℓ} {Q : Desktop → Type 0} (s : Secrets) (f : Fields → Desk A)
      → ((d : Desktop) → At s d → Q d)
      → Leads (At s) Q (f (contents s))
      → Leads (At s) Q (read_state host >>= f)
  unfolding read_state
  read_state-Leads {Q} s f weaken k = record {
    led = λ d p.
        continued (read_secrets (host.can_encrypt d.history) d.secrets) d p
          (rw p (read-Yields s (host.can_encrypt d.history)));
  }
    where
      continued :
          (o : Outcome Fields) (d : Desktop)
          → At s d
          → Good (λ fs. fs ≡ contents s) o
          → Reaches Q (continue (d, o) f)
      continued (returned fs) d p h = rw h (k.led d p)
      continued (threw e) d p h = reached (weaken d p)

  save_outcome-Leads :
      {Q : Desktop → Type 0} (s : Secrets) (fs : Fields) (o : Option Thrown)
      → ((d : Desktop) → At s d → Q d)
      → ((d : Desktop) → At (sealed fs) d → Q d)
      → Leads (At s) Q (save_outcome host o fs)
  save_outcome-Leads s fs none stay go = record { led = λ d p. reached (go _ refl) }
  save_outcome-Leads {Q} s fs (some e) stay go = record {
    led = λ d p. left (host.left_over d.history) d.session_ready d.window d.history d.secrets p;
  }
    where
      left :
          (l : Leftover) (ready : Bool) (w : Window) (h : History) (t : Secrets)
          → t ≡ s
          → Reaches {A = Unit {0}} Q (
            record {
              secrets = leave l fs t;
              session_ready = ready;
              window = w;
              history = saved fs ∷ h;
            },
            threw e,
          )
      left kept_old ready w h t p = reached (stay _ p)
      left (cut_short x) ready w h t p = broken cut
      left written_whole ready w h t p = reached (go _ refl)

  check_encryption-Keeps : (s : Secrets) → Keeps (At s) (check_encryption host)
  check_encryption-Keeps s = record { kept = λ d p. p }

  perform-At : (s : Secrets) (e : Effect) → Keeps (At s) (perform host e)
  perform-At s e = record { kept = λ d p. p }

  save-Leads :
      {Q : Desktop → Type 0} (s : Secrets) (fs : Fields)
      → ((d : Desktop) → At s d → Q d)
      → ((d : Desktop) → At (sealed fs) d → Q d)
      → Leads (At s) Q (save host fs)
  save-Leads s fs stay go = record {
    led = λ d p. (save_outcome-Leads s fs (host.fails d.history (saved fs)) stay go).led d p;
  }

  -- A patch is written over the settings that can be read, or they stay.
  pub patch_state-Leads :
      {Q : Desktop → Type 0} (s : Secrets) (patch : Fields)
      → ((d : Desktop) → At s d → Q d)
      → ((d : Desktop) → At (sealed (spread_fields (contents s) patch)) d → Q d)
      → Leads (At s) Q (patch_state host patch)
  unfolding patch_state write_state
  patch_state-Leads s patch stay go =
      let fs = spread_fields (contents s) patch in
      read_state-Leads s _ stay (
        ask-Leads stay (check_encryption-Keeps s)
          λ _. ask-Leads stay (perform-At s _) λ _. save-Leads s fs stay go)
