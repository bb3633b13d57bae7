-- ===== src/Desktop/Errors.antt =====
-- Calls of desktop/main.mjs that throw: what is left of the settings.
pub mod Calls
use v.Prelude.{
  String, Bool, true, false, ◌≡◌, refl, ap, ◌∙◌, if◌then◌else◌, ◌&&◌, ◌===◌, Option, none, some,
  ◌∷◌, ◌⊎◌, inl, inr, Option-cases, arith,
}
use v.Js.{Value, Fields, str, truthy, lookup_field, Thrown, strict_eq, spread_fields}
use v.Desktop.{
  Desktop, Outcome, returned, threw, Desk, ◌>>=◌, ◌>>◌, continue, give, fail, throw, read_state,
  write_state, patch_state, save, save_outcome, perform, check_encryption,
}
use v.Desktop.Outside.{
  Host, History, Secrets, sealed, missing, unreadable, corrupt, made_directory, Effect, saved,
}
use v.Desktop.Keeps.{Keeps, IsStable, read_state-Keeps}
use v.Desktop.Keeps.Leads.{At}

abbrev pub has_thrown {ℓ} : {A : Type ℓ} → Outcome A → Bool
has_thrown (returned a) = false
has_thrown (threw e) = true

module _ (host : Host) where
  -- The last thing that was asked of the host is a write of the settings, and it failed.
  pub data WriteFailed : Desktop → Type 0 where
    write_failed :
        {d : Desktop} (fs : Fields) (h : History) (e : Thrown)
        → d.history ≡ saved fs ∷ h
        → host.fails h (saved fs) ≡ some e
        → WriteFailed d

  -- From the settings `s`, a run that throws has the settings `s`, or throws as it writes them.
  pub record Atomic {ℓ} {A : Type ℓ} (s : Secrets) (m : Desk A) : Type 0 where
    pub undone :
        (d : Desktop)
        → At s d
        → has_thrown (m d).1 ≡ true
        → ((m d).0.secrets ≡ s) ⊎ WriteFailed (m d).0

module _ (host : Host) (s : Secrets) where
  continue-Atomic {ℓ κ} :
      {A : Type ℓ} {B : Type κ} (r : Desktop × Outcome A) (f : A → Desk B)
      → At s r.0
      → ((a : A) → Atomic host s (f a))
      → has_thrown (continue r f).1 ≡ true
      → ((continue r f).0.secrets ≡ s) ⊎ WriteFailed host (continue r f).0
  continue-Atomic (d, returned a) f p k h = (k a).undone d p h
  continue-Atomic (d, threw x) f p k h = inl p

  pub bind-Atomic {ℓ κ} :
      {A : Type ℓ} {B : Type κ} {m : Desk A} {f : A → Desk B}
      → Keeps (At s) m
      → ((a : A) → Atomic host s (f a))
      → Atomic host s (m >>= f)
  bind-Atomic {m} {f} km k = record { undone = λ d p h. continue-Atomic (m d) f (km.kept d p) k h }

  last-continue {ℓ κ} :
      {A : Type ℓ} {B : Type κ} (r : Desktop × Outcome A) (b : B)
      → (has_thrown r.1 ≡ true → (r.0.secrets ≡ s) ⊎ WriteFailed host r.0)
      → has_thrown (continue r λ _. give b).1 ≡ true
      → ((continue r λ _. give b).0.secrets ≡ s) ⊎ WriteFailed host (continue r λ _. give b).0
  last-continue (d, returned a) b k h = absurd cc
  last-continue (d, threw x) b k h = k refl

  -- What is returned after the last write does not throw.
  pub last-Atomic {ℓ κ} :
      {A : Type ℓ} {B : Type κ} {m : Desk A} (b : B)
      → Atomic host s m
      → Atomic host s (m >>= λ _. give b)
  last-Atomic {m} b am = record { undone = λ d p h. last-continue (m d) b (am.undone d p) h }

  pub unwritten-Atomic {ℓ} : {A : Type ℓ} {m : Desk A} → Keeps (At s) m → Atomic host s m
  unwritten-Atomic km = record { undone = λ d p h. inl (km.kept d p) }

  pub if-Atomic {ℓ} :
      {A : Type ℓ} (b : Bool) {m n : Desk A}
      → Atomic host s m
      → Atomic host s n
      → Atomic host s (if b then m else n)
  if-Atomic true am an = am
  if-Atomic false am an = an

  save-Atomic : (fs : Fields) → Atomic host s (save host fs)
  save-Atomic fs = record {
    undone = λ d p h. elim (Option-cases (host.fails d.history (saved fs))) [
      | inl k ↦ absurd (ground (arith, rw k at h))
      | inr k ↦ rw k.1 (inr (write_failed fs d.history k.0 refl k.1))
    ];
  }

  perform-At : (e : Effect) → Keeps (At s) (perform host e)
  perform-At e = record { kept = λ d p. p }

  check_encryption-At : Keeps (At s) (check_encryption host)
  check_encryption-At = record { kept = λ d p. p }

  write_state-Atomic : (fs : Fields) → Atomic host s (write_state host fs)
  unfolding write_state
  write_state-Atomic fs =
      bind-Atomic check_encryption-At λ _. bind-Atomic (perform-At _) λ _. save-Atomic fs

  pub patch_state-Atomic : (patch : Fields) → Atomic host s (patch_state host patch)
  unfolding patch_state
  patch_state-Atomic patch =
      bind-Atomic (read_state-Keeps (At s) host λ e d h p. p) λ state. write_state-Atomic _
