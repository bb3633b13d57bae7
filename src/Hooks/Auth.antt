-- ===== src/Hooks/Auth.antt =====
-- frontend/client/src/hooks/useAuth.ts: the session shown in the header.
use v.Prelude.{
  Bool-cases, inl, inr, arith, String, Bool, true, false, Option, none, some, if◌then◌else◌, ◌≡◌,
  refl, ◌<>◌, strip_slash,
}
use v.Js.{Fetched, rejected, response, Body, parsed, unreadable, Thrown, error, is_ok}
use v.Types.Device.{AuthStatus}

pub record AuthState : Type 0 where
  pub status : Option AuthStatus
  pub loading : Bool

unfoldable pub initial_auth : AuthState
initial_auth = record { status = none; loading = true }

abbrev read_status : Body AuthStatus → AuthState → AuthState × Option Thrown
read_status (parsed a) s = (record { status = some a; loading = false }, none)
read_status (unreadable e) s = (record { status = s.status; loading = false }, some e)

-- `refresh`: the state after it, and what it throws, after the `finally`.
unfoldable pub refresh_auth : Fetched AuthStatus → AuthState → AuthState × Option Thrown
refresh_auth (rejected e) s = (record { status = s.status; loading = false }, some e)
refresh_auth (response code body) s =
    let read = read_status body s in
    if is_ok code then read else (
      record { status = s.status; loading = false },
      some (error "Could not load authentication status"),
    )

-- `logout`: the request must be answered, whatever its status, for the refresh to run.
unfoldable pub logout :
    {A : Type 0} → Fetched A → Fetched AuthStatus → AuthState → AuthState × Option Thrown
unfolding refresh_auth
logout (rejected e) refreshed s = (s, some e)
logout (response code body) refreshed s = refresh_auth refreshed s

-- The address that `login` goes to.
unfoldable pub login_url : String → String
login_url api_url = strip_slash api_url <> "/v1/auth/github/login"

-- A refresh that throws ends the loading and keeps the session that was shown.
refresh_auth-throws :
    (r : Fetched AuthStatus) (s : AuthState) (e : Thrown)
    → (refresh_auth r s).1 ≡ some e
    → ((refresh_auth r s).0.loading ≡ false) × ((refresh_auth r s).0.status ≡ s.status)
unfolding refresh_auth
refresh_auth-throws (rejected x) s e h = (refl, refl)
refresh_auth-throws (response code (parsed a)) s e h = elim (Bool-cases (is_ok code)) [
  | inl k ↦ absurd (ground (arith, h, k))
  | inr k ↦ rw k (refl, refl)
]
refresh_auth-throws (response code (unreadable x)) s e h = elim (Bool-cases (is_ok code)) [
  | inl k ↦ rw k (refl, refl)
  | inr k ↦ rw k (refl, refl)
]
