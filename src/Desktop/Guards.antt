-- ===== src/Desktop/Guards.antt =====
-- What holds of the settings of desktop/main.mjs after many calls.
use v.Prelude.{true, List, [], ◌∷◌, ◌≡◌, arith}
use v.Js.{truthy, lookup_field}
use v.Desktop.{Desktop, Outcome, threw}
use v.Desktop.Outside.{Host, Secrets, missing, corrupt, unreadable, sealed}
use v.Desktop.Calls.{Call, handle}
use v.Desktop.Account.{
  Account, contents, account, account_of, Moves, stays, authorizes, claims, chooses, clones, pairs,
  migrates,
}
use v.Desktop.Keeps.Leads.{Reaches, IsCut, reached, broken}
use v.Desktop.Refinement.{handle-Moves}

-- A workspace that is paired stands beside one that was chosen.
abbrev pub IsPlaced : Account → Type 0
IsPlaced a = truthy a.paired ≡ true → truthy a.workspace ≡ true

Moves-IsPlaced : {c : Call} {a b : Account} → Moves c a b → IsPlaced a → IsPlaced b
Moves-IsPlaced stays h = h
Moves-IsPlaced (authorizes p q) h = h
Moves-IsPlaced (claims t u q) h = h
Moves-IsPlaced (chooses w q) h = λ _. q
Moves-IsPlaced (clones w q r) h = λ _. r
Moves-IsPlaced (pairs q r) h = λ _. r
Moves-IsPlaced (migrates q) h = λ _. q

cut-IsPlaced : (s : Secrets) → IsCut s → IsPlaced (account_of (contents s))
unfolding account_of lookup_field truthy
cut-IsPlaced (corrupt e) k = λ h. absurd (ground (h, arith))
cut-IsPlaced missing k = elim k [ ]
cut-IsPlaced (unreadable e) k = elim k [ ]
cut-IsPlaced (sealed fs) k = elim k [ ]

-- Settings that were cut short hold no paired workspace.
Reaches-IsPlaced :
    {A : Type 0} {c : Call} {a : Account} (r : Desktop × Outcome A)
    → Reaches (λ d. Moves c a (account d)) r
    → IsPlaced a
    → IsPlaced (account r.0)
Reaches-IsPlaced (d, o) (reached m) h = Moves-IsPlaced m h
Reaches-IsPlaced (d, threw e) (broken k) h = cut-IsPlaced d.secrets k

-- The state after calls of the renderer, whether or not they throw.
unfoldable pub serve_calls : Host → List Call → Desktop → Desktop
serve_calls host [] d = d
serve_calls host (c ∷ calls) d = serve_calls host calls (handle host c d).0

serve_calls-IsPlaced :
    (host : Host) (calls : List Call) (d : Desktop)
    → IsPlaced (account d)
    → IsPlaced (account (serve_calls host calls d))
unfolding serve_calls
serve_calls-IsPlaced host [] d h = h
serve_calls-IsPlaced host (c ∷ calls) d h =
    serve_calls-IsPlaced host calls (handle host c d).0
      (Reaches-IsPlaced (handle host c d) (handle-Moves host c d) h)

-- From a first start, with no settings, whatever the renderer calls and the host answers, a paired
-- workspace is recorded only beside a chosen one, also where writes of the settings fail.
pub first_calls-IsPlaced :
    (host : Host) (calls : List Call) (d : Desktop)
    → d.secrets ≡ missing
    → truthy (account (serve_calls host calls d)).paired ≡ true
    → truthy (account (serve_calls host calls d)).workspace ≡ true
unfolding account_of lookup_field truthy
first_calls-IsPlaced host calls d e h =
    serve_calls-IsPlaced host calls d (rw e λ k. absurd (ground (k, arith))) h
