-- ===== src/Cards/Approval.antt =====
-- frontend/client/src/components/ApprovalCards.tsx
use v.Prelude.{
  String, Bool, true, false, List, [], ◌∷◌, Option, none, some, if◌then◌else◌, ◌===◌, ◌==◌, ◌<>◌,
  ◌≡◌, refl, arith, eq_iff,
}
use v.Js.{get, as_string}
use v.Types.Run.{ApprovalGrantScope, once, ApprovalRequest}
use Prim.Native.Char.{code}

-- `risk.replaceAll('_', ' ')`
unfoldable pub spaced : String → String
spaced String.[] = ""
spaced (String.◌∷◌ c s) =
    let rest = spaced s in if code c == 95 then " " <> rest else String.◌∷◌ c rest

pub record Described : Type 0 where
  pub tool : String
  pub risk : String

abbrev string_or : Option String → String → String
string_or none fallback = fallback
string_or (some s) fallback = s

abbrev risk_or : Option String → String
risk_or none = "protected action"
risk_or (some s) = spaced s

-- `describeScope`. The property `risk` of a tool call that is no object is undefined, as the source has it.
unfoldable pub describe_scope : ApprovalRequest → Described
unfolding spaced
describe_scope a = record {
  tool = string_or (as_string (get a.scope "tool")) a.action_type;
  risk = risk_or (as_string (get (get a.scope "tool_call") "risk"));
}

pub record CardsState : Type 0 where
  pub scopes : List (String × ApprovalGrantScope)
  pub deciding_id : Option String

unfoldable pub initial_cards : CardsState
initial_cards = record { scopes = []; deciding_id = none }

-- `scopes[id] || 'once'`
unfoldable pub scope_of : String → List (String × ApprovalGrantScope) → ApprovalGrantScope
scope_of id [] = once
scope_of id ((key, scope) ∷ scopes) =
    let rest = scope_of id scopes in if key === id then scope else rest

-- `{ ...current, [id]: scope }`
unfoldable pub set_scope :
    String
    → ApprovalGrantScope
    → List (String × ApprovalGrantScope)
    → List (String × ApprovalGrantScope)
set_scope id scope [] = (id, scope) ∷ []
set_scope id scope ((key, old) ∷ scopes) =
    let rest = set_scope id scope scopes in
    if key === id then (key, scope) ∷ scopes else (key, old) ∷ rest

unfoldable pub choose_scope : String → ApprovalGrantScope → CardsState → CardsState
unfolding set_scope
choose_scope id scope s = record s { scopes = set_scope id scope s.scopes }

-- The call of `onDecision`.
pub record Decision : Type 0 where
  pub approval_id : String
  pub approved : Bool
  pub grant_scope : ApprovalGrantScope

-- `decide`; `decision_timeout` runs 1.5 s later.
unfoldable pub decide : String → Bool → CardsState → CardsState × Decision
unfolding scope_of
decide id approved s = (
  record s { deciding_id = some id },
  record { approval_id = id; approved = approved; grant_scope = scope_of id s.scopes },
)

abbrev is_deciding : Option String → String → Bool
is_deciding none id = false
is_deciding (some current) id = current === id

unfoldable pub decision_timeout : String → CardsState → CardsState
decision_timeout id s = record s {
  deciding_id = if is_deciding s.deciding_id id then none else s.deciding_id;
}

-- Whether the controls of a card are disabled.
unfoldable pub is_disabled : String → CardsState → Bool
is_disabled id s = is_deciding s.deciding_id id

scope_of-set_scope :
    (id other : String) (scope : ApprovalGrantScope) (scopes : List (String × ApprovalGrantScope))
    → scope_of other (set_scope id scope scopes)
      ≡ (if id === other then scope else scope_of other scopes)
unfolding scope_of set_scope
scope_of-set_scope id other scope [] = refl
scope_of-set_scope id other scope ((key, old) ∷ scopes) = ground (
  arith,
  scope_of-set_scope id other scope scopes,
  eq_iff key id,
  eq_iff key other,
  eq_iff id other,
)

-- A decision on a card carries the scope chosen last for that card, and a choice on another card does
-- not change it.
decide-choose_scope :
    (id other : String) (scope : ApprovalGrantScope) (approved : Bool) (s : CardsState)
    → (decide other approved (choose_scope id scope s)).1.grant_scope
      ≡ (if id === other then scope else (decide other approved s).1.grant_scope)
unfolding decide choose_scope
decide-choose_scope id other scope approved s = scope_of-set_scope id other scope s.scopes

-- When one card is decided and then another, the timeout of the first decision leaves the second card
-- disabled.
pub decision_timeout-later :
    (earlier later : String) (approved again : Bool) (s : CardsState)
    → (earlier === later) ≡ false
    → is_disabled later
        (decision_timeout earlier (decide later again (decide earlier approved s).0).0)
      ≡ true
unfolding decide decision_timeout is_disabled
decision_timeout-later earlier later approved again s h =
    ground (arith, eq_iff later earlier, eq_iff earlier later, eq_iff later later)
