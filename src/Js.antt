-- ===== src/Js.antt =====
-- The JavaScript values that the client gets from `JSON.parse`, and what its code asks of them:
-- truthiness, `===`, `typeof v === 'string'`, `Array.isArray`, property reads, spreads, templates.
-- Numbers are the naturals that the protocol sends (sequence numbers). Two arrays or objects are
-- never `===` here: the code compares parts of separately parsed messages only.
pub mod Laws
use v.Prelude.{
  ℕ, String, Bool, true, false, not, List, [], ◌∷◌, Option, none, some, if◌then◌else◌, ◌==◌, ◌===◌,
  ◌<>◌, show, leb, ◌&&◌,
}

mutual
  -- An object by its properties, in the order of their first writes.
  pub data Fields : Type 0 where
    end : Fields
    field : String → Value → Fields → Fields

  pub data Value : Type 0 where
    undefined : Value
    obj : Fields → Value
    arr : Items → Value
    bool : Bool → Value
    str : String → Value
    num : ℕ → Value
    null : Value

  -- The elements of an array.
  pub data Items : Type 0 where
    cons : Value → Items → Items
    nil : Items

unfoldable pub truthy : Value → Bool
truthy undefined = false
truthy null = false
truthy (bool b) = b
truthy (num n) = not (n == 0)
truthy (str s) = not (s === "")
truthy (arr xs) = true
truthy (obj fs) = true

bool_eq : Bool → Bool → Bool
bool_eq true b = b
bool_eq false b = not b

-- `a === b`
unfoldable pub strict_eq : Value → Value → Bool
unfolding bool_eq
strict_eq undefined undefined = true
strict_eq null null = true
strict_eq (bool a) (bool b) = bool_eq a b
strict_eq (num a) (num b) = a == b
strict_eq (str a) (str b) = a === b
strict_eq _ _ = false

-- `v === 'text'`
abbrev pub is_str : Value → String → Bool
is_str (str s) t = s === t
is_str _ t = false

-- The text, where `typeof v === 'string'`.
abbrev pub as_string : Value → Option String
as_string (str s) = some s
as_string _ = none

unfoldable pub lookup_field : String → Fields → Value
lookup_field k end = undefined
lookup_field k (field j v fs) = let rest = lookup_field k fs in if j === k then v else rest

-- A property write.
unfoldable pub assign : String → Value → Fields → Fields
assign k v end = field k v end
assign k v (field j w fs) =
    let rest = assign k v fs in if j === k then field k v fs else field j w rest

-- `{ ...base, ...extra }`: the properties of `extra` are written over `base` in their order.
unfoldable pub spread_fields : Fields → Fields → Fields
unfolding assign
spread_fields base end = base
spread_fields base (field k v fs) = spread_fields (assign k v base) fs

-- The own properties that a spread copies. Those of a text or an array are its numeric indices,
-- which nothing in the program reads.
abbrev pub fields_of : Value → Fields
fields_of (obj fs) = fs
fields_of _ = end

-- `v.k` for a `v` that is not `null` or `undefined`. No property of a primitive or an array is read
-- by the names that the program uses.
abbrev pub get : Value → String → Value
get (obj fs) k = lookup_field k fs
get _ k = undefined

abbrev pub is_nullish : Value → Bool
is_nullish undefined = true
is_nullish null = true
is_nullish _ = false

-- `a || b`
abbrev pub or_else : Value → Value → Value
or_else a b = if truthy a then a else b

-- The elements, where `Array.isArray(v)`.
abbrev pub items : Items → List Value
items nil = []
items (cons x xs) = x ∷ items xs

abbrev pub as_array : Value → Option (List Value)
as_array (arr xs) = some (items xs)
as_array _ = none

-- `null` and `undefined` are empty inside an array.
abbrev blank_if_nullish : Value → String → String
blank_if_nullish v s = if is_nullish v then "" else s

abbrev comma : Items → String → String
comma nil rest = ""
comma (cons _ _) rest = "," <> rest

-- `String(v)`, which templates apply.
unfoldable mutual
  pub to_string : Value → String
  to_string undefined = "undefined"
  to_string null = "null"
  to_string (bool true) = "true"
  to_string (bool false) = "false"
  to_string (num n) = show n
  to_string (str s) = s
  to_string (arr xs) = join_items xs
  to_string (obj fs) = "[object Object]"

  pub join_items : Items → String
  join_items nil = ""
  join_items (cons x xs) = blank_if_nullish x (to_string x) <> comma xs (join_items xs)

-- What a `throw` carries: an `Error` with its message, or anything else.
pub data Thrown : Type 0 where
  error : String → Thrown
  other : Thrown

-- `err instanceof Error ? err.message : fallback`
unfoldable pub message_of : Thrown → String → String
message_of (error m) fallback = m
message_of other fallback = fallback

-- What `await response.json()` gives.
pub data Body {ℓ} (A : Type ℓ) : Type ℓ where
  parsed : A → Body A
  unreadable : Thrown → Body A

-- The outcome of `await fetch(...)`.
pub data Fetched {ℓ} (A : Type ℓ) : Type ℓ where
  rejected : Thrown → Fetched A
  response : ℕ → Body A → Fetched A

-- `response.ok`
abbrev pub is_ok : ℕ → Bool
is_ok status = leb 200 status && leb status 299
