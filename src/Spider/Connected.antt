-- ===== src/Spider/Connected.antt =====
-- The components of frontend/client/src/components/TaskGraph.tsx are those of the imports.
use v.Prelude.{
  ℕ, suc, String, true, false, List, [], ◌∷◌, ◌++◌, some, ◌≡◌, arith, sym, ◌∙◌, Bool-cases, inl,
  inr, ◌↔◌, All, Any, length, eq_iff,
}
use mathlib.Core.Path.{subst}
use mathlib.Core.Option.{some-injective}
use v.Spider.{Edge, has, adjacency, search_from, components_from, components}
use v.Spider.Sets.{IsDistinct, has-append}
use v.Spider.Cover.{concat, after_search-eq_some}
use v.Spider.Fuel.{EdgesIn}
use v.Spider.Partition.{components_partition}
use v.Spider.Together.{HoldsBoth, components-together, has-All}
use v.Spider.Joined.{IsImport, Joined, self, step, adjacency-IsImport, search_from-All}

module _ (edges : List Edge) where
  IsImport-swap : (es : List Edge) (p q : String) → IsImport es p q → IsImport es q p
  IsImport-swap [] p q i = elim i [ ]
  IsImport-swap (e ∷ es) p q (inl (inl (a, b))) = inl (inr (b, a))
  IsImport-swap (e ∷ es) p q (inl (inr (a, b))) = inl (inl (b, a))
  IsImport-swap (e ∷ es) p q (inr i) = inr (IsImport-swap es p q i)

  Joined-trans : {p q r : String} → Joined edges p q → Joined edges q r → Joined edges p r
  Joined-trans j self = j
  Joined-trans j (step k i) = step (Joined-trans j k) i

  Joined-sym : {p q : String} → Joined edges p q → Joined edges q p
  Joined-sym self = self
  Joined-sym (step {q} {r} k i) =
      Joined-trans (step self (IsImport-swap edges q r i)) (Joined-sym k)

  -- All files of the group are joined to one.
  abbrev IsJoined : List String → Type 0
  IsJoined g = (first : String) × All (Joined edges first) g

  components_from-IsJoined :
      (paths : List String) (fuel : ℕ) (todo visited : List String) (groups : List (List String))
      → components_from fuel (adjacency paths edges) todo visited ≡ some groups
      → All IsJoined groups
  unfolding components_from
  components_from-IsJoined paths fuel [] visited groups h =
      subst (All IsJoined) (some-injective _ _ h) tt
  components_from-IsJoined paths fuel (path ∷ todo) visited groups h =
      elim (Bool-cases (has path visited)) [
        | inl old ↦ components_from-IsJoined paths fuel todo visited groups (rw old at h)
        | inr new ↦
            let adj = adjacency paths edges in
            let (c, v, rest, found, later, split) =
              after_search-eq_some (search_from fuel adj (path ∷ []) [] (visited ++ path ∷ []))
                (components_from fuel adj todo) groups (rw new at h) in
            let joined =
              search_from-All adj (Joined edges path)
                (λ x y j k. step j (adjacency-IsImport paths edges x y k)) fuel (path ∷ []) []
                (visited ++ path ∷ []) c v (self, tt) tt found in
            subst (All IsJoined) (sym split)
              ((path, joined), components_from-IsJoined paths fuel todo v rest later)
      ]

  held_joined :
      (groups : List (List String)) (p q : String)
      → All IsJoined groups
      → Any (HoldsBoth p q) groups
      → Joined edges p q
  held_joined [] p q h i = elim i [ ]
  held_joined (g ∷ groups) p q h (inl (a, b)) =
      let first = h.0.0 in
      Joined-trans (Joined-sym (has-All (Joined edges first) g p h.0.1 a))
        (has-All (Joined edges first) g q h.0.1 b)
  held_joined (g ∷ groups) p q h (inr i) = held_joined groups p q h.1 i

IsDistinct-apart :
    (xs ys : List String) (q : String) → IsDistinct (xs ++ ys) → has q xs ≡ true → has q ys ≡ false
IsDistinct-apart [] ys q d h = absurd (ground (h, arith))
IsDistinct-apart (x ∷ xs) ys q d h = elim (Bool-cases (has q xs)) [
  | inl k ↦ IsDistinct-apart xs ys q d.1 k
  | inr k ↦
      let same : x ≡ q = ground (arith, h, k, eq_iff x q) in
      subst (λ z. has z ys ≡ false) same (ground (arith, d.0, has-append x xs ys))
]

IsDistinct-rest : (xs ys : List String) → IsDistinct (xs ++ ys) → IsDistinct ys
IsDistinct-rest [] ys d = d
IsDistinct-rest (x ∷ xs) ys d = IsDistinct-rest xs ys d.1

held_in :
    (groups : List (List String)) (p q : String)
    → Any (HoldsBoth p q) groups
    → (has p (concat groups) ≡ true) × (has q (concat groups) ≡ true)
held_in [] p q i = elim i [ ]
held_in (g ∷ groups) p q (inl (a, b)) =
    (ground (arith, has-append p g (concat groups)), ground (arith, has-append q g (concat groups)))
held_in (g ∷ groups) p q (inr i) =
    let k = held_in groups p q i in
    (
      ground (arith, k.0, has-append p g (concat groups)),
      ground (arith, k.1, has-append q g (concat groups)),
    )

held_once :
    (groups : List (List String)) (p q r : String)
    → IsDistinct (concat groups)
    → Any (HoldsBoth p q) groups
    → Any (HoldsBoth q r) groups
    → Any (HoldsBoth p r) groups
held_once [] p q r d i j = elim i [ ]
held_once (g ∷ groups) p q r d (inl a) (inl b) = inl (a.0, b.1)
held_once (g ∷ groups) p q r d (inl a) (inr b) =
    absurd (ground (arith, IsDistinct-apart g (concat groups) q d a.1, (held_in groups q r b).0))
held_once (g ∷ groups) p q r d (inr a) (inl b) =
    absurd (ground (arith, IsDistinct-apart g (concat groups) q d b.0, (held_in groups p q a).1))
held_once (g ∷ groups) p q r d (inr a) (inr b) =
    inr (held_once groups p q r (IsDistinct-rest g (concat groups) d) a b)

held_self :
    (groups : List (List String)) (p : String)
    → has p (concat groups) ≡ true
    → Any (HoldsBoth p p) groups
held_self [] p h = absurd (ground (h, arith))
held_self (g ∷ groups) p h = elim (Bool-cases (has p g)) [
  | inl k ↦ inl (k, k)
  | inr k ↦ inr (held_self groups p (ground (arith, h, k, has-append p g (concat groups))))
]

held_swap :
    (groups : List (List String)) (p q : String)
    → Any (HoldsBoth p q) groups
    → Any (HoldsBoth q p) groups
held_swap [] p q i = elim i [ ]
held_swap (g ∷ groups) p q (inl (a, b)) = inl (b, a)
held_swap (g ∷ groups) p q (inr i) = inr (held_swap groups p q i)

import_held :
    (es : List Edge) (groups : List (List String)) (p q : String)
    → All (λ e. Any (HoldsBoth e.source_path e.target_path) groups) es
    → IsImport es p q
    → Any (HoldsBoth p q) groups
import_held [] groups p q h i = elim i [ ]
import_held (e ∷ es) groups p q h (inl (inl (a, b))) = rw (a, b) h.0
import_held (e ∷ es) groups p q h (inl (inr (a, b))) =
    rw (a, b) (held_swap groups e.source_path e.target_path h.0)
import_held (e ∷ es) groups p q h (inr i) = import_held es groups p q h.1 i

joined_held :
    (edges : List Edge) (groups : List (List String)) (p q : String)
    → IsDistinct (concat groups)
    → All (λ e. Any (HoldsBoth e.source_path e.target_path) groups) edges
    → has p (concat groups) ≡ true
    → Joined edges p q
    → Any (HoldsBoth p q) groups
joined_held edges groups p q d h k self = held_self groups p k
joined_held edges groups p q d h k (step {q = m} j i) =
    held_once groups p m q d (joined_held edges groups p m d h k j)
      (import_held edges groups m q h i)

-- The search computes the components of the import graph: when the imports join files of the list,
-- a file of the list stands in one group with another exactly when a chain of imports, each in
-- either direction, joins the two.
pub components_iff :
    (paths : List String) (edges : List Edge) (groups : List (List String)) (p q : String)
    → EdgesIn paths edges
    → components paths edges ≡ some groups
    → has p paths ≡ true
    → Any (HoldsBoth p q) groups ↔ Joined edges p q
unfolding components
components_iff paths edges groups p q h found there =
    let (groups', found', distinct', covers') = components_partition paths edges h in
    let same : groups' ≡ groups = some-injective _ _ (sym found' ∙ found) in
    let distinct = subst (λ g. IsDistinct (concat g)) same distinct' in
    let covers = subst (λ g. All (λ x. has x (concat g) ≡ true) paths) same covers' in
    let held = has-All (λ x. has x (concat groups) ≡ true) paths p covers there in
    (
      held_joined edges groups p q
          (components_from-IsJoined edges paths (suc (length paths)) paths [] groups found),
      joined_held edges groups p q distinct (components-together paths edges groups h found) held,
    )
