-- ===== src/Spider/Together.antt =====
-- Files that import each other stand in one component.
use v.Prelude.{
  ℕ, zero, suc, String, true, false, List, [], ◌∷◌, ◌++◌, some, ◌≡◌, refl, arith, sym, ◌∙◌, ap,
  Bool-cases, inl, inr, All, All-imp, All-append, Any, eq_iff, append_assoc, length, ◌===◌,
}
use mathlib.Core.Path.{subst}
use mathlib.Core.Option.{some-injective, none-ne-some}
use v.Spider.{Edge, has, neighbours, adjacency, search_from, components_from, components}
use v.Spider.Sets.{IsDistinct, has-append, append-IsDistinct}
use v.Spider.Search.{fresh, visit-eq-fresh, search_from-IsSearched}
use v.Spider.Cover.{concat, after_search-eq_some}
use v.Spider.Fuel.{AllIn, EdgesIn}
use v.Spider.Partition.{components_partition}
use v.Spider.Imports.{IsLinked, adjacency-IsLinked}

AllIn-more : (v more xs : List String) → AllIn v xs → AllIn (v ++ more) xs
AllIn-more v more xs h = All-imp (λ x k. ground (arith, has-append x v more)) xs h

fresh-old : (n : String) (ns v : List String) → has n v ≡ true → fresh ns v ≡ fresh (n ∷ ns) v
unfolding fresh
fresh-old n ns v old = rw old refl

fresh-new :
    (n : String) (ns v : List String)
    → has n v ≡ false
    → n ∷ fresh ns (v ++ n ∷ []) ≡ fresh (n ∷ ns) v
unfolding fresh
fresh-new n ns v new = rw new refl

-- A round leaves every neighbour visited.
fresh-AllIn : (ns v : List String) → AllIn (v ++ fresh ns v) ns
fresh-AllIn [] v = tt
fresh-AllIn (n ∷ ns) v = elim (Bool-cases (has n v)) [
  | inl old ↦
      subst (λ f. AllIn (v ++ f) (n ∷ ns)) (fresh-old n ns v old)
        (ground (arith, has-append n v (fresh ns v)), fresh-AllIn ns v)
  | inr new ↦
      subst (λ f. AllIn (v ++ f) (n ∷ ns)) (fresh-new n ns v new)
        (
          ground (arith, has-append n v (n ∷ fresh ns (v ++ n ∷ [])), eq_iff n n),
          subst (λ l. AllIn l ns) (append_assoc v (n ∷ []) (fresh ns (v ++ n ∷ [])))
              (fresh-AllIn ns (v ++ n ∷ [])),
        )
]

module _ (adj : List (String × List String)) where
  -- All neighbours of these files are visited.
  abbrev IsClosed : List String → List String → Type 0
  IsClosed v component = All (λ x. AllIn v (neighbours adj x)) component

  search_from-IsClosed :
      (fuel : ℕ) (queue component visited c v : List String)
      → IsClosed visited component
      → search_from fuel adj queue component visited ≡ some (c, v)
      → IsClosed v c
  unfolding search_from
  search_from-IsClosed zero queue component visited c v k h = absurd (none-ne-some _ h)
  search_from-IsClosed (suc fuel) [] component visited c v k h =
      let same : (component, visited) ≡ (c, v) = some-injective _ _ h in
      subst (λ (p : List String × List String). IsClosed p.1 p.0) same k
  search_from-IsClosed (suc fuel) (current ∷ queue) component visited c v k h =
      let ns = neighbours adj current in
      let new = fresh ns visited in
      search_from-IsClosed fuel (queue ++ new) (component ++ current ∷ []) (visited ++ new) c v
        (All-append (λ x. AllIn (visited ++ new) (neighbours adj x)) component (current ∷ [])
          (All-imp (λ x j. AllIn-more visited new (neighbours adj x) j) component k)
          (fresh-AllIn ns visited, tt))
        (rw (visit-eq-fresh ns queue visited) at h)

pub has-All :
    (P : String → Type 0) (xs : List String) (s : String) → All P xs → has s xs ≡ true → P s
has-All P [] s h k = absurd (ground (k, arith))
has-All P (x ∷ xs) s h k = elim (Bool-cases (x === s)) [
  | inl j ↦ subst P (ground (arith, eq_iff x s, j)) h.0
  | inr j ↦ has-All P xs s h.1 (ground (arith, j, k))
]

-- Both files stand in the group.
abbrev pub HoldsBoth : String → String → List String → Type 0
HoldsBoth s t g = (has s g ≡ true) × (has t g ≡ true)

module _ (adj : List (String × List String)) (s t : String)
    (forth : has t (neighbours adj s) ≡ true) (back : has s (neighbours adj t) ≡ true) where
  -- A component that holds one of the two holds the other, if it was not visited before.
  other-has :
      (a b : String) (base c v : List String)
      → v ≡ base ++ c
      → has b base ≡ false
      → has b (neighbours adj a) ≡ true
      → IsClosed adj v c
      → has a c ≡ true
      → has b c ≡ true
  other-has a b base c v e new n closed k =
      let all : AllIn v (neighbours adj a) =
        has-All (λ x. AllIn v (neighbours adj x)) c a closed k in
      let there : has b v ≡ true = has-All (λ x. has x v ≡ true) (neighbours adj a) b all n in
      ground (arith, has-append b base c, ap (has b) e, there, new)

  together :
      (fuel : ℕ) (paths visited : List String) (groups : List (List String))
      → IsDistinct visited
      → components_from fuel adj paths visited ≡ some groups
      → has s visited ≡ false
      → has t visited ≡ false
      → has s (concat groups) ≡ true
      → Any (HoldsBoth s t) groups
  unfolding components_from
  together fuel [] visited groups d h ns nt k =
      absurd (ground (k, ap (λ g. has s (concat g)) (some-injective _ _ h), arith))
  together fuel (path ∷ paths) visited groups d h ns nt k = elim (Bool-cases (has path visited)) [
    | inl old ↦ together fuel paths visited groups d (rw old at h) ns nt k
    | inr new ↦
        let (c, v, rest, found, later, split) =
          after_search-eq_some (search_from fuel adj (path ∷ []) [] (visited ++ path ∷ []))
            (components_from fuel adj paths) groups (rw new at h) in
        let q =
          search_from-IsSearched fuel adj visited (path ∷ []) [] (visited ++ path ∷ []) c v refl
            (append-IsDistinct visited path d new) found in
        let closed : IsClosed adj v c =
          search_from-IsClosed adj fuel (path ∷ []) [] (visited ++ path ∷ []) c v tt found in
        subst (Any (HoldsBoth s t)) (sym split) (elim (Bool-cases (has s c)) [
          | inl a ↦ inl (a, other-has s t visited c v q.exact nt forth closed a)
          | inr a ↦ elim (Bool-cases (has t c)) [
            | inl b ↦ absurd (ground (other-has t s visited c v q.exact ns back closed b, a, arith))
            | inr b ↦ inr (
                together fuel paths v rest q.distinct later
                  (ground (arith, has-append s visited c, ap (has s) q.exact))
                  (ground (arith, has-append t visited c, ap (has t) q.exact))
                  (ground (arith, has-append s c (concat rest), ap (λ g. has s (concat g)) split)))
          ]
        ])
  ]

module _ (paths : List String) (edges : List Edge) (groups : List (List String))
    (found : components paths edges ≡ some groups)
    (covers : All (λ p. has p (concat groups) ≡ true) paths) where
  each_together :
      (es : List Edge)
      → EdgesIn paths es
      → All (IsLinked (adjacency paths edges)) es
      → All (λ e. Any (HoldsBoth e.source_path e.target_path) groups) es
  unfolding components
  each_together [] h linked = tt
  each_together (e ∷ es) h linked = (
    together (adjacency paths edges) e.source_path e.target_path linked.0.0 linked.0.1
        (suc (length paths)) paths [] groups tt found refl refl
        (has-All (λ p. has p (concat groups) ≡ true) paths e.source_path covers h.0.0),
    each_together es h.1 linked.1,
  )

-- The two ends of every import stand in one component, when the imports join files of the list.
pub components-together :
    (paths : List String) (edges : List Edge) (groups : List (List String))
    → EdgesIn paths edges
    → components paths edges ≡ some groups
    → All (λ e. Any (HoldsBoth e.source_path e.target_path) groups) edges
components-together paths edges groups h found =
    let (groups', found', distinct, covers) = components_partition paths edges h in
    let same : groups' ≡ groups = some-injective _ _ (sym found' ∙ found) in
    each_together paths edges groups found
      (subst (λ g. All (λ p. has p (concat g) ≡ true) paths) same covers) edges h
      (adjacency-IsLinked paths edges h)
