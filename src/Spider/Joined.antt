-- ===== src/Spider/Joined.antt =====
-- Files in one component of frontend/client/src/components/TaskGraph.tsx are joined by imports.
use v.Prelude.{
  ℕ, zero, suc, String, true, false, List, [], ◌∷◌, ◌++◌, map, some, ◌≡◌, refl, arith, Bool-cases,
  inl, inr, ◌⊎◌, All, All-append, Any, eq_iff, ◌===◌,
}
use mathlib.Core.Path.{subst}
use mathlib.Core.Option.{some-injective, none-ne-some}
use v.Spider.{Edge, has, add, neighbours, link, both_ways, add_edges, adjacency, search_from}
use v.Spider.Sets.{has-append}
use v.Spider.Search.{fresh, visit-eq-fresh}

-- One of the imports joins the two files, in either direction.
abbrev pub IsImport : List Edge → String → String → Type 0
IsImport edges p q =
    Any
      (λ e.
        ((p ≡ e.source_path) × (q ≡ e.target_path)) ⊎ ((p ≡ e.target_path) × (q ≡ e.source_path)))
      edges

-- A chain of imports, in either direction.
pub data Joined (edges : List Edge) : String → String → Type 0 where
  self : {p : String} → Joined edges p p
  step : {p q r : String} → Joined edges p q → IsImport edges q r → Joined edges p r

has-add_split :
    (y p : String) (xs : List String) → has y (add p xs) ≡ true → (has y xs ≡ true) ⊎ (y ≡ p)
unfolding add
has-add_split y p xs h = elim (Bool-cases (has p xs)) [
  | inl k ↦ inl (rw k at h)
  | inr k ↦ elim (Bool-cases (has y xs)) [
    | inl j ↦ inl j
    | inr j ↦ inr (ground (arith, rw k at h, has-append y xs (p ∷ []), eq_iff p y, j))
  ]
]

neighbours-link_split :
    (y p a b : String) (adj : List (String × List String))
    → has y (neighbours (link a b adj) p) ≡ true
    → (has y (neighbours adj p) ≡ true) ⊎ ((p ≡ a) × (y ≡ b))
unfolding neighbours link
neighbours-link_split y p a b [] h = inl h
neighbours-link_split y p a b ((q, ns) ∷ adj) h = elim (Bool-cases (q === a)) [
  | inl k ↦ elim (Bool-cases (q === p)) [
    | inl j ↦ elim (has-add_split y b ns (rw (k, j) at h)) [
      | inl there ↦ inl (rw j there)
      | inr new ↦ inr (ground (arith, eq_iff q a, eq_iff q p, k, j), new)
    ]
    | inr j ↦ inl (rw j (rw (k, j) at h))
  ]
  | inr k ↦ elim (Bool-cases (q === p)) [
    | inl j ↦ inl (rw j (rw (k, j) at h))
    | inr j ↦ elim (neighbours-link_split y p a b adj (rw (k, j) at h)) [
      | inl there ↦ inl (rw j there)
      | inr new ↦ inr new
    ]
  ]
]

add_edges-split :
    (y p : String) (es : List Edge) (adj : List (String × List String))
    → has y (neighbours (add_edges es adj) p) ≡ true
    → (has y (neighbours adj p) ≡ true) ⊎ IsImport es p y
unfolding add_edges
add_edges-split y p [] adj h = inl h
add_edges-split y p (e ∷ es) adj h = elim (add_edges-split y p es (both_ways e adj) h) [
  | inr i ↦ inr (inr i)
  | inl k ↦
      elim (neighbours-link_split y p e.target_path e.source_path
        (link e.source_path e.target_path adj) k) [
          | inr new ↦ inr (inl (inr new))
          | inl j ↦ elim (neighbours-link_split y p e.source_path e.target_path adj j) [
            | inr new ↦ inr (inl (inl new))
            | inl there ↦ inl there
          ]
        ]
]

neighbours-nodes :
    (y p : String) (paths : List String)
    → has y (neighbours (map (λ (q : String). (q, [])) paths) p) ≡ false
unfolding neighbours
neighbours-nodes y p [] = refl
neighbours-nodes y p (q ∷ paths) = elim (Bool-cases (q === p)) [
  | inl k ↦ rw k refl
  | inr k ↦ rw k (neighbours-nodes y p paths)
]

pub adjacency-IsImport :
    (paths : List String) (edges : List Edge) (p y : String)
    → has y (neighbours (adjacency paths edges) p) ≡ true
    → IsImport edges p y
unfolding adjacency
adjacency-IsImport paths edges p y h =
    elim (add_edges-split y p edges (map (λ q. (q, [])) paths) h) [
      | inl k ↦ absurd (ground (k, neighbours-nodes y p paths, arith))
      | inr i ↦ i
    ]

All-has :
    {P : String → Type 0} (xs : List String) → ((y : String) → has y xs ≡ true → P y) → All P xs
All-has [] k = tt
All-has (x ∷ xs) k = (k x (ground (arith, eq_iff x x)), All-has xs λ y h. k y (ground (arith, h)))

All-fresh : (P : String → Type 0) (ns v : List String) → All P ns → All P (fresh ns v)
unfolding fresh
All-fresh P [] v h = tt
All-fresh P (n ∷ ns) v h = elim (Bool-cases (has n v)) [
  | inl old ↦ rw old (All-fresh P ns v h.1)
  | inr new ↦ rw new (h.0, All-fresh P ns (v ++ n ∷ []) h.1)
]

-- What holds of the start and goes from a file to its neighbours holds of what a search finds.
module _ (adj : List (String × List String)) (P : String → Type 0)
    (spreads : (x y : String) → P x → has y (neighbours adj x) ≡ true → P y) where
  pub search_from-All :
      (fuel : ℕ) (queue component visited c v : List String)
      → All P queue
      → All P component
      → search_from fuel adj queue component visited ≡ some (c, v)
      → All P c
  unfolding search_from
  search_from-All zero queue component visited c v hq hc h = absurd (none-ne-some _ h)
  search_from-All (suc fuel) [] component visited c v hq hc h =
      subst (λ (r : List String × List String). All P r.0) (some-injective _ _ h) hc
  search_from-All (suc fuel) (current ∷ queue) component visited c v hq hc h =
      let ns = neighbours adj current in
      let new = fresh ns visited in
      search_from-All fuel (queue ++ new) (component ++ current ∷ []) (visited ++ new) c v
        (All-append P queue new hq.1
          (All-fresh P ns visited (All-has ns (λ y k. spreads current y hq.0 k))))
        (All-append P component (current ∷ []) hc (hq.0, tt))
        (rw (visit-eq-fresh ns queue visited) at h)
