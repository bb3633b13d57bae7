-- ===== src/Spider/Placed.antt =====
-- frontend/client/src/components/TaskGraph.tsx: `fileSpiderPositions` as a whole. The map it returns
-- has a place for every file, so `positions.get(file.path)!` of the canvas finds one.
use v.Prelude.{
  ℕ, suc, String, Bool, true, false, ◌||◌, List, [], ◌∷◌, ◌++◌, map, map_index, some, keep, some_of,
  length, ◌≡◌, ◌∙◌, ap, refl, arith, All, All-imp, Bool-cases, inl, inr, ◌===◌, eq_iff,
}
use v.Spider.{Edge, has, adjacency}
use v.Spider.Sets.{has-append}
use v.Spider.Cover.{concat}
use v.Spider.Fuel.{EdgesIn}
use v.Spider.Partition.{components_partition}
use v.Spider.Places.{
  Geometry, insert_by, sort_by, path_le, component_le, around, component_places, components_places,
  isolated_places, is_large, isolated_of, first_path, put, put_all, places_of, placed,
  file_spider_positions,
}

-- The files that have a place.
abbrev pub keys {ℓ} : {P : Type ℓ} → List (String × P) → List String
keys m = map (λ e. e.0) m

module _ {ℓ} {A : Type ℓ} (p : A → Bool) (le : A → A → Bool) where
  some_of-insert_by : (x : A) (xs : List A) → some_of p (insert_by le x xs) ≡ (p x || some_of p xs)
  unfolding insert_by
  some_of-insert_by x [] = refl
  some_of-insert_by x (y ∷ ys) = ground (arith, some_of-insert_by x ys)

  -- Sorting keeps what a list holds.
  some_of-sort_by : (xs : List A) → some_of p (sort_by le xs) ≡ some_of p xs
  unfolding sort_by
  some_of-sort_by [] = refl
  some_of-sort_by (x ∷ xs) = ground (arith, some_of-insert_by x (sort_by le xs), some_of-sort_by xs)

has-put {ℓ} :
    {P : Type ℓ} (p path : String) (place : P) (m : List (String × P))
    → has p (keys (put path place m)) ≡ (path === p || has p (keys m))
unfolding put
has-put p path place [] = refl
has-put p path place ((q, old) ∷ m) = elim (Bool-cases (q === path)) [
  | inl k ↦ rw k (ground (arith, eq_iff q path, eq_iff q p, eq_iff path p, k))
  | inr k ↦ rw k (ground (arith, has-put p path place m))
]

has-put_all {ℓ} :
    {P : Type ℓ} (p : String) (more m : List (String × P))
    → has p (keys (put_all more m)) ≡ (has p (keys more) || has p (keys m))
unfolding put_all
has-put_all p [] m = refl
has-put_all p ((path, place) ∷ more) m =
    ground (arith, has-put_all p more (put path place m), has-put p path place m)

has-map_index {ℓ} :
    {P : Type ℓ} (p : String) (f : ℕ → String → P) (i : ℕ) (xs : List String)
    → has p (keys (map_index (λ j path. (path, f j path)) i xs)) ≡ has p xs
has-map_index p f i [] = refl
has-map_index p f i (x ∷ xs) = ground (arith, has-map_index p f (suc i) xs)

has-keys_append {ℓ} :
    {P : Type ℓ} (p : String) (xs ys : List (String × P))
    → has p (keys (xs ++ ys)) ≡ (has p (keys xs) || has p (keys ys))
has-keys_append p [] ys = refl
has-keys_append p (x ∷ xs) ys = ground (arith, has-keys_append p xs ys)

module _ (g : Geometry) (p : String) where
  has-around :
      (index : ℕ) (component : List String)
      → has p (keys (around g index component)) ≡ has p component
  has-around index [] = refl
  has-around index (hub ∷ rest) = ap (λ b. hub === p || b) (has-map_index p _ 0 rest)

  has-component_places :
      (adj : List (String × List String)) (index : ℕ) (component : List String)
      → has p (keys (component_places g adj index component)) ≡ has p component
  unfolding component_places
  has-component_places adj index component =
      has-around index (sort_by (path_le g adj) component)
      ∙ some_of-sort_by (λ q. q === p) (path_le g adj) component

  has-components_places :
      (adj : List (String × List String)) (index : ℕ) (groups : List (List String))
      → has p (keys (components_places g adj index groups)) ≡ some_of (has p) groups
  unfolding components_places
  has-components_places adj index [] = refl
  has-components_places adj index (c ∷ cs) = ground (
    arith,
    has-keys_append p (component_places g adj index c) (components_places g adj (suc index) cs),
    has-component_places adj index c,
    has-components_places adj (suc index) cs,
  )

  has-isolated_places :
      (isolated : List String) (count : ℕ)
      → has p (keys (isolated_places g isolated count)) ≡ has p isolated
  unfolding isolated_places
  has-isolated_places isolated count = has-map_index p _ 0 isolated

has-small :
    (p : String) (component : List String)
    → is_large component ≡ false
    → has p component ≡ true
    → (first_path component === p) ≡ true
has-small p [] k h = ground arith
has-small p (x ∷ []) k h = ground arith
has-small p (x ∷ y ∷ zs) k h = ground arith

-- A file of the components is in a large one or isolated.
has-large_or_isolated :
    (p : String) (groups : List (List String))
    → has p (concat groups) ≡ true
    → (some_of (has p) (keep is_large groups) || has p (isolated_of groups)) ≡ true
unfolding isolated_of
has-large_or_isolated p [] h = h
has-large_or_isolated p (c ∷ cs) h = elim (Bool-cases (is_large c)) [
  | inl k ↦ rw k (ground (arith, h, has-append p c (concat cs), has-large_or_isolated p cs))
  | inr k ↦ elim (Bool-cases (has p c)) [
    | inl j ↦ rw k (ground (arith, has-small p c k j))
    | inr j ↦ rw k (ground (arith, h, j, has-append p c (concat cs), has-large_or_isolated p cs))
  ]
]

has-places_of :
    (g : Geometry) (adj : List (String × List String)) (groups : List (List String)) (p : String)
    → has p (concat groups) ≡ true
    → has p (keys (places_of g adj groups)) ≡ true
unfolding places_of
has-places_of g adj groups p h =
    let large = sort_by (component_le g) (keep is_large groups) in
    let isolated = isolated_of groups in
    let middle = components_places g adj 0 large in
    let grid = isolated_places g isolated (length large) in
    ground (
      arith,
      has-put_all p (middle ++ grid) [],
      has-keys_append p middle grid,
      has-components_places g p adj 0 large,
      has-isolated_places g p isolated (length large),
      some_of-sort_by (has p) (component_le g) (keep is_large groups),
      has-large_or_isolated p groups h,
    )

-- When every import joins two of the files, `fileSpiderPositions` ends, and the map it returns has a
-- place for every file, in whatever way the engine computes with numbers and orders texts.
pub file_spider_positions-places :
    (g : Geometry) (paths : List String) (edges : List Edge)
    → EdgesIn paths edges
    → (positions : List (String × (g.Real × g.Real))) × (file_spider_positions g paths edges
        ≡ some positions)
      × All (λ p. has p (keys positions) ≡ true) paths
unfolding file_spider_positions
file_spider_positions-places g paths edges h =
    let (groups, found, _, covers) = components_partition paths edges h in
    (
      places_of g (adjacency paths edges) groups,
      ap (placed g (adjacency paths edges)) found,
      All-imp (has-places_of g (adjacency paths edges) groups) paths covers,
    )
