-- ===== src/Spider/Places.antt =====
-- TaskGraph.tsx, the second half of `fileSpiderPositions`: the places of the files. The floating-point
-- numbers, their functions and the text order are the engine's, and come as a parameter.
use v.Prelude.{
  ℕ, zero, suc, ◌+◌, ◌*◌, ◌/◌, ◌%◌, max, String, Bool, false, ◌||◌, List, [], ◌∷◌, ◌++◌, Option,
  none, some, if◌then◌else◌, ◌===◌, ◌==◌, leb, ltb, length, map_index, keep,
}
use v.Spider.{Edge, neighbours, adjacency, components}

pub record Geometry : Type 1 where
  pub Real : Type 0
  pub nat : ℕ → Real
  pub plus : Real → Real → Real
  pub times : Real → Real → Real
  pub over : Real → Real → Real
  pub cos : Real → Real
  pub sin : Real → Real
  pub pi : Real
  pub golden_angle : Real
  pub locale_le : String → String → Bool

-- `xs.sort(...)`, which is stable: `le` tells that its first argument may stand first.
unfoldable pub insert_by {ℓ} : {A : Type ℓ} → (A → A → Bool) → A → List A → List A
insert_by le x [] = x ∷ []
insert_by le x (y ∷ ys) = let later = y ∷ insert_by le x ys in if le x y then x ∷ y ∷ ys else later

unfoldable pub sort_by {ℓ} : {A : Type ℓ} → (A → A → Bool) → List A → List A
unfolding insert_by
sort_by le [] = []
sort_by le (x ∷ xs) = insert_by le x (sort_by le xs)

abbrev pub first_path : List String → String
first_path [] = ""
first_path (p ∷ _) = p

-- `Math.floor(Math.sqrt(n))`, by counting up; the root of n is at most n.
sqrt_from : ℕ → ℕ → ℕ → ℕ
sqrt_from zero r n = r
sqrt_from (suc fuel) r n =
    let next = sqrt_from fuel (suc r) n in if leb (suc r * suc r) n then next else r

unfoldable pub floor_sqrt : ℕ → ℕ
unfolding sqrt_from
floor_sqrt n = sqrt_from n 0 n

-- `Math.ceil(Math.sqrt(n))`
unfoldable pub ceil_sqrt : ℕ → ℕ
unfolding floor_sqrt
ceil_sqrt n = let r = floor_sqrt n in if r * r == n then r else suc r

-- `Math.max(6, Math.ceil(Math.sqrt(Math.max(1, n))))`
unfoldable pub grid_columns : ℕ → ℕ
unfolding ceil_sqrt
grid_columns n = max 6 (ceil_sqrt (max 1 n))

-- The grid of the isolated files starts below the components.
unfoldable pub grid_top : ℕ → ℕ
grid_top count = if count == 0 then 160 else 1560 + (count + 4) / 5 * 340

-- The cell of one isolated file, in canvas units.
unfoldable pub grid_cell : ℕ → ℕ → ℕ → ℕ × ℕ
grid_cell columns top index = (100 + index % columns * 172, top + index / columns * 72)

module _ (g : Geometry) where
  open g use {Real, nat, plus, times, over, cos, sin, pi, golden_angle, locale_le}

  -- Larger components first, then by their first path.
  unfoldable pub component_le : List String → List String → Bool
  component_le a b =
      ltb (length b) (length a)
      || (if length a == length b then locale_le (first_path a) (first_path b) else false)

  -- More neighbours first, then by path.
  unfoldable pub path_le : List (String × List String) → String → String → Bool
  path_le adj a b =
      let da = length (neighbours adj a) in
      let db = length (neighbours adj b) in ltb db da || (if da == db then locale_le a b else false)

  -- `index * 2.399963229728653`
  abbrev component_angle : ℕ → Real
  component_angle index = times (nat index) golden_angle

  abbrev component_distance : ℕ → ℕ
  component_distance index = if index == 0 then 0 else 760 + index / 5 * 360

  abbrev component_center : ℕ → Real × Real
  component_center index = (
    plus (nat 900) (times (cos (component_angle index)) (nat (component_distance index))),
    plus (nat 620) (times (sin (component_angle index)) (nat (component_distance index))),
  )

  -- The place of the node `index` among the `count` outer nodes around a center.
  abbrev ring_place : Real → Real × Real → ℕ → ℕ → Real × Real
  ring_place angle (x, y) count index =
      let radius = nat (250 + floor_sqrt index * 130) in
      let node_angle =
        plus (times (times (over (nat index) (nat (max 1 count))) pi) (nat 2))
          (over angle (nat 3)) in
      (plus x (times (cos node_angle) radius), plus y (times (sin node_angle) radius))

  abbrev pub around : ℕ → List String → List (String × (Real × Real))
  around index [] = []
  around index (hub ∷ rest) =
      (hub, component_center index)
      ∷ map_index
          (λ i path.
            (path, ring_place (component_angle index) (component_center index) (length rest) i))
          0 rest

  -- The places of one component: its best connected file in the center, the others on rings.
  unfoldable pub component_places :
      List (String × List String) → ℕ → List String → List (String × (Real × Real))
  component_places adj index component = around index (sort_by (path_le adj) component)

  unfoldable pub components_places :
      List (String × List String) → ℕ → List (List String) → List (String × (Real × Real))
  unfolding component_places
  components_places adj index [] = []
  components_places adj index (c ∷ cs) =
      component_places adj index c ++ components_places adj (suc index) cs

  unfoldable pub isolated_places : List String → ℕ → List (String × (Real × Real))
  isolated_places isolated count =
      map_index
        (λ index path.
          let (x, y) = grid_cell (grid_columns (length isolated)) (grid_top count) index in
          (path, (nat x, nat y)))
        0 isolated

-- A component of one path is no component but an isolated file.
abbrev pub is_large : List String → Bool
is_large component = ltb 1 (length component)

unfoldable pub isolated_of : List (List String) → List String
isolated_of [] = []
isolated_of (c ∷ cs) = let rest = isolated_of cs in if is_large c then rest else first_path c ∷ rest

-- `positions.set(path, place)`
unfoldable pub put {ℓ} : {P : Type ℓ} → String → P → List (String × P) → List (String × P)
put path place [] = (path, place) ∷ []
put path place ((q, old) ∷ m) =
    let rest = put path place m in if q === path then (q, place) ∷ m else (q, old) ∷ rest

unfoldable pub put_all {ℓ} :
    {P : Type ℓ} → List (String × P) → List (String × P) → List (String × P)
unfolding put
put_all [] m = m
put_all ((path, place) ∷ more) m = put_all more (put path place m)

module _ (g : Geometry) where
  unfoldable pub places_of :
      List (String × List String) → List (List String) → List (String × (g.Real × g.Real))
  places_of adj groups =
      let large = sort_by (component_le g) (keep is_large groups) in
      let isolated = isolated_of groups in
      put_all (components_places g adj 0 large ++ isolated_places g isolated (length large)) []

  abbrev pub placed :
      List (String × List String)
      → Option (List (List String))
      → Option (List (String × (g.Real × g.Real)))
  placed adj none = none
  placed adj (some groups) = some (places_of adj groups)

  -- `fileSpiderPositions`, on the paths of the files.
  unfoldable pub file_spider_positions :
      List String → List Edge → Option (List (String × (g.Real × g.Real)))
  unfolding places_of
  file_spider_positions paths edges = placed (adjacency paths edges) (components paths edges)
