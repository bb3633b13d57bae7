-- ===== src/Spider.antt =====
-- frontend/client/src/components/TaskGraph.tsx, `fileSpiderPositions`: the import graph of the files is
-- split into its components by a breadth-first search, and every file gets a place on the canvas.
-- A JavaScript `Set` or `Map` is a list in its order of insertion.
pub mod Sets
pub mod Search
pub mod Cover
pub mod Fuel
pub mod Partition
pub mod Imports
pub mod Together
pub mod Joined
pub mod Connected
pub mod Places
pub mod Placed
pub mod Grid
use v.Prelude.{
  ℕ, zero, suc, ◌+◌, ◌*◌, ◌-◌, ◌/◌, ◌%◌, max, String, Bool, true, false, not, ◌||◌, List, [], ◌∷◌,
  ◌++◌, map, Option, none, some, if◌then◌else◌, ◌===◌, ◌==◌, leb, ltb, some_of, length, flat_map,
  map_index,
}

-- The two ends of an import; the third property is not read here.
pub record Edge : Type 0 where
  pub source_path : String
  pub target_path : String

abbrev pub has : String → List String → Bool
has p xs = some_of (λ q. q === p) xs

-- `set.add(p)`
unfoldable pub add : String → List String → List String
add p xs = if has p xs then xs else xs ++ p ∷ []

-- `adjacency.get(p) || []`
unfoldable pub neighbours : List (String × List String) → String → List String
neighbours [] p = []
neighbours ((q, ns) ∷ adj) p = let rest = neighbours adj p in if q === p then ns else rest

-- `adjacency.get(from)?.add(to)`
unfoldable pub link : String → String → List (String × List String) → List (String × List String)
unfolding add
link from to [] = []
link from to ((q, ns) ∷ adj) =
    let rest = link from to adj in if q === from then (q, add to ns) ∷ adj else (q, ns) ∷ rest

abbrev pub both_ways : Edge → List (String × List String) → List (String × List String)
both_ways e adj = link e.target_path e.source_path (link e.source_path e.target_path adj)

add_edges : List Edge → List (String × List String) → List (String × List String)
unfolding link
add_edges [] adj = adj
add_edges (e ∷ es) adj = add_edges es (both_ways e adj)

-- A repeated path would start again with no neighbours, so its first entry serves.
unfoldable pub adjacency : List String → List Edge → List (String × List String)
unfolding add_edges
adjacency paths edges = add_edges edges (map (λ p. (p, [])) paths)

-- The inner `for`: each neighbour that is not yet visited is marked and queued.
unfoldable pub visit : List String → List String → List String → List String × List String
visit [] queue visited = (queue, visited)
visit (next ∷ rest) queue visited =
    let fresh = visit rest (queue ++ next ∷ []) (visited ++ next ∷ []) in
    let known = visit rest queue visited in if has next visited then known else fresh

-- The `while` over the queue: the component, and what is visited after it. `none` is for fuel that runs
-- out; see `Spider.Fuel` for how much is enough.
unfoldable pub search_from :
    ℕ
    → List (String × List String)
    → List String
    → List String
    → List String
    → Option (List String × List String)
search_from zero adj queue component visited = none
search_from (suc fuel) adj [] component visited = some (component, visited)
search_from (suc fuel) adj (current ∷ queue) component visited =
    let (queue', visited') = visit (neighbours adj current) queue visited in
    search_from fuel adj queue' (component ++ current ∷ []) visited'

abbrev pub cons_component : List String → Option (List (List String)) → Option (List (List String))
cons_component component none = none
cons_component component (some rest) = some (component ∷ rest)

-- What follows a search, given what it visited.
abbrev pub after_search :
    Option (List String × List String)
    → (List String → Option (List (List String)))
    → Option (List (List String))
after_search none k = none
after_search (some (component, visited)) k = cons_component component (k visited)

-- The outer `for`: one component for each path that is not yet visited.
unfoldable pub components_from :
    ℕ → List (String × List String) → List String → List String → Option (List (List String))
components_from fuel adj [] visited = some []
components_from fuel adj (path ∷ paths) visited =
    let skipped = components_from fuel adj paths visited in
    let found =
      after_search (search_from fuel adj (path ∷ []) [] (visited ++ path ∷ []))
        (components_from fuel adj paths) in
    if has path visited then skipped else found

-- The components of the files, in the order in which they are found, with fuel for one more round than
-- there are files.
unfoldable pub components : List String → List Edge → Option (List (List String))
unfolding components_from adjacency
components paths edges = components_from (suc (length paths)) (adjacency paths edges) paths []
