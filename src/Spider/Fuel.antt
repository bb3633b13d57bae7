-- ===== src/Spider/Fuel.antt =====
-- The searches end: fuel for one more round than there are files is enough, if the imports join files.
use v.Prelude.{
  ℕ, zero, suc, ◌+◌, ◌≤◌, ◌<◌, String, true, false, List, [], ◌∷◌, ◌++◌, Option, some, ◌≡◌, refl,
  arith, if◌then◌else◌, ◌===◌, append_assoc, Bool-cases, inl, inr, All, All-append, eq_iff, length,
  length-append, map,
}
use mathlib.Core.Path.{subst}
use v.Spider.{
  Edge, has, add, neighbours, link, both_ways, add_edges, adjacency, search_from, after_search,
  components_from,
}
use v.Spider.Sets.{IsDistinct, append-IsDistinct}
use v.Spider.Search.{fresh, visit-eq-fresh, fresh-IsDistinct, round_exact, search_from-IsSearched}

abbrev pub AllIn : List String → List String → Type 0
AllIn universe xs = All (λ x. has x universe ≡ true) xs

remove : String → List String → List String
remove p [] = []
remove p (x ∷ xs) = let rest = remove p xs in if x === p then xs else x ∷ rest

length-remove :
    (p : String) (xs : List String) → has p xs ≡ true → suc (length (remove p xs)) ≡ length xs
unfolding remove
length-remove p [] h = cc
length-remove p (x ∷ xs) h = ground (arith, length-remove p xs)

has-remove :
    (p q : String) (xs : List String)
    → has q xs ≡ true
    → (q === p) ≡ false
    → has q (remove p xs) ≡ true
unfolding remove
has-remove p q [] h k = h
has-remove p q (x ∷ xs) h k = ground (arith, has-remove p q xs, eq_iff x p, eq_iff x q, eq_iff q p)

AllIn-remove :
    (p : String) (universe xs : List String)
    → has p xs ≡ false
    → AllIn universe xs
    → AllIn (remove p universe) xs
AllIn-remove p universe [] h k = tt
AllIn-remove p universe (x ∷ xs) h k =
    (has-remove p x universe k.0 (ground arith), AllIn-remove p universe xs (ground arith) k.1)

-- Distinct paths of a universe are at most as many as it has.
length-le-universe :
    (xs universe : List String) → IsDistinct xs → AllIn universe xs → length xs ≤ length universe
length-le-universe [] universe d h = omega arith
length-le-universe (x ∷ xs) universe d h = omega (
  arith,
  length-remove x universe h.0,
  length-le-universe xs (remove x universe) d.1 (AllIn-remove x universe xs d.0 h.1),
)

IsDistinct-drop_left : (xs ys : List String) → IsDistinct (xs ++ ys) → IsDistinct ys
IsDistinct-drop_left [] ys d = d
IsDistinct-drop_left (x ∷ xs) ys d = IsDistinct-drop_left xs ys d.1

AllIn-fresh :
    (universe ns visited : List String) → AllIn universe ns → AllIn universe (fresh ns visited)
unfolding fresh
AllIn-fresh universe [] visited h = tt
AllIn-fresh universe (n ∷ ns) visited h = elim (Bool-cases (has n visited)) [
  | inl old ↦ rw old (AllIn-fresh universe ns visited h.1)
  | inr new ↦ rw new (h.0, AllIn-fresh universe ns (visited ++ n ∷ []) h.1)
]

-- Every neighbour is in the universe.
abbrev pub IsClosedIn : List String → List (String × List String) → Type 0
IsClosedIn universe adj = (p : String) → AllIn universe (neighbours adj p)

AllIn-round :
    (universe component queue new : List String) (current : String)
    → AllIn universe (component ++ current ∷ queue)
    → AllIn universe new
    → AllIn universe ((component ++ current ∷ []) ++ (queue ++ new))
AllIn-round universe component queue new current h k =
    subst (AllIn universe) (simp append_assoc)
      (All-append (λ x. has x universe ≡ true) (component ++ current ∷ queue) new h k)

search_from_total :
    (fuel : ℕ) (adj : List (String × List String))
    (universe base queue component visited : List String)
    → IsClosedIn universe adj
    → visited ≡ base ++ (component ++ queue)
    → IsDistinct visited
    → AllIn universe (component ++ queue)
    → length universe < fuel + length component
    → (r : List String × List String) × (search_from fuel adj queue component visited ≡ some r)
unfolding search_from
search_from_total zero adj universe base queue component visited closed e d h fuel_left = absurd (
    omega (
      arith,
      length-append component queue,
      length-le-universe (component ++ queue) universe
          (IsDistinct-drop_left base (component ++ queue) (subst IsDistinct e d)) h,
    ))
search_from_total (suc fuel) adj universe base [] component visited closed e d h fuel_left =
    ((component, visited), refl)
search_from_total (suc fuel) adj universe base (current ∷ queue) component visited closed e d h
      fuel_left =
    let ns = neighbours adj current in
    let new = fresh ns visited in
    rw (visit-eq-fresh ns queue visited) (
      search_from_total fuel adj universe base (queue ++ new) (component ++ current ∷ [])
        (visited ++ new) closed (round_exact base component queue ns visited current e)
        (fresh-IsDistinct ns visited d)
        (AllIn-round universe component queue new current h
          (AllIn-fresh universe ns visited (closed current)))
        (omega (arith, length-append component (current ∷ []))))

after_search_total :
    (r : Option (List String × List String)) (k : List String → Option (List (List String)))
    (c v : List String) (groups : List (List String))
    → r ≡ some (c, v)
    → k v ≡ some groups
    → after_search r k ≡ some (c ∷ groups)
after_search_total r k c v groups h e = rw (h, e)

-- With fuel for more rounds than there are files, the search over all paths gives components.
pub components_from_total :
    (adj : List (String × List String)) (universe paths visited : List String) (fuel : ℕ)
    → IsClosedIn universe adj
    → AllIn universe paths
    → length universe < fuel
    → IsDistinct visited
    → (groups : List (List String)) × (components_from fuel adj paths visited ≡ some groups)
unfolding components_from
components_from_total adj universe [] visited fuel closed h enough d = ([], refl)
components_from_total adj universe (path ∷ paths) visited fuel closed h enough d =
    elim (Bool-cases (has path visited)) [
      | inl old ↦ rw old (components_from_total adj universe paths visited fuel closed h.1 enough d)
      | inr new ↦
          let start = append-IsDistinct visited path d new in
          let ((c, v), found) =
            search_from_total fuel adj universe visited (path ∷ []) [] (visited ++ path ∷ []) closed
              refl start (h.0, tt) (omega arith) in
          let s =
            search_from-IsSearched fuel adj visited (path ∷ []) [] (visited ++ path ∷ []) c v refl
              start found in
          let (groups, later) =
            components_from_total adj universe paths v fuel closed h.1 enough s.distinct in
          (
            c ∷ groups,
            rw new (after_search_total _ (components_from fuel adj paths) c v groups found later),
          )
    ]

-- Every list of neighbours of the map is in the universe.
abbrev EntriesIn : List String → List (String × List String) → Type 0
EntriesIn universe adj = All (λ entry. AllIn universe entry.1) adj

EntriesIn-closed :
    (universe : List String) (adj : List (String × List String))
    → EntriesIn universe adj
    → IsClosedIn universe adj
unfolding neighbours
EntriesIn-closed universe [] h p = tt
EntriesIn-closed universe ((q, ns) ∷ adj) h p = elim (Bool-cases (q === p)) [
  | inl here ↦ rw here h.0
  | inr there ↦ rw there (EntriesIn-closed universe adj h.1 p)
]

AllIn-add :
    (universe xs : List String) (p : String)
    → AllIn universe xs
    → has p universe ≡ true
    → AllIn universe (add p xs)
unfolding add
AllIn-add universe xs p h k = elim (Bool-cases (has p xs)) [
  | inl old ↦ rw old h
  | inr new ↦ rw new (All-append (λ x. has x universe ≡ true) xs (p ∷ []) h (k, tt))
]

EntriesIn-link :
    (universe : List String) (from to : String) (adj : List (String × List String))
    → has to universe ≡ true
    → EntriesIn universe adj
    → EntriesIn universe (link from to adj)
unfolding link
EntriesIn-link universe from to [] k h = tt
EntriesIn-link universe from to ((q, ns) ∷ adj) k h = elim (Bool-cases (q === from)) [
  | inl here ↦ rw here (AllIn-add universe ns to h.0 k, h.1)
  | inr there ↦ rw there (h.0, EntriesIn-link universe from to adj k h.1)
]

-- The imports join paths of the universe, as `TaskGraph` filters them.
abbrev pub EdgesIn : List String → List Edge → Type 0
EdgesIn universe edges =
    All (λ e. (has e.source_path universe ≡ true) × (has e.target_path universe ≡ true)) edges

EntriesIn-add_edges :
    (universe : List String) (edges : List Edge) (adj : List (String × List String))
    → EdgesIn universe edges
    → EntriesIn universe adj
    → EntriesIn universe (add_edges edges adj)
unfolding add_edges
EntriesIn-add_edges universe [] adj k h = h
EntriesIn-add_edges universe (e ∷ es) adj k h =
    EntriesIn-add_edges universe es (both_ways e adj) k.1 (
      EntriesIn-link universe e.target_path e.source_path (link e.source_path e.target_path adj)
        k.0.0 (EntriesIn-link universe e.source_path e.target_path adj k.0.1 h))

EntriesIn-nodes :
    (universe paths : List String) → EntriesIn universe (map (λ (p : String). (p, [])) paths)
EntriesIn-nodes universe [] = tt
EntriesIn-nodes universe (p ∷ ps) = (tt, EntriesIn-nodes universe ps)

pub adjacency-IsClosedIn :
    (paths : List String) (edges : List Edge)
    → EdgesIn paths edges
    → IsClosedIn paths (adjacency paths edges)
unfolding adjacency
adjacency-IsClosedIn paths edges h =
    EntriesIn-closed paths (add_edges edges (map (λ p. (p, [])) paths))
      (EntriesIn-add_edges paths edges (map (λ p. (p, [])) paths) h (EntriesIn-nodes paths paths))
