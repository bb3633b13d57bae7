-- ===== src/Spider/Imports.antt =====
-- The import map of frontend/client/src/components/TaskGraph.tsx: every import is in it both ways.
use v.Prelude.{
  String, true, List, [], ◌∷◌, map, ◌≡◌, refl, arith, ◌===◌, Bool-cases, inl, inr, All, All-imp,
  eq_iff,
}
use v.Spider.{Edge, has, add, neighbours, link, both_ways, add_edges, adjacency}
use v.Spider.Sets.{has-append}
use v.Spider.Fuel.{EdgesIn}

abbrev keys : List (String × List String) → List String
keys adj = map (λ (entry : String × List String). entry.0) adj

has-add : (p : String) (xs : List String) → has p (add p xs) ≡ true
unfolding add
has-add p xs = elim (Bool-cases (has p xs)) [
  | inl k ↦ rw k k
  | inr k ↦ rw k (ground (arith, has-append p xs (p ∷ []), eq_iff p p))
]

has-add_keep : (y p : String) (xs : List String) → has y xs ≡ true → has y (add p xs) ≡ true
unfolding add
has-add_keep y p xs h = elim (Bool-cases (has p xs)) [
  | inl k ↦ rw k h
  | inr k ↦ rw k (ground (arith, has-append y xs (p ∷ [])))
]

neighbours-link :
    (s t : String) (adj : List (String × List String))
    → has s (keys adj) ≡ true
    → has t (neighbours (link s t adj) s) ≡ true
unfolding neighbours link
neighbours-link s t [] h = absurd (ground (arith, h))
neighbours-link s t ((q, ns) ∷ adj) h = elim (Bool-cases (q === s)) [
  | inl k ↦ rw (k, k) (has-add t ns)
  | inr k ↦ rw (k, k) (neighbours-link s t adj (ground (arith, h, k)))
]

neighbours-link_keep :
    (y p a b : String) (adj : List (String × List String))
    → has y (neighbours adj p) ≡ true
    → has y (neighbours (link a b adj) p) ≡ true
unfolding neighbours link
neighbours-link_keep y p a b [] h = h
neighbours-link_keep y p a b ((q, ns) ∷ adj) h = elim (Bool-cases (q === a)) [
  | inl k ↦ elim (Bool-cases (q === p)) [
    | inl j ↦ rw (k, j) (has-add_keep y b ns (rw j at h))
    | inr j ↦ rw (k, j) (rw j at h)
  ]
  | inr k ↦ elim (Bool-cases (q === p)) [
    | inl j ↦ rw (k, j) (rw j at h)
    | inr j ↦ rw (k, j) (neighbours-link_keep y p a b adj (rw j at h))
  ]
]

has-keys-link :
    (p a b : String) (adj : List (String × List String))
    → has p (keys (link a b adj)) ≡ has p (keys adj)
unfolding link
has-keys-link p a b [] = refl
has-keys-link p a b ((q, ns) ∷ adj) = elim (Bool-cases (q === a)) [
  | inl k ↦ rw k refl
  | inr k ↦ rw k (ground (arith, has-keys-link p a b adj))
]

-- Both ends of an import are among each other's neighbours.
abbrev pub IsLinked : List (String × List String) → Edge → Type 0
IsLinked adj e =
    (has e.target_path (neighbours adj e.source_path) ≡ true)
    × (has e.source_path (neighbours adj e.target_path) ≡ true)

both_ways-IsLinked :
    (e : Edge) (adj : List (String × List String))
    → has e.source_path (keys adj) ≡ true
    → has e.target_path (keys adj) ≡ true
    → IsLinked (both_ways e adj) e
both_ways-IsLinked e adj hs ht =
    let first = link e.source_path e.target_path adj in
    (
      neighbours-link_keep e.target_path e.source_path e.target_path e.source_path first
          (neighbours-link e.source_path e.target_path adj hs),
      neighbours-link e.target_path e.source_path first
          (rw (has-keys-link e.target_path e.source_path e.target_path adj) ht),
    )

both_ways-keep :
    (y p : String) (e : Edge) (adj : List (String × List String))
    → has y (neighbours adj p) ≡ true
    → has y (neighbours (both_ways e adj) p) ≡ true
both_ways-keep y p e adj h =
    neighbours-link_keep y p e.target_path e.source_path (link e.source_path e.target_path adj)
      (neighbours-link_keep y p e.source_path e.target_path adj h)

add_edges-keep :
    (y p : String) (es : List Edge) (adj : List (String × List String))
    → has y (neighbours adj p) ≡ true
    → has y (neighbours (add_edges es adj) p) ≡ true
unfolding add_edges
add_edges-keep y p [] adj h = h
add_edges-keep y p (e ∷ es) adj h =
    add_edges-keep y p es (both_ways e adj) (both_ways-keep y p e adj h)

has-keys-both_ways :
    (p : String) (e : Edge) (adj : List (String × List String))
    → has p (keys (both_ways e adj)) ≡ has p (keys adj)
has-keys-both_ways p e adj =
    rw (has-keys-link p e.target_path e.source_path (link e.source_path e.target_path adj))
      (has-keys-link p e.source_path e.target_path adj)

add_edges-IsLinked :
    (es : List Edge) (adj : List (String × List String))
    → EdgesIn (keys adj) es
    → All (IsLinked (add_edges es adj)) es
unfolding add_edges
add_edges-IsLinked [] adj h = tt
add_edges-IsLinked (e ∷ es) adj h =
    let first = both_ways-IsLinked e adj h.0.0 h.0.1 in
    (
      (
        add_edges-keep e.target_path e.source_path es (both_ways e adj) first.0,
        add_edges-keep e.source_path e.target_path es (both_ways e adj) first.1,
      ),
      add_edges-IsLinked es (both_ways e adj) (
          All-imp
            (λ f k. (
              rw (has-keys-both_ways f.source_path e adj) k.0,
              rw (has-keys-both_ways f.target_path e adj) k.1,
            ))
            es h.1),
    )

keys-nodes : (paths : List String) → keys (map (λ (p : String). (p, [])) paths) ≡ paths
keys-nodes [] = refl
keys-nodes (p ∷ ps) = rw (keys-nodes ps) refl

pub adjacency-IsLinked :
    (paths : List String) (edges : List Edge)
    → EdgesIn paths edges
    → All (IsLinked (adjacency paths edges)) edges
unfolding adjacency
adjacency-IsLinked paths edges h =
    add_edges-IsLinked edges (map (λ p. (p, [])) paths) (rw (keys-nodes paths) h)
