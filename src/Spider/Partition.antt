-- ===== src/Spider/Partition.antt =====
-- The split of the files into components, as a whole.
use v.Prelude.{suc, String, true, List, [], some, ◌≡◌, arith, All, length, eq_iff, ◌∷◌}
use v.Spider.{Edge, has, components, adjacency}
use v.Spider.Sets.{IsDistinct}
use v.Spider.Cover.{concat, components_from-IsCover}
use v.Spider.Fuel.{AllIn, EdgesIn, adjacency-IsClosedIn, components_from_total}

AllIn-self_from :
    (universe xs : List String)
    → ((p : String) → has p xs ≡ true → has p universe ≡ true)
    → AllIn universe xs
AllIn-self_from universe [] h = tt
AllIn-self_from universe (x ∷ xs) h =
    (h x (ground (arith, eq_iff x x)), AllIn-self_from universe xs (λ p k. h p (ground arith)))

-- The search always ends with a split of the files: when every import joins two of the files, there
-- are components, which hold each of the files, and none of them twice.
pub components_partition :
    (paths : List String) (edges : List Edge)
    → EdgesIn paths edges
    → (groups : List (List String)) × (components paths edges ≡ some groups)
      × IsDistinct (concat groups)
      × All (λ p. has p (concat groups) ≡ true) paths
unfolding components
components_partition paths edges h =
    let (groups, found) =
      components_from_total (adjacency paths edges) paths paths [] (suc (length paths))
        (adjacency-IsClosedIn paths edges h) (AllIn-self_from paths paths (λ p k. k)) (omega arith)
        tt in
    let cover =
      components_from-IsCover (suc (length paths)) (adjacency paths edges) paths [] groups tt
        found in
    (groups, found, cover.distinct, cover.covers)
