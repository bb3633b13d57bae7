-- ===== src/Spider/Sets.antt =====
-- Membership in the lists that stand for sets.
use v.Prelude.{
  String, false, ◌||◌, List, [], ◌∷◌, ◌++◌, ◌≡◌, refl, arith, ◌===◌, eq_iff, some_of-append,
}
use v.Spider.{has}

-- No path stands in the list twice.
abbrev pub IsDistinct : List String → Type 0
IsDistinct [] = Unit
IsDistinct (x ∷ xs) = (has x xs ≡ false) × IsDistinct xs

pub has-append : (p : String) (xs ys : List String) → has p (xs ++ ys) ≡ (has p xs || has p ys)
has-append p xs ys = some_of-append (λ q. q === p) xs ys

pub append-IsDistinct :
    (xs : List String) (p : String) → IsDistinct xs → has p xs ≡ false → IsDistinct (xs ++ p ∷ [])
append-IsDistinct [] p h k = (refl, tt)
append-IsDistinct (x ∷ xs) p h k = (
  ground (arith, has-append x xs (p ∷ []), eq_iff p x, eq_iff x p),
  append-IsDistinct xs p h.1 (ground arith),
)
