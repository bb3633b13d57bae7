-- ===== src/Spider/Cover.antt =====
-- The components hold every file once.
use v.Prelude.{
  ℕ, String, true, List, [], ◌∷◌, ◌++◌, Option, none, some, ◌≡◌, refl, arith, sym, ◌∙◌, ap,
  append_assoc, append-nil, Bool-cases, inl, inr, All, eq_iff,
}
use mathlib.Core.Path.{subst}
use mathlib.Core.Option.{some-injective, none-ne-some}
use v.Spider.{has, search_from, after_search, cons_component, components_from}
use v.Spider.Sets.{IsDistinct, has-append, append-IsDistinct}
use v.Spider.Search.{search_from-IsSearched}

abbrev pub concat : List (List String) → List String
concat [] = []
concat (g ∷ gs) = g ++ concat gs

-- The groups hold, beside what was visited before, no path twice and each of the given paths.
pub record IsCover (paths visited : List String) (groups : List (List String)) : Type 0 where
  pub distinct : IsDistinct (visited ++ concat groups)
  pub covers : All (λ p. has p (visited ++ concat groups) ≡ true) paths

pub after_search-eq_some :
    (r : Option (List String × List String)) (k : List String → Option (List (List String)))
    (groups : List (List String))
    → after_search r k ≡ some groups
    → (c : List String) × (v : List String) × (rest : List (List String)) × (r ≡ some (c, v))
      × (k v ≡ some rest)
      × (groups ≡ c ∷ rest)
after_search-eq_some none k groups h = absurd (none-ne-some groups h)
after_search-eq_some (some (c, v)) k groups h = inner (k v) refl h
  where
    inner :
        (o : Option (List (List String)))
        → k v ≡ o
        → cons_component c o ≡ some groups
        → (c' : List String) × (v' : List String) × (rest : List (List String)) × (◌≡◌
            {A = Option (List String × List String)}
            (some (c, v))
            (some (c', v')))
          × (k v' ≡ some rest)
          × (groups ≡ c' ∷ rest)
    inner none e h = absurd (none-ne-some groups h)
    inner (some rest) e h = (c, v, rest, refl, e, sym (some-injective _ _ h))

has-path : (visited more : List String) (p : String) → has p ((visited ++ p ∷ []) ++ more) ≡ true
has-path visited more p =
    ground (arith, has-append p (visited ++ p ∷ []) more, has-append p visited (p ∷ []), eq_iff p p)

pub components_from-IsCover :
    (fuel : ℕ) (adj : List (String × List String)) (paths visited : List String)
    (groups : List (List String))
    → IsDistinct visited
    → components_from fuel adj paths visited ≡ some groups
    → IsCover paths visited groups
unfolding components_from
components_from-IsCover fuel adj [] visited groups d h =
    rw (← some-injective _ _ h)
      (record { distinct = subst IsDistinct (sym (append-nil visited)) d; covers = tt })
components_from-IsCover fuel adj (path ∷ paths) visited groups d h =
    elim (Bool-cases (has path visited)) [
      | inl old ↦
          let rest = components_from-IsCover fuel adj paths visited groups d (rw old at h) in
          record {
            distinct = rest.distinct;
            covers = (ground (arith, has-append path visited (concat groups)), rest.covers);
          }
      | inr new ↦
          let (c, v, rest, found, later, split) =
            after_search-eq_some (search_from fuel adj (path ∷ []) [] (visited ++ path ∷ []))
              (components_from fuel adj paths) groups (rw new at h) in
          let s =
            search_from-IsSearched fuel adj visited (path ∷ []) [] (visited ++ path ∷ []) c v refl
              (append-IsDistinct visited path d new) found in
          let cover = components_from-IsCover fuel adj paths v rest s.distinct later in
          let same : v ++ concat rest ≡ visited ++ concat groups =
            ap (λ l. l ++ concat rest) s.exact
            ∙ append_assoc visited c (concat rest)
            ∙ ap (λ g. visited ++ concat g) (sym split) in
          let (more, grown) = s.grown in
          record {
            distinct = subst IsDistinct same cover.distinct;
            covers = (
              subst (λ l. has path l ≡ true) same
                  (subst (λ l. has path (l ++ concat rest) ≡ true) (sym grown)
                    (subst (λ l. has path l ≡ true)
                      (sym (append_assoc (visited ++ path ∷ []) more (concat rest)))
                      (has-path visited (more ++ concat rest) path))),
              subst (λ l. All (λ p. has p l ≡ true) paths) same cover.covers,
            );
          }
    ]
