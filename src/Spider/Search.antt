-- ===== src/Spider/Search.antt =====
-- The breadth-first search from one path: what it visits is exactly the component that it returns.
use v.Prelude.{
  ℕ, zero, suc, String, List, [], ◌∷◌, ◌++◌, some, ◌≡◌, if◌then◌else◌, sym, ◌∙◌, ap, append_assoc,
  append-nil, Bool-cases, inl, inr,
}
use mathlib.Core.Path.{subst}
use mathlib.Core.Option.{some-injective, none-ne-some}
use v.Spider.{has, neighbours, visit, search_from}
use v.Spider.Sets.{IsDistinct, append-IsDistinct}

-- The neighbours that a round of the search adds.
unfoldable pub fresh : List String → List String → List String
fresh [] visited = []
fresh (n ∷ ns) visited =
    let new = n ∷ fresh ns (visited ++ n ∷ []) in
    let old = fresh ns visited in if has n visited then old else new

pub visit-eq-fresh :
    (ns queue visited : List String)
    → visit ns queue visited ≡ (queue ++ fresh ns visited, visited ++ fresh ns visited)
unfolding visit fresh
visit-eq-fresh [] queue visited = rw (append-nil queue, append-nil visited)
visit-eq-fresh (n ∷ ns) queue visited = elim (Bool-cases (has n visited)) [
  | inl old ↦ rw old (visit-eq-fresh ns queue visited)
  | inr new ↦ rw new (visit-eq-fresh ns (queue ++ n ∷ []) (visited ++ n ∷ []) ∙ simp append_assoc)
]

pub fresh-IsDistinct :
    (ns visited : List String) → IsDistinct visited → IsDistinct (visited ++ fresh ns visited)
unfolding fresh
fresh-IsDistinct [] visited h = rw (append-nil visited) h
fresh-IsDistinct (n ∷ ns) visited h = elim (Bool-cases (has n visited)) [
  | inl old ↦ rw old (fresh-IsDistinct ns visited h)
  | inr new ↦ rw new (
      subst IsDistinct (append_assoc visited (n ∷ []) (fresh ns (visited ++ n ∷ [])))
        (fresh-IsDistinct ns (visited ++ n ∷ []) (append-IsDistinct visited n h new)))
]

-- The result of a search that started with `base` visited.
pub record IsSearched (base visited component after : List String) : Type 0 where
  pub exact : after ≡ base ++ component
  pub distinct : IsDistinct after
  pub grown : (more : List String) × (after ≡ visited ++ more)

-- One round: the queue and the visited paths grow by the same fresh neighbours.
pub round_exact :
    (base component queue ns visited : List String) (current : String)
    → visited ≡ base ++ (component ++ current ∷ queue)
    → visited ++ fresh ns visited
      ≡ base ++ ((component ++ current ∷ []) ++ (queue ++ fresh ns visited))
round_exact base component queue ns visited current e =
    ap (λ l. l ++ fresh ns visited) e ∙ simp append_assoc

IsSearched-grow :
    (base visited extra component after : List String)
    → IsSearched base (visited ++ extra) component after
    → IsSearched base visited component after
IsSearched-grow base visited extra component after s =
    let (more, e) = s.grown in
    record {
      exact = s.exact;
      distinct = s.distinct;
      grown = (extra ++ more, e ∙ append_assoc visited extra more);
    }

pub search_from-IsSearched :
    (fuel : ℕ) (adj : List (String × List String)) (base queue component visited c v : List String)
    → visited ≡ base ++ (component ++ queue)
    → IsDistinct visited
    → search_from fuel adj queue component visited ≡ some (c, v)
    → IsSearched base visited c v
unfolding search_from
search_from-IsSearched zero adj base queue component visited c v e d h = absurd (none-ne-some _ h)
search_from-IsSearched (suc fuel) adj base [] component visited c v e d h =
    let same : (component, visited) ≡ (c, v) = some-injective _ _ h in
    let c_eq : component ≡ c = ap (λ (p : List String × List String). p.0) same in
    let v_eq : visited ≡ v = ap (λ (p : List String × List String). p.1) same in
    record {
      exact = sym v_eq ∙ e ∙ ap (λ l. base ++ l) (append-nil component ∙ c_eq);
      distinct = subst IsDistinct v_eq d;
      grown = ([], sym v_eq ∙ sym (append-nil visited));
    }
search_from-IsSearched (suc fuel) adj base (current ∷ queue) component visited c v e d h =
    let ns = neighbours adj current in
    let new = fresh ns visited in
    IsSearched-grow base visited new c v (
      search_from-IsSearched fuel adj base (queue ++ new) (component ++ current ∷ [])
        (visited ++ new) c v (round_exact base component queue ns visited current e)
        (fresh-IsDistinct ns visited d) (rw (visit-eq-fresh ns queue visited) at h))
