-- ===== src/Renderer/Rows.antt =====
-- The list of repositories of desktop/renderer/app.mjs after an answer.
use v.Prelude.{
  Bool, true, false, not, List, [], ◌∷◌, map, Option, none, some, ◌≡◌, refl, ◌&&◌, ◌⊎◌, inl, inr,
  find, find_sound, Any, Bool-cases, arith,
}
use v.Js.{Value, truthy, as_array}
use v.Desktop.{Outcome, returned, threw}
use v.Renderer.{Screen, update_clone_action}
use v.Renderer.Repositories.{
  repositories_answered, load_list, listed, is_selected, row_of, or_null, render_repositories,
}

find_member :
    {A : Type 0} (p : A → Bool) (xs : List A) {a : A} → find p xs ≡ some a → Any (λ x. x ≡ a) xs
find_member p [] h = absurd (ground (h, arith))
find_member p (x ∷ xs) {a} h = elim (Bool-cases (p x)) [
  | inl k ↦ inl (ground (h, k, arith))
  | inr k ↦ inr (find_member p xs (ground (h, k, arith)))
]

-- The selection is empty, or one of the repositories, with the id of the old selection.
abbrev pub IsChosen : Value → Screen → Type 0
IsChosen old s =
    (truthy s.selected_repository ≡ false)
    ⊎ (Any (λ r. r ≡ s.selected_repository) (listed s.repositories)
        × (is_selected old s.selected_repository ≡ true))

-- What is shown agrees with the state: the rows, and the clone button.
abbrev pub IsShown : Screen → Type 0
IsShown s =
    (s.rows ≡ map (row_of s.selected_repository) (listed s.repositories))
    × (s.clone_disabled ≡ not (truthy s.selected_repository && truthy s.clone_destination))
    × (s.refresh_disabled ≡ false)

found-IsChosen :
    (old : Value) (xs : List Value) (o : Option Value)
    → find (is_selected old) xs ≡ o
    → (truthy (or_null o) ≡ false)
      ⊎ (Any (λ r. r ≡ or_null o) xs × (is_selected old (or_null o) ≡ true))
unfolding truthy
found-IsChosen old xs none h = inl refl
found-IsChosen old xs (some v) h = elim (Bool-cases (truthy v)) [
  | inl k ↦ rw k (inr (find_member (is_selected old) xs h, find_sound (is_selected old) xs h))
  | inr k ↦ rw k (inl refl)
]

load_list-IsChosen :
    (o : Option (List Value)) (v : Value) (s : Screen)
    → as_array v ≡ o
    → IsChosen s.selected_repository (load_list o v s) × IsShown (load_list o v s)
unfolding render_repositories update_clone_action truthy
load_list-IsChosen none v s h = (inl refl, (refl, refl, refl))
load_list-IsChosen (some xs) v s h =
    (rw h (found-IsChosen s.selected_repository xs _ refl), (refl, refl, refl))

-- After the answer of a load, whatever it is, the selected repository is one of the repositories that
-- are listed now, and the one that was selected before by its id, or there is none; the rows show
-- the list with that selection, the clone button is enabled exactly when there is a selection and
-- a destination, and the list can be refreshed again.
pub repositories_answered-IsChosen :
    (o : Outcome Value) (s : Screen)
    → IsChosen s.selected_repository (repositories_answered o s)
      × IsShown (repositories_answered o s)
unfolding repositories_answered render_repositories update_clone_action truthy
repositories_answered-IsChosen (returned v) s = load_list-IsChosen (as_array v) v s refl
repositories_answered-IsChosen (threw e) s = (inl refl, (refl, refl, refl))
