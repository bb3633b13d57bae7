-- ===== src/Layout/Widths.antt =====
-- The widths of the panes under drags.
use v.Prelude.{ℕ, ◌+◌, ◌-◌, ◌≤◌, List, [], ◌∷◌, arith}
use v.Layout.{
  AppState, ResizeTarget, sidebar, chat_pane, tasks_pane, width_of, lower, upper, start_resize,
  Drag, move, moves, clamp, set_width,
}

set_width-clamp :
    (t : ResizeTarget) (w : ℕ) (s : AppState)
    → (lower t ≤ width_of t (set_width t (clamp w (lower t) (upper t)) s))
      × (width_of t (set_width t (clamp w (lower t) (upper t)) s) ≤ upper t)
unfolding clamp
set_width-clamp sidebar w s = (omega arith, omega arith)
set_width-clamp chat_pane w s = (omega arith, omega arith)
set_width-clamp tasks_pane w s = (omega arith, omega arith)

move-IsInLimits :
    (d : Drag) (x : ℕ) (s : AppState)
    → (lower d.target ≤ width_of d.target (move d x s))
      × (width_of d.target (move d x s) ≤ upper d.target)
unfolding move clamp
move-IsInLimits d x s = set_width-clamp d.target (d.start_width + x - d.start_x) s

moves_from :
    (d : Drag) (xs : List ℕ) (s : AppState)
    → lower d.target ≤ width_of d.target s
    → width_of d.target s ≤ upper d.target
    → (lower d.target ≤ width_of d.target (moves d xs s))
      × (width_of d.target (moves d xs s) ≤ upper d.target)
unfolding moves
moves_from d [] s l u = (l, u)
moves_from d (x ∷ xs) s l u = let h = move-IsInLimits d x s in moves_from d xs (move d x s) h.0 h.1

-- A drag that moves at all leaves its pane within the pane's limits, even from a stored width outside
-- of them.
pub moves-bounded :
    (t : ResizeTarget) (start x : ℕ) (xs : List ℕ) (s : AppState)
    → (lower t ≤ width_of t (moves (start_resize t start s) (x ∷ xs) s))
      × (width_of t (moves (start_resize t start s) (x ∷ xs) s) ≤ upper t)
unfolding moves start_resize
moves-bounded t start x xs s =
    let d = start_resize t start s in
    let h = move-IsInLimits d x s in moves_from d xs (move d x s) h.0 h.1
