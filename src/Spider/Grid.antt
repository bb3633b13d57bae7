-- ===== src/Spider/Grid.antt =====
-- The grid of the isolated files.
use v.Prelude.{ℕ, ◌+◌, ◌*◌, ◌/◌, ◌%◌, ◌≤◌, ◌≡◌, arith, ap, ◌∙◌, sym}
use native.Mathlib.Nat.{div-add-mod}
use v.Spider.Places.{grid_columns, grid_top, grid_cell}

grid_columns_lower : (n : ℕ) → 6 ≤ grid_columns n
unfolding grid_columns
grid_columns_lower n = omega arith

-- Two isolated files in one cell are the same: the grid gives each its own place.
grid_cell-injective :
    (isolated count i j : ℕ)
    → grid_cell (grid_columns isolated) (grid_top count) i
      ≡ grid_cell (grid_columns isolated) (grid_top count) j
    → i ≡ j
unfolding grid_cell
grid_cell-injective isolated count i j e =
    let c = grid_columns isolated in
    let x : 100 + i % c * 172 ≡ 100 + j % c * 172 = ap (λ (p : ℕ × ℕ). p.0) e in
    let y : grid_top count + i / c * 72 ≡ grid_top count + j / c * 72 = ap (λ (p : ℕ × ℕ). p.1) e in
    let same_column : i % c ≡ j % c = omega arith in
    let same_row : i / c ≡ j / c = omega arith in
    sym (div-add-mod i c)
    ∙ ap (λ q. c * q + i % c) same_row
    ∙ ap (λ r. c * (j / c) + r) same_column
    ∙ div-add-mod j c
