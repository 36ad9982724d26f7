-- ===== src/Engine/Grid/Scroll.antt =====
-- The loops of the two scrolls of rust/choosh-terminal-engine/src/grid.rs.
use choosh.Prelude.{
  ℕ, zero, suc, ◌+◌, ◌-◌, ◌≤◌, ◌<◌, ◌≡◌, ap, ◌∙◌, ◌&&◌, some, ltb, leb, if◌then◌else◌, arith,
}
use choosh.Engine.Grid.{blank, Grid, cell, clear_row, clear_rows, copy_row, copy_up, copy_down}
use choosh.Engine.Grid.Cells.{IsValid}
use choosh.Engine.Grid.Rows.{
  SameSize, SameSize-trans, copy_row-IsValid, copy_row-SameSize, cell-copy_row, clear_row-IsValid,
  clear_row-SameSize, cell-clear_row,
}

-- A grid that is valid and of the size of `g`.
pub record Like (g h : Grid) : Type 0 where
  pub valid : IsValid h
  pub same_size : SameSize g h

pub copy_up-Like : (n row count : ℕ) (g h : Grid) → Like g h → Like g (copy_up n row count h)
unfolding copy_up
copy_up-Like zero row count g h v = v
copy_up-Like (suc n) row count g h v =
    copy_up-Like n (row + 1) count g (copy_row h row (row + count)) (record {
      valid = copy_row-IsValid h row (row + count) v.valid;
      same_size = SameSize-trans v.same_size (copy_row-SameSize h row (row + count));
    })

pub copy_down-Like : (n row count : ℕ) (g h : Grid) → Like g h → Like g (copy_down n row count h)
unfolding copy_down
copy_down-Like zero row count g h v = v
copy_down-Like (suc n) row count g h v =
    copy_down-Like n (row - 1) count g (copy_row h row (row - count)) (record {
      valid = copy_row-IsValid h row (row - count) v.valid;
      same_size = SameSize-trans v.same_size (copy_row-SameSize h row (row - count));
    })

pub clear_rows-Like : (n row : ℕ) (g h : Grid) → Like g h → Like g (clear_rows n row h)
unfolding clear_rows
clear_rows-Like zero row g h v = v
clear_rows-Like (suc n) row g h v = clear_rows-Like n (row + 1) g (clear_row h row) (record {
  valid = clear_row-IsValid h row v.valid;
  same_size = SameSize-trans v.same_size (clear_row-SameSize h row);
})

pub cell-copy_up :
    (n row count : ℕ) (g : Grid) (c r : ℕ)
    → IsValid g
    → row + n + count ≤ g.rows
    → 0 < count
    → c < g.cols
    → cell (copy_up n row count g) c r
      ≡ (if leb row r && ltb r (row + n) then cell g c (r + count) else cell g c r)
unfolding copy_up
cell-copy_up zero row count g c r v h k hc = ground arith
cell-copy_up (suc n) row count g c r v h k hc =
    let s = copy_row-SameSize g row (row + count) in
    cell-copy_up n (row + 1) count (copy_row g row (row + count)) c r
      (copy_row-IsValid g row (row + count) v) (omega arith) k (omega arith)
    ∙ ground (
      arith,
      cell-copy_row g row (row + count) c r v,
      cell-copy_row g row (row + count) c (r + count) v,
      ap (cell g c) {x = row + count} {y = r + count},
    )

pub cell-clear_rows :
    (n row : ℕ) (g : Grid) (c r : ℕ)
    → IsValid g
    → row + n ≤ g.rows
    → c < g.cols
    → cell (clear_rows n row g) c r
      ≡ (if leb row r && ltb r (row + n) then some blank else cell g c r)
unfolding clear_rows
cell-clear_rows zero row g c r v h hc = ground arith
cell-clear_rows (suc n) row g c r v h hc =
    let s = clear_row-SameSize g row in
    cell-clear_rows n (row + 1) (clear_row g row) c r (clear_row-IsValid g row v) (omega arith)
      (omega arith)
    ∙ ground (arith, cell-clear_row g row c r v)

pub cell-copy_down :
    (n row count : ℕ) (g : Grid) (c r : ℕ)
    → IsValid g
    → n + count ≤ row + 1
    → row < g.rows
    → 0 < count
    → c < g.cols
    → cell (copy_down n row count g) c r
      ≡ (if ltb row (r + n) && leb r row then cell g c (r - count) else cell g c r)
unfolding copy_down
cell-copy_down zero row count g c r v h b k hc = ground arith
cell-copy_down (suc n) row count g c r v h b k hc =
    let s = copy_row-SameSize g row (row - count) in
    cell-copy_down n (row - 1) count (copy_row g row (row - count)) c r
      (copy_row-IsValid g row (row - count) v) (omega arith) (omega arith) k (omega arith)
    ∙ ground (
      arith,
      cell-copy_row g row (row - count) c r v,
      cell-copy_row g row (row - count) c (r - count) v,
      ap (cell g c) {x = row - count} {y = r - count},
    )
