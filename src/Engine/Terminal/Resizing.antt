-- ===== src/Engine/Terminal/Resizing.antt =====
-- `Terminal::resize` of rust/choosh-terminal-engine/src/terminal.rs.
use choosh.Prelude.{ℕ, ◌≤◌, ◌<◌, ◌≡◌, sym, ◌∙◌, max, arith, u16_max}
use choosh.Engine.Grid.{Grid}
use choosh.Engine.Grid
use choosh.Engine.Grid.Cells.{IsValid as GridIsValid}
use choosh.Engine.Grid.Resize.{cell-resize}
use choosh.Engine.Terminal.{Terminal}
use choosh.Engine.Terminal
use choosh.Engine.Terminal.Invariant.{IsValid}

resized :
    (g : Grid) (cols rows : ℕ)
    → GridIsValid g
    → 0 < cols
    → 0 < rows
    → GridIsValid (Grid.resize g cols rows)
      × ((Grid.resize g cols rows).cols ≡ cols)
      × ((Grid.resize g cols rows).rows ≡ rows)
resized g cols rows v h k = let r = cell-resize g cols rows 0 0 v h k in (r.0, r.1, r.2)

-- A resize of two valid grids to any size that fits `u16`, an empty one included, leaves a valid terminal of that size (of a row and a column at
-- least), whatever the scroll region and the cursor were before.
pub resize-IsValid :
    (t : Terminal) (cols rows : ℕ)
    → GridIsValid t.primary
    → GridIsValid t.alt
    → cols ≤ u16_max
    → rows ≤ u16_max
    → IsValid (Terminal.resize t cols rows)
      × ((Terminal.resize t cols rows).primary.cols ≡ max cols 1)
      × ((Terminal.resize t cols rows).primary.rows ≡ max rows 1)
unfolding Terminal.resize
resize-IsValid t cols rows p a hc hr =
    let primary = resized t.primary (max cols 1) (max rows 1) p (omega arith) (omega arith) in
    let alt = resized t.alt (max cols 1) (max rows 1) a (omega arith) (omega arith) in
    (
      record {
        shape = record {
          primary_valid = primary.0;
          alt_valid = alt.0;
          alt_cols = alt.1 ∙ sym primary.1;
          alt_rows = alt.2 ∙ sym primary.2;
          some_cols = omega (arith, primary.1);
          some_rows = omega (arith, primary.2);
          cols_fit = omega (arith, primary.1);
          rows_fit = omega (arith, primary.2);
          region = omega arith;
          region_fits = omega (arith, primary.2);
        };
        row_fits = omega (arith, primary.2);
        col_fits = omega (arith, primary.1);
      },
      primary.1,
      primary.2,
    )
