-- ===== src/Engine/Grid/Regions.antt =====
-- The two scrolls of rust/choosh-terminal-engine/src/grid.rs: where each row of the region comes from,
-- and when they panic.
use choosh.Prelude.{
  ℕ, ◌+◌, ◌-◌, ◌≤◌, ◌<◌, ◌≡◌, ◌↔◌, refl, min, ◌&&◌, ◌⊎◌, lt→ltb, le→ltb, inl, inr, Option, none,
  some, ltb, leb, if◌then◌else◌, arith,
}
use choosh.Engine.Grid.{
  Cell, blank, Grid, cell, clear_rows, copy_up, copy_down, scroll_up, scroll_down,
}
use choosh.Engine.Grid.Cells.{IsValid}
use choosh.Engine.Grid.Scroll.{
  Like, copy_up-Like, copy_down-Like, clear_rows-Like, cell-copy_up, cell-clear_rows,
  cell-copy_down,
}

unmoved : {g : Grid} → IsValid g → Like g g
unmoved v = record { valid = v; same_size = record { same_cols = refl; same_rows = refl } }

-- The last row of a region that ends at `bottom`, in a grid of `rows` rows.
abbrev pub last_row : ℕ → ℕ → ℕ
last_row bottom rows = min bottom (rows - 1)

-- `scroll_up` panics exactly if the region begins at row 0, has two rows or more, and is scrolled by its
-- height or more.
pub scroll_up_panics :
    (g : Grid) (top bottom count : ℕ)
    → (scroll_up g top bottom count ≡ none)
      ↔ ((top ≡ 0) × (0 < last_row bottom g.rows) × (last_row bottom g.rows < count))
unfolding scroll_up
scroll_up_panics g top bottom count = ((λ h. ground arith), (λ h. ground arith))

pub scroll_down_panics :
    (g : Grid) (top bottom count : ℕ)
    → (scroll_down g top bottom count ≡ none)
      ↔ ((top ≡ 0) × (0 < last_row bottom g.rows) × (count ≡ 0))
unfolding scroll_down
scroll_down_panics g top bottom count = ((λ h. ground arith), (λ h. ground arith))

-- The cell of row `r` once rows `top` to `bottom` have moved up, or down, by `count`.
abbrev pub moved_up : Grid → ℕ → ℕ → ℕ → ℕ → ℕ → Option Cell
moved_up g top bottom count c r =
    if leb top r && leb r bottom
    then if leb (r + count) bottom then cell g c (r + count) else some blank
    else cell g c r

abbrev pub moved_down : Grid → ℕ → ℕ → ℕ → ℕ → ℕ → Option Cell
moved_down g top bottom count c r =
    if leb top r && leb r bottom
    then if leb (top + count) r then cell g c (r - count) else some blank
    else cell g c r

scrolled_up : Grid → ℕ → ℕ → ℕ → Grid
unfolding copy_up clear_rows
scrolled_up g top bottom count =
    clear_rows count (bottom - count + 1) (copy_up (bottom - count + 1 - top) top count g)

cell-scrolled_up :
    (g : Grid) (top bottom count c r : ℕ)
    → IsValid g
    → top < bottom
    → bottom < g.rows
    → 0 < count
    → count ≤ bottom
    → count ≤ bottom - top + 1
    → c < g.cols
    → Like g (scrolled_up g top bottom count)
      × (cell (scrolled_up g top bottom count) c r ≡ moved_up g top bottom count c r)
unfolding scrolled_up
cell-scrolled_up g top bottom count c r v ht hb hk hc hn hcol =
    let n = bottom - count + 1 - top in
    let start : Like g g = record {
      valid = v;
      same_size = record { same_cols = refl; same_rows = refl };
    } in
    let copied = copy_up-Like n top count g g start in
    (
      clear_rows-Like count (bottom - count + 1) g (copy_up n top count g) copied,
      ground (
        arith,
        cell-clear_rows count (bottom - count + 1) (copy_up n top count g) c r copied.valid,
        copied.same_size.same_cols,
        copied.same_size.same_rows,
        cell-copy_up n top count g c r v,
      ),
    )

scrolled_down : Grid → ℕ → ℕ → ℕ → Grid
unfolding copy_down clear_rows
scrolled_down g top bottom count =
    clear_rows count top (copy_down (bottom + 1 - (top + count)) bottom count g)

cell-scrolled_down :
    (g : Grid) (top bottom count c r : ℕ)
    → IsValid g
    → top < bottom
    → bottom < g.rows
    → 0 < count
    → count ≤ bottom - top + 1
    → c < g.cols
    → Like g (scrolled_down g top bottom count)
      × (cell (scrolled_down g top bottom count) c r ≡ moved_down g top bottom count c r)
unfolding scrolled_down
cell-scrolled_down g top bottom count c r v ht hb hk hn hcol =
    let n = bottom + 1 - (top + count) in
    let start : Like g g = record {
      valid = v;
      same_size = record { same_cols = refl; same_rows = refl };
    } in
    let copied = copy_down-Like n bottom count g g start in
    (
      clear_rows-Like count top g (copy_down n bottom count g) copied,
      ground (
        arith,
        cell-clear_rows count top (copy_down n bottom count g) c r copied.valid,
        copied.same_size.same_cols,
        copied.same_size.same_rows,
        cell-copy_down n bottom count g c r v,
      ),
    )

scroll_up-eq_some :
    (g g' : Grid) (top bottom count : ℕ)
    → scroll_up g top bottom count ≡ some g'
    → let t = last_row top g.rows in
      let b = last_row bottom g.rows in
      ((b ≤ t) × (g' ≡ g))
      ⊎ ((t < b) × (min count (b - t + 1) ≤ b) × (g' ≡ scrolled_up g t b (min count (b - t + 1))))
unfolding scroll_up scrolled_up
scroll_up-eq_some g g' top bottom count h = ground arith

-- Where `scroll_up` by one row or more of a valid grid does not panic, it keeps the size and the invariant of the grid. A region of at most one row
-- is left alone; otherwise each row of the region reads as the row `count` below it did, where
-- that lies in the region, and is blank where it does not; rows outside are as they were. The
-- region ends at the last row of the grid at most, and `count` is cut to its height.
pub scroll_up_lem :
    {g g' : Grid} (top bottom count c r : ℕ)
    → IsValid g
    → 0 < count
    → scroll_up g top bottom count ≡ some g'
    → c < g.cols
    → let t = last_row top g.rows in
      let b = last_row bottom g.rows in
      Like g g'
      × (cell g' c r ≡ (if ltb t b then moved_up g t b (min count (b - t + 1)) c r else cell g c r))
scroll_up_lem {g} {g'} top bottom count c r v hk h hc =
    elim (scroll_up-eq_some g g' top bottom count h) [
      | inl (small, e) ↦
          rw (e, le→ltb (last_row top g.rows) (last_row bottom g.rows) small) (unmoved v, refl)
      | inr (large, fits, e) ↦
          rw (e, lt→ltb (last_row top g.rows) (last_row bottom g.rows) large)
            (cell-scrolled_up g (last_row top g.rows) (last_row bottom g.rows) _ c r v large
              (omega arith) (omega arith) fits (omega arith) hc)
    ]

scroll_down-eq_some :
    (g g' : Grid) (top bottom count : ℕ)
    → scroll_down g top bottom count ≡ some g'
    → let t = last_row top g.rows in
      let b = last_row bottom g.rows in
      ((b ≤ t) × (g' ≡ g)) ⊎ ((t < b) × (g' ≡ scrolled_down g t b (min count (b - t + 1))))
unfolding scroll_down scrolled_down
scroll_down-eq_some g g' top bottom count h = ground arith

-- Where `scroll_down` by one row or more of a valid grid does not panic, it keeps the size and the invariant of the grid. A region of at most one
-- row is left alone; otherwise each row of the region reads as the row `count` above it did,
-- where that lies in the region, and is blank where it does not; rows outside are as they were.
-- The region ends at the last row of the grid at most, and `count` is cut to its height.
pub scroll_down_lem :
    {g g' : Grid} (top bottom count c r : ℕ)
    → IsValid g
    → 0 < count
    → scroll_down g top bottom count ≡ some g'
    → c < g.cols
    → let t = last_row top g.rows in
      let b = last_row bottom g.rows in
      Like g g'
      × (cell g' c r
          ≡ (if ltb t b then moved_down g t b (min count (b - t + 1)) c r else cell g c r))
scroll_down_lem {g} {g'} top bottom count c r v hk h hc =
    elim (scroll_down-eq_some g g' top bottom count h) [
      | inl (small, e) ↦
          rw (e, le→ltb (last_row top g.rows) (last_row bottom g.rows) small) (unmoved v, refl)
      | inr (large, e) ↦
          rw (e, lt→ltb (last_row top g.rows) (last_row bottom g.rows) large)
            (cell-scrolled_down g (last_row top g.rows) (last_row bottom g.rows) _ c r v large
              (omega arith) (omega arith) (omega arith) hc)
    ]
