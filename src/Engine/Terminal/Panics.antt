-- ===== src/Engine/Terminal/Panics.antt =====
-- When the handlers of rust/choosh-terminal-engine/src/terminal.rs panic: the actions of the parser that do,
-- in the terms of the terminal they find.
use choosh.Prelude.{
  ℕ, ◌≤◌, ◌<◌, ◌≡◌, ◌↔◌, ◌⊎◌, refl, sym, ◌∙◌, Option, none, some, u16_max, arith, subst, Bytes,
}
use choosh.Engine.Grid.{Grid, scroll_up, scroll_down}
use choosh.Engine.Grid.Regions.{scroll_up_panics, scroll_down_panics}
use choosh.Engine.Terminal.{Terminal, grid, with_grid, on_grid?, clamp_cursor}
use choosh.Engine.Terminal.Sgr.{Params}
use choosh.Engine.Terminal.Csi.{
  param, erase_display, erase_line, move_cursor, edit_cells, change_modes, csi_dispatch,
}
use choosh.Engine.Terminal.Perform.{Action, execute, csi}
use choosh.Engine.Terminal.Invariant.{Shape, IsValid, grid-rows}
use choosh.Engine.Terminal.Dispatch.{param-pos}
use choosh.Engine.Terminal.Safety.{change_modes-Shape, move_cursor-Shape}

-- The whole region from row 0 to the bottom margin, of two rows or more, scrolled by its height or more.
abbrev pub Overscrolls : Terminal → ℕ → ℕ → Type 0
Overscrolls t top n = (top ≡ 0) × (0 < t.scroll_bottom) × (t.scroll_bottom < n)

-- `J` or `K` with parameter 1, which adds 1 to a column that is the largest number of its type.
abbrev pub Overflows : Terminal → Params → Type 0
Overflows t ps = (param ps 0 0 ≡ 1) × (u16_max ≤ t.cursor.col)

abbrev pub CsiPanics : Terminal → Params → ℕ → Type 0
CsiPanics t ps action =
    ((action ≡ b'S') × Overscrolls t t.scroll_top (param ps 0 1))
    ⊎ ((action ≡ b'M') × Overscrolls t t.cursor.row (param ps 0 1))
    ⊎ (((action ≡ b'J') ⊎ (action ≡ b'K')) × Overflows t ps)

written_none :
    (t : Terminal) (o : Option Grid)
    → (elim o as (λ _. Option Terminal) [ none ↦ none | some g ↦ some (with_grid t g) ] ≡ none)
      ↔ (o ≡ none)
written_none t none = ((λ _. refl), (λ _. refl))
written_none t (some g) = ((λ h. cc), (λ h. cc))

scrolled_off :
    (t : Terminal) (top n : ℕ)
    → Shape t
    → (on_grid? (λ g. scroll_up g top t.scroll_bottom n) t ≡ none) ↔ Overscrolls t top n
scrolled_off t top n s =
    let w = written_none t (scroll_up (grid t) top t.scroll_bottom n) in
    let p = scroll_up_panics (grid t) top t.scroll_bottom n in
    (
      (λ h. omega (arith, p.0 (w.0 h), grid-rows t s, s.region_fits)),
      (λ h. w.1 (p.1 (omega (arith, h, grid-rows t s, s.region_fits)))),
    )

never_down :
    (t : Terminal) (top n : ℕ)
    → 0 < n
    → (on_grid? (λ g. scroll_down g top t.scroll_bottom n) t ≡ none)
    → ⊥
never_down t top n k h = omega (
  arith,
  (scroll_down_panics (grid t) top t.scroll_bottom n).0
      ((written_none t (scroll_down (grid t) top t.scroll_bottom n)).0 h),
  k,
)

edit_cells_panics :
    (t : Terminal) (ps : Params) (action : ℕ)
    → Shape t
    → (edit_cells t ps action ≡ none) ↔ CsiPanics t ps action
unfolding edit_cells erase_display erase_line
edit_cells_panics t ps action s = (
  (λ h. ground (
    arith,
    scrolled_off t t.scroll_top (param ps 0 1) s,
    scrolled_off t t.cursor.row (param ps 0 1) s,
    never_down t t.scroll_top (param ps 0 1),
    never_down t t.cursor.row (param ps 0 1),
    param-pos ps 0 1,
  )),
  (λ h. ground (
    arith,
    scrolled_off t t.scroll_top (param ps 0 1) s,
    scrolled_off t t.cursor.row (param ps 0 1) s,
  )),
)

change_modes_idle :
    (t : Terminal) (ps : Params) (is : Bytes) (action : ℕ)
    → (action ≡ b'J') ⊎ (action ≡ b'K') ⊎ (action ≡ b'M') ⊎ (action ≡ b'S')
    → change_modes t ps is action ≡ t
unfolding change_modes
change_modes_idle t ps is action h = ground arith

move_cursor_idle :
    (t : Terminal) (ps : Params) (action : ℕ)
    → (action ≡ b'J') ⊎ (action ≡ b'K') ⊎ (action ≡ b'M') ⊎ (action ≡ b'S')
    → move_cursor t ps action ≡ t
unfolding move_cursor
move_cursor_idle t ps action h = ground arith

CsiPanics-action :
    (t : Terminal) (ps : Params) (action : ℕ)
    → CsiPanics t ps action
    → (action ≡ b'J') ⊎ (action ≡ b'K') ⊎ (action ≡ b'M') ⊎ (action ≡ b'S')
CsiPanics-action t ps action h = ground arith

clamped_none :
    (o : Option Terminal)
    → (elim o as (λ _. Option Terminal) [ none ↦ none | some t ↦ some (clamp_cursor t) ] ≡ none)
      ↔ (o ≡ none)
clamped_none none = ((λ _. refl), (λ _. refl))
clamped_none (some t) = ((λ h. cc), (λ h. cc))

idle :
    (t : Terminal) (ps : Params) (is : Bytes) (action : ℕ)
    → (action ≡ b'J') ⊎ (action ≡ b'K') ⊎ (action ≡ b'M') ⊎ (action ≡ b'S')
    → move_cursor (change_modes t ps is action) ps action ≡ t
idle t ps is action h =
    move_cursor_idle (change_modes t ps is action) ps action h ∙ change_modes_idle t ps is action h

-- From a valid terminal `csi_dispatch` panics exactly if the sequence scrolls a region of two rows or more
-- that begins at row 0 by its height or more (`S` from the top margin, `M` from the row of the cursor), or is
-- `J` or `K` with parameter 1 while the column of the cursor is the largest number of its type.
pub csi_dispatch_panics :
    (t : Terminal) (ps : Params) (intermediates : Bytes) (action : ℕ)
    → IsValid t
    → (csi_dispatch t ps intermediates action ≡ none) ↔ CsiPanics t ps action
unfolding csi_dispatch
csi_dispatch_panics t ps is action v =
    let before = move_cursor (change_modes t ps is action) ps action in
    let shape =
      move_cursor-Shape (change_modes t ps is action) ps action
        (change_modes-Shape t ps is action v.shape) in
    let there = edit_cells_panics before ps action shape in
    (
      (λ h.
          let p = there.0 ((clamped_none _).0 h) in
          subst (λ u. CsiPanics u ps action)
            (idle t ps is action (CsiPanics-action before ps action p)) p),
      (λ p. (clamped_none _).1 (
          there.1 (
            subst (λ u. CsiPanics u ps action)
              (sym (idle t ps is action (CsiPanics-action t ps action p))) p))),
    )

-- The actions that panic.
unfoldable pub ActionPanics : Terminal → Action → Type 0
ActionPanics t (csi ps intermediates action) = CsiPanics t ps action
ActionPanics t (execute b) = (b ≡ 0x09) × (65528 ≤ t.cursor.col)
ActionPanics t _ = ⊥
