-- ===== src/Engine/Terminal/Screens.antt =====
-- Damage over the modes and the change of screens of rust/choosh-terminal-engine/src/terminal.rs.
use choosh.Prelude.{
  ℕ, ◌-◌, ◌≡◌, refl, sym, ap, min, Bool, true, false, ◌||◌, [], ◌∷◌, List, leb, ◌==◌, if◌then◌else◌,
  if_elim, Bytes,
}
use choosh.Engine.Grid.{Cursor, new_grid, mark_all_dirty}
use choosh.Engine.Grid.Cells.{new_grid-IsValid}
use choosh.Engine.Grid.Damage.{
  Tracks, Tracks-refl, Tracks-trans, all_marked, new_grid_marked, mark_all_dirty_marked,
}
use choosh.Engine.Modes.{Modes}
use choosh.Engine.Grid.Damage.{mark_all_dirty-IsValid}
use choosh.Engine.Terminal.{Pen, SavedCursor, Terminal, grid, clamp_cursor}
use choosh.Engine.Terminal.Sgr.{Params}
use choosh.Engine.Terminal.Csi.{
  param, switch_alt_screen, set_private_mode, set_private_modes, set_scroll_region, set_insert_mode,
  set_cursor_style, change_modes,
}
use choosh.Engine.Terminal.Invariant.{Shape, grid-GridIsValid, grid-cols, grid-rows}
use choosh.Engine.Terminal.Safety.{set_private_mode-Shape}
use choosh.Engine.Terminal.Redraw.{Redraws, same_grid}

pub fresh :
    (t : Terminal) (cols rows : ℕ)
    → Shape t
    → cols ≡ (grid t).cols
    → rows ≡ (grid t).rows
    → Tracks (grid t) (new_grid cols rows)
unfolding new_grid
fresh t cols rows s ec er =
    all_marked
      (record {
        valid = new_grid-IsValid cols rows;
        same_size = record { same_cols = ec; same_rows = er };
      })
      (new_grid_marked cols rows)

shown : (t : Terminal) → Shape t → Tracks (grid t) (mark_all_dirty t.primary)
unfolding mark_all_dirty
shown t s =
    all_marked
      (record {
        valid = mark_all_dirty-IsValid t.primary s.primary_valid;
        same_size = record { same_cols = sym (grid-cols t s); same_rows = sym (grid-rows t s) };
      })
      (λ r h. mark_all_dirty_marked t.primary r s.primary_valid h)

-- A change of screen marks every row of the one that it shows.
switch_alt_screen-Redraws :
    (t : Terminal) (enable save : Bool) → Shape t → Redraws t (switch_alt_screen t enable save)
unfolding switch_alt_screen clamp_cursor grid
switch_alt_screen-Redraws t true save s =
    if_elim (Redraws t) t.modes.alt_screen_active (same_grid t t s refl)
      (fresh t t.primary.cols t.primary.rows s (sym (grid-cols t s)) (sym (grid-rows t s)))
switch_alt_screen-Redraws t false save s =
    if_elim (Redraws t) t.modes.alt_screen_active (shown t s) (same_grid t t s refl)

same_screen :
    (t : Terminal)
    → Shape t
    → (c : Cursor) (m : Modes) → m.alt_screen_active ≡ t.modes.alt_screen_active
    → Redraws t (record t { cursor = c; modes = m })
same_screen t s c m e = same_grid t _ s (unfold grid in ap (λ b. if b then t.alt else t.primary) e)

-- The cursor, the pen, the title and the bell are not part of a grid.
pub dressed-Redraws :
    (t : Terminal) (c : Cursor) (sc : SavedCursor) (pen : Pen) (title : List ℕ) (bell : Bool)
    → Shape t
    → Redraws t
        (record t { cursor = c; saved_cursor = sc; pen = pen; title = title; pending_bell = bell })
unfolding grid
dressed-Redraws t c sc pen title bell s = Tracks-refl (grid t) (grid-GridIsValid t s)

set_private_mode-Redraws :
    (t : Terminal) (code : ℕ) (enabled : Bool)
    → Shape t
    → Redraws t (set_private_mode t code enabled)
unfolding set_private_mode
set_private_mode-Redraws t code enabled s =
    let k : (c : Cursor) (m : Modes)
        → m.alt_screen_active ≡ t.modes.alt_screen_active
        → Redraws t (record t { cursor = c; modes = m }) =
      same_screen t s in
    if_elim (Redraws t) (code == 1) (k _ _ refl) (
      if_elim (Redraws t) (code == 6) (k _ _ refl) (
        if_elim (Redraws t) (code == 7) (k _ _ refl) (
          if_elim (Redraws t) (code == 25) (k _ _ refl) (
            if_elim (Redraws t) (code == 1000) (k _ _ refl) (
              if_elim (Redraws t) (code == 1002) (k _ _ refl) (
                if_elim (Redraws t) (code == 1003) (k _ _ refl) (
                  if_elim (Redraws t) (code == 1006) (k _ _ refl) (
                    if_elim (Redraws t) (code == 2004) (k _ _ refl) (
                      if_elim (Redraws t) (code == 47 || code == 1047)
                        (switch_alt_screen-Redraws t enabled false s)
                        (if_elim (Redraws t) (code == 1049)
                          (switch_alt_screen-Redraws t enabled true s)
                          (same_grid t t s refl)))))))))))

set_private_modes-Redraws :
    (ps : Params) (enabled : Bool) (t : Terminal)
    → Shape t
    → Redraws t (set_private_modes ps enabled t)
unfolding set_private_modes
set_private_modes-Redraws [] enabled t s = same_grid t t s refl
set_private_modes-Redraws ([] ∷ ps) enabled t s = set_private_modes-Redraws ps enabled t s
set_private_modes-Redraws ((c ∷ _) ∷ ps) enabled t s =
    Tracks-trans (set_private_mode-Redraws t c enabled s)
      (set_private_modes-Redraws ps enabled _ (set_private_mode-Shape t c enabled s))

plain_mode :
    (t : Terminal) (ps : Params) (enabled : Bool) → grid (set_insert_mode t ps enabled) ≡ grid t
unfolding set_insert_mode grid
plain_mode t ps enabled = if_elim (λ u. grid u ≡ grid t) (param ps 0 0 == 4) refl refl

plain_region : (t : Terminal) (ps : Params) → grid (set_scroll_region t ps) ≡ grid t
unfolding set_scroll_region grid
plain_region t ps =
    let last = (grid t).rows - 1 in
    if_elim (λ u. grid u ≡ grid t)
      (leb (min (param ps 1 (grid t).rows - 1) last) (min (param ps 0 1 - 1) last)) refl refl

pub change_modes-Redraws :
    (t : Terminal) (ps : Params) (intermediates : Bytes) (action : ℕ)
    → Shape t
    → Redraws t (change_modes t ps intermediates action)
unfolding change_modes set_cursor_style
change_modes-Redraws t ps intermediates action s =
    if_elim (Redraws t) (action == b'h')
      (if_elim (Redraws t) _ (set_private_modes-Redraws ps true t s)
        (same_grid t _ s (plain_mode t ps true)))
      (if_elim (Redraws t) (action == b'l')
        (if_elim (Redraws t) _ (set_private_modes-Redraws ps false t s)
          (same_grid t _ s (plain_mode t ps false)))
        (if_elim (Redraws t) (action == b'm') (dressed-Redraws t _ _ _ _ _ s) (
          if_elim (Redraws t) _ (dressed-Redraws t _ _ _ _ _ s) (
            if_elim (Redraws t) (action == b'r') (same_grid t _ s (plain_region t ps))
              (same_grid t t s refl)))))
