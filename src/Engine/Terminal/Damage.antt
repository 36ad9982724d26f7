-- ===== src/Engine/Terminal/Damage.antt =====
-- Damage over whole runs of the parser of rust/choosh-terminal-engine/src/terminal.rs.
use choosh.Prelude.{
  ℕ, ◌≡◌, refl, max, ◌&&◌, ◌||◌, [], ◌∷◌, List, Option, none, some, ltb, leb, ◌==◌, u16_max, arith,
  if_elim, Bytes,
}
use choosh.Engine.Grid.Damage.{Tracks-trans}
use choosh.Engine.Terminal.{Terminal, Unicode, new_terminal, grid, move_to, move_col, clamp_cursor}
use choosh.Engine.Terminal.Sgr.{Params}
use choosh.Engine.Terminal.Csi.{move_cursor, edit_cells, change_modes, csi_dispatch}
use choosh.Engine.Terminal.Perform.{
  Action, print, execute, device_control, osc, csi, esc, is_digit, next_stop, execute_byte,
  osc_dispatch, esc_dispatch, perform, run_actions,
}
use choosh.Engine.Terminal.Invariant.{Shape, IsValid, Safe, grid-cols, grid-rows}
use choosh.Engine.Terminal.Safety.{kept, change_modes-Shape, move_cursor-Shape}
use choosh.Engine.Terminal.Runs.{Narrow, perform-IsValid}
use choosh.Engine.Terminal.Redraw.{
  Redraws, same_grid, move_to-Redraws, clamp_cursor-Redraws, line_feed-Redraws,
  reverse_index-Redraws, put_char-Redraws, Safe-trans,
}
use choosh.Engine.Terminal.Dispatch.{edit_cells-Shape}
use choosh.Engine.Terminal.Repaint.{edit_cells-Redraws}
use choosh.Engine.Terminal.Screens.{fresh, dressed-Redraws, change_modes-Redraws}

move_cursor-Redraws :
    (t : Terminal) (ps : Params) (action : ℕ) → Shape t → Redraws t (move_cursor t ps action)
unfolding move_cursor
move_cursor-Redraws t ps action s =
    let k : (c r : ℕ) → Redraws t (move_to t c r) = λ c r. move_to-Redraws t c r s in
    if_elim (Redraws t) (action == b'A') (k _ _) (
      if_elim (Redraws t) (action == b'B') (k _ _) (
        if_elim (Redraws t) (action == b'C') (k _ _) (
          if_elim (Redraws t) (action == b'D') (k _ _) (
            if_elim (Redraws t) (action == b'E') (k _ _) (
              if_elim (Redraws t) (action == b'F') (k _ _) (
                if_elim (Redraws t) (action == b'G' || action == b'`') (k _ _) (
                  if_elim (Redraws t) (action == b'H' || action == b'f') (k _ _)
                    (if_elim (Redraws t) (action == b'd') (k _ _) (same_grid t t s refl)))))))))

edited :
    (t : Terminal) (o : Option Terminal)
    → Safe Shape o
    → Safe (Redraws t) o
    → Safe (Redraws t) (elim o [ none ↦ none | some t' ↦ some (clamp_cursor t') ])
edited t none s d = tt
edited t (some t') s d = Tracks-trans d (clamp_cursor-Redraws t' s)

csi_dispatch-Redraws :
    (t : Terminal) (ps : Params) (intermediates : Bytes) (action : ℕ)
    → Shape t
    → Safe (Redraws t) (csi_dispatch t ps intermediates action)
unfolding csi_dispatch
csi_dispatch-Redraws t ps is action s =
    let changed = change_modes t ps is action in
    let changed_shape = change_modes-Shape t ps is action s in
    let moved = move_cursor changed ps action in
    let moved_shape = move_cursor-Shape changed ps action changed_shape in
    edited t (edit_cells moved ps action) (edit_cells-Shape moved ps action moved_shape) (
      Safe-trans t moved (edit_cells moved ps action)
        (Tracks-trans (change_modes-Redraws t ps is action s)
          (move_cursor-Redraws changed ps action changed_shape))
        (edit_cells-Redraws moved ps action moved_shape))

execute_byte-Redraws : (t : Terminal) (b : ℕ) → Shape t → Safe (Redraws t) (execute_byte t b)
unfolding execute_byte
execute_byte-Redraws t b s =
    let P = Safe (Redraws t) in
    let to : (c : ℕ) → Redraws t (move_col t c) = λ c. move_to-Redraws t c t.cursor.row s in
    if_elim P (b == 0x07) (dressed-Redraws t _ _ _ _ _ s) (
      if_elim P (b == 0x08) (to _) (
        if_elim P (b == 0x09) (if_elim P (ltb u16_max (next_stop t)) tt (to _)) (
          if_elim P (leb 0x0a b && leb b 0x0c) (line_feed-Redraws t s)
            (if_elim P (b == 0x0d) (to 0) (same_grid t t s refl)))))

grid-osc_dispatch :
    (u : Unicode) (t : Terminal) (ps : List Bytes) → grid (osc_dispatch u t ps) ≡ grid t
unfolding osc_dispatch grid
grid-osc_dispatch u t [] = refl
grid-osc_dispatch u t (kind ∷ []) =
    let P : Terminal → Type 0 = λ v. grid v ≡ grid t in
    if_elim P (is_digit kind b'0' || (is_digit kind b'1' || is_digit kind b'2')) refl
      (if_elim P (is_digit kind b'8') refl refl)
grid-osc_dispatch u t (kind ∷ p ∷ ps) =
    let P : Terminal → Type 0 = λ v. grid v ≡ grid t in
    if_elim P (is_digit kind b'0' || (is_digit kind b'1' || is_digit kind b'2')) refl
      (if_elim P (is_digit kind b'8') refl refl)

-- A reset shows a new grid of the size of the old one.
reset-Redraws : (t : Terminal) → Shape t → Redraws t (new_terminal (grid t).cols (grid t).rows)
unfolding new_terminal grid
reset-Redraws t s =
    fresh t (max (grid t).cols 1) (max (grid t).rows 1) s
      (omega (arith, grid-cols t s, s.some_cols)) (omega (arith, grid-rows t s, s.some_rows))

esc_dispatch-Redraws : (t : Terminal) (b : ℕ) → Shape t → Safe (Redraws t) (esc_dispatch t b)
unfolding esc_dispatch
esc_dispatch-Redraws t b s =
    let P = Safe (Redraws t) in
    if_elim P (b == b'D') (line_feed-Redraws t s) (
      if_elim P (b == b'E')
        (Safe-trans t (move_col t 0) _ (move_to-Redraws t 0 t.cursor.row s)
          (line_feed-Redraws (move_col t 0) (kept t _ _ _ _ _ _ s)))
        (if_elim P (b == b'M') (reverse_index-Redraws t s) (
          if_elim P (b == b'7') (dressed-Redraws t _ _ _ _ _ s) (
            if_elim P (b == b'8')
              (Tracks-trans (move_to-Redraws t _ _ s)
                (clamp_cursor-Redraws _ (kept t _ _ _ _ _ _ s)))
              (if_elim P (b == b'c') (reset-Redraws t s) (same_grid t t s refl))))))

perform-Redraws :
    (u : Unicode) (t : Terminal) (a : Action) → IsValid t → Safe (Redraws t) (perform u t a)
unfolding perform
perform-Redraws u t (print c) v = put_char-Redraws u t c v
perform-Redraws u t (execute b) v = execute_byte-Redraws t b v.shape
perform-Redraws u t device_control v = same_grid t t v.shape refl
perform-Redraws u t (osc ps) v = same_grid t _ v.shape (grid-osc_dispatch u t ps)
perform-Redraws u t (csi ps is b) v = csi_dispatch-Redraws t ps is b v.shape
perform-Redraws u t (esc b) v = esc_dispatch-Redraws t b v.shape

then-run :
    (u : Unicode) (t : Terminal) (rest : List Action) (o : Option Terminal)
    → ((t' : Terminal) → IsValid t' → Safe (Redraws t') (run_actions u t' rest))
    → Safe IsValid o
    → Safe (Redraws t) o
    → Safe (Redraws t) (elim o [ none ↦ none | some t' ↦ run_actions u t' rest ])
then-run u t rest none h v d = tt
then-run u t rest (some t') h v d = Safe-trans t t' (run_actions u t' rest) d (h t' v)

-- A run of the parser from a valid terminal, of any length and with any changes of screen, resets and scrolls in it,
-- keeps the size of the active grid until a panic. In the active grid that it leaves, a row that is not marked as
-- damaged was not marked before the run, and holds the cells that the row of the active grid held then,
-- so a renderer that redraws the marked rows misses nothing. The width table is one that gives no
-- character more than three columns.
pub run_actions-Redraws :
    (u : Unicode) (actions : List Action) (t : Terminal)
    → Narrow u
    → IsValid t
    → Safe (Redraws t) (run_actions u t actions)
unfolding run_actions
run_actions-Redraws u [] t n v = same_grid t t v.shape refl
run_actions-Redraws u (a ∷ rest) t n v =
    then-run u t rest (perform u t a) (λ t' v'. run_actions-Redraws u rest t' n v')
      (perform-IsValid u t a n v) (perform-Redraws u t a v)
