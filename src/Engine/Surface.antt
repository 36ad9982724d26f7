-- ===== src/Engine/Surface.antt =====
-- `Engine` of rust/choosh-terminal-engine/src/lib.rs: what a renderer and an input handler ask of the terminal. Its
-- `write` is `run_actions` of Engine/Terminal/Perform, its `resize` the one of the terminal.
use choosh.Prelude.{ℕ, zero, suc, ◌+◌, List, [], ◌∷◌, if◌then◌else◌, Bytes}
use choosh.Engine.Grid.{Grid, is_dirty, visible_text}
use choosh.Engine.Keys.{Key, Modifiers, encode_key, encode_paste}
use choosh.Engine.Mouse.{MouseEvent, Report, encode_mouse}
use choosh.Engine.Terminal.{Terminal, grid}

-- The marked rows among the `count` from `row` on.
unfoldable pub dirty_from : ℕ → ℕ → Grid → List ℕ
dirty_from zero row g = []
dirty_from (suc count) row g =
    let rest = dirty_from count (row + 1) g in if is_dirty g row then row ∷ rest else rest

unfoldable pub dirty_rows : Terminal → List ℕ
unfolding dirty_from
dirty_rows t = dirty_from (grid t).rows 0 (grid t)

unfoldable pub engine_visible_text : Terminal → List ℕ
engine_visible_text t = visible_text (grid t)

unfoldable pub engine_encode_mouse : Terminal → MouseEvent → Report
engine_encode_mouse t event = encode_mouse t.modes event

unfoldable pub engine_encode_key : Terminal → Key → Modifiers → Bytes
engine_encode_key t key mods = encode_key t.modes key mods

unfoldable pub engine_encode_paste : Terminal → Bytes → Bytes
engine_encode_paste t paste = encode_paste t.modes paste
