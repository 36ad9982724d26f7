-- ===== src/Engine/Modes.antt =====
-- rust/choosh-terminal-engine/src/modes.rs: the terminal modes.
use choosh.Prelude.{Bool, true, false}

pub data MouseTracking : Type 0 where
  no_tracking normal button_event any_event : MouseTracking

pub data MouseEncoding : Type 0 where
  sgr : MouseEncoding

pub record Modes : Type 0 where
  pub application_cursor_keys : Bool
  pub application_keypad : Bool
  pub bracketed_paste : Bool
  pub mouse_tracking : MouseTracking
  pub mouse_encoding : MouseEncoding
  pub origin_mode : Bool
  pub autowrap : Bool
  pub cursor_visible : Bool
  pub alt_screen_active : Bool
  pub insert_mode : Bool

-- `Modes::default`
abbrev pub default_modes : Modes
default_modes = record {
  application_cursor_keys = false;
  application_keypad = false;
  bracketed_paste = false;
  mouse_tracking = no_tracking;
  mouse_encoding = sgr;
  origin_mode = false;
  autowrap = true;
  cursor_visible = true;
  alt_screen_active = false;
  insert_mode = false;
}
