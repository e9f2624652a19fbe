-- ===== src/Viewer/Event.antt =====
-- crates/izev/src/event.rs: the viewer's events, and those of a key press as crossterm reports it.
use ize.Prelude.{ℕ, Bool, true, ◌||◌, ◌==◌, Option, none, some, if◌then◌else◌}

-- `key` has the character's code point.
pub data Event : Type 0 where
  quit : Event
  key : ℕ → Event
  up down left right tab backspace enter escape page_up page_down home end alt_p alt_c : Event
  resize : (width height : ℕ) → Event
  tick : Event

-- The key codes of crossterm that the program tells apart.
pub data KeyCode : Type 0 where
  char : ℕ → KeyCode
  up down left right tab enter backspace esc page_up page_down home end other : KeyCode

pub record KeyEvent : Type 0 where
  pub code : KeyCode
  pub control : Bool
  pub alt : Bool

-- The two `if` blocks that return early, as the event that they return.
unfoldable pub control_event : Bool → KeyCode → Option Event
control_event true (KeyCode.char c) = if c == b'c' || c == b'q' then some quit else none
control_event pressed code = none

unfoldable pub alt_event : Bool → KeyCode → Option Event
alt_event true (KeyCode.char c) =
    if c == b'p' then some alt_p else if c == b'c' then some alt_c else none
alt_event pressed code = none

unfoldable pub plain_event : KeyCode → Event
plain_event (KeyCode.char c) = key c
plain_event KeyCode.up = up
plain_event KeyCode.down = down
plain_event KeyCode.left = left
plain_event KeyCode.right = right
plain_event KeyCode.tab = tab
plain_event KeyCode.enter = enter
plain_event KeyCode.backspace = backspace
plain_event KeyCode.esc = escape
plain_event KeyCode.page_up = page_up
plain_event KeyCode.page_down = page_down
plain_event KeyCode.home = home
plain_event KeyCode.end = end
plain_event KeyCode.other = tick

abbrev or_else : Option Event → Event → Event
or_else none e = e
or_else (some found) e = found

unfoldable pub convert_key_event : KeyEvent → Event
unfolding control_event alt_event plain_event
convert_key_event k =
    or_else (control_event k.control k.code) (or_else (alt_event k.alt k.code) (plain_event k.code))

-- crossterm's `Event`: the kinds that the program tells apart.
pub data TerminalEvent : Type 0 where
  key_press : KeyEvent → TerminalEvent
  resized : (width height : ℕ) → TerminalEvent
  other : TerminalEvent

unfoldable pub convert_event : TerminalEvent → Event
unfolding convert_key_event
convert_event (key_press k) = convert_key_event k
convert_event (resized width height) = resize width height
convert_event TerminalEvent.other = tick
