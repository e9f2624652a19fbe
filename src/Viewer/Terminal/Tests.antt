-- ===== src/Viewer/Terminal/Tests.antt =====
-- A terminal on which a few keys wait, and then Ctrl-C.
use ize.Prelude.{
  ℕ, ◌≡◌, refl, inl, inr, Bool, true, false, List, [], ◌∷◌, length, none, some, Result, ok, err,
  arith, pos,
}
use ize.Viewer.Event.{KeyCode, TerminalEvent, key_press, resized, convert_event, convert_key_event}
use ize.Viewer.App.{Env}
use ize.Viewer.Terminal.{Terminal, enter, poll_event, Ended, run_tui}
use ize.Viewer.Terminal.Ends.{Impatient, UsesPatience, run_tui-Ends}

record Screen : Type 0 where
  raw : Bool
  alternate : Bool
  visible : Bool
  waiting : List TerminalEvent

abbrev no_disk : Env
no_disk = record { list_projects = none; open_backend = λ p. err "none"; elapsed = λ c. pos 0 }

abbrev ctrl_c : TerminalEvent
ctrl_c = key_press (record { code = KeyCode.char b'c'; control = true; alt = false })

abbrev colon : TerminalEvent
colon = key_press (record { code = KeyCode.char b':'; control = false; alt = false })

abbrev next_key : Screen → Screen × Result TerminalEvent ℕ
next_key s = elim s.waiting [ [] ↦ (s, ok ctrl_c) | e ∷ rest ↦ (record s { waiting = rest }, ok e) ]

abbrev small : Terminal
small = record {
  State = Screen;
  Error = ℕ;
  disk = λ s. no_disk;
  open_terminal = λ s. (s, ok tt);
  enable_raw_mode = λ s. (record s { raw = true }, ok tt);
  disable_raw_mode = λ s. (record s { raw = false }, ok tt);
  enter_alternate_screen = λ s. (record s { alternate = true }, ok tt);
  leave_alternate_screen = λ s. (record s { alternate = false }, ok tt);
  hide_cursor = λ s. (record s { visible = false }, ok tt);
  show_cursor = λ s. (record s { visible = true }, ok tt);
  clear = λ s. (s, ok tt);
  draw = λ app s. (s, ok tt);
  poll = λ s. (s, ok true);
  read = next_key;
}

abbrev shell : Screen
shell = record {
  raw = false;
  alternate = false;
  visible = true;
  waiting = resized 80 24 ∷ colon ∷ [];
}

abbrev patience : Screen → ℕ
patience s = length s.waiting

uses_waiting :
    (keys : List TerminalEvent) (s : Screen)
    → UsesPatience small patience
        (record s { waiting = keys })
        (poll_event small (record s { waiting = keys }))
unfolding poll_event convert_event convert_key_event
uses_waiting [] s = inr (refl, refl)
uses_waiting (k ∷ ks) s = inl (omega arith)

small-Impatient : Impatient small patience
small-Impatient = record { draw = λ app s. omega arith; poll_event = λ s. uses_waiting s.waiting s }

run_tui-Ends_example : (out : Screen × Ended small) × (run_tui small 5 "a" shell ≡ some out)
unfolding enter
run_tui-Ends_example = run_tui-Ends small patience small-Impatient 5 "a" shell (omega arith)
