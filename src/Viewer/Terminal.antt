-- ===== src/Viewer/Terminal.antt =====
-- crates/izev/src/main.rs, tui.rs and `poll_event` of event.rs: the viewer's loop, and the terminal
-- that it takes and gives back. The loop has fuel, and `none` when that is used up; a panic drops
-- the `Tui` as a return does.
pub mod Laws
pub mod Ends
mod Tests
use ize.Prelude.{
  ℕ, zero, suc, Bool, true, false, Option, none, some, Result, ok, err, String, if◌then◌else◌,
}
use ize.Viewer.Event.{Event, tick, TerminalEvent, convert_event}
use ize.Viewer.App.{Env, App, new}
use ize.Viewer.App.Keys.{handle_event}

-- What tui.rs calls of crossterm and ratatui. The state also has the disk, as the viewer reads it.
pub record Terminal : Type 1 where
  pub State : Type 0
  pub Error : Type 0
  pub disk : State → Env
  pub open_terminal : State → State × Result (Unit {0}) Error
  pub enable_raw_mode : State → State × Result (Unit {0}) Error
  pub disable_raw_mode : State → State × Result (Unit {0}) Error
  pub enter_alternate_screen : State → State × Result (Unit {0}) Error
  pub leave_alternate_screen : State → State × Result (Unit {0}) Error
  pub hide_cursor : State → State × Result (Unit {0}) Error
  pub show_cursor : State → State × Result (Unit {0}) Error
  pub clear : State → State × Result (Unit {0}) Error
  pub draw : App → State → State × Result (Unit {0}) Error
  pub poll : State → State × Result Bool Error
  pub read : State → State × Result TerminalEvent Error

module _ (T : Terminal) where
  abbrev pub Outcome : Type 0
  Outcome = T.State × Result (Unit {0}) T.Error

  -- `?`, and what follows.
  abbrev pub proceed : Outcome → (T.State → Outcome) → Outcome
  proceed (s, ok u) f = f s
  proceed (s, err e) f = (s, err e)

  -- `Tui::enter`
  unfoldable pub enter : T.State → Outcome
  enter s =
      proceed (T.enable_raw_mode s)
        λ s. proceed (T.enter_alternate_screen s) λ s. proceed (T.hide_cursor s) T.clear

  -- `Tui::exit`
  unfoldable pub exit : T.State → Outcome
  exit s = proceed (T.show_cursor s) λ s. proceed (T.disable_raw_mode s) T.leave_alternate_screen

  -- `impl Drop for Tui`: each is tried, whatever became of the others.
  unfoldable pub drop : T.State → T.State
  drop s = (T.leave_alternate_screen (T.disable_raw_mode (T.show_cursor s).0).0).0

  abbrev converted :
      T.State × Result TerminalEvent T.Error → T.State × Result (Option Event) T.Error
  converted (s, ok e) = (s, ok (some (convert_event e)))
  converted (s, err e) = (s, err e)

  abbrev when_ready : T.State × Result Bool T.Error → T.State × Result (Option Event) T.Error
  when_ready (s, ok true) = converted (T.read s)
  when_ready (s, ok false) = (s, ok (some tick))
  when_ready (s, err e) = (s, err e)

  unfoldable pub poll_event : T.State → T.State × Result (Option Event) T.Error
  unfolding convert_event
  poll_event s = when_ready (T.poll s)

  -- How the viewer ends.
  pub data Ended : Type 0 where
    finished : Ended
    failed : T.Error → Ended
    panicked : Ended

  -- A turn of the loop goes on or ends it.
  pub data Turned : Type 0 where
    continue : App → T.State → Turned
    ended : T.State → Ended → Turned

  unfoldable pub handled : T.State → Option App → Turned
  handled s none = ended s panicked
  handled s (some app) = continue app s

  unfoldable pub answered : App → T.State × Result (Option Event) T.Error → Turned
  unfolding handled
  answered app (s, err e) = ended s (failed e)
  answered app (s, ok none) = continue app s
  answered app (s, ok (some event)) = handled s (handle_event (T.disk s) app event)

  unfoldable pub drawn : App → Outcome → Turned
  unfolding answered poll_event
  drawn app (s, err e) = ended s (failed e)
  drawn app (s, ok u) = answered app (poll_event s)

  unfoldable pub loop_body : App → T.State → Turned
  unfolding drawn
  loop_body app s = if app.running then drawn app (T.draw app s) else ended s finished

  unfoldable pub tui_loop : ℕ → App → T.State → Option (T.State × Ended)
  unfolding loop_body
  tui_loop zero app s = none
  tui_loop (suc n) app s = elim (loop_body app s) [
    | ended s r ↦ some (s, r)
    | continue app s ↦ tui_loop n app s
  ]

  -- The end of the function, after the loop.
  unfoldable pub closing : Option (T.State × Ended) → Option (T.State × Ended)
  unfolding exit drop
  closing none = none
  closing (some (s, finished)) =
      let (s, out) = exit s in some (drop s, elim out [ ok u ↦ finished | err e ↦ failed e ])
  closing (some (s, r)) = some (drop s, r)

  abbrev entered : ℕ → App → Outcome → Option (T.State × Ended)
  entered fuel app (s, err e) = some (drop s, failed e)
  entered fuel app (s, ok u) = closing (tui_loop fuel app s)

  abbrev opened : ℕ → String → Outcome → Option (T.State × Ended)
  opened fuel path (s, err e) = some (s, failed e)
  opened fuel path (s, ok u) = entered fuel (new (T.disk s) path) (enter s)

  unfoldable pub run_tui : ℕ → String → T.State → Option (T.State × Ended)
  unfolding enter tui_loop closing new
  run_tui fuel path s = opened fuel path (T.open_terminal s)
