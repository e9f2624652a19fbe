-- ===== src/Viewer/Terminal/Ends.antt =====
-- crates/izev/src/main.rs: the loop ends once the user presses Ctrl-C and keeps at it.
use ize.Prelude.{
  ℕ, zero, suc, ◌+◌, ◌<◌, ◌≤◌, ◌≡◌, refl, sym, ap, ◌∙◌, ◌⊎◌, inl, inr, Bool, true, false, Option,
  none, some, Result, ok, err, String, if◌then◌else◌, arith,
}
use ize.Viewer.Event.{Event}
use ize.Viewer.App.{normal, command, help, Env, App, new, quit}
use ize.Viewer.App.Keys.{handle_event, handle_normal_event, handle_command_event, handle_help_event}
use ize.Viewer.Terminal.{
  Terminal, Outcome, enter, poll_event, Ended, finished, failed, panicked, Turned, continue, ended,
  handled, answered, drawn, loop_body, tui_loop, closing, opened, entered, run_tui,
}
use ize.Viewer.Terminal.Laws.{after}

-- How many times Ctrl-C is still to be pressed.
unfoldable pub presses_left : App → ℕ
presses_left app = if app.running then elim app.mode [ normal ↦ 1 | command ↦ 2 | help ↦ 2 ] else 0

handle_event-quit :
    (env : Env) (app app' : App)
    → app.running ≡ true
    → handle_event env app Event.quit ≡ some app'
    → presses_left app' < presses_left app
unfolding handle_event handle_normal_event handle_command_event handle_help_event quit presses_left
handle_event-quit env app app' runs h = ground arith

few_presses : (app : App) → presses_left app ≤ 2
unfolding presses_left
few_presses app = ground arith

module _ (T : Terminal) (patience : T.State → ℕ) where
  -- A turn's event uses up the user's patience, or there is none left and it is Ctrl-C.
  abbrev pub UsesPatience : T.State → T.State × Result (Option Event) T.Error → Type 0
  UsesPatience s (s', err e) = Unit
  UsesPatience s (s', ok none) = patience s' < patience s
  UsesPatience s (s', ok (some event)) =
      (patience s' < patience s) ⊎ ((event ≡ Event.quit) × (patience s' ≡ 0))

  pub record Impatient : Type 0 where
    pub draw : (app : App) (s : T.State) → patience (T.draw app s).0 ≤ patience s
    pub poll_event : (s : T.State) → UsesPatience s (poll_event T s)

module _ (T : Terminal) (patience : T.State → ℕ) (I : Impatient T patience) where
  -- A turn ends the loop, or brings its end nearer.
  abbrev Nearer : App → T.State → Turned T → Type 0
  Nearer app s (continue app' s') =
      (patience s' < patience s) ⊎ ((presses_left app' < presses_left app) × (patience s' ≡ 0))
  Nearer app s (ended s' r) = Unit

  answered-Nearer :
      (app : App) (s s' : T.State) (out : T.State × Result (Option Event) T.Error)
      → app.running ≡ true
      → patience s' ≤ patience s
      → UsesPatience T patience s' out
      → Nearer app s (answered T app out)
  unfolding answered
  answered-Nearer app s s' (t, err e) runs le uses = tt
  answered-Nearer app s s' (t, ok none) runs le uses = inl (omega arith)
  answered-Nearer app s s' (t, ok (some event)) runs le uses =
      by_answer (handle_event (T.disk t) app event) refl
    where
      by_answer :
          (answer : Option App)
          → handle_event (T.disk t) app event ≡ answer
          → Nearer app s (handled T t answer)
      by_answer none h = tt
      by_answer (some app') h = elim uses [
        | inl less ↦ inl (omega arith)
        | inr (is_quit, out) ↦
            let quits = ap (λ e. handle_event (T.disk t) app e) (sym is_quit) ∙ h in
            inr (handle_event-quit (T.disk t) app app' runs quits, out)
      ]

  drawn-Nearer :
      (app : App) (s : T.State) (out : Outcome T)
      → app.running ≡ true
      → patience out.0 ≤ patience s
      → Nearer app s (drawn T app out)
  unfolding drawn
  drawn-Nearer app s (t, err e) runs le = tt
  drawn-Nearer app s (t, ok u) runs le =
      answered-Nearer app s t (poll_event T t) runs le (I.poll_event t)

  loop_body-Nearer : (app : App) (s : T.State) → Nearer app s (loop_body T app s)
  unfolding loop_body
  loop_body-Nearer app s = by_running app.running refl
    where
      by_running :
          (running : Bool)
          → app.running ≡ running
          → Nearer app s (if running then drawn T app (T.draw app s) else ended s finished)
      by_running true runs = drawn-Nearer app s (T.draw app s) runs (I.draw app s)
      by_running false stopped = tt

  abbrev Ends : Option (T.State × Ended T) → Type 0
  Ends o = (out : T.State × Ended T) × (o ≡ some out)

  abbrev Enough : ℕ → App → T.State → Type 0
  Enough n app s = (presses_left app < n) × ((patience s ≡ 0) ⊎ (patience s + 2 < n))

  Nearer-Enough :
      (n : ℕ) (app app' : App) (s s' : T.State)
      → Enough (suc n) app s
      → Nearer app s (continue app' s')
      → Enough n app' s'
  Nearer-Enough n app app' s s' (below, inl out) (inl less) = absurd (omega arith)
  Nearer-Enough n app app' s s' (below, inr left) (inl less) =
      let few = few_presses app' in (omega arith, inr (omega arith))
  Nearer-Enough n app app' s s' (below, left) (inr (fewer, out)) = (omega arith, inl out)

  after-Ends :
      (n : ℕ) (app : App) (s : T.State) (t : Turned T)
      → ((app : App) (s : T.State) → Enough n app s → Ends (tui_loop T n app s))
      → Enough (suc n) app s
      → Nearer app s t
      → Ends (after T n t)
  after-Ends n app s (continue app' s') next enough nearer =
      next app' s' (Nearer-Enough n app app' s s' enough nearer)
  after-Ends n app s (ended s' r) next enough nearer = ((s', r), refl)

  tui_loop-Ends : (n : ℕ) (app : App) (s : T.State) → Enough n app s → Ends (tui_loop T n app s)
  unfolding tui_loop
  tui_loop-Ends zero app s enough = absurd (omega (arith, enough.0))
  tui_loop-Ends (suc n) app s enough =
      after-Ends n app s (loop_body T app s) (tui_loop-Ends n) enough (loop_body-Nearer app s)

  closing-Ends : (o : Option (T.State × Ended T)) → Ends o → Ends (closing T o)
  unfolding closing
  closing-Ends none (out, h) = cc h
  closing-Ends (some (s, finished)) h = (_, refl)
  closing-Ends (some (s, failed e)) h = (_, refl)
  closing-Ends (some (s, panicked)) h = (_, refl)

  entered-Ends :
      (fuel : ℕ) (app : App) (out : Outcome T)
      → presses_left app ≡ 1
      → patience out.0 + 2 < fuel
      → Ends (entered T fuel app out)
  entered-Ends fuel app (s, err e) one enough = (_, refl)
  entered-Ends fuel app (s, ok u) one enough =
      closing-Ends (tui_loop T fuel app s) (tui_loop-Ends fuel app s (omega arith, inr enough))

  opened-Ends :
      (fuel : ℕ) (path : String) (out : Outcome T)
      → patience (enter T out.0).0 + 2 < fuel
      → Ends (opened T fuel path out)
  unfolding new presses_left
  opened-Ends fuel path (s, err e) enough = (_, refl)
  opened-Ends fuel path (s, ok u) enough =
      entered-Ends fuel (new (T.disk s) path) (enter T s) refl enough

  -- Let `patience` count turns of the loop, so that drawing does not add to it, and each poll that
  -- does not fail takes from it or, when none is left, finds Ctrl-C. Then the viewer ends within
  -- three turns more than what is counted once the terminal is entered, whatever mode it is in.
  pub run_tui-Ends :
      (fuel : ℕ) (path : String) (s : T.State)
      → patience (enter T (T.open_terminal s).0).0 + 2 < fuel
      → Ends (run_tui T fuel path s)
  unfolding run_tui
  run_tui-Ends fuel path s enough = opened-Ends fuel path (T.open_terminal s) enough
