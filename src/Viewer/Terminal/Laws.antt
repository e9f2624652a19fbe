-- ===== src/Viewer/Terminal/Laws.antt =====
-- crates/izev/src/tui.rs: the terminal is given back as it was taken.
use ize.Prelude.{ℕ, suc, ◌≡◌, ◌≢◌, refl, Bool, true, false, Option, none, some, Result, ok, err}
use ize.Viewer.Event.{Event}
use ize.Viewer.App.{App}
use ize.Viewer.App.Loading.{IsValid}
use ize.Viewer.Terminal.{Terminal, Ended, panicked, Turned, continue, ended, loop_body, tui_loop}

abbrev pub Succeeds : {E : Type 0} → Result (Unit {0}) E → Type 0
Succeeds r = r ≡ ok tt

-- What crossterm documents of the calls that give the terminal back: a call that succeeds has done
-- what it is for, and each call, failing or not, leaves alone what those before it are for.
pub record Restoring (T : Terminal) (visible raw alternate : T.State → Bool) : Type 0 where
  pub show_cursor :
      (s : T.State) → Succeeds (T.show_cursor s).1 → visible (T.show_cursor s).0 ≡ true
  pub disable_raw_mode :
      (s : T.State) → Succeeds (T.disable_raw_mode s).1 → raw (T.disable_raw_mode s).0 ≡ false
  pub raw_mode_keeps : (s : T.State) → visible (T.disable_raw_mode s).0 ≡ visible s
  pub leave_alternate_screen :
      (s : T.State)
      → Succeeds (T.leave_alternate_screen s).1
      → alternate (T.leave_alternate_screen s).0 ≡ false
  pub screen_keeps :
      (s : T.State)
      → (visible (T.leave_alternate_screen s).0 ≡ visible s)
        × (raw (T.leave_alternate_screen s).0 ≡ raw s)

module _ (T : Terminal) where
  -- The application is valid if the loop goes on, which does not panic.
  abbrev IsFine : Turned T → Type 0
  IsFine (continue app s) = IsValid app
  IsFine (ended s panicked) = ⊥
  IsFine (ended s r) = Unit

  abbrev Calm : Option (T.State × Ended T) → Type 0
  Calm none = Unit
  Calm (some (s, panicked)) = ⊥
  Calm (some (s, r)) = Unit

  -- What the loop does after a turn.
  abbrev pub after : ℕ → Turned T → Option (T.State × Ended T)
  after n (continue app s) = tui_loop T n app s
  after n (ended s r) = some (s, r)

  pub tui_loop-suc :
      (n : ℕ) (app : App) (s : T.State) → tui_loop T (suc n) app s ≡ after n (loop_body T app s)
  unfolding tui_loop
  tui_loop-suc n app s = refl

module _ (T : Terminal) (visible raw alternate : T.State → Bool)
    (R : Restoring T visible raw alternate) where
  -- The call failed, or the flag is as it should be.
  abbrev pub Unless : Result (Unit {0}) T.Error → Bool → Bool → Type 0
  Unless (ok u) flag wanted = flag ≡ wanted
  Unless (err e) flag wanted = Unit

  -- The state in which the three calls, one after the other, leave the terminal from some state, the
  -- cursor, the mode and the screen each restored unless the call for it failed.
  abbrev pub IsRestored : T.State → Type 0
  IsRestored s' =
      (s : T.State) × (let (s1, shown) = T.show_cursor s in
        let (s2, cooked) = T.disable_raw_mode s1 in
        let (s3, left) = T.leave_alternate_screen s2 in
        (s' ≡ s3)
        × Unless shown (visible s') true
        × Unless cooked (raw s') false
        × Unless left (alternate s') false)

  abbrev EndsWell : Option (T.State × Ended T) → Type 0
  EndsWell none = Unit
  EndsWell (some (s, r)) = IsRestored s × (r ≢ panicked)
