-- ===== src/Viewer/App/Navigation.antt =====
-- Moving about: the selection stays in the list, the channel keys undo each other, and three ways
-- in which the viewer does not do what its texts say.
use native.Mathlib.Nat.{mod-eq_of_lt, mod_self}
use ize.Prelude.{
  ℕ, zero, suc, ◌+◌, ◌-◌, ◌%◌, ◌≤◌, ◌<◌, ◌≡◌, ◌≢◌, refl, ◌∙◌, sym, ap, ◌⊎◌, inl, inr, true, false,
  List, [], ◌∷◌, none, some, ok, map, arith, length, get_elem?, is_empty, Bool-cases, Option-cases,
  if◌then◌else◌, ◌==◌,
}
use ize.Viewer.Event.{Event}
use ize.Viewer.App.{
  normal, command, channels, Env, Backend, App, to_entry, refresh_projects, load_channel_changes,
  selected_project_info, current_list_len, loaded_changes, current_index,
}
use ize.Project.Manager.{ProjectInfo}
use ize.Viewer.Changes.{ChangeInfo}
use ize.Viewer.App.Keys.{
  handle_event, handle_command_event, next_channel, prev_channel, go_to_channel, reload, move_up,
  move_down, page_up, page_down, move_to_top, move_to_bottom, execute_command, is_channels,
}
use ize.Viewer.App.Loading.{IsValid}
use ize.Viewer.App.Total.{Fine-some, next_channel-Fine, prev_channel-Fine}

-- From a selection within the list of the active tab, each key that moves it leaves it within.
moves_in_range :
    (app : App)
    → current_index app < current_list_len app
    → (current_index (move_up app) < current_list_len (move_up app))
      × (current_index (move_down app) < current_list_len (move_down app))
      × (current_index (page_up app) < current_list_len (page_up app))
      × (current_index (page_down app) < current_list_len (page_down app))
      × (current_index (move_to_top app) < current_list_len (move_to_top app))
      × (current_index (move_to_bottom app) < current_list_len (move_to_bottom app))
unfolding current_index current_list_len move_up move_down page_up page_down move_to_top
    move_to_bottom
moves_in_range app h = ground arith

handle_event_command :
    (env : Env) (app : App) (e : Event)
    → app.mode ≡ command
    → handle_event env app e ≡ some (handle_command_event env app e)
unfolding handle_event
handle_event_command env app e h = simp (h, handle_event)

-- In command mode the Enter key leaves the viewer in normal mode whatever was typed, so the command
-- `help` does not show the help screen.
pub command_enter_normal :
    (env : Env) (app : App)
    → app.mode ≡ command
    → (app' : App) × (handle_event env app Event.enter ≡ some app')
      × (app'.mode ≡ normal)
      × (app'.command_buffer ≡ [])
unfolding handle_event handle_command_event execute_command
command_enter_normal env app h = (
  handle_command_event env app Event.enter,
  handle_event_command env app Event.enter h,
  refl,
  refl,
)

reload_keeps :
    (env : Env) (app : App)
    → ((reload env app).channel_names ≡ app.channel_names)
      × ((reload env app).channels_index ≡ app.channels_index)
      × ((reload env app).active_tab ≡ app.active_tab)
unfolding reload load_channel_changes
reload_keeps env app = ground arith

go_to_channel_keeps :
    (env : Env) (app a : App) (i : ℕ)
    → go_to_channel env app i ≡ some a
    → (a.channel_names ≡ app.channel_names)
      × (a.channels_index ≡ i)
      × (a.active_tab ≡ app.active_tab)
unfolding go_to_channel
go_to_channel_keeps env app a i h = elim (Option-cases (get_elem? app.channel_names i)) [
  | inl e ↦ ground arith
  | inr (name, e) ↦
      let kept = reload_keeps env (record app { channels_index = i; active_channel = name }) in
      (cc, cc, cc)
]

next_channel_goes :
    (env : Env) (app : App)
    → app.active_tab ≡ channels
    → is_empty app.channel_names ≡ false
    → next_channel env app
      ≡ go_to_channel env app ((app.channels_index + 1) % length app.channel_names)
unfolding next_channel is_channels
next_channel_goes env app tab full = ground arith

abbrev before : ℕ → ℕ → ℕ
before i n = if i == 0 then n - 1 else i - 1

prev_channel_goes :
    (env : Env) (app : App)
    → app.active_tab ≡ channels
    → is_empty app.channel_names ≡ false
    → prev_channel env app
      ≡ go_to_channel env app (before app.channels_index (length app.channel_names))
unfolding prev_channel is_channels
prev_channel_goes env app tab full = ground arith

both_stay :
    (env : Env) (app : App)
    → is_empty app.channel_names ≡ true
    → (next_channel env app ≡ some app) × (prev_channel env app ≡ some app)
unfolding prev_channel next_channel
both_stay env app none_there = ground arith

next_cases : (i n : ℕ) → i < n → (i + 1 < n) ⊎ (i + 1 ≡ n)
next_cases i n h = ground arith

before_after : (i n : ℕ) → i < n → before ((i + 1) % n) n ≡ i
before_after i n h = elim (next_cases i n h) [
  | inl k ↦ rw (mod-eq_of_lt k) (ground arith)
  | inr k ↦ rw (k, mod_self n) (ground arith)
]

fits_full {ℓ} :
    {A : Type ℓ} (xs : List A) (i : ℕ)
    → (xs ≡ []) ⊎ (i < length xs)
    → is_empty xs ≡ false
    → i < length xs
fits_full [] i h k = cc
fits_full (x ∷ xs) i h k = ground arith

back_at_start :
    (env : Env) (app a b : App)
    → IsValid app
    → app.active_tab ≡ channels
    → next_channel env app ≡ some a
    → prev_channel env a ≡ some b
    → (b.channels_index ≡ app.channels_index) × (b.channel_names ≡ app.channel_names)
back_at_start env app a b v tab there back = elim (Bool-cases (is_empty app.channel_names)) [
  | inl e ↦ let (stay, back_stay) = both_stay env app e in (cc, cc)
  | inr full ↦
      let (names, index, kept) =
        go_to_channel_keeps env app a _ (sym (next_channel_goes env app tab full) ∙ there) in
      let (names', index', kept') =
        go_to_channel_keeps env a b _ (
          sym (prev_channel_goes env a (kept ∙ tab) (ap (λ xs. is_empty xs) names ∙ full))
          ∙ back) in
      (
        index'
            ∙ rw (index, names) refl
            ∙ before_after app.channels_index (length app.channel_names)
                (fits_full app.channel_names app.channels_index v.channels_fit full),
        names' ∙ names,
      )
]

-- In a valid state with the channels' tab active, the keys for the next channel and then for the
-- previous channel do not panic and come back to the channel at which the viewer was.
prev_channel-next_channel :
    (env : Env) (app : App)
    → IsValid app
    → app.active_tab ≡ channels
    → (a : App) × (b : App) × (next_channel env app ≡ some a)
      × (prev_channel env a ≡ some b)
      × (b.channels_index ≡ app.channels_index)
      × (b.channel_names ≡ app.channel_names)
prev_channel-next_channel env app v tab =
    let (a, there, w) = Fine-some (next_channel env app) (next_channel-Fine env app v) in
    let (b, back, w') = Fine-some (prev_channel env a) (prev_channel-Fine env a w) in
    let (index, names) = back_at_start env app a b v tab there back in
    (a, b, there, back, index, names)

-- With a project open whose backend opens and whose log can be read, and with the tab of the
-- channels active and not empty, the next channel's name comes with the changes of the backend's
-- current channel, whichever channel was chosen.
next_channel_shows_current :
    (env : Env) (app app' : App) (project : ProjectInfo) (b : Backend) (infos : List ChangeInfo)
    → app.selected_project ≡ some project
    → env.open_backend project ≡ ok b
    → b.log_reverse b.current_channel ≡ ok infos
    → app.active_tab ≡ channels
    → app.channel_names ≢ []
    → next_channel env app ≡ some app'
    → (app'.changes ≡ map (to_entry env) infos)
      × (app'.status_message
          ≡ some (loaded_changes (length (map (to_entry env) infos)) app'.active_channel))
unfolding next_channel go_to_channel reload load_channel_changes
next_channel_shows_current env app app' project b infos sel opened log tab full done = ground arith

get_elem?_behind {ℓ} : {A : Type ℓ} (xs : List A) (i : ℕ) → length xs ≤ i → get_elem? xs i ≡ none
get_elem?_behind [] i h = refl
get_elem?_behind (x ∷ xs) zero h = absurd (omega arith)
get_elem?_behind (x ∷ xs) (suc i) h = get_elem?_behind xs i (omega arith)

-- When a refresh finds no more projects than the index says, nothing is selected, although the
-- list may have entries.
pub refresh_loses_selection :
    (env : Env) (app : App) (found : List ProjectInfo)
    → env.list_projects ≡ some found
    → length found ≤ app.projects_index
    → selected_project_info (refresh_projects env app) ≡ none
unfolding selected_project_info refresh_projects
refresh_loses_selection env app found e h =
    rw (e, refresh_projects) (get_elem?_behind found app.projects_index h)
