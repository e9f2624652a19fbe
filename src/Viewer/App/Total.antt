-- ===== src/Viewer/App/Total.antt =====
-- No sequence of events makes the viewer panic, and its indices stay within their lists.
use native.Mathlib.Nat.{mod-lt}
use ize.Prelude.{
  ℕ, zero, suc, ◌-◌, ◌<◌, ◌≡◌, refl, ◌⊎◌, inl, inr, Bool, true, false, not, ◌&&◌, List, [], ◌∷◌,
  Option, none, some, String, arith, Result-cases, length, get_elem?, is_empty, Option-cases,
  if◌then◌else◌, ◌==◌,
}
use ize.Viewer.Event.{Event}
use ize.Viewer.App.{Mode, normal, command, help, Env, App, new, quit, refresh_projects}
use ize.Viewer.App.Keys.{
  handle_event, handle_normal_event, handle_key, handle_other_key, handle_command_event,
  handle_help_event, next_channel, prev_channel, go_to_channel, reload, move_up, move_down, page_up,
  page_down, move_to_top, move_to_bottom, next_tab, select_item, execute_command, run_command,
  is_channels, move_back, move_on, trim,
}
use ize.Viewer.App.Loading.{IsValid, load_channel_changes-IsValid, update_channels-IsValid}

-- No panic, and a valid state.
abbrev pub Fine : Option App → Type 0
Fine none = ⊥
Fine (some app) = IsValid app

if_Fine : (b : Bool) (x y : Option App) → (b ≡ true → Fine x) → Fine y → Fine (if b then x else y)
if_Fine true x y h k = h refl
if_Fine false x y h k = k

get_elem?-total {ℓ} :
    {A : Type ℓ} (xs : List A) (i : ℕ) → i < length xs → (x : A) × (get_elem? xs i ≡ some x)
get_elem?-total [] i h = absurd (omega arith)
get_elem?-total (x ∷ xs) zero h = (x, refl)
get_elem?-total (x ∷ xs) (suc i) h = get_elem?-total xs i (omega arith)

reload-IsValid : (env : Env) (app : App) → IsValid app → IsValid (reload env app)
unfolding reload
reload-IsValid env app v = elim (Option-cases app.selected_project) [
  | inl e ↦ rw (e, reload) v
  | inr (p, e) ↦ elim (Result-cases (env.open_backend p)) [
    | inr (message, failed) ↦ rw (e, failed, reload) v
    | inl (b, opened) ↦ rw (e, opened, reload) (load_channel_changes-IsValid env app b v)
  ]
]

go_to_channel-Fine :
    (env : Env) (app : App) (i : ℕ)
    → IsValid app
    → i < length app.channel_names
    → Fine (go_to_channel env app i)
unfolding go_to_channel
go_to_channel-Fine env app i v h =
    let (name, found) = get_elem?-total app.channel_names i h in
    rw (found, go_to_channel)
      (reload-IsValid env (record app { channels_index = i; active_channel = name })
        (record { channels_fit = inr h; changes_fit = v.changes_fit }))

nonempty_pos {ℓ} : {A : Type ℓ} (xs : List A) → is_empty xs ≡ false → 0 < length xs
nonempty_pos [] h = cc
nonempty_pos (x ∷ xs) h = omega arith

guard_pos {ℓ} :
    {A : Type ℓ} (b : Bool) (xs : List A) → (b && not (is_empty xs)) ≡ true → 0 < length xs
guard_pos b [] h = ground arith
guard_pos b (x ∷ xs) h = omega arith

pub next_channel-Fine : (env : Env) (app : App) → IsValid app → Fine (next_channel env app)
unfolding next_channel
next_channel-Fine env app v =
    if_Fine (is_channels app.active_tab && not (is_empty app.channel_names)) _ _
      (λ h. go_to_channel-Fine env app _ v (mod-lt _ (guard_pos _ app.channel_names h))) v

prev_index-lt : (i n : ℕ) → 0 < n → i < n → (if i == 0 then n - 1 else i - 1) < n
prev_index-lt i n h k = ground arith

in_list {ℓ} :
    {A : Type ℓ} (xs : List A) (i : ℕ) → (xs ≡ []) ⊎ (i < length xs) → 0 < length xs → i < length xs
in_list [] i f h = absurd (omega arith)
in_list (x ∷ xs) i f h = ground arith

pub prev_channel-Fine : (env : Env) (app : App) → IsValid app → Fine (prev_channel env app)
unfolding prev_channel
prev_channel-Fine env app v =
    if_Fine (is_channels app.active_tab && not (is_empty app.channel_names)) _ _
      (λ h.
        let pos = guard_pos _ app.channel_names h in
        go_to_channel-Fine env app _ v (
          prev_index-lt app.channels_index (length app.channel_names) pos
            (in_list app.channel_names app.channels_index v.channels_fit pos)))
      v

module _ (app : App) (v : IsValid app) where
  move_back-IsValid : (n : ℕ) → IsValid (move_back n app)
  unfolding move_back
  move_back-IsValid n = ground arith

  move_on-IsValid : (n : ℕ) → IsValid (move_on n app)
  unfolding move_on
  move_on-IsValid n = grind arith

  move_to_top-IsValid : IsValid (move_to_top app)
  unfolding move_to_top
  move_to_top-IsValid = ground arith

  move_to_bottom-IsValid : IsValid (move_to_bottom app)
  unfolding move_to_bottom
  move_to_bottom-IsValid = grind arith

refresh_projects-IsValid :
    (env : Env) (app : App) → IsValid app → IsValid (refresh_projects env app)
unfolding refresh_projects
refresh_projects-IsValid env app v = ground arith

select_item-IsValid : (env : Env) (app : App) → IsValid app → IsValid (select_item env app)
unfolding select_item
select_item-IsValid env app v = grind (arith, update_channels-IsValid)

run_command-IsValid :
    (env : Env) (app : App) (cmd : List ℕ) → IsValid app → IsValid (run_command env app cmd)
unfolding run_command quit
run_command-IsValid env app cmd v = ground (arith, refresh_projects-IsValid env app v)

handle_other_key-Fine :
    (env : Env) (app : App) (k : ℕ) → IsValid app → Fine (handle_other_key env app k)
unfolding handle_other_key next_tab
handle_other_key-Fine env app k v = ground (
  arith,
  prev_channel-Fine env app v,
  next_channel-Fine env app v,
  move_to_top-IsValid app v,
  move_to_bottom-IsValid app v,
  refresh_projects-IsValid env app v,
)

handle_key-Fine : (env : Env) (app : App) (k : ℕ) → IsValid app → Fine (handle_key env app k)
unfolding handle_key quit move_down move_up
handle_key-Fine env app k v =
    ground
      (arith, move_on-IsValid app v 1, move_back-IsValid app v 1, handle_other_key-Fine env app k v)

handle_normal_event-Fine :
    (env : Env) (app : App) (e : Event) → IsValid app → Fine (handle_normal_event env app e)
unfolding handle_normal_event quit next_tab move_down move_up page_up page_down
handle_normal_event-Fine env app Event.quit v = record {
  channels_fit = v.channels_fit;
  changes_fit = v.changes_fit;
}
handle_normal_event-Fine env app (Event.key k) v = handle_key-Fine env app k v
handle_normal_event-Fine env app Event.up v = move_back-IsValid app v 1
handle_normal_event-Fine env app Event.down v = move_on-IsValid app v 1
handle_normal_event-Fine env app Event.left v = prev_channel-Fine env app v
handle_normal_event-Fine env app Event.right v = next_channel-Fine env app v
handle_normal_event-Fine env app Event.page_up v = move_back-IsValid app v 10
handle_normal_event-Fine env app Event.page_down v = move_on-IsValid app v 10
handle_normal_event-Fine env app Event.home v = move_to_top-IsValid app v
handle_normal_event-Fine env app Event.end v = move_to_bottom-IsValid app v
handle_normal_event-Fine env app Event.enter v = select_item-IsValid env app v
handle_normal_event-Fine env app e v = record {
  channels_fit = v.channels_fit;
  changes_fit = v.changes_fit;
}

handle_command_event-IsValid :
    (env : Env) (app : App) (e : Event) → IsValid app → IsValid (handle_command_event env app e)
unfolding handle_command_event execute_command
handle_command_event-IsValid env app Event.enter v =
    ground (arith, run_command-IsValid env app (trim app.command_buffer) v)
handle_command_event-IsValid env app e v = ground arith

handle_help_event-IsValid :
    (app : App) (e : Event) → IsValid app → IsValid (handle_help_event app e)
unfolding handle_help_event
handle_help_event-IsValid app Event.quit v = ground arith
handle_help_event-IsValid app e v = ground arith

pub handle_event-Fine :
    (env : Env) (app : App) (e : Event) → IsValid app → Fine (handle_event env app e)
unfolding handle_event
handle_event-Fine env app e v = by_mode app.mode
  where
    by_mode :
        (m : Mode)
        → Fine (elim m [
          | normal ↦ handle_normal_event env app e
          | command ↦ some (handle_command_event env app e)
          | help ↦ some (handle_help_event app e)
        ])
    by_mode normal = handle_normal_event-Fine env app e v
    by_mode command = handle_command_event-IsValid env app e v
    by_mode help = handle_help_event-IsValid app e v

pub Fine-some : (o : Option App) → Fine o → (app : App) × (o ≡ some app) × IsValid app
Fine-some none f = absurd f
Fine-some (some app) f = (app, refl, f)

-- The loop of `run_tui`, over the events that it reads while the application runs; what is read
-- from disk may differ from event to event.
unfoldable pub run : List (Env × Event) → App → Option App
run [] app = some app
run ((env, e) ∷ rest) app = elim (handle_event env app e) [
  | none ↦ none
  | some app' ↦ run rest app'
]

pub new-IsValid : (env : Env) (repo_path : String) → IsValid (new env repo_path)
unfolding new
new-IsValid env repo_path = record {
  channels_fit = inr (omega arith);
  changes_fit = inr (omega arith);
}
