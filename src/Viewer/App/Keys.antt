-- ===== src/Viewer/App/Keys.antt =====
-- crates/izev/src/app.rs, `handle_event` and the methods that it calls.
use ize.Prelude.{
  ℕ, ◌+◌, ◌-◌, ◌%◌, Bool, true, false, not, ◌&&◌, ◌||◌, ltb, leb, ◌==◌, List, [], ◌∷◌, ◌++◌,
  reverse, Option, none, some, ok, err, codes, codes_eq, length, get_elem?, is_empty, min,
  if◌then◌else◌,
}
use ize.Viewer.Event.{Event}
use ize.Viewer.App.{
  normal, command, help, Tab, projects, channels, next, prev, Env, jumped_to, switched_to, selected,
  viewing_change, unknown_command, App, quit, set_status, refresh_projects, load_channel_changes,
  update_channels, selected_project_info, selected_change,
}

unfoldable pub is_channels : Tab → Bool
is_channels projects = false
is_channels channels = true

unfoldable pub next_tab : App → App
next_tab app = record app { active_tab = next app.active_tab }

unfoldable pub prev_tab : App → App
prev_tab app = record app { active_tab = prev app.active_tab }

-- The end of `next_channel` and of `prev_channel`: the changes are read again.
unfoldable pub reload : Env → App → App
reload env app = elim app.selected_project [
  | none ↦ app
  | some project ↦ elim (env.open_backend project) [
    | err e ↦ app
    | ok backend ↦ load_channel_changes env app backend
  ]
]

-- `self.active_channel = self.channels[i].clone()`, with `self.channels_index = i`.
unfoldable pub go_to_channel : Env → App → ℕ → Option App
unfolding reload
go_to_channel env app i = elim (get_elem? app.channel_names i) [
  | none ↦ none
  | some name ↦ some (reload env (record app { channels_index = i; active_channel = name }))
]

unfoldable pub next_channel : Env → App → Option App
unfolding is_channels
next_channel env app =
    if is_channels app.active_tab && not (is_empty app.channel_names)
    then go_to_channel env app ((app.channels_index + 1) % length app.channel_names)
    else some app

unfoldable pub prev_channel : Env → App → Option App
unfolding is_channels
prev_channel env app =
    if is_channels app.active_tab && not (is_empty app.channel_names)
    then go_to_channel env app
        (if app.channels_index == 0 then length app.channel_names - 1 else app.channels_index - 1)
    else some app

-- `saturating_sub` is `-`.
unfoldable pub move_back : ℕ → App → App
move_back step app = elim app.active_tab [
  | projects ↦ record app { projects_index = app.projects_index - step }
  | channels ↦ record app { changes_index = app.changes_index - step }
]

abbrev forward {ℓ} : {A : Type ℓ} → ℕ → List A → ℕ → ℕ
forward step xs i = if is_empty xs then i else min (i + step) (length xs - 1)

unfoldable pub move_on : ℕ → App → App
move_on step app = elim app.active_tab [
  | projects ↦ record app { projects_index = forward step app.project_list app.projects_index }
  | channels ↦ record app { changes_index = forward step app.changes app.changes_index }
]

unfoldable pub move_up : App → App
unfolding move_back
move_up app = move_back 1 app

unfoldable pub move_down : App → App
unfolding move_on
move_down app = move_on 1 app

unfoldable pub page_up : App → App
unfolding move_back
page_up app = move_back 10 app

unfoldable pub page_down : App → App
unfolding move_on
page_down app = move_on 10 app

unfoldable pub move_to_top : App → App
move_to_top app = elim app.active_tab [
  | projects ↦ record app { projects_index = 0 }
  | channels ↦ record app { changes_index = 0 }
]

abbrev last {ℓ} : {A : Type ℓ} → List A → ℕ → ℕ
last xs i = if is_empty xs then i else length xs - 1

unfoldable pub move_to_bottom : App → App
move_to_bottom app = elim app.active_tab [
  | projects ↦ record app { projects_index = last app.project_list app.projects_index }
  | channels ↦ record app { changes_index = last app.changes app.changes_index }
]

unfoldable pub select_item : Env → App → App
select_item env app = elim app.active_tab [
  | projects ↦ elim (selected_project_info app) [
    | none ↦ app
    | some project ↦ update_channels env (record app {
      selected_project = some project;
      status_message = some (selected project.source_dir);
      active_tab = channels;
    })
  ]
  | channels ↦ elim (selected_change app) [
    | none ↦ app
    | some change ↦ set_status app (viewing_change change.id)
  ]
]

-- `char::is_whitespace`, `char::is_control` and `str::trim`, on code points.
abbrev is_whitespace : ℕ → Bool
is_whitespace c =
    leb 0x9 c && leb c 0xd
    || c == 0x20
    || c == 0x85
    || c == 0xa0
    || c == 0x1680
    || leb 0x2000 c && leb c 0x200a
    || c == 0x2028
    || c == 0x2029
    || c == 0x202f
    || c == 0x205f
    || c == 0x3000

abbrev is_control : ℕ → Bool
is_control c = ltb c 0x20 || leb 0x7f c && leb c 0x9f

trim_start : List ℕ → List ℕ
trim_start [] = []
trim_start (c ∷ cs) = let rest = trim_start cs in if is_whitespace c then rest else c ∷ cs

unfoldable pub trim : List ℕ → List ℕ
unfolding trim_start
trim text = reverse (trim_start (reverse (trim_start text)))

-- The `match` on the trimmed command.
unfoldable pub run_command : Env → App → List ℕ → App
run_command env app cmd =
    if codes_eq cmd (codes "q") || codes_eq cmd (codes "quit")
    then quit app
    else if codes_eq cmd (codes "help")
    then record app { mode = help }
    else if codes_eq cmd (codes "projects")
    then set_status (record app { active_tab = projects }) (switched_to projects)
    else if codes_eq cmd (codes "channels") || codes_eq cmd (codes "stream")
    then set_status (record app { active_tab = channels }) (switched_to channels)
    else if codes_eq cmd (codes "refresh") || codes_eq cmd (codes "r")
    then refresh_projects env app
    else set_status app (unknown_command cmd)

unfoldable pub execute_command : Env → App → App
execute_command env app =
    let app' = run_command env app (trim app.command_buffer) in record app' { command_buffer = [] }

-- `Event::Key(key)` in normal mode, from the arm of `g` on.
unfoldable pub handle_other_key : Env → App → ℕ → Option App
unfolding next_tab
handle_other_key env app k =
    if k == b'g'
    then some (move_to_top app)
    else if k == b'G'
    then some (move_to_bottom app)
    else if k == b'r' || k == b'R'
    then some (refresh_projects env app)
    else if k == 9
    then some (next_tab app)
    else if k == b'['
    then prev_channel env app
    else if k == b']'
    then next_channel env app
    else some app

-- `Event::Key(key)` in normal mode.
unfoldable pub handle_key : Env → App → ℕ → Option App
handle_key env app k =
    if k == b'q'
    then some (quit app)
    else if k == b'?' || k == b'h'
    then some (record app { mode = help })
    else if k == b':'
    then some (record app { mode = command; command_buffer = [] })
    else if k == b'j' || k == b'J'
    then some (move_down app)
    else if k == b'k' || k == b'K'
    then some (move_up app)
    else handle_other_key env app k

unfoldable pub handle_normal_event : Env → App → Event → Option App
handle_normal_event env app Event.quit = some (quit app)
handle_normal_event env app (Event.key k) = handle_key env app k
handle_normal_event env app Event.tab = some (next_tab app)
handle_normal_event env app Event.alt_p =
    some (set_status (record app { active_tab = projects }) (jumped_to projects))
handle_normal_event env app Event.alt_c =
    some (set_status (record app { active_tab = channels }) (jumped_to channels))
handle_normal_event env app Event.up = some (move_up app)
handle_normal_event env app Event.down = some (move_down app)
handle_normal_event env app Event.left = prev_channel env app
handle_normal_event env app Event.right = next_channel env app
handle_normal_event env app Event.page_up = some (page_up app)
handle_normal_event env app Event.page_down = some (page_down app)
handle_normal_event env app Event.home = some (move_to_top app)
handle_normal_event env app Event.end = some (move_to_bottom app)
handle_normal_event env app Event.enter = some (select_item env app)
handle_normal_event env app e = some app

-- `String::pop`
unfoldable pub pop_char : List ℕ → List ℕ
pop_char [] = []
pop_char (c ∷ []) = []
pop_char (c ∷ d ∷ cs) = c ∷ pop_char (d ∷ cs)

unfoldable pub handle_command_event : Env → App → Event → App
handle_command_event env app Event.quit = record app { mode = normal; command_buffer = [] }
handle_command_event env app Event.escape = record app { mode = normal; command_buffer = [] }
handle_command_event env app Event.enter =
    let app' = execute_command env app in record app' { mode = normal }
handle_command_event env app Event.backspace = record app {
  command_buffer = pop_char app.command_buffer;
}
handle_command_event env app (Event.key c) =
    if is_control c then app else record app { command_buffer = app.command_buffer ++ (c ∷ []) }
handle_command_event env app e = app

unfoldable pub handle_help_event : App → Event → App
handle_help_event app Event.quit = record app { mode = normal }
handle_help_event app Event.escape = record app { mode = normal }
handle_help_event app (Event.key c) =
    if c == b'q' || c == b'?' then record app { mode = normal } else app
handle_help_event app e = app

-- `none` is a panic.
unfoldable pub handle_event : Env → App → Event → Option App
handle_event env app e = elim app.mode [
  | normal ↦ handle_normal_event env app e
  | command ↦ some (handle_command_event env app e)
  | help ↦ some (handle_help_event app e)
]
