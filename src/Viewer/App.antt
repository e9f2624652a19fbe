-- ===== src/Viewer/App.antt =====
-- crates/izev/src/app.rs: the state of the viewer and its answer to each event. What it reads from
-- disk is `Env`; its status line is kept without the wording. An index out of bounds, which would
-- panic, makes the result `none`.
pub mod Keys
pub mod Loading
pub mod Total
pub mod Navigation
use ize.Prelude.{
  ℕ, ◌-◌, ℤ, Bool, true, false, List, [], ◌∷◌, map, Option, none, some, Result, ok, err, String,
  codes, length, get_elem?,
}
use ize.Project.Manager.{ProjectInfo}
use ize.Viewer.Changes.{
  ChangeInfo, Relative, minutes_ago, hours_ago, hash_short, timestamp_relative,
}

pub data Mode : Type 0 where
  normal command help : Mode

pub data Tab : Type 0 where
  projects channels : Tab

unfoldable pub next : Tab → Tab
next projects = channels
next channels = projects

unfoldable pub prev : Tab → Tab
prev projects = channels
prev channels = projects

pub record ChangeEntry : Type 0 where
  pub id : List ℕ
  pub summary : String
  pub timestamp : Relative
  pub files_changed : ℕ

-- An opened `PijulBackend`: its current channel, `list_channels`, and the log of a channel, newest
-- first. An error is its text.
pub record Backend : Type 0 where
  pub current_channel : String
  pub list_channels : Result (List String) String
  pub log_reverse : String → Result (List ChangeInfo) String

-- `list_projects` is `none` if there is no project manager or it fails.
pub record Env : Type 0 where
  pub list_projects : Option (List ProjectInfo)
  pub open_backend : ProjectInfo → Result Backend String
  pub elapsed : ChangeInfo → ℤ

pub data Status : Type 0 where
  welcome : Status
  loaded_projects loaded_channels : ℕ → Status
  loaded_changes : (count : ℕ) (channel : String) → Status
  error_loading_channels error_opening_project error_loading_changes : String → Status
  jumped_to switched_to : Tab → Status
  selected : (source_dir : String) → Status
  viewing_change : (id : List ℕ) → Status
  unknown_command : List ℕ → Status

pub record App : Type 0 where
  pub running : Bool
  pub mode : Mode
  pub active_tab : Tab
  pub channel_names : List String
  pub active_channel : String
  pub repo_path : String
  pub status_message : Option Status
  pub command_buffer : List ℕ
  pub projects_index : ℕ
  pub changes_index : ℕ
  pub channels_index : ℕ
  pub project_list : List ProjectInfo
  pub changes : List ChangeEntry
  pub selected_project : Option ProjectInfo

abbrev placeholder : String → String → Relative → ℕ → ChangeEntry
placeholder id summary timestamp files = record {
  id = codes id;
  summary = summary;
  timestamp = timestamp;
  files_changed = files;
}

abbrev placeholders : List ChangeEntry
placeholders =
    placeholder "a1b2c3d" "Auto-save: modified src/main.rs" (minutes_ago 2) 1
    ∷ placeholder "e4f5g6h" "Auto-save: modified src/lib.rs, Cargo.toml" (minutes_ago 5) 2
    ∷ placeholder "i7j8k9l" "Auto-save: created src/utils.rs" (minutes_ago 12) 1
    ∷ placeholder "m0n1o2p" "Auto-save: modified README.md" (minutes_ago 25) 1
    ∷ placeholder "q3r4s5t" "Auto-save: deleted old_config.toml" (hours_ago 1) 1
    ∷ []

abbrev unwrap_or_default {ℓ} : {A : Type ℓ} → Option (List A) → List A
unwrap_or_default none = []
unwrap_or_default (some xs) = xs

unfoldable pub new : Env → String → App
new env repo_path = record {
  running = true;
  mode = normal;
  active_tab = projects;
  channel_names = "Stream" ∷ [];
  active_channel = "Stream";
  repo_path = repo_path;
  status_message = some welcome;
  command_buffer = [];
  projects_index = 0;
  changes_index = 0;
  channels_index = 0;
  project_list = unwrap_or_default env.list_projects;
  changes = placeholders;
  selected_project = none;
}

unfoldable pub quit : App → App
quit app = record app { running = false }

abbrev pub set_status : App → Status → App
set_status app s = record app { status_message = some s }

unfoldable pub refresh_projects : Env → App → App
refresh_projects env app = elim env.list_projects [
  | none ↦ app
  | some found ↦ set_status (record app { project_list = found }) (loaded_projects (length found))
]

abbrev pub to_entry : Env → ChangeInfo → ChangeEntry
to_entry env info = record {
  id = hash_short info;
  summary = info.message;
  timestamp = timestamp_relative (env.elapsed info);
  files_changed = info.files_changed;
}

unfoldable pub load_channel_changes : Env → App → Backend → App
load_channel_changes env app backend = elim (backend.log_reverse backend.current_channel) [
  | ok infos ↦
      set_status (record app { changes = map (to_entry env) infos; changes_index = 0 })
        (loaded_changes (length (map (to_entry env) infos)) app.active_channel)
  | err e ↦ record app { status_message = some (error_loading_changes e); changes = [] }
]

-- After `list_channels` has succeeded.
unfoldable pub show_channels : Env → App → Backend → List String → App
show_channels env app backend [] = record app {
  channel_names = [];
  channels_index = 0;
  status_message = some (loaded_channels 0);
}
show_channels env app backend (first ∷ rest) =
    set_status
      (load_channel_changes env
        (record app { channel_names = first ∷ rest; channels_index = 0; active_channel = first })
        backend)
      (loaded_channels (length (first ∷ rest)))

unfoldable pub update_channels : Env → App → App
unfolding show_channels
update_channels env app = elim app.selected_project [
  | none ↦ app
  | some project ↦ elim (env.open_backend project) [
    | err e ↦ set_status app (error_opening_project e)
    | ok backend ↦ elim backend.list_channels [
      | err e ↦ set_status app (error_loading_channels e)
      | ok names ↦ show_channels env app backend names
    ]
  ]
]

unfoldable pub selected_project_info : App → Option ProjectInfo
selected_project_info app = get_elem? app.project_list app.projects_index

unfoldable pub selected_change : App → Option ChangeEntry
selected_change app = get_elem? app.changes app.changes_index

unfoldable pub current_list_len : App → ℕ
current_list_len app = elim app.active_tab [
  | projects ↦ length app.project_list
  | channels ↦ length app.changes
]

unfoldable pub current_index : App → ℕ
current_index app = elim app.active_tab [
  | projects ↦ app.projects_index
  | channels ↦ app.changes_index
]
