-- ===== src/Viewer/Tests.antt =====
-- The viewer on two projects, whose repository has two channels.
use ize.Prelude.{◌≢◌, inr, true, List, [], ◌∷◌, none, some, ok, String, codes, arith, pos}
use ize.Viewer.Event.{Event}
use ize.Project.Manager.{ProjectInfo}
use ize.Viewer.Changes.{ChangeInfo}
use ize.Viewer.App.{normal, command, channels, Env, Backend, App, to_entry, loaded_changes}
use ize.Viewer.App.Loading.{IsValid}

abbrev project : String → ProjectInfo
project dir = record {
  uuid = "0001";
  source_dir = dir;
  project_path = "store";
  created = "today";
  default_channel = "main";
  name = dir;
}

abbrev fix : ChangeInfo
fix = record {
  hash = codes "ABCDEFGHIJ";
  message = "fix";
  description = none;
  timestamp = pos 5;
  authors = [];
  files_changed = 2;
}

abbrev repository : Backend
repository = record {
  current_channel = "main";
  list_channels = ok ("main" ∷ "work" ∷ []);
  log_reverse = λ channel. ok (fix ∷ []);
}

abbrev disk : Env
disk = record {
  list_projects = some (project "a" ∷ project "b" ∷ []);
  open_backend = λ p. ok repository;
  elapsed = λ c. pos 120;
}

abbrev typed : List (Env × Event)
typed = (disk, Event.enter) ∷ (disk, Event.right) ∷ (disk, Event.page_down) ∷ []

-- Two projects, the second selected; the second of two channels.
abbrev viewer : App
viewer = record {
  running = true;
  mode = normal;
  active_tab = channels;
  channel_names = "main" ∷ "work" ∷ [];
  active_channel = "work";
  repo_path = "a";
  status_message = none;
  command_buffer = codes "help";
  projects_index = 1;
  changes_index = 0;
  channels_index = 1;
  project_list = project "a" ∷ project "b" ∷ [];
  changes = to_entry disk fix ∷ [];
  selected_project = some (project "a");
}

abbrev viewer-IsValid : IsValid viewer
viewer-IsValid = record { channels_fit = inr (omega arith); changes_fit = inr (omega arith) }

abbrev typing : App
typing = record viewer { mode = command }

abbrev at_work : App
at_work = record viewer { channels_index = 0; active_channel = "main" }

abbrev moved : App
moved = record viewer { status_message = some (loaded_changes 1 "work") }

has_channels : viewer.channel_names ≢ []
has_channels h = cc

abbrev shrunk : Env
shrunk = record disk { list_projects = some (project "a" ∷ []) }
