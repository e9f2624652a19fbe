-- ===== src/Project/Tests.antt =====
-- A central directory with one project, over the small libpijul.
use ize.Prelude.{
  if◌then◌else◌, String, List, Bool, ℕ, ◌≡◌, All, Result, arith, true, [], ◌∷◌, some, none, ok,
  str_eq, refl,
}
use ize.Pijul.Backend.Toy.{Database, toy}
use ize.Project.Termination.{IsAbove, Returns, create_project-Returns}
use ize.Project.Create.{create_project}
use ize.Project.{SourceEntry, is_directory, ProjectMetadata, Central, IzeProject}
use ize.Project.Manager.{ProjectInfo, ProjectManager}
use ize.Project.Laws.{IsListed, find_by_source_dir-IsListed}

abbrev stored : Database
stored = record { files = []; tree = []; channels = "main" ∷ []; current = "main" }

abbrev metadata : ProjectMetadata
metadata = record {
  project = record { uuid = "u1"; source_dir = "/src"; created = "today"; name = none };
  pijul = record { default_channel = "main" };
}

abbrev one_project : Central toy
one_project = record {
  disk = record {
    State = Database;
    join = λ p q. q;
    exists = λ path d. true;
    create_dir_all = λ path d. (d, ok tt);
    write = λ path text d. (d, ok tt);
    pristine_new = λ path d. (d, ok d);
  };
  change_files = λ path d. [];
  read_to_string = λ path d. ok "text";
  read_dir = λ path d. ok (ok "u1" ∷ []);
  canonicalize = λ path d. ok path;
  remove_dir_all = λ path d. (d, ok tt);
  from_str = λ text. ok metadata;
  path_eq = str_eq;
  file_name = λ path. some "src";
  file_name_str = λ path. some "u2";
  is_dir = λ path d. true;
  display = λ path. path;
  to_string_pretty = λ metadata. ok "text";
  read_entries = λ path d.
      if str_eq path "a"
      then ok (ok (record { path = "b"; file_name = "b"; file_type = ok is_directory }) ∷ [])
      else ok [];
  copy = λ p q d. (d, ok tt);
  read_link = λ p d. ok "target";
  symlink = λ p q d. (d, ok tt);
}

abbrev manager : ProjectManager
manager = record { central_dir = "c" }

abbrev project : IzeProject toy one_project
project = record {
  project_dir = "u1";
  pijul = record {
    pijul_dir = ".pijul";
    working_dir = "working";
    pristine = stored;
    change_files = [];
    current_channel = "main";
  };
  meta_dir = "meta";
  source_dir = "/src";
  uuid = "u1";
}

abbrev info : ProjectInfo
info = record {
  uuid = "u1";
  source_dir = "/src";
  project_path = "u1";
  created = "today";
  default_channel = "main";
  name = "src";
}

find_by_source_dir-IsListed_example : IsListed toy one_project project (info ∷ [])
unfolding ize.Project.Manager.find_by_source_dir ize.Project.Manager.list_projects
    ize.Pijul.Backend.attempt ize.Pijul.Backend.Channels.open_repository
find_by_source_dir-IsListed_example =
    find_by_source_dir-IsListed toy one_project manager "/src" stored project (info ∷ []) refl refl

-- The source `a` has the directory `b`, which is empty.
abbrev toy_depth : String → ℕ
toy_depth path = if str_eq path "a" then 1 else 0

abbrev b_dir : List (Result SourceEntry String)
b_dir = ok (record { path = "b"; file_name = "b"; file_type = ok is_directory }) ∷ []

nested_entries :
    (b : Bool) (entries : List (Result SourceEntry String))
    → ◌≡◌ {A = Result (List (Result SourceEntry String)) String}
        (if b then ok b_dir else ok [])
        (ok entries)
    → All (IsAbove toy one_project toy_depth (if b then 1 else 0)) entries
unfolding IsAbove
nested_entries Bool.true entries h =
    let same : entries ≡ b_dir = cc h in rw same (λ e. omega arith, tt)
nested_entries Bool.false entries h = let same : entries ≡ [] = cc h in rw same tt

create_project-Returns_example :
    Returns (create_project toy one_project 2 "u2" "u3" "today" manager "a" stored)
create_project-Returns_example =
    create_project-Returns toy one_project toy_depth 2 "u2" "u3" "today" manager "a" stored
      (λ d src entries h. nested_entries (str_eq src "a") entries h) (λ canonical h. ground arith)
