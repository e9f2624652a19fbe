-- ===== src/Commands/Tests/Directory.antt =====
-- A central directory with one project for the tests, over the small libpijul.
use ize.Prelude.{[], ◌∷◌, none, some, ok, true, str_eq}
use ize.Pijul.Backend.Toy.{Database, toy}
use ize.Project.{Central}

-- A central directory with one project; to remove a directory takes the channels away.
abbrev pub central : Central toy
central = record {
  disk = record {
    State = Database;
    join = λ p q. q;
    exists = λ path d. true;
    create_dir_all = λ path d. (d, ok tt);
    write = λ path text d. (d, ok tt);
    pristine_new = λ path d. (d, ok d);
  };
  change_files = λ path d. [];
  read_to_string = λ path d. ok "/dev/sda1 / ext4 rw\n";
  read_dir = λ path d. ok (ok "u1" ∷ []);
  canonicalize = λ path d. ok path;
  remove_dir_all = λ path d. (record d { channels = [] }, ok tt);
  from_str = λ text. ok (record {
    project = record { uuid = "u1"; source_dir = "/src"; created = "today"; name = none };
    pijul = record { default_channel = "main" };
  });
  path_eq = str_eq;
  file_name = λ path. some "src";
  file_name_str = λ path. some "u2";
  is_dir = λ path d. true;
  display = λ path. path;
  to_string_pretty = λ metadata. ok "text";
  read_entries = λ path d. ok [];
  copy = λ p q d. (d, ok tt);
  read_link = λ p d. ok "target";
  symlink = λ p q d. (d, ok tt);
}

abbrev pub with_main : Database
with_main = record { files = []; tree = []; channels = "main" ∷ []; current = "main" }
