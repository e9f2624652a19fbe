-- ===== src/Project.antt =====
-- crates/ize-lib/src/project/mod.rs: `IzeProject` and what is stored of it; Create has `init`.
pub mod Manager
pub mod Create
pub mod Termination
pub mod Laws
mod Tests
use ize.Prelude.{Bool, List, Option, Result, ok, err, String}
use ize.Pijul.Libpijul.{Libpijul}
use ize.Pijul.Backend.{PijulError, Repository, attempt, or_else}
use ize.Pijul.Backend.Channels
use ize.Pijul.Backend.Channels.{Disk, open_repository}

pub data ProjectError : Type 0 where
  io invalid_metadata toml_parse toml_serialize not_found already_exists : String → ProjectError
  pijul_error : PijulError → ProjectError

pub record ProjectSection : Type 0 where
  pub uuid : String
  pub source_dir : String
  pub created : String
  pub name : Option String

pub record PijulSection : Type 0 where
  pub default_channel : String

pub record ProjectMetadata : Type 0 where
  pub project : ProjectSection
  pub pijul : PijulSection

-- The type of a directory entry.
pub data EntryType : Type 0 where
  is_directory is_regular is_link is_other : EntryType

-- What `copy_dir_contents` reads of a directory entry.
pub record SourceEntry : Type 0 where
  pub path : String
  pub file_name : String
  pub file_type : Result EntryType String

-- What the projects need of the disk beside `Disk`, of toml, and of `Path`. An entry of a directory
-- is its path.
pub record Central (L : Libpijul) : Type 1 where
  pub disk : Disk L.Pristine
  pub change_files : String → disk.State → L.ChangeStore
  pub read_to_string : String → disk.State → Result String String
  pub read_dir : String → disk.State → Result (List (Result String String)) String
  pub canonicalize : String → disk.State → Result String String
  pub remove_dir_all : String → disk.State → disk.State × Result (Unit {0}) String
  pub from_str : String → Result ProjectMetadata String
  -- `==` of two paths
  pub path_eq : String → String → Bool
  -- `file_name`, with what is not UTF-8 replaced, and as `to_str` has it
  pub file_name : String → Option String
  pub file_name_str : String → Option String
  pub is_dir : String → disk.State → Bool
  -- `display().to_string()`
  pub display : String → String
  pub to_string_pretty : ProjectMetadata → Result String String
  pub read_entries : String → disk.State → Result (List (Result SourceEntry String)) String
  pub copy : String → String → disk.State → disk.State × Result (Unit {0}) String
  pub read_link : String → disk.State → Result String String
  pub symlink : String → String → disk.State → disk.State × Result (Unit {0}) String

module _ (L : Libpijul) (C : Central L) where
  pub record IzeProject : Type 0 where
    pub project_dir : String
    pub pijul : Repository L
    pub meta_dir : String
    pub source_dir : String
    pub uuid : String

  abbrev pub path_join : String → String → String
  path_join p q = C.disk.join p q

  unfoldable pub meta_path : String → String
  meta_path project_dir = path_join (path_join project_dir "meta") "project.toml"

  -- `toml::from_str(&read_to_string(path)?)?`
  unfoldable pub read_metadata : String → C.disk.State → Result ProjectMetadata ProjectError
  read_metadata path d = elim (C.read_to_string path d) [
    | err e ↦ err (io e)
    | ok content ↦ or_else toml_parse (C.from_str content)
  ]

  unfoldable pub open_project :
      String → C.disk.State → C.disk.State × Result IzeProject ProjectError
  unfolding meta_path read_metadata
  open_project project_dir d = attempt d (read_metadata (meta_path project_dir) d) λ metadata.
      let (d', opened) =
        open_repository L C.disk C.change_files (path_join project_dir ".pijul")
          (path_join project_dir "working") d in
      attempt d' (or_else pijul_error opened) λ pijul. (
        d',
        ok (record {
          project_dir = project_dir;
          pijul = pijul;
          meta_dir = path_join project_dir "meta";
          source_dir = metadata.project.source_dir;
          uuid = metadata.project.uuid;
        }),
      )
