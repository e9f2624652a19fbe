-- ===== src/Project/Create.antt =====
-- crates/ize-lib/src/project: `copy_dir_contents` and `IzeProject::init` of mod.rs, and
-- `create_project` of manager.rs. The copy goes down the source tree as it is on the disk, so its
-- depth is not known beforehand: it has fuel, and `none` when that is used up.
use ize.Prelude.{
  ℕ, zero, suc, ◌&&◌, List, [], ◌∷◌, Option, none, some, Result, ok, err, String, if◌then◌else◌,
}
use ize.Pijul.Libpijul.{Libpijul}
use ize.Pijul.Backend.{or_else, unwrap_or}
use ize.Pijul.Backend.Channels
use ize.Project.{
  ProjectError, io, pijul_error, toml_serialize, already_exists, ProjectMetadata, Central,
  SourceEntry, EntryType, is_directory, is_regular, is_link, is_other, IzeProject, path_join,
}
use ize.Project.Manager.{ProjectManager, projects_dir, find_by_source_dir}

-- The step after one that succeeded; `none` stands for a call that has not returned.
unfoldable pub proceed :
    {S A B E : Type 0} → S → Result A E → (A → S × Option (Result B E)) → S × Option (Result B E)
proceed s (ok a) f = f a
proceed s (err e) f = (s, some (err e))

unfoldable pub continue_after :
    {S A B E : Type 0}
    → S × Option (Result A E)
    → (S → A → S × Option (Result B E))
    → S × Option (Result B E)
continue_after (s, none) f = (s, none)
continue_after (s, some (ok a)) f = f s a
continue_after (s, some (err e)) f = (s, some (err e))

-- A call that returns.
abbrev pub returned : {S A E : Type 0} → S × Result A E → S × Option (Result A E)
returned (s, result) = (s, some result)

module _ (L : Libpijul) (C : Central L) where
  abbrev pub Copied : Type 0
  Copied = C.disk.State × Option (Result (Unit {0}) String)

  -- One entry: a directory by the copy itself, a file, a link by its target, anything else not.
  unfoldable pub copy_entry :
      (String → String → C.disk.State → Copied)
      → EntryType
      → String
      → String
      → C.disk.State
      → Copied
  copy_entry copy_dir is_directory src_path dst_path d = copy_dir src_path dst_path d
  copy_entry copy_dir is_regular src_path dst_path d = returned (C.copy src_path dst_path d)
  copy_entry copy_dir is_link src_path dst_path d =
      proceed d (C.read_link src_path d) λ target. returned (C.symlink target dst_path d)
  copy_entry copy_dir is_other src_path dst_path d = (d, some (ok tt))

  -- The loop over the entries of a directory.
  unfoldable pub copy_entries :
      (String → String → C.disk.State → Copied)
      → String
      → List (Result SourceEntry String)
      → C.disk.State
      → Copied
  unfolding copy_entry
  copy_entries copy_dir dst [] d = (d, some (ok tt))
  copy_entries copy_dir dst (err e ∷ entries) d = (d, some (err e))
  copy_entries copy_dir dst (ok entry ∷ entries) d = proceed d entry.file_type λ kind.
      continue_after (copy_entry copy_dir kind entry.path (C.disk.join dst entry.file_name) d)
        λ d' u. copy_entries copy_dir dst entries d'

  unfoldable pub copy_dir_contents : ℕ → String → String → C.disk.State → Copied
  unfolding copy_entries
  copy_dir_contents zero src dst d = (d, none)
  copy_dir_contents (suc fuel) src dst d =
      let (d', made) = if C.disk.exists dst d then (d, ok tt) else C.disk.create_dir_all dst d in
      proceed d' made λ u.
        proceed d' (C.read_entries src d')
          λ entries. copy_entries (copy_dir_contents fuel) dst entries d'

  abbrev pub Created : Type 0
  Created = C.disk.State × Option (Result (IzeProject L C) ProjectError)

  unfoldable pub io_error : Copied → C.disk.State × Option (Result (Unit {0}) ProjectError)
  io_error (d, none) = (d, none)
  io_error (d, some result) = (d, some (or_else io result))

  -- The copy, if the source is a directory.
  unfoldable pub copy_source :
      ℕ → String → String → C.disk.State → C.disk.State × Option (Result (Unit {0}) ProjectError)
  unfolding copy_dir_contents
  copy_source fuel source_dir working_dir d =
      if C.disk.exists source_dir d && C.is_dir source_dir d
      then io_error (copy_dir_contents fuel source_dir working_dir d)
      else (d, some (ok tt))

  -- `new_uuid` is what `Uuid::new_v4` gives, `now` the clock in RFC 3339.
  unfoldable pub metadata_of :
      (new_uuid now project_dir source_dir channel : String) → ProjectMetadata
  metadata_of new_uuid now project_dir source_dir channel = record {
    project = record {
      uuid = unwrap_or new_uuid (C.file_name_str project_dir);
      source_dir = C.display source_dir;
      created = now;
      name = none;
    };
    pijul = record { default_channel = channel };
  }

  unfoldable pub init : ℕ → (new_uuid now project_dir source_dir : String) → C.disk.State → Created
  unfolding copy_source metadata_of
  init fuel new_uuid now project_dir source_dir d =
      let meta_dir = path_join L C project_dir "meta" in
      let working_dir = path_join L C project_dir "working" in
      let (d, made) = C.disk.create_dir_all meta_dir d in
      proceed d (or_else io made) λ _.
        let (d, initialized) =
          Channels.init L C.disk C.change_files (path_join L C project_dir ".pijul") working_dir
            none d in
        proceed d (or_else pijul_error initialized) λ pijul.
          continue_after (copy_source fuel source_dir working_dir d) λ d _.
            let metadata = metadata_of new_uuid now project_dir source_dir pijul.current_channel in
            proceed d (or_else toml_serialize (C.to_string_pretty metadata)) λ meta_toml.
              let (d, written) = C.disk.write (path_join L C meta_dir "project.toml") meta_toml d in
              proceed d (or_else io written) λ _. (
                d,
                some (
                    ok (record {
                      project_dir = project_dir;
                      pijul = pijul;
                      meta_dir = meta_dir;
                      source_dir = source_dir;
                      uuid = metadata.project.uuid;
                    })),
              )

  -- The project, unless one was found for the directory. `uuid` is the number of the new one.
  unfoldable pub create_untracked :
      ℕ
      → (uuid new_uuid now : String) → ProjectManager
      → String
      → C.disk.State
      → Option (IzeProject L C)
      → Created
  unfolding projects_dir init
  create_untracked fuel uuid new_uuid now manager source_dir d (some project) =
      (d, some (err (already_exists source_dir)))
  create_untracked fuel uuid new_uuid now manager source_dir d none =
      init fuel new_uuid now (path_join L C (projects_dir L C manager) uuid) source_dir d

  unfoldable pub create_project :
      ℕ → (uuid new_uuid now : String) → ProjectManager → String → C.disk.State → Created
  unfolding find_by_source_dir create_untracked
  create_project fuel uuid new_uuid now manager source_dir d =
      proceed d (or_else io (C.canonicalize source_dir d)) λ canonical.
        continue_after (returned (find_by_source_dir L C manager canonical d))
          λ d tracked. create_untracked fuel uuid new_uuid now manager canonical d tracked
