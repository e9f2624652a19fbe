-- ===== src/Project/Manager.antt =====
-- crates/ize-lib/src/project/manager.rs: `ProjectManager`, which finds, lists and deletes projects;
-- Create has `create_project`.
use ize.Prelude.{
  Bool, true, false, List, [], ◌∷◌, Option, none, some, Result, ok, err, ◌>>=◌, String,
  if◌then◌else◌,
}
use ize.Pijul.Libpijul.{Libpijul}
use ize.Pijul.Backend.{or_else, attempt, unwrap_or}
use ize.Project.{
  ProjectError, io, ProjectMetadata, Central, IzeProject, path_join, meta_path, open_project,
}

pub record ProjectInfo : Type 0 where
  pub uuid : String
  pub source_dir : String
  pub project_path : String
  pub created : String
  pub default_channel : String
  pub name : String

pub record ProjectManager : Type 0 where
  pub central_dir : String

module _ (L : Libpijul) (C : Central L) where
  abbrev State : Type 0
  State = C.disk.State

  -- `create_dir_all` of the directory and of its `projects`.
  unfoldable pub with_central_dir : String → State → State × Result ProjectManager ProjectError
  with_central_dir central_dir d =
      let (d, made) = C.disk.create_dir_all central_dir d in
      attempt d (or_else io made) λ _.
        let (d, made) = C.disk.create_dir_all (path_join L C central_dir "projects") d in
        attempt d (or_else io made) λ _. (d, ok (record { central_dir = central_dir }))

  unfoldable pub projects_dir : ProjectManager → String
  projects_dir manager = path_join L C manager.central_dir "projects"

  -- Whether the stored directory is the one that is looked for: by its canonical path, or as it is
  -- if it has none.
  unfoldable pub is_source : ProjectMetadata → String → State → Bool
  is_source meta source_dir d = elim (C.canonicalize meta.project.source_dir d) [
    | ok stored_canonical ↦ C.path_eq stored_canonical source_dir
    | err e ↦ C.path_eq meta.project.source_dir source_dir
  ]

  -- What the loops see in an entry: an error of the directory or of reading the file ends the loop;
  -- an entry without the file, or with one that is no metadata, is passed over.
  unfoldable pub entry_metadata :
      Result String String → State → Result (Option (String × ProjectMetadata)) ProjectError
  unfolding meta_path
  entry_metadata (err e) d = err (io e)
  entry_metadata (ok path) d =
      if C.disk.exists (meta_path L C path) d
      then elim (C.read_to_string (meta_path L C path) d) [
        | err e ↦ err (io e)
        | ok content ↦ elim (C.from_str content) [
          | err e ↦ ok none
          | ok meta ↦ ok (some (path, meta))
        ]
      ]
      else ok none

  -- The project that is opened, as one that was found.
  unfoldable pub some_project :
      State × Result (IzeProject L C) ProjectError
      → State × Result (Option (IzeProject L C)) ProjectError
  some_project (d, ok project) = (d, ok (some project))
  some_project (d, err e) = (d, err e)

  unfoldable pub find_in :
      String
      → List (Result String String)
      → State
      → State × Result (Option (IzeProject L C)) ProjectError
  unfolding entry_metadata is_source some_project open_project
  find_in source_dir [] d = (d, ok none)
  find_in source_dir (entry ∷ entries) d =
      let rest = find_in source_dir entries d in
      attempt d (entry_metadata entry d) λ seen. elim seen [
        | none ↦ rest
        | some m ↦
            if is_source m.1 source_dir d then some_project (open_project L C m.0 d) else rest
      ]

  unfoldable pub find_by_source_dir :
      ProjectManager → String → State → State × Result (Option (IzeProject L C)) ProjectError
  unfolding projects_dir find_in
  find_by_source_dir manager source_dir d = elim (C.canonicalize source_dir d) [
    | err e ↦ (d, ok none)
    | ok canonical ↦
        if C.disk.exists (projects_dir manager) d
        then (attempt d (or_else io (C.read_dir (projects_dir manager) d))
            λ entries. find_in canonical entries d)
        else (d, ok none)
  ]

  unfoldable pub find_by_uuid :
      ProjectManager → String → State → State × Result (Option (IzeProject L C)) ProjectError
  unfolding projects_dir some_project open_project
  find_by_uuid manager uuid d =
      let project_dir = path_join L C (projects_dir manager) uuid in
      if C.disk.exists project_dir d
      then some_project (open_project L C project_dir d)
      else (d, ok none)

  -- The name in the metadata, or the last component of the source directory.
  unfoldable pub project_name : ProjectMetadata → String
  project_name meta =
      unwrap_or (unwrap_or "Unknown" (C.file_name meta.project.source_dir)) meta.project.name

  unfoldable pub project_info : String → ProjectMetadata → ProjectInfo
  unfolding project_name
  project_info path meta = record {
    uuid = meta.project.uuid;
    source_dir = meta.project.source_dir;
    project_path = path;
    created = meta.project.created;
    default_channel = meta.pijul.default_channel;
    name = project_name meta;
  }

  unfoldable pub list_in :
      List (Result String String) → State → Result (List ProjectInfo) ProjectError
  unfolding entry_metadata project_info
  list_in [] d = ok []
  list_in (entry ∷ entries) d = do
    seen ← entry_metadata entry d
    rest ← list_in entries d
    ok (elim seen [ none ↦ rest | some m ↦ project_info m.0 m.1 ∷ rest ])

  unfoldable pub list_projects : ProjectManager → State → Result (List ProjectInfo) ProjectError
  unfolding projects_dir list_in
  list_projects manager d =
      if C.disk.exists (projects_dir manager) d
      then (or_else io (C.read_dir (projects_dir manager) d) >>= λ entries. list_in entries d)
      else ok []

  -- `remove_dir_all(..)?; Ok(true)`
  unfoldable pub remove_project : String → State → State × Result Bool ProjectError
  remove_project project_dir d =
      let (d', result) = C.remove_dir_all project_dir d in
      attempt d' (or_else io result) λ _. (d', ok true)

  unfoldable pub delete_project : ProjectManager → String → State → State × Result Bool ProjectError
  unfolding find_by_source_dir remove_project
  delete_project manager source_dir d =
      let (d', result) = find_by_source_dir manager source_dir d in
      attempt d' result
        λ project. elim project [ none ↦ (d', ok false) | some p ↦ remove_project p.project_dir d' ]

  unfoldable pub delete_project_by_uuid :
      ProjectManager → String → State → State × Result Bool ProjectError
  unfolding projects_dir remove_project
  delete_project_by_uuid manager uuid d =
      let project_dir = path_join L C (projects_dir manager) uuid in
      if C.disk.exists project_dir d then remove_project project_dir d else (d, ok false)
