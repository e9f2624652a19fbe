-- ===== src/Project/Laws.antt =====
-- crates/ize-lib/src/project/manager.rs: the project that a search finds is one of those listed.
use ize.Prelude.{
  ◌≡◌, refl, ap, ◌∙◌, List, [], ◌∷◌, ◌++◌, Option, none, some, Result, ok, err, bind-ok, String,
  if◌then◌else◌, arith, Result-cases, Bool-cases, inl, inr,
}
use ize.Pijul.Libpijul.{Libpijul}
use ize.Pijul.Backend.{attempt-ok, or_else}
use ize.Project.{
  ProjectError, io, pijul_error, ProjectMetadata, Central, IzeProject, meta_path, read_metadata,
  open_project,
}
use ize.Project.Manager.{
  ProjectInfo, ProjectManager, projects_dir, is_source, entry_metadata, some_project, find_in,
  find_by_source_dir, list_in, list_projects, project_info,
}

module _ (L : Libpijul) (C : Central L) where
  abbrev pub Describes : ProjectInfo → IzeProject L C → Type 0
  Describes info p =
      (info.project_path ≡ p.project_dir) × (info.uuid ≡ p.uuid) × (info.source_dir ≡ p.source_dir)

  -- One of the entries describes the project.
  unfoldable pub IsListed : IzeProject L C → List ProjectInfo → Type 0
  IsListed p infos =
      (before : List ProjectInfo) × (info : ProjectInfo) × (after : List ProjectInfo) × (infos
        ≡ before ++ (info ∷ after))
      × Describes info p

  cons-IsListed :
      (p : IzeProject L C) (info : ProjectInfo) (infos : List ProjectInfo)
      → IsListed p infos
      → IsListed p (info ∷ infos)
  unfolding IsListed
  cons-IsListed p info infos (before, i, after, same, d) =
      (info ∷ before, i, after, ap (λ l. info ∷ l) same, d)

  head-IsListed :
      (p : IzeProject L C) (info : ProjectInfo) (infos : List ProjectInfo)
      → Describes info p
      → IsListed p (info ∷ infos)
  unfolding IsListed
  head-IsListed p info infos d = ([], info, infos, refl, d)

  entry_metadata-read :
      (entry : Result String String) (d : C.disk.State) (m : String × ProjectMetadata)
      → entry_metadata L C entry d ≡ ok (some m)
      → read_metadata L C (meta_path L C m.0) d ≡ ok m.1
  unfolding entry_metadata read_metadata
  entry_metadata-read (err e) d m h = cc h
  entry_metadata-read (ok path) d m h = ground (arith, h)

  open_project-Describes :
      (path : String) (d : C.disk.State) (meta : ProjectMetadata) (p : IzeProject L C)
      → read_metadata L C (meta_path L C path) d ≡ ok meta
      → (open_project L C path d).1 ≡ ok p
      → Describes (project_info L C path meta) p
  unfolding open_project project_info
  open_project-Describes path d meta p read h =
      let (meta', got, rest, same) = attempt-ok d (read_metadata L C (meta_path L C path) d) _ h in
      let (pijul, opened, made, same') = attempt-ok _ (or_else pijul_error _) _ rest in
      let same_meta : meta ≡ meta' = cc (read, got) in
      moved (project_info L C path meta) _ p made
        (refl, ap (λ m. m.project.uuid) same_meta, ap (λ m. m.project.source_dir) same_meta)
    where
      moved :
          (info : ProjectInfo) (q p : IzeProject L C)
          → ◌≡◌ {A = Result (IzeProject L C) ProjectError} (ok q) (ok p)
          → Describes info q
          → Describes info p
      moved info q p h d =
          let same : q ≡ p = cc h in
          (
            d.0 ∙ ap (λ r. r.project_dir) same,
            d.1 ∙ ap (λ r. r.uuid) same,
            d.2 ∙ ap (λ r. r.source_dir) same,
          )

  some_project-ok :
      (out : C.disk.State × Result (IzeProject L C) ProjectError) (p : IzeProject L C)
      → (some_project L C out).1 ≡ ok (some p)
      → out.1 ≡ ok p
  unfolding some_project
  some_project-ok (d, ok q) p h = cc h
  some_project-ok (d, err e) p h = cc h

  -- One turn of both loops, from what they see in the entry and what holds of the rest.
  entry-IsListed :
      (source_dir : String) (entry : Result String String) (entries : List (Result String String))
      (d : C.disk.State) (p : IzeProject L C) (seen : Option (String × ProjectMetadata))
      (others : List ProjectInfo)
      → entry_metadata L C entry d ≡ ok seen
      → ((find_in L C source_dir entries d).1 ≡ ok (some p) → IsListed p others)
      → (elim seen as (λ _. C.disk.State × Result (Option (IzeProject L C)) ProjectError) [
        | none ↦ find_in L C source_dir entries d
        | some m ↦
            if is_source L C m.1 source_dir d
            then some_project L C (open_project L C m.0 d)
            else find_in L C source_dir entries d
      ]).1
        ≡ ok (some p)
      → IsListed p (elim seen as (λ _. List ProjectInfo) [
        | none ↦ others
        | some m ↦ project_info L C m.0 m.1 ∷ others
      ])
  entry-IsListed source_dir entry entries d p none others got ih h = ih h
  entry-IsListed source_dir entry entries d p (some m) others got ih h =
      elim (Bool-cases (is_source L C m.1 source_dir d)) [
        | inl e ↦ head-IsListed p (project_info L C m.0 m.1) others (
            open_project-Describes m.0 d m.1 p (entry_metadata-read entry d m got)
              (some_project-ok (open_project L C m.0 d) p (rw e at h)))
        | inr e ↦ cons-IsListed p (project_info L C m.0 m.1) others (ih (rw e at h))
      ]

  find_in-IsListed :
      (source_dir : String) (entries : List (Result String String)) (d : C.disk.State)
      (p : IzeProject L C) (infos : List ProjectInfo)
      → (find_in L C source_dir entries d).1 ≡ ok (some p)
      → list_in L C entries d ≡ ok infos
      → IsListed p infos
  unfolding find_in list_in
  find_in-IsListed source_dir [] d p infos h k = cc h
  find_in-IsListed source_dir (entry ∷ entries) d p infos h k =
      let (seen, got, rest, same) = attempt-ok d (entry_metadata L C entry d) _ h in
      let (seen', got', rest') = bind-ok (entry_metadata L C entry d) _ k in
      let (others, listed, whole) = bind-ok (list_in L C entries d) _ rest' in
      let same_seen : seen' ≡ seen = cc (got, got') in
      let same_infos : infos ≡ (elim seen as (λ _. List ProjectInfo) [
        | none ↦ others
        | some m ↦ project_info L C m.0 m.1 ∷ others
      ]) =
        cc (whole, same_seen) in
      rw same_infos (
        entry-IsListed source_dir entry entries d p seen others got
          (λ h'. find_in-IsListed source_dir entries d p others h' listed) rest)

  -- If a search by source directory finds a project, and the projects can be listed, then the list
  -- has an entry with the found project's directory, number and source directory.
  pub find_by_source_dir-IsListed :
      (manager : ProjectManager) (source_dir : String) (d : C.disk.State) (p : IzeProject L C)
      (infos : List ProjectInfo)
      → (find_by_source_dir L C manager source_dir d).1 ≡ ok (some p)
      → list_projects L C manager d ≡ ok infos
      → IsListed p infos
  unfolding find_by_source_dir list_projects
  find_by_source_dir-IsListed manager source_dir d p infos h k =
      elim (Result-cases (C.canonicalize source_dir d)) [
        | inr (e, failed) ↦ let bad = rw (failed, find_by_source_dir) at h in cc bad
        | inl (canonical, e) ↦ elim (Bool-cases (C.disk.exists (projects_dir L C manager) d)) [
          | inr missing ↦ let bad = rw (e, missing, find_by_source_dir) at h in cc bad
          | inl there ↦
              let (entries, got, finds, same) =
                attempt-ok d (or_else io (C.read_dir (projects_dir L C manager) d)) _
                  (rw (e, there, find_by_source_dir) at h) in
              let (entries', got', lists) =
                bind-ok (or_else io (C.read_dir (projects_dir L C manager) d)) _
                  (rw (there, list_projects) at k) in
              let same_entries : entries' ≡ entries = cc (got, got') in
              find_in-IsListed canonical entries d p infos finds (cc (lists, same_entries))
        ]
      ]
