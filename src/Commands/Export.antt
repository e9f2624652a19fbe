-- ===== src/Commands/Export.antt =====
-- crates/ize/src/main.rs: the export command. Its copy follows links (`is_dir` does), and goes down
-- the tree as it is on the disk: it has fuel, and `none` when that is used up.
use ize.Prelude.{
  ℕ, zero, suc, ◌<◌, ◌≡◌, refl, Bool, true, false, List, [], ◌∷◌, All, Option, none, some, Result,
  ok, err, String, Bool-cases, inl, inr, if◌then◌else◌, arith,
}
use ize.Pijul.Libpijul.{Libpijul}
use ize.Pijul.Backend.{or_else}
use ize.Project.{Central, SourceEntry, IzeProject, path_join}
use ize.Project.Create.{proceed, continue_after, returned, Copied}
use ize.Project.Termination.{Returns, proceed-Returns, continue_after-Returns}
use ize.Commands.Projects.{CommandError, io_failed, target_exists, new_manager, get_project}

module _ (L : Libpijul) (C : Central L) where
  -- The loop over a directory's entries, with the copy of a directory below.
  unfoldable pub export_entries :
      (String → String → C.disk.State → Copied L C)
      → String
      → List (Result SourceEntry String)
      → C.disk.State
      → Copied L C
  export_entries copy_dir dst [] d = (d, some (ok tt))
  export_entries copy_dir dst (err e ∷ entries) d = (d, some (err e))
  export_entries copy_dir dst (ok entry ∷ entries) d =
      let dest_path = path_join L C dst entry.file_name in
      continue_after
        (if C.is_dir entry.path d
          then copy_dir entry.path dest_path d
          else returned (C.copy entry.path dest_path d))
        λ d' _. export_entries copy_dir dst entries d'

  unfoldable pub copy_dir_recursive : ℕ → String → String → C.disk.State → Copied L C
  unfolding export_entries
  copy_dir_recursive zero src dst d = (d, none)
  copy_dir_recursive (suc fuel) src dst d =
      let (d', made) = C.disk.create_dir_all dst d in
      proceed d' made λ _.
        proceed d' (C.read_entries src d')
          λ entries. export_entries (copy_dir_recursive fuel) dst entries d'

  unfoldable pub copy_dir_contents : ℕ → String → String → C.disk.State → Copied L C
  unfolding export_entries copy_dir_recursive
  copy_dir_contents fuel src dst d =
      if C.disk.exists src d
      then (proceed d (C.read_entries src d)
          λ entries. export_entries (copy_dir_recursive fuel) dst entries d)
      else (d, some (ok tt))

  abbrev pub Exported : Type 0
  Exported = C.disk.State × Option (Result (Unit {0}) CommandError)

  unfoldable pub copy_failed : Copied L C → Exported
  copy_failed (d, none) = (d, none)
  copy_failed (d, some result) = (d, some (or_else io_failed result))

  unfoldable pub export_project : ℕ → String → IzeProject L C → C.disk.State → Exported
  unfolding copy_failed copy_dir_recursive copy_dir_contents
  export_project fuel target p d =
      if C.disk.exists target d
      then (d, some (err (target_exists target)))
      else (let (d, made) = C.disk.create_dir_all target d in
          proceed d (or_else io_failed made) λ _.
            let pijul_target = path_join L C target ".pijul" in
            continue_after (copy_failed (copy_dir_recursive fuel p.pijul.pijul_dir pijul_target d))
              λ d _. copy_failed (copy_dir_contents fuel p.pijul.working_dir target d))

  unfoldable pub cmd_export_pijul :
      ℕ → (central_dir source target : String) → C.disk.State → Exported
  unfolding new_manager get_project export_project
  cmd_export_pijul fuel central_dir source target d =
      let (d, manager) = new_manager L C central_dir d in
      proceed d manager λ m. proceed d (or_else io_failed (C.canonicalize source d)) λ source_dir.
        let (d, project) = get_project L C m source_dir d in
        proceed d project λ p. export_project fuel target p d

  module _ (depth : String → ℕ) where
    -- An entry that is a directory, or a link to one, is less deep than `n`, in whatever state.
    unfoldable IsBelow : ℕ → Result SourceEntry String → Type 0
    IsBelow n (ok entry) = (d : C.disk.State) → C.is_dir entry.path d ≡ true → depth entry.path < n
    IsBelow n (err e) = Unit

    abbrev IsNested : Type 0
    IsNested =
        (d : C.disk.State) (src : String) (entries : List (Result SourceEntry String))
        → C.read_entries src d ≡ ok entries
        → All (IsBelow (depth src)) entries

    export_entries-Returns :
        (copy_dir : String → String → C.disk.State → Copied L C) (n : ℕ) (dst : String)
        (entries : List (Result SourceEntry String)) (d : C.disk.State)
        → ((src dst : String) (d : C.disk.State) → depth src < n → Returns (copy_dir src dst d))
        → All (IsBelow n) entries
        → Returns (export_entries copy_dir dst entries d)
    unfolding export_entries Returns IsBelow
    export_entries-Returns copy_dir n dst [] d h k = refl
    export_entries-Returns copy_dir n dst (err e ∷ entries) d h k = refl
    export_entries-Returns copy_dir n dst (ok entry ∷ entries) d h k =
        continue_after-Returns _ _ (one (C.is_dir entry.path d) (h entry.path _ d) (k.0 d))
          λ d' u. export_entries-Returns copy_dir n dst entries d' h k.1
      where
        one :
            (b : Bool)
            → (depth entry.path < n
                → Returns (copy_dir entry.path (path_join L C dst entry.file_name) d))
            → (b ≡ true → depth entry.path < n)
            → Returns (
                if b
                then copy_dir entry.path (path_join L C dst entry.file_name) d
                else returned (C.copy entry.path (path_join L C dst entry.file_name) d))
        one true f less = f (less refl)
        one false f less = refl

    copy_dir_recursive-Returns :
        (fuel : ℕ) (src dst : String) (d : C.disk.State)
        → IsNested
        → depth src < fuel
        → Returns (copy_dir_recursive fuel src dst d)
    unfolding copy_dir_recursive
    copy_dir_recursive-Returns zero src dst d nested h = absurd (omega arith)
    copy_dir_recursive-Returns (suc fuel) src dst d nested h = proceed-Returns _ _ _ λ u made.
        proceed-Returns _ (C.read_entries src _) _ λ entries read.
          export_entries-Returns (copy_dir_recursive fuel) (depth src) dst entries _
            (λ src' dst' d' less.
              copy_dir_recursive-Returns fuel src' dst' d' nested (omega (arith, less, h)))
            (nested _ src entries read)

    module _ (fuel : ℕ) (nested : IsNested) (enough : (path : String) → depth path < fuel) where
      copy_dir_contents-Returns :
          (src dst : String) (d : C.disk.State) → Returns (copy_dir_contents fuel src dst d)
      unfolding copy_dir_contents Returns
      copy_dir_contents-Returns src dst d = elim (Bool-cases (C.disk.exists src d)) [
        | inr e ↦ rw e refl
        | inl e ↦ rw e (
            proceed-Returns d (C.read_entries src d) _ λ entries read.
              export_entries-Returns (copy_dir_recursive fuel) (depth src) dst entries d
                (λ src' dst' d' less.
                  copy_dir_recursive-Returns fuel src' dst' d' nested (enough src'))
                (nested d src entries read))
      ]

      copy_failed-Returns : (out : Copied L C) → Returns out → Returns (copy_failed out)
      unfolding copy_failed Returns
      copy_failed-Returns (d, none) h = cc h
      copy_failed-Returns (d, some result) h = refl

      export_project-Returns :
          (target : String) (p : IzeProject L C) (d : C.disk.State)
          → Returns (export_project fuel target p d)
      unfolding export_project Returns
      export_project-Returns target p d = elim (Bool-cases (C.disk.exists target d)) [
        | inl e ↦ rw e refl
        | inr e ↦ rw e (
            proceed-Returns _ _ _ λ u made.
              continue_after-Returns _ _
                (copy_failed-Returns _
                  (copy_dir_recursive-Returns fuel _ _ _ nested (enough p.pijul.pijul_dir)))
                λ d' u'.
                  copy_failed-Returns _ (copy_dir_contents-Returns p.pijul.working_dir target d'))
      ]

      -- The export returns if every directory, and every link to one, lies less deep than the
      -- directory that has it, and no path is as deep as the fuel.
      cmd_export_pijul-Returns :
          (central_dir source target : String) (d : C.disk.State)
          → Returns (cmd_export_pijul fuel central_dir source target d)
      unfolding cmd_export_pijul
      cmd_export_pijul-Returns central_dir source target d = proceed-Returns _ _ _ λ m got.
          proceed-Returns _ _ _
            λ source_dir found. proceed-Returns _ _ _ λ p tracked. export_project-Returns target p _
