-- ===== src/Project/Termination.antt =====
-- crates/ize-lib/src/project/mod.rs, `copy_dir_contents`: the fuel that is enough, and what it says
-- of `create_project`.
use ize.Prelude.{
  ℕ, zero, suc, ◌<◌, ◌≡◌, refl, true, List, [], ◌∷◌, All, Option, none, some, is_some, ◌&&◌, Result,
  ok, err, String, arith, Bool-cases, inl, inr,
}
use ize.Pijul.Libpijul.{Libpijul}
use ize.Project.{
  Central, SourceEntry, EntryType, is_directory, is_regular, is_link, is_other, IzeProject, io,
}
use ize.Project.Manager.{ProjectManager, find_by_source_dir}
use ize.Pijul.Backend.{or_else-ok}
use ize.Project.Create.{
  proceed, continue_after, returned, Copied, copy_entry, copy_entries, copy_dir_contents,
  copy_source, io_error, init, create_project, create_untracked,
}

-- A call has returned.
unfoldable pub Returns : {S A : Type 0} → S × Option A → Type 0
Returns out = is_some out.1 ≡ true

pub proceed-Returns :
    {S A B E : Type 0} (s : S) (m : Result A E) (f : A → S × Option (Result B E))
    → ((a : A) → m ≡ ok a → Returns (f a))
    → Returns (proceed s m f)
unfolding Returns proceed
proceed-Returns s (ok a) f h = h a refl
proceed-Returns s (err e) f h = refl

pub continue_after-Returns :
    {S A B E : Type 0} (out : S × Option (Result A E)) (f : S → A → S × Option (Result B E))
    → Returns out
    → ((s : S) (a : A) → Returns (f s a))
    → Returns (continue_after out f)
unfolding Returns continue_after
continue_after-Returns (s, none) f h k = cc h
continue_after-Returns (s, some (ok a)) f h k = k s a
continue_after-Returns (s, some (err e)) f h k = refl

module _ (L : Libpijul) (C : Central L) (depth : String → ℕ) where
  -- An entry that is a directory is less deep than `n`.
  unfoldable pub IsAbove : ℕ → Result SourceEntry String → Type 0
  IsAbove n (ok entry) = entry.file_type ≡ ok is_directory → depth entry.path < n
  IsAbove n (err e) = Unit

  -- In whatever state the disk is, a directory is deeper than those that it has.
  abbrev pub IsNested : Type 0
  IsNested =
      (d : C.disk.State) (src : String) (entries : List (Result SourceEntry String))
      → C.read_entries src d ≡ ok entries
      → All (IsAbove (depth src)) entries

  copy_entry-Returns :
      (copy_dir : String → String → C.disk.State → Copied L C) (kind : EntryType)
      (src_path dst_path : String) (d : C.disk.State)
      → (kind ≡ is_directory → Returns (copy_dir src_path dst_path d))
      → Returns (copy_entry L C copy_dir kind src_path dst_path d)
  unfolding copy_entry Returns
  copy_entry-Returns copy_dir is_directory src_path dst_path d h = h refl
  copy_entry-Returns copy_dir is_regular src_path dst_path d h = refl
  copy_entry-Returns copy_dir is_link src_path dst_path d h =
      proceed-Returns d (C.read_link src_path d) _ λ target read. refl
  copy_entry-Returns copy_dir is_other src_path dst_path d h = refl

  copy_entries-Returns :
      (copy_dir : String → String → C.disk.State → Copied L C) (n : ℕ) (dst : String)
      (entries : List (Result SourceEntry String)) (d : C.disk.State)
      → ((src dst : String) (d : C.disk.State) → depth src < n → Returns (copy_dir src dst d))
      → All (IsAbove n) entries
      → Returns (copy_entries L C copy_dir dst entries d)
  unfolding copy_entries IsAbove Returns
  copy_entries-Returns copy_dir n dst [] d h k = refl
  copy_entries-Returns copy_dir n dst (err e ∷ entries) d h k = refl
  copy_entries-Returns copy_dir n dst (ok entry ∷ entries) d h k =
      proceed-Returns d entry.file_type _ λ kind read.
        continue_after-Returns
          (copy_entry L C copy_dir kind entry.path (C.disk.join dst entry.file_name) d) _
          (copy_entry-Returns copy_dir kind entry.path _ d
            λ dir. h entry.path _ d (k.0 (cc (read, dir))))
          λ d' u. copy_entries-Returns copy_dir n dst entries d' h k.1

  -- The copy returns with more fuel than the source is deep.
  copy_dir_contents-Returns :
      (fuel : ℕ) (src dst : String) (d : C.disk.State)
      → IsNested
      → depth src < fuel
      → Returns (copy_dir_contents L C fuel src dst d)
  unfolding copy_dir_contents
  copy_dir_contents-Returns zero src dst d nested h = ground (arith, h)
  copy_dir_contents-Returns (suc fuel) src dst d nested h = proceed-Returns _ _ _ λ u made.
      proceed-Returns _ (C.read_entries src _) _ λ entries read.
        copy_entries-Returns (copy_dir_contents L C fuel) (depth src) dst entries _
          (λ src' dst' d' less.
            copy_dir_contents-Returns fuel src' dst' d' nested (omega (arith, less, h)))
          (nested _ src entries read)

  io_error-Returns : (out : Copied L C) → Returns out → Returns (io_error L C out)
  unfolding io_error Returns
  io_error-Returns (d, none) h = cc h
  io_error-Returns (d, some result) h = refl

  copy_source-Returns :
      (fuel : ℕ) (source_dir working_dir : String) (d : C.disk.State)
      → IsNested
      → depth source_dir < fuel
      → Returns (copy_source L C fuel source_dir working_dir d)
  unfolding copy_source Returns
  copy_source-Returns fuel source_dir working_dir d nested h =
      elim (Bool-cases (C.disk.exists source_dir d && C.is_dir source_dir d)) [
        | inl e ↦
            rw e (
              io_error-Returns _ (copy_dir_contents-Returns fuel source_dir working_dir d nested h))
        | inr e ↦ rw e refl
      ]

  init-Returns :
      (fuel : ℕ) (new_uuid now project_dir source_dir : String) (d : C.disk.State)
      → IsNested
      → depth source_dir < fuel
      → Returns (init L C fuel new_uuid now project_dir source_dir d)
  unfolding init Returns
  init-Returns fuel new_uuid now project_dir source_dir d nested h = proceed-Returns _ _ _ λ u made.
      proceed-Returns _ _ _ λ pijul initialized.
        continue_after-Returns _ _ (copy_source-Returns fuel source_dir _ _ nested h) λ d' u'.
          proceed-Returns _ _ _ λ meta_toml printed. proceed-Returns _ _ _ λ u'' written. refl

  create_untracked-Returns :
      (fuel : ℕ) (uuid new_uuid now : String) (manager : ProjectManager) (source_dir : String)
      (d : C.disk.State) (tracked : Option (IzeProject L C))
      → IsNested
      → depth source_dir < fuel
      → Returns (create_untracked L C fuel uuid new_uuid now manager source_dir d tracked)
  unfolding create_untracked Returns
  create_untracked-Returns fuel uuid new_uuid now manager source_dir d (some project) nested h =
      refl
  create_untracked-Returns fuel uuid new_uuid now manager source_dir d none nested h =
      init-Returns fuel new_uuid now _ source_dir d nested h

  -- The creation of a project returns, with a project or an error, if every directory is deeper
  -- than those that it has, in whatever state the copy brings the disk, and there is more fuel than
  -- the source directory is deep.
  pub create_project-Returns :
      (fuel : ℕ) (uuid new_uuid now : String) (manager : ProjectManager) (source_dir : String)
      (d : C.disk.State)
      → IsNested
      → ((canonical : String) → C.canonicalize source_dir d ≡ ok canonical → depth canonical < fuel)
      → Returns (create_project L C fuel uuid new_uuid now manager source_dir d)
  unfolding create_project Returns
  create_project-Returns fuel uuid new_uuid now manager source_dir d nested h =
      proceed-Returns d _ _ λ canonical found.
        continue_after-Returns (returned (find_by_source_dir L C manager canonical d)) _ refl
          λ d' tracked.
            create_untracked-Returns fuel uuid new_uuid now manager canonical d' tracked nested
              (h canonical (or_else-ok io _ found))
