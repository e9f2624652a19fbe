-- ===== src/Commands/Removal.antt =====
-- crates/ize/src/main.rs: when the remove command deletes a project.
use ize.Prelude.{
  Bool, true, false, ◌≡◌, refl, List, [], ◌∷◌, Option, none, some, Result, ok, err, String, ◌⊎◌,
  inl, inr, if◌then◌else◌,
}
use ize.Pijul.Libpijul.{Libpijul}
use ize.Pijul.Backend.{attempt}
use ize.Pijul.Backend.Channels.{open_repository, on_database, db_path}
use ize.Project.{ProjectError, Central, IzeProject, open_project, path_join}
use ize.Project.Manager.{
  ProjectManager, is_source, with_central_dir, find_in, find_by_source_dir, some_project,
  projects_dir,
}
use ize.Commands.Projects.{
  is_fuse_mounted, get_project, new_manager, confirmation, delete_tracked, cmd_remove, Removal,
  aborted, currently_mounted, CommandError,
}

module _ (L : Libpijul) (C : Central L) (P : C.disk.State → Type 0)
    (made : (path : String) (d : C.disk.State) → P d → P (C.disk.create_dir_all path d).0)
    (opened : (path : String) (d : C.disk.State) → P d → P (C.disk.pristine_new path d).0) where
  -- A step that fails leaves the state as it was.
  attempt-kept :
      {A B E : Type 0} (d : C.disk.State) (result : Result A E) (f : A → C.disk.State × Result B E)
      → P d
      → ((a : A) → result ≡ ok a → P (f a).0)
      → P (attempt d result f).0
  unfolding attempt
  attempt-kept d (ok a) f kept h = h a refl
  attempt-kept d (err e) f kept h = kept

  if-kept :
      {B : Type 0} (b : Bool) (x y : C.disk.State × B) → P x.0 → P y.0 → P (if b then x else y).0
  if-kept true x y p q = p
  if-kept false x y p q = q

  option-kept :
      {A B : Type 0} (o : Option A) (x : C.disk.State × B) (f : A → C.disk.State × B)
      → P x.0
      → ((a : A) → P (f a).0)
      → P (elim o as (λ x. C.disk.State × B) [ none ↦ x | some a ↦ f a ]).0
  option-kept none x f p q = p
  option-kept (some a) x f p q = q a

  result-kept :
      {A B E : Type 0} (r : Result A E) (x : C.disk.State × B) (f : A → C.disk.State × B)
      → P x.0
      → ((a : A) → P (f a).0)
      → P (elim r as (λ x. C.disk.State × B) [ err e ↦ x | ok a ↦ f a ]).0
  result-kept (ok a) x f p q = q a
  result-kept (err e) x f p q = p

  open_repository-kept :
      (pijul_dir working_dir : String) (d : C.disk.State)
      → P d
      → P (open_repository L C.disk C.change_files pijul_dir working_dir d).0
  unfolding open_repository on_database
  open_repository-kept pijul_dir working_dir d kept =
      let after = opened (db_path L C.disk C.change_files pijul_dir) d kept in
      if-kept (C.disk.exists (db_path L C.disk C.change_files pijul_dir) d) _ _
        (attempt-kept _ _ _ after λ pristine got. attempt-kept _ _ _ after λ txn begun. after) kept

  open_project-kept : (path : String) (d : C.disk.State) → P d → P (open_project L C path d).0
  unfolding open_project
  open_project-kept path d kept = attempt-kept d _ _ kept λ meta read.
      let after =
        open_repository-kept (path_join L C path ".pijul") (path_join L C path "working") d kept in
      attempt-kept _ _ _ after λ pijul got. after

  some_project-kept :
      (out : C.disk.State × Result (IzeProject L C) ProjectError)
      → P out.0
      → P (some_project L C out).0
  unfolding some_project
  some_project-kept (d, ok p) kept = kept
  some_project-kept (d, err e) kept = kept

  find_in-kept :
      (source_dir : String) (entries : List (Result String String)) (d : C.disk.State)
      → P d
      → P (find_in L C source_dir entries d).0
  unfolding find_in
  find_in-kept source_dir [] d kept = kept
  find_in-kept source_dir (entry ∷ entries) d kept = attempt-kept d _ _ kept λ seen got.
      let rest = find_in-kept source_dir entries d kept in
      option-kept seen _ _ rest λ m.
        if-kept (is_source L C m.1 source_dir d) _ _
          (some_project-kept _ (open_project-kept m.0 d kept)) rest

  find-kept :
      (m : ProjectManager) (source_dir : String) (d : C.disk.State)
      → P d
      → P (find_by_source_dir L C m source_dir d).0
  unfolding find_by_source_dir
  find-kept m source_dir d kept = result-kept (C.canonicalize source_dir d) _ _ kept λ canonical.
      if-kept (C.disk.exists (projects_dir L C m) d) _ _
        (attempt-kept d _ _ kept λ entries read. find_in-kept canonical entries d kept) kept

  new_manager-kept :
      (central_dir : String) (d : C.disk.State) → P d → P (new_manager L C central_dir d).0
  unfolding new_manager with_central_dir
  new_manager-kept central_dir d kept =
      let first = made central_dir d kept in
      let second = made (path_join L C central_dir "projects") _ first in
      let both = attempt-kept _ _ _ first λ u done. attempt-kept _ _ _ second λ v done'. second in
      attempt-kept _ _ _ both λ m got. both

  get_project-kept :
      (m : ProjectManager) (source_dir : String) (d : C.disk.State)
      → P d
      → P (get_project L C m source_dir d).0
  unfolding get_project
  get_project-kept m source_dir d kept =
      let after = find-kept m source_dir d kept in
      attempt-kept _ _ _ after λ project got. option-kept project _ _ after λ p. after

  -- A removal either keeps what making directories and opening databases keep, or it ends in the
  -- deletion of a directory that is not mounted, which was forced or confirmed.
  unfoldable pub IsGuarded :
      Bool → Result Bool String → C.disk.State × Result Removal CommandError → Type 0
  IsGuarded force confirmed out =
      P out.0
      ⊎ ((m : ProjectManager) × (source_dir : String) × (d : C.disk.State) × P d
          × (is_fuse_mounted L C source_dir d ≡ false)
          × ((force ≡ true) ⊎ (confirmed ≡ ok true))
          × (out ≡ delete_tracked L C m source_dir d))

  confirmation-true :
      (force : Bool) (confirmed : Result Bool String)
      → confirmation L C force confirmed ≡ ok true
      → (force ≡ true) ⊎ (confirmed ≡ ok true)
  unfolding confirmation
  confirmation-true true confirmed h = inl refl
  confirmation-true false (ok true) h = inr refl
  confirmation-true false (ok false) h = cc h
  confirmation-true false (err e) h = cc h

  attempt-IsGuarded :
      {A : Type 0} (force : Bool) (confirmed : Result Bool String) (d : C.disk.State)
      (result : Result A CommandError) (f : A → C.disk.State × Result Removal CommandError)
      → P d
      → ((a : A) → result ≡ ok a → IsGuarded force confirmed (f a))
      → IsGuarded force confirmed (attempt d result f)
  unfolding attempt IsGuarded
  attempt-IsGuarded force confirmed d (ok a) f kept h = h a refl
  attempt-IsGuarded force confirmed d (err e) f kept h = inl kept

  mounted-IsGuarded :
      (force : Bool) (confirmed : Result Bool String) (directory source_dir : String)
      (m : ProjectManager) (d : C.disk.State) (mounted : Bool)
      → is_fuse_mounted L C source_dir d ≡ mounted
      → P d
      → IsGuarded force confirmed (
          if mounted
          then (d, err (currently_mounted directory))
          else (attempt d
              (confirmation L C force confirmed)
              λ yes. if yes then delete_tracked L C m source_dir d else (d, ok aborted)))
  unfolding IsGuarded
  mounted-IsGuarded force confirmed directory source_dir m d true h kept = inl kept
  mounted-IsGuarded force confirmed directory source_dir m d false h kept =
      attempt-IsGuarded force confirmed d (confirmation L C force confirmed) _ kept answered
    where
      answered :
          (yes : Bool)
          → confirmation L C force confirmed ≡ ok yes
          → IsGuarded force confirmed
              (if yes then delete_tracked L C m source_dir d else (d, ok aborted))
      answered true e = inr (m, source_dir, d, kept, h, confirmation-true force confirmed e, refl)
      answered false e = inl kept

  -- For a property of the disk which making directories and opening databases keep, and which holds
  -- before: after the remove command it still holds, or the command ended in the deletion of the
  -- project of a directory, in a state where the property held, /proc/mounts did not show the
  -- directory as mounted, and the removal was forced or confirmed.
  pub cmd_remove-IsGuarded :
      (central_dir directory : String) (force : Bool) (confirmed : Result Bool String)
      (d : C.disk.State)
      → P d
      → IsGuarded force confirmed (cmd_remove L C central_dir directory force confirmed d)
  unfolding cmd_remove
  cmd_remove-IsGuarded central_dir directory force confirmed d kept =
      let after = new_manager-kept central_dir d kept in
      attempt-IsGuarded force confirmed _ _ _ after λ m got.
        attempt-IsGuarded force confirmed _ _ _ after λ source_dir canonical.
          let found = get_project-kept m source_dir _ after in
          attempt-IsGuarded force confirmed _ _ _ found
            λ p tracked. mounted-IsGuarded force confirmed directory source_dir m _ _ refl found
