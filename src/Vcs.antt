-- ===== src/Vcs.antt =====
-- crates/ize-lib/src/vcs: the directories of version control systems, kept out of the recording.
pub mod Laws
mod Tests
use ize.Prelude.{Bool, false, List, [], ◌∷◌, String, str_eq, any, if◌then◌else◌}
use ize.FilePath.{FilePath, join}

-- Whether the path has `dir_name` as its first component.
unfoldable pub path_starts_with_dir : FilePath → String → Bool
path_starts_with_dir [] dir_name = false
path_starts_with_dir (first ∷ rest) dir_name = str_eq first dir_name

-- The trait. `is_present` asks the file system whether a path is a directory.
pub record IgnoreFilter : Type 0 where
  pub name : String
  pub dir_name : String
  pub is_present : (FilePath → Bool) → FilePath → Bool
  pub should_ignore : FilePath → Bool

unfoldable pub git_backend : IgnoreFilter
unfolding path_starts_with_dir join
git_backend = record {
  name = "Git";
  dir_name = ".git";
  is_present = λ is_dir base_path. is_dir (join base_path ".git");
  should_ignore = λ rel_path. path_starts_with_dir rel_path ".git";
}

unfoldable pub jujutsu_backend : IgnoreFilter
unfolding path_starts_with_dir join
jujutsu_backend = record {
  name = "Jujutsu";
  dir_name = ".jj";
  is_present = λ is_dir base_path. is_dir (join base_path ".jj");
  should_ignore = λ rel_path. path_starts_with_dir rel_path ".jj";
}

unfoldable pub pijul_backend : IgnoreFilter
unfolding path_starts_with_dir join
pijul_backend = record {
  name = "Pijul";
  dir_name = ".pijul";
  is_present = λ is_dir base_path. is_dir (join base_path ".pijul");
  should_ignore = λ rel_path. path_starts_with_dir rel_path ".pijul";
}

unfoldable pub present : (FilePath → Bool) → FilePath → List IgnoreFilter → List IgnoreFilter
present is_dir base_path [] = []
present is_dir base_path (candidate ∷ candidates) =
    let rest = present is_dir base_path candidates in
    if candidate.is_present is_dir base_path then candidate ∷ rest else rest

unfoldable pub detect_all_filters : (FilePath → Bool) → FilePath → List IgnoreFilter
unfolding present git_backend jujutsu_backend pijul_backend
detect_all_filters is_dir base_path =
    present is_dir base_path (git_backend ∷ jujutsu_backend ∷ pijul_backend ∷ [])

unfoldable pub detect_all_vcs : (FilePath → Bool) → FilePath → List IgnoreFilter
unfolding detect_all_filters
detect_all_vcs is_dir base_path = detect_all_filters is_dir base_path

unfoldable pub should_ignore_path : List IgnoreFilter → FilePath → Bool
should_ignore_path filters rel_path = any (λ filter. filter.should_ignore rel_path) filters
