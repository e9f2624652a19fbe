-- ===== src/Vcs/Tests.antt =====
-- The ignore test on paths of a Git working tree.
use ize.Prelude.{◌≡◌, ◌↔◌, refl, Bool, true, false, [], ◌∷◌}
use ize.FilePath.{FilePath, path_eq, join}
use ize.Vcs.{detect_all_filters, should_ignore_path}
use ize.Vcs.Laws.{IsVcsPath, should_ignore_path-IsVcsPath}

-- The only directory is `/work/.git`.
abbrev only_git : FilePath → Bool
only_git p = path_eq p ("work" ∷ ".git" ∷ [])

abbrev work : FilePath
work = "work" ∷ []

should_ignore_path-IsVcsPath_example :
    (should_ignore_path (detect_all_filters only_git work) (".git" ∷ "HEAD" ∷ []) ≡ true)
    ↔ IsVcsPath only_git work (".git" ∷ "HEAD" ∷ [])
should_ignore_path-IsVcsPath_example =
    should_ignore_path-IsVcsPath only_git work (".git" ∷ "HEAD" ∷ [])

-- Below another directory the name is not ignored, nor is that of a system that is not there.
elsewhere :
    (should_ignore_path (detect_all_filters only_git work) ("src" ∷ ".git" ∷ []) ≡ false)
    × (should_ignore_path (detect_all_filters only_git work) (".jj" ∷ []) ≡ false)
unfolding should_ignore_path detect_all_filters path_eq join
elsewhere = (refl, refl)
