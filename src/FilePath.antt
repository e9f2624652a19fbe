-- ===== src/FilePath.antt =====
-- Relative paths, as crates/ize-lib/src uses `PathBuf`: a path is its list of components. The
-- kernel hands over names of one component, so `join` adds one at the end.
use ize.Prelude.{
  ◌≡◌, refl, Bool, true, false, ◌&&◌, List, [], ◌∷◌, ◌++◌, String, str_eq, str_eq_iff, arith,
}

abbrev pub FilePath : Type 0
FilePath = List String

-- `PathBuf::new()`
abbrev pub root : FilePath
root = []

-- `Path::join` with the name of a directory entry.
unfoldable pub join : FilePath → String → FilePath
join p name = p ++ (name ∷ [])

unfoldable pub path_eq : FilePath → FilePath → Bool
path_eq [] [] = true
path_eq [] (d ∷ q) = false
path_eq (c ∷ p) [] = false
path_eq (c ∷ p) (d ∷ q) = str_eq c d && path_eq p q

pub path_eq_refl : (p : FilePath) → path_eq p p ≡ true
unfolding path_eq
path_eq_refl [] = refl
path_eq_refl (c ∷ p) = ground (arith, str_eq_iff c c, path_eq_refl p)

pub path_eq_sound : (p q : FilePath) → path_eq p q ≡ true → p ≡ q
unfolding path_eq
path_eq_sound [] [] h = refl
path_eq_sound [] (d ∷ q) h = ground arith
path_eq_sound (c ∷ p) [] h = ground arith
path_eq_sound (c ∷ p) (d ∷ q) h = ground (arith, str_eq_iff c d, path_eq_sound p q)
