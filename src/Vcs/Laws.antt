-- ===== src/Vcs/Laws.antt =====
-- Which paths the detected filters ignore.
use ize.Prelude.{
  ◌≡◌, ap, sym, ◌∙◌, ◌&&◌, any, Bool-cases, Bool, true, [], ◌∷◌, String, arith, ◌⊎◌, inl, inr, ◌↔◌,
  str_eq_iff,
}
use ize.FilePath.{FilePath, join}
use ize.Vcs.{path_starts_with_dir, detect_all_filters, should_ignore_path}

-- The three directory names that the program knows.
abbrev pub IsKnown : String → Type 0
IsKnown dir = (dir ≡ ".git") ⊎ ((dir ≡ ".jj") ⊎ (dir ≡ ".pijul"))

-- The path is a known directory that is present in the base directory, or lies below one.
abbrev pub IsVcsPath : (FilePath → Bool) → FilePath → FilePath → Type 0
IsVcsPath is_dir base [] = ⊥
IsVcsPath is_dir base (first ∷ rest) = IsKnown first × (is_dir (join base first) ≡ true)

module _ (is_dir : FilePath → Bool) (base : FilePath) where
  -- What the filter for a directory name says of a path.
  abbrev matches : String → FilePath → Bool
  matches dir p = is_dir (join base dir) && path_starts_with_dir p dir

  hits :
      (p : FilePath)
      → should_ignore_path (detect_all_filters is_dir base) p
        ≡ any (λ dir. matches dir p) (".git" ∷ ".jj" ∷ ".pijul" ∷ [])
  unfolding should_ignore_path detect_all_filters
  hits p = ground arith

  hit :
      (dir first : String) (rest : FilePath)
      → first ≡ dir
      → is_dir (join base first) ≡ true
      → matches dir (first ∷ rest) ≡ true
  unfolding path_starts_with_dir
  hit dir first rest same there =
      let there' : is_dir (join base dir) ≡ true =
        ap (λ d. is_dir (join base d)) (sym same) ∙ there in
      ground (arith, there', (str_eq_iff first dir).1 same)

  hit_only :
      (dir first : String) (rest : FilePath)
      → matches dir (first ∷ rest) ≡ true
      → (first ≡ dir) × (is_dir (join base first) ≡ true)
  unfolding path_starts_with_dir
  hit_only dir first rest h =
      let same : first ≡ dir = (str_eq_iff first dir).0 (ground (arith, h)) in
      let there : is_dir (join base dir) ≡ true = ground (arith, h) in
      (same, ap (λ d. is_dir (join base d)) same ∙ there)

  ignored :
      (p : FilePath)
      → IsVcsPath is_dir base p
      → should_ignore_path (detect_all_filters is_dir base) p ≡ true
  ignored [] h = absurd h
  ignored (first ∷ rest) (inl git, there) =
      hits (first ∷ rest) ∙ ground (arith, hit ".git" first rest git there)
  ignored (first ∷ rest) (inr (inl jj), there) =
      hits (first ∷ rest) ∙ ground (arith, hit ".jj" first rest jj there)
  ignored (first ∷ rest) (inr (inr pijul), there) =
      hits (first ∷ rest) ∙ ground (arith, hit ".pijul" first rest pijul there)

  ignored_only :
      (p : FilePath)
      → should_ignore_path (detect_all_filters is_dir base) p ≡ true
      → IsVcsPath is_dir base p
  unfolding path_starts_with_dir
  ignored_only [] h = let none_hit = sym (hits []) ∙ h in absurd (ground (arith, none_hit))
  ignored_only (first ∷ rest) h = elim (Bool-cases (matches ".git" (first ∷ rest))) [
    | inl git ↦ let (same, there) = hit_only ".git" first rest git in (inl same, there)
    | inr no_git ↦ elim (Bool-cases (matches ".jj" (first ∷ rest))) [
      | inl jj ↦ let (same, there) = hit_only ".jj" first rest jj in (inr (inl same), there)
      | inr no_jj ↦
          let any_hit = sym (hits (first ∷ rest)) ∙ h in
          let (same, there) =
            hit_only ".pijul" first rest (ground (arith, any_hit, no_git, no_jj)) in
          (inr (inr same), there)
    ]
  ]

  -- A path is ignored exactly if its first component is `.git`, `.jj` or `.pijul` and a directory of
  -- that name is present in the base directory.
  pub should_ignore_path-IsVcsPath :
      (p : FilePath)
      → (should_ignore_path (detect_all_filters is_dir base) p ≡ true) ↔ IsVcsPath is_dir base p
  should_ignore_path-IsVcsPath p = (ignored_only p, ignored p)
