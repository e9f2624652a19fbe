-- ===== src/Commands/Tests/Shown.antt =====
-- Paths that are too wide for the table.
use ize.Prelude.{ℕ, ◌≡◌, ◌↔◌, refl, List, ◌++◌, none, some, codes, replicate, arith}
use ize.Commands.Table.{byte_length, dots, truncate_path}
use ize.Commands.Table.Laws.{truncate_path_iff}

-- Twenty-five letters of two bytes each: the cut would be inside the third.
accented : truncate_path (replicate 25 0xe9) 48 ≡ none
unfolding truncate_path
accented = refl

plain : truncate_path (codes "/home/someone") 10 ≡ some (codes "...someone")
unfolding truncate_path
plain = refl

truncate_path_iff_example :
    (truncate_path (codes "/home/someone") 10 ≡ some (codes "...someone")) ↔ (
      (rest : List ℕ) × (start : List ℕ) × (codes "...someone" ≡ dots ++ rest)
      × (codes "/home/someone" ≡ start ++ rest)
      × (byte_length (codes "...someone") ≡ 10))
unfolding byte_length
truncate_path_iff_example =
    truncate_path_iff (codes "/home/someone") 10 (codes "...someone") (omega arith) (omega arith)
