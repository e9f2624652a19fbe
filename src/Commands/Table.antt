-- ===== src/Commands/Table.antt =====
-- crates/ize/src/main.rs: the table that the list command prints. A text is its code points, and an
-- index into it counts the bytes of UTF-8; a slice that starts inside a code point panics, which is
-- `none`.
pub mod Laws
use ize.Prelude.{
  ℕ, zero, suc, ◌+◌, ◌-◌, Bool, List, [], ◌∷◌, ◌++◌, Option, none, some, String, codes, ltb, leb,
  if◌then◌else◌,
}
use ize.Project.Manager.{ProjectInfo}

unfoldable pub utf8_width : ℕ → ℕ
utf8_width c = if ltb c 0x80 then 1 else if ltb c 0x800 then 2 else if ltb c 0x10000 then 3 else 4

-- `str::len`
unfoldable pub byte_length : List ℕ → ℕ
unfolding utf8_width
byte_length [] = 0
byte_length (c ∷ cs) = utf8_width c + byte_length cs

-- `&s[n..]`
unfoldable pub slice_from : ℕ → List ℕ → Option (List ℕ)
unfolding utf8_width
slice_from zero cs = some cs
slice_from (suc n) [] = none
slice_from (suc n) (c ∷ cs) =
    if ltb (suc n) (utf8_width c) then none else slice_from (suc n - utf8_width c) cs

abbrev pub dots : List ℕ
dots = codes "..."

abbrev after_dots : Option (List ℕ) → Option (List ℕ)
after_dots none = none
after_dots (some rest) = some (dots ++ rest)

unfoldable pub truncate_path : List ℕ → ℕ → Option (List ℕ)
unfolding byte_length slice_from
truncate_path s max_len =
    if leb (byte_length s) max_len
    then some s
    else after_dots (slice_from (byte_length s - max_len + 3) s)

-- A row has the truncated directory, whether it is mounted, and the project's number.
abbrev pub TableRow : Type 0
TableRow = List ℕ × Bool × String

abbrev row_of : ProjectInfo → Bool → Option (List ℕ) → Option TableRow
row_of p mounted none = none
row_of p mounted (some shown) = some (shown, mounted, p.uuid)

-- The rows that are printed, and whether all of them were, or one panicked.
unfoldable pub table_rows : List (ProjectInfo × Bool) → List TableRow × Bool
unfolding truncate_path
table_rows [] = ([], Bool.true)
table_rows ((p, mounted) ∷ ps) =
    let (rest, all) = table_rows ps in
    elim (row_of p mounted (truncate_path (codes p.source_dir) 48)) [
      | none ↦ ([], Bool.false)
      | some row ↦ (row ∷ rest, all)
    ]
