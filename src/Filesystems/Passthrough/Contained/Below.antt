-- ===== src/Filesystems/Passthrough/Contained/Below.antt =====
-- crates/ize-lib/src/filesystems/passthrough.rs: paths that do not lead up, and maps of such paths.
use ize.Prelude
use ize.Prelude.{
  ℕ, ◌≡◌, ◌≢◌, [], ◌∷◌, some, String, Dict, Bool-cases, inl, inr, insert, remove, All, All-append,
  arith, ◌==◌,
}
use ize.FilePath.{FilePath, join}

abbrev pub IsPlain : String → Type 0
IsPlain name = name ≢ ".."

-- No component of a path leads up.
unfoldable pub IsBelow : FilePath → Type 0
IsBelow path = All IsPlain path

unfoldable pub IsContained : Dict FilePath → Type 0
unfolding IsBelow
IsContained m = All (λ (entry : ℕ × FilePath). IsBelow entry.1) m

pub join-IsBelow : (p : FilePath) (name : String) → IsBelow p → IsPlain name → IsBelow (join p name)
unfolding IsBelow join
join-IsBelow p name h k = All-append IsPlain p (name ∷ []) h (k, tt)

pub remove-IsContained : (ino : ℕ) (m : Dict FilePath) → IsContained m → IsContained (remove ino m)
unfolding IsContained remove
remove-IsContained ino [] h = h
remove-IsContained ino (e ∷ m) h = ground (arith, h.0, remove-IsContained ino m h.1)

pub insert-IsContained :
    (ino : ℕ) (p : FilePath) (m : Dict FilePath)
    → IsBelow p
    → IsContained m
    → IsContained (insert ino p m)
unfolding IsContained insert
insert-IsContained ino p m h k = (h, remove-IsContained ino m k)

pub lookup-IsBelow :
    (ino : ℕ) (p : FilePath) (m : Dict FilePath)
    → IsContained m
    → Prelude.lookup ino m ≡ some p
    → IsBelow p
unfolding IsContained Prelude.lookup
lookup-IsBelow ino p [] h k = cc k
lookup-IsBelow ino p ((i, q) ∷ m) h k = elim (Bool-cases (i == ino)) [
  | inl e ↦ let same : p ≡ q = ground (arith, e, k) in rw same h.0
  | inr e ↦ lookup-IsBelow ino p m h.1 (ground (arith, e, k))
]
