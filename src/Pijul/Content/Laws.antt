-- ===== src/Pijul/Content/Laws.antt =====
-- The content after a write or a truncation, against what a file holds after the system call.
use ize.Prelude.{
  ℕ, zero, suc, ◌+◌, ◌-◌, ◌≤◌, ◌<◌, ◌≡◌, refl, ap, ◌∙◌, max, [], ◌∷◌, ◌++◌, arith, length, take,
  drop, replicate, length-append, length-take, length-drop, length-replicate, ltb, if◌then◌else◌,
}
use native.Mathlib.Decide.{dec_lt}
use ize.Operations.Operation.{Bytes}
use ize.Pijul.Content.{resize, grow, copy_at, apply_write}

-- The byte at a position; a position behind the end reads as 0, as the hole in a sparse file.
abbrev pub byte_at : Bytes → ℕ → ℕ
byte_at [] i = 0
byte_at (b ∷ bs) zero = b
byte_at (b ∷ bs) (suc i) = byte_at bs i

length-resize : (c : Bytes) (n : ℕ) → length (resize c n) ≡ n
unfolding resize
length-resize c n = omega (
  arith,
  length-append (take n c) (replicate (n - length c) 0),
  length-take n c,
  length-replicate (n - length c) (let z : ℕ = 0 in z),
)

length-copy_at :
    (c : Bytes) (at : ℕ) (bs : Bytes)
    → at + length bs ≤ length c
    → length (copy_at c at bs) ≡ length c
unfolding copy_at
length-copy_at c at bs h = omega (
  arith,
  length-append (take at c) (bs ++ drop (at + length bs) c),
  length-append bs (drop (at + length bs) c),
  length-take at c,
  length-drop (at + length bs) c,
)

length-grow : (c : Bytes) (n : ℕ) → length (grow c n) ≡ max (length c) n
unfolding grow
length-grow c n = ground (arith, length-resize c n)

-- A write leaves the content as long as it was, or as long as the write's end if that is later.
pub length-apply_write :
    (c : Bytes) (offset : ℕ) (bs : Bytes)
    → length (apply_write c offset bs) ≡ max (length c) (offset + length bs)
unfolding apply_write
length-apply_write c offset bs = omega (
  arith,
  length-copy_at (grow (grow c offset) (offset + length bs)) offset bs room,
  length-grow (grow c offset) (offset + length bs),
  length-grow c offset,
)
  where
    room : offset + length bs ≤ length (grow (grow c offset) (offset + length bs))
    room = omega (arith, length-grow (grow c offset) (offset + length bs))

byte_at-append :
    (xs ys : Bytes) (i : ℕ)
    → byte_at (xs ++ ys) i
      ≡ (if ltb i (length xs) then byte_at xs i else byte_at ys (i - length xs))
byte_at-append [] ys i = ground arith
byte_at-append (x ∷ xs) ys zero = ground arith
byte_at-append (x ∷ xs) ys (suc i) = ground (arith, byte_at-append xs ys i)

byte_at-take : (n : ℕ) (xs : Bytes) (i : ℕ) → i < n → byte_at (take n xs) i ≡ byte_at xs i
byte_at-take zero xs i h = absurd (omega arith)
byte_at-take (suc n) [] i h = refl
byte_at-take (suc n) (x ∷ xs) zero h = refl
byte_at-take (suc n) (x ∷ xs) (suc i) h = byte_at-take n xs i (omega arith)

byte_at-drop : (n : ℕ) (xs : Bytes) (i : ℕ) → byte_at (drop n xs) i ≡ byte_at xs (n + i)
byte_at-drop zero xs i = ap (byte_at xs) (omega arith)
byte_at-drop (suc n) [] i = refl
byte_at-drop (suc n) (x ∷ xs) i =
    byte_at-drop n xs i ∙ ap (byte_at (x ∷ xs)) (let e : suc (n + i) ≡ suc n + i = omega arith in e)

byte_at-replicate : (n i : ℕ) → byte_at (replicate n 0) i ≡ 0
byte_at-replicate zero i = refl
byte_at-replicate (suc n) zero = refl
byte_at-replicate (suc n) (suc i) = byte_at-replicate n i

byte_at_end : (xs : Bytes) (i : ℕ) → length xs ≤ i → byte_at xs i ≡ 0
byte_at_end [] i h = refl
byte_at_end (x ∷ xs) zero h = absurd (omega arith)
byte_at_end (x ∷ xs) (suc i) h = byte_at_end xs i (omega arith)

byte_at-resize : (c : Bytes) (n i : ℕ) → length c ≤ n → byte_at (resize c n) i ≡ byte_at c i
unfolding resize
byte_at-resize c n i h = elim (dec_lt i (length c)) [
  | yes inside ↦
      byte_at-append (take n c) (replicate (n - length c) 0) i
      ∙ ground (arith, byte_at-take n c i, length-take n c)
  | no outside ↦
      byte_at-append (take n c) (replicate (n - length c) 0) i
      ∙ ground (
        arith,
        length-take n c,
        byte_at-replicate (n - length c) (i - length (take n c)),
        byte_at_end c i,
      )
]

byte_at-grow : (c : Bytes) (n i : ℕ) → byte_at (grow c n) i ≡ byte_at c i
unfolding grow
byte_at-grow c n i = ground (arith, byte_at-resize c n i)

byte_at-copy_at :
    (c : Bytes) (at : ℕ) (bs : Bytes) (i : ℕ)
    → at + length bs ≤ length c
    → byte_at (copy_at c at bs) i ≡ (
        if ltb i at
        then byte_at c i
        else (if ltb i (at + length bs) then byte_at bs (i - at) else byte_at c i))
unfolding copy_at
byte_at-copy_at c at bs i h =
    byte_at-append (take at c) (bs ++ drop (at + length bs) c) i
    ∙ ground (
      arith,
      length-take at c,
      byte_at-take at c i,
      byte_at-append bs (drop (at + length bs) c) (i - length (take at c)),
      byte_at-drop (at + length bs) c (i - length (take at c) - length bs),
    )

-- After a write each position holds what the system call would leave there: the written byte
-- inside the written range, and outside it the old byte, or 0 if there was none.
pub byte_at-apply_write :
    (c : Bytes) (offset : ℕ) (bs : Bytes) (i : ℕ)
    → byte_at (apply_write c offset bs) i ≡ (
        if ltb i offset
        then byte_at c i
        else (if ltb i (offset + length bs) then byte_at bs (i - offset) else byte_at c i))
unfolding apply_write
byte_at-apply_write c offset bs i =
    byte_at-copy_at (grow (grow c offset) (offset + length bs)) offset bs i
      (omega (arith, length-grow (grow c offset) (offset + length bs)))
    ∙ ground (arith, byte_at-grow (grow c offset) (offset + length bs) i, byte_at-grow c offset i)
