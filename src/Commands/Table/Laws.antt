-- ===== src/Commands/Table/Laws.antt =====
-- What `truncate_path` returns, and when it panics.
use ize.Prelude.{
  ℕ, zero, suc, ◌+◌, ◌-◌, ◌≤◌, ◌<◌, ◌≡◌, refl, ap, ◌↔◌, false, List, [], ◌∷◌, ◌++◌, Option, none,
  some, ltb, leb, arith, Bool-cases, inl, inr,
}
use ize.Commands.Table.{utf8_width, byte_length, slice_from, dots, after_dots, truncate_path}

utf8_width_pos : (c : ℕ) → 0 < utf8_width c
unfolding utf8_width
utf8_width_pos c = ground arith

byte_length-append : (xs ys : List ℕ) → byte_length (xs ++ ys) ≡ byte_length xs + byte_length ys
unfolding byte_length
byte_length-append [] ys = omega arith
byte_length-append (x ∷ xs) ys = omega (arith, byte_length-append xs ys)

-- A slice is what follows a beginning of so many bytes.
abbrev pub Splits : ℕ → List ℕ → List ℕ → Type 0
Splits n s rest = (start : List ℕ) × (s ≡ start ++ rest) × (byte_length start ≡ n)

slice_from-Splits :
    (s : List ℕ) (n : ℕ) (rest : List ℕ) → slice_from n s ≡ some rest → Splits n s rest
unfolding slice_from byte_length
slice_from-Splits s zero rest h = ([], cc h, refl)
slice_from-Splits [] (suc n) rest h = cc h
slice_from-Splits (c ∷ s) (suc n) rest h = elim (Bool-cases (ltb (suc n) (utf8_width c))) [
  | inl inside ↦ cc (rw inside at h)
  | inr beyond ↦
      let (start, same, count) = slice_from-Splits s (suc n - utf8_width c) rest (rw beyond at h) in
      (c ∷ start, ap (λ l. c ∷ l) same, ground (arith, count, beyond))
]

Splits-slice_from :
    (s : List ℕ) (n : ℕ) (rest start : List ℕ)
    → s ≡ start ++ rest
    → byte_length start ≡ n
    → slice_from n s ≡ some rest
unfolding slice_from byte_length
Splits-slice_from s zero rest [] same count = ap some same
Splits-slice_from s zero rest (c ∷ start) same count = absurd (omega (arith, utf8_width_pos c))
Splits-slice_from s (suc n) rest [] same count = absurd (omega arith)
Splits-slice_from [] (suc n) rest (c ∷ start) same count = cc same
Splits-slice_from (d ∷ s) (suc n) rest (c ∷ start) same count =
    let head : d ≡ c = cc same in
    let tail : s ≡ start ++ rest = cc same in
    let width : utf8_width d ≡ utf8_width c = ap utf8_width head in
    let beyond : ltb (suc n) (utf8_width d) ≡ false = ground (arith, count, width) in
    rw beyond (Splits-slice_from s (suc n - utf8_width d) rest start tail (omega (arith, width)))

slice_cases :
    (s : List ℕ) (n : ℕ) (shown : List ℕ) (o : Option (List ℕ))
    → slice_from n s ≡ o
    → (after_dots o ≡ some shown) ↔ ((rest : List ℕ) × (shown ≡ dots ++ rest) × Splits n s rest)
slice_cases s n shown none h = (
  λ e. cc e,
  λ (rest, same, (start, cut, count)). cc (h, Splits-slice_from s n rest start cut count),
)
slice_cases s n shown (some found) h = (
  λ e. (found, cc e, slice_from-Splits s n found h),
  λ (rest, same, (start, cut, count)). cc (h, same, Splits-slice_from s n rest start cut count),
)

byte_length-dots : (rest : List ℕ) → byte_length (dots ++ rest) ≡ 3 + byte_length rest
unfolding byte_length
byte_length-dots rest = omega arith

-- A text that is too long, with a width of three at least: what `truncate_path` returns is three
-- dots and an end of the text, which have exactly the width in bytes; and where the text has such an
-- end it is returned. Otherwise the call panics.
pub truncate_path_iff :
    (s : List ℕ) (max_len : ℕ) (shown : List ℕ)
    → 3 ≤ max_len
    → max_len < byte_length s
    → (truncate_path s max_len ≡ some shown) ↔ (
        (rest : List ℕ) × (start : List ℕ) × (shown ≡ dots ++ rest)
        × (s ≡ start ++ rest)
        × (byte_length shown ≡ max_len))
unfolding truncate_path
truncate_path_iff s max_len shown wide long = elim (Bool-cases (leb (byte_length s) max_len)) [
  | inl short ↦ absurd (ground (arith, short))
  | inr too_long ↦
      let n = byte_length s - max_len + 3 in
      let cases = slice_cases s n shown (slice_from n s) refl in
      rw too_long (
        (λ e.
            let (rest, same, (start, cut, count)) = cases.0 e in
            (
              rest,
              start,
              same,
              cut,
              omega (
                arith,
                ap byte_length same,
                byte_length-dots rest,
                ap byte_length cut,
                byte_length-append start rest,
                count,
              ),
            )),
        λ (rest, start, same, cut, count). cases.1 (
          rest,
          same,
          (
            start,
            cut,
            omega (
              arith,
              ap byte_length same,
              byte_length-dots rest,
              ap byte_length cut,
              byte_length-append start rest,
              count,
            ),
          ),
        ),
      )
]
