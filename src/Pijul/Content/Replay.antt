-- ===== src/Pijul/Content/Replay.antt =====
-- Sequences of recorded writes, and the truncation.
use ize.Prelude.{
  ℕ, zero, suc, ◌+◌, ◌≤◌, ◌<◌, ◌≡◌, ◌≢◌, refl, ap, List, [], ◌∷◌, arith, length, take, length-take,
}
use ize.Operations.Operation.{Bytes}
use ize.Pijul.Content.{apply_write, apply_truncate}
use ize.Pijul.Content.Laws.{byte_at, length-apply_write, byte_at-apply_write}

-- Contents of one length with the same byte at each position are equal.
eq_of_bytes :
    (xs ys : Bytes) → length xs ≡ length ys → ((i : ℕ) → byte_at xs i ≡ byte_at ys i) → xs ≡ ys
eq_of_bytes [] [] e h = refl
eq_of_bytes [] (y ∷ ys) e h = absurd (omega arith)
eq_of_bytes (x ∷ xs) [] e h = absurd (omega arith)
eq_of_bytes (x ∷ xs) (y ∷ ys) e h = cc (h 0, eq_of_bytes xs ys (omega arith) (λ i. h (suc i)))

-- A write replayed changes nothing.
pub apply_write_idem :
    (c : Bytes) (o : ℕ) (bs : Bytes) → apply_write (apply_write c o bs) o bs ≡ apply_write c o bs
apply_write_idem c o bs =
    eq_of_bytes _ _
      (omega (arith, length-apply_write (apply_write c o bs) o bs, length-apply_write c o bs))
      λ i.
        ground
          (arith, byte_at-apply_write (apply_write c o bs) o bs i, byte_at-apply_write c o bs i)

-- Two writes commute when the range of the one ends before that of the other begins.
pub apply_write_comm :
    (c : Bytes) (o p : ℕ) (bs ds : Bytes)
    → o + length bs ≤ p
    → apply_write (apply_write c o bs) p ds ≡ apply_write (apply_write c p ds) o bs
apply_write_comm c o p bs ds apart =
    eq_of_bytes _ _
      (omega (
        arith,
        length-apply_write (apply_write c o bs) p ds,
        length-apply_write c o bs,
        length-apply_write (apply_write c p ds) o bs,
        length-apply_write c p ds,
      ))
      λ i. ground (
        arith,
        byte_at-apply_write (apply_write c o bs) p ds i,
        byte_at-apply_write c o bs i,
        byte_at-apply_write (apply_write c p ds) o bs i,
        byte_at-apply_write c p ds i,
      )

take_all {ℓ} : {A : Type ℓ} (n : ℕ) (xs : List A) → length xs ≤ n → take n xs ≡ xs
take_all zero [] h = refl
take_all zero (x ∷ xs) h = absurd (omega arith)
take_all (suc n) [] h = refl
take_all (suc n) (x ∷ xs) h = ap (λ l. x ∷ l) (take_all n xs (omega arith))

-- A truncation to a size behind the end records no change, although the system call extends the
-- file to that size.
apply_truncate_extend :
    (c : Bytes) (n : ℕ)
    → length c < n
    → (apply_truncate c n ≡ c) × (length (apply_truncate c n) ≢ n)
unfolding apply_truncate
apply_truncate_extend c n h = (take_all n c (omega arith), omega (arith, length-take n c))
