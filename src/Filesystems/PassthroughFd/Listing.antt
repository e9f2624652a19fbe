-- ===== src/Filesystems/PassthroughFd/Listing.antt =====
-- `readdir` in pages: what the kernel gets when it asks again from the offset that it was given.
use ize.Prelude.{
  ℕ, zero, suc, ◌+◌, ◌≡◌, refl, sym, ap, ◌∙◌, Bool, List, [], ◌∷◌, ◌++◌, append-nil, append_assoc,
  some, ok, arith, inl, inr, Bool-cases, as_u64, ℤ, drop, length, get_elem?,
}
use ize.FilePath.{FilePath}
use ize.Filesystems.Backing.{Libc, BackingFs, DirEntry}
use ize.Filesystems.PassthroughFd.{FdPassthroughFs, Listed, directory_listing, get_rel_path}
use ize.Filesystems.PassthroughFd.Paths.{listing, fill, readdir}

drop_nil {ℓ} : {A : Type ℓ} (k : ℕ) → drop {A = A} k [] ≡ []
drop_nil zero = refl
drop_nil (suc k) = refl

drop-drop {ℓ} : {A : Type ℓ} (m n : ℕ) (xs : List A) → drop m (drop n xs) ≡ drop (n + m) xs
drop-drop m zero xs = ap (λ k. drop k xs) (omega arith)
drop-drop m (suc n) [] = drop_nil m ∙ sym (drop_nil (suc n + m))
drop-drop m (suc n) (x ∷ xs) =
    drop-drop m n xs
    ∙ ap (λ k. drop k (x ∷ xs)) (let e : suc (n + m) ≡ suc n + m = omega arith in e)

get_elem?-front {ℓ} :
    {A : Type ℓ} (xs ys : List A) (j : ℕ) (x : A)
    → get_elem? xs j ≡ some x
    → get_elem? (xs ++ ys) j ≡ some x
get_elem?-front [] ys j x h = cc
get_elem?-front (a ∷ xs) ys zero x h = h
get_elem?-front (a ∷ xs) ys (suc j) x h = get_elem?-front xs ys j x h

get_elem?-drop {ℓ} :
    {A : Type ℓ} (k : ℕ) (xs : List A) (j : ℕ) → get_elem? (drop k xs) j ≡ get_elem? xs (k + j)
get_elem?-drop zero xs j = ap (get_elem? xs) (omega arith)
get_elem?-drop (suc k) [] j = refl
get_elem?-drop (suc k) (x ∷ xs) j =
    get_elem?-drop k xs j
    ∙ ap (get_elem? (x ∷ xs)) (let e : suc (k + j) ≡ suc k + j = omega arith in e)

module _ (c : Libc) (B : BackingFs) where
  -- A page is the front of what is left to list.
  fill_front :
      (is_full : List Listed → Listed → Bool) (page es : List Listed)
      → (front : List Listed) × (fill c B is_full page es ≡ page ++ front)
        × (front ++ drop (length front) es ≡ es)
  unfolding fill
  fill_front is_full page [] = ([], sym (append-nil page), refl)
  fill_front is_full page (e ∷ es) = elim (Bool-cases (is_full page e)) [
    | inl full ↦ ([], rw full (sym (append-nil page)), refl)
    | inr room ↦
        let (front, filled, whole) = fill_front is_full (page ++ (e ∷ [])) es in
        (e ∷ front, rw room (filled ∙ append_assoc page (e ∷ []) front), ap (λ l. e ∷ l) whole)
  ]

  listing_offset :
      (i : ℕ) (es : List DirEntry) (j : ℕ) (l : Listed)
      → get_elem? (listing c B i es) j ≡ some l
      → l.offset ≡ i + j + 1
  unfolding listing
  listing_offset i [] j l h = cc
  listing_offset i (e ∷ es) zero l h = ground (arith, h)
  listing_offset i (e ∷ es) (suc j) l h = listing_offset (i + 1) es j l h ∙ omega arith

  -- In a known directory that the store can list, `readdir` replies a page that is the front of the
  -- listing from the offset, so that the rest of the listing begins after the page: nothing is left
  -- out or given twice. The offset of each entry in it is that of the entry after it in the whole
  -- listing.
  pub readdir_resumes :
      (is_full : List Listed → Listed → Bool) (fs : FdPassthroughFs B.State) (ino : ℕ) (offset : ℤ)
      (rel : FilePath) (entries : List DirEntry)
      → get_rel_path fs ino ≡ some rel
      → B.readdir rel fs.backing ≡ ok entries
      → let whole = listing c B 0 entries in
        (page : List Listed) × ((readdir c B is_full ino offset fs).1 ≡ directory_listing page)
        × (page ++ drop (as_u64 offset + length page) whole ≡ drop (as_u64 offset) whole)
        × ((j : ℕ) (e : Listed) → get_elem? page j ≡ some e → e.offset ≡ as_u64 offset + j + 1)
  unfolding readdir
  readdir_resumes is_full fs ino offset rel entries known listed =
      let whole = listing c B 0 entries in
      let from = drop (as_u64 offset) whole in
      let (front, filled, rest) = fill_front is_full [] from in
      (
        front,
        rw (known, listed, readdir) (ap directory_listing filled),
        ap (λ l. front ++ l) (sym (drop-drop (length front) (as_u64 offset) whole)) ∙ rest,
        λ j e h.
            listing_offset 0 entries (as_u64 offset + j) e (
              sym (get_elem?-drop (as_u64 offset) whole j)
              ∙ ap (λ l. get_elem? l j) (sym rest)
              ∙ get_elem?-front front (drop (length front) from) j e h)
            ∙ omega arith,
      )
