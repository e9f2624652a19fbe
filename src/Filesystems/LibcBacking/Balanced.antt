-- ===== src/Filesystems/LibcBacking/Balanced.antt =====
-- crates/ize-lib/src/backing_fs/libc_impl.rs: `readdir` gives back the descriptors that it opens.
use ize.Prelude.{
  ℕ, zero, suc, ◌<◌, ◌≡◌, refl, ap, ◌∙◌, ℤ, pos, negsuc, Bool, true, false, List, [], Option, none,
  some, Result, ok, err, ◌==◌, if◌then◌else◌, arith,
}
use ize.FilePath.{FilePath}
use ize.Filesystems.Backing.{IoError, DirEntry}
use ize.Filesystems.Syscalls.{Syscalls}
use ize.Filesystems.LibcBacking.{LibcBackingFs, Outcome, directory_flags, open_dir_for}
use ize.Filesystems.LibcBacking.Readdir.{
  returned, add_entry, end_of_stream, read_entries, read_stream, readdir,
}
use ize.Filesystems.LibcBacking.Laws.{
  DescriptorLaws, Opened, Closed, Keeps, OpenedResult, checked-OpenedResult, at_path-OpenedResult,
}

module _ (S : Syscalls) (is_open : ℕ → S.State → Bool) (fd_of : S.Dir → ℕ)
    (left : S.Dir → S.State → ℕ) (D : DescriptorLaws S is_open fd_of left) where
  abbrev Entries : Type 0
  Entries = S.State × Option (Result (List DirEntry) IoError)

  -- The call returns, with the descriptor closed that it was given and no other changed.
  abbrev pub Finishes : ℕ → ℕ → S.State → Entries → Type 0
  Finishes n fd s out =
      (result : Result (List DirEntry) IoError) × (out.1 ≡ some result)
      × Closed is_open n fd s out.0

  add_entry-Finishes :
      (n fd : ℕ) (s : S.State) (entry : DirEntry) (out : Entries)
      → Finishes n fd s out
      → Finishes n fd s (add_entry S entry out)
  unfolding add_entry
  add_entry-Finishes n fd s entry (s', none) (r, h, c) = cc h
  add_entry-Finishes n fd s entry (s', some (ok entries)) (r, h, c) = (_, refl, c)
  add_entry-Finishes n fd s entry (s', some (err e)) (r, h, c) = (_, refl, c)

  end_of_stream-Finishes :
      (n : ℕ) (dirp : S.Dir) (s s' : S.State)
      → Keeps is_open n s s'
      → Finishes n (fd_of dirp) s (returned S (end_of_stream S dirp s'))
  unfolding end_of_stream
  end_of_stream-Finishes n dirp s s' kept = by_errno (S.errno s' == 0)
    where
      closed : Closed is_open n (fd_of dirp) s (S.closedir dirp s').0
      closed = D.closedir n dirp s' ∙ ap (λ b. if fd_of dirp == n then false else b) kept

      by_errno :
          (b : Bool)
          → Finishes n (fd_of dirp) s (
              returned S (
                if b
                then ((S.closedir dirp s').0, ok [])
                else ((S.closedir dirp s').0, err (some (S.errno s')))))
      by_errno true = (_, refl, closed)
      by_errno false = (_, refl, closed)

  -- One turn of the loop, from what `readdir` returned.
  turn-Finishes :
      (n fuel : ℕ) (dirp : S.Dir) (s : S.State) (out : S.State × Option DirEntry)
      → Keeps is_open n s out.0
      → ((entry : DirEntry)
          → out.1 ≡ some entry
          → Finishes n (fd_of dirp) out.0 (read_entries S fuel dirp out.0))
      → Finishes n (fd_of dirp) s (elim out.1 as (λ x. Entries) [
        | none ↦ returned S (end_of_stream S dirp out.0)
        | some entry ↦ add_entry S entry (read_entries S fuel dirp out.0)
      ])
  turn-Finishes n fuel dirp s (s', none) kept rest = end_of_stream-Finishes n dirp s s' kept
  turn-Finishes n fuel dirp s (s', some entry) kept rest =
      let (result, same, closed) = rest entry refl in
      add_entry-Finishes n (fd_of dirp) s entry (read_entries S fuel dirp s')
        (result, same, closed ∙ ap (λ b. if fd_of dirp == n then false else b) kept)

  read_entries-Finishes :
      (n fuel : ℕ) (dirp : S.Dir) (s : S.State)
      → left dirp s < fuel
      → Finishes n (fd_of dirp) s (read_entries S fuel dirp s)
  unfolding read_entries
  read_entries-Finishes n zero dirp s enough = absurd (omega arith)
  read_entries-Finishes n (suc fuel) dirp s enough =
      let out = S.readdir dirp (S.set_errno 0 s) in
      turn-Finishes n fuel dirp s out (D.readdir n dirp (S.set_errno 0 s) ∙ D.set_errno n 0 s)
        λ entry read.
          read_entries-Finishes n fuel dirp out.0 (omega (arith, D.readdir_some dirp s entry read))

  module _ (fuel : ℕ) (enough : (dirp : S.Dir) (s : S.State) → left dirp s < fuel) where
    stream-Finishes :
        (n fd : ℕ) (s : S.State) (out : S.State × Option S.Dir)
        → Keeps is_open n s out.0
        → ((dirp : S.Dir) → out.1 ≡ some dirp → fd_of dirp ≡ fd)
        → Finishes n fd s (elim out.1 as (λ x. Entries) [
          | none ↦ let (s'', rc) = S.close fd out.0 in (s'', some (err (some (S.errno s''))))
          | some dirp ↦ read_entries S fuel dirp out.0
        ])
    stream-Finishes n fd s (s', none) kept own =
        (_, refl, D.close n fd s' ∙ ap (λ b. if fd == n then false else b) kept)
    stream-Finishes n fd s (s', some dirp) kept own =
        let (result, same, closed) = read_entries-Finishes n fuel dirp s' (enough dirp s') in
        (
          result,
          same,
          closed
              ∙ ap (λ b. if fd_of dirp == n then false else b) kept
              ∙ ap (λ k. if k == n then false else is_open n s) (own dirp refl),
        )

    pub read_stream-Finishes : (n fd : ℕ) (s : S.State) → Finishes n fd s (read_stream S fuel fd s)
    unfolding read_stream
    read_stream-Finishes n fd s =
        stream-Finishes n fd s (S.fdopendir fd s) (D.fdopendir n fd s) (D.fdopendir_some fd s)

    -- The call returns, and every descriptor is as it was.
    abbrev Balanced : ℕ → S.State → Entries → Type 0
    Balanced n s out =
        (result : Result (List DirEntry) IoError) × (out.1 ≡ some result) × Keeps is_open n s out.0

    -- The duplicate of a new descriptor, which is then closed.
    duplicate-Balanced :
        (n fd : ℕ) (s0 s : S.State) (out : S.State × ℤ)
        → is_open fd s0 ≡ false
        → is_open n s ≡ (if fd == n then true else is_open n s0)
        → Opened is_open n s out
        → Balanced n s0 (elim out.1 as (λ x. Entries) [
          | negsuc k ↦ ((S.close fd out.0).0, some (err (some (S.errno (S.close fd out.0).0))))
          | pos dup_fd ↦ read_stream S fuel dup_fd (S.close fd out.0).0
        ])
    duplicate-Balanced n fd s0 s (s', negsuc k) fresh opened same =
        (_, refl, ground (arith, same, fresh, opened, D.close n fd s'))
    duplicate-Balanced n fd s0 s (s', pos dup_fd) fresh opened (new, both) =
        let (result, same, closed) = read_stream-Finishes n dup_fd (S.close fd s').0 in
        (result, same, ground (arith, closed, new, both, fresh, opened, D.close n fd s'))

    opened-Balanced :
        (n : ℕ) (s0 : S.State) (out : Outcome S ℕ)
        → OpenedResult S is_open fd_of left D n s0 out
        → Balanced n s0 (elim out.1 as (λ x. Entries) [
          | err e ↦ (out.0, some (err e))
          | ok dir_fd ↦
              let (s, dup_fd) = S.dup dir_fd out.0 in
              let (s, rc) = S.close dir_fd s in
              elim dup_fd as (λ x. Entries) [
                | negsuc k ↦ (s, some (err (some (S.errno s))))
                | pos dup_fd ↦ read_stream S fuel dup_fd s
              ]
        ])
    opened-Balanced n s0 (s, err e) h = (_, refl, h)
    opened-Balanced n s0 (s, ok fd) h =
        duplicate-Balanced n fd s0 s (S.dup fd s) h.0 h.1 (D.dup n fd s)

    -- If the fuel is more than any directory has entries, `readdir` returns, with the entries or an
    -- error, and on each of its paths the table of descriptors is afterwards as it was before.
    pub readdir-Balanced :
        (n : ℕ) (b : LibcBackingFs) (rel : FilePath) (s : S.State)
        → (result : Result (List DirEntry) IoError) × ((readdir S fuel b rel s).1 ≡ some result)
          × (is_open n (readdir S fuel b rel s).0 ≡ is_open n s)
    unfolding readdir open_dir_for
    readdir-Balanced n b rel s = opened-Balanced n s (open_dir_for S b.base_fd rel s) (
        at_path-OpenedResult S is_open fd_of left D n rel s _ λ c_path.
          checked-OpenedResult S is_open fd_of left D n s _
            (D.openat n b.base_fd c_path (directory_flags S) 0 s))
