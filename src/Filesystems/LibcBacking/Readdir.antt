-- ===== src/Filesystems/LibcBacking/Readdir.antt =====
-- crates/ize-lib/src/backing_fs/libc_impl.rs: `readdir`, which takes a stream from a duplicate of the
-- directory's descriptor.
use ize.Prelude.{
  ℕ, zero, suc, pos, negsuc, List, [], ◌∷◌, Option, none, some, Result, ok, err, ◌==◌,
  if◌then◌else◌,
}
use ize.FilePath.{FilePath}
use ize.Filesystems.Backing.{IoError, DirEntry}
use ize.Filesystems.Syscalls.{Syscalls}
use ize.Filesystems.LibcBacking.{LibcBackingFs, Outcome, open_dir_for}

module _ (S : Syscalls) where
  -- The loop over the directory's entries, and the end of the stream.
  unfoldable pub add_entry :
      DirEntry
      → S.State × Option (Result (List DirEntry) IoError)
      → S.State × Option (Result (List DirEntry) IoError)
  add_entry entry (s, some (ok entries)) = (s, some (ok (entry ∷ entries)))
  add_entry entry (s, some (err e)) = (s, some (err e))
  add_entry entry (s, none) = (s, none)

  unfoldable pub end_of_stream : S.Dir → S.State → Outcome S (List DirEntry)
  end_of_stream dirp s =
      let e = S.errno s in
      let (s', rc) = S.closedir dirp s in if e == 0 then (s', ok []) else (s', err (some e))

  abbrev pub returned :
      Outcome S (List DirEntry) → S.State × Option (Result (List DirEntry) IoError)
  returned (s, result) = (s, some result)

  unfoldable pub read_entries :
      ℕ → S.Dir → S.State → S.State × Option (Result (List DirEntry) IoError)
  unfolding add_entry end_of_stream
  read_entries zero dirp s = (s, none)
  read_entries (suc fuel) dirp s =
      let (s', ent) = S.readdir dirp (S.set_errno 0 s) in
      elim ent [
        | none ↦ returned (end_of_stream dirp s')
        | some entry ↦ add_entry entry (read_entries fuel dirp s')
      ]

  -- From the duplicate on: `fdopendir` takes it over.
  unfoldable pub read_stream : ℕ → ℕ → S.State → S.State × Option (Result (List DirEntry) IoError)
  unfolding read_entries
  read_stream fuel dup_fd s =
      let (s', stream) = S.fdopendir dup_fd s in
      elim stream [
        | none ↦ let (s'', rc) = S.close dup_fd s' in (s'', some (err (some (S.errno s''))))
        | some dirp ↦ read_entries fuel dirp s'
      ]

  unfoldable pub readdir :
      ℕ → LibcBackingFs → FilePath → S.State → S.State × Option (Result (List DirEntry) IoError)
  unfolding open_dir_for read_stream
  readdir fuel b rel s =
      let (s, opened) = open_dir_for S b.base_fd rel s in
      elim opened [
        | err e ↦ (s, some (err e))
        | ok dir_fd ↦
            let (s, dup_fd) = S.dup dir_fd s in
            let (s, rc) = S.close dir_fd s in
            elim dup_fd [
              | negsuc k ↦ (s, some (err (some (S.errno s))))
              | pos dup_fd ↦ read_stream fuel dup_fd s
            ]
      ]
