-- ===== src/Filesystems/Passthrough/Entries.antt =====
-- crates/ize-lib/src/filesystems/passthrough.rs: the handlers that look at files and directories
-- and change nothing on the disk.
use ize.Prelude.{
  ℕ, ◌+◌, ℤ, as_u64, Bool, ◌||◌, List, [], ◌∷◌, ◌++◌, drop, none, some, Result, ok, err, String,
  is_some, ◌==◌, if◌then◌else◌,
}
use ize.FilePath.{FilePath, join}
use ize.Filesystems.Backing.{Libc, IoError, errno}
use ize.Filesystems.StdFs.{StdFs, Metadata, DirItem}
use ize.Filesystems.PassthroughFd.{
  fuse_root_id, directory, Listed, Reply, error, entry, attr, directory_listing, opened, statistics,
  done,
}
use ize.Filesystems.Passthrough.{
  PassthroughFs, metadata_to_attr, metadata_to_filetype, to_real, register_inode,
  get_path_for_inode, parent_path,
}

-- The inode that a reply names: that of the root is fixed.
unfoldable pub shown_ino : ℕ → Metadata → ℕ
shown_ino ino meta = if ino == fuse_root_id then fuse_root_id else meta.ino

module _ (c : Libc) (D : StdFs) where
  abbrev pub Fs : Type 0
  Fs = PassthroughFs D.State D.File

  -- The entry at a path, whose inode is registered.
  unfoldable pub reply_entry : ℕ → FilePath → Fs → Fs × Reply
  reply_entry default rel_path fs = elim (D.metadata (to_real fs rel_path) fs.disk) [
    | ok meta ↦ (register_inode fs meta.ino rel_path, entry (metadata_to_attr meta meta.ino))
    | err e ↦ (fs, error (errno e default))
  ]

  unfoldable pub lookup : ℕ → String → Fs → Fs × Reply
  unfolding reply_entry
  lookup parent name fs = elim (parent_path fs parent) [
    | none ↦ (fs, error c.enoent)
    | some path ↦ reply_entry c.enoent (join path name) fs
  ]

  -- The end of `getattr` and of `setattr`.
  unfoldable pub reply_metadata : ℕ → ℕ → FilePath → Fs → Fs × Reply
  unfolding shown_ino
  reply_metadata default ino rel_path fs = elim (D.metadata (to_real fs rel_path) fs.disk) [
    | ok meta ↦ (fs, attr (metadata_to_attr meta (shown_ino ino meta)))
    | err e ↦ (fs, error (errno e default))
  ]

  unfoldable pub getattr : ℕ → Fs → Fs × Reply
  unfolding reply_metadata
  getattr ino fs = elim (get_path_for_inode fs ino) [
    | none ↦ (fs, error c.enoent)
    | some rel_path ↦ reply_metadata c.enoent ino rel_path fs
  ]

  -- The loop over the directory: an entry that cannot be read, or whose metadata cannot, is left
  -- out, and each other inode is registered. An entry is listed without its offset.
  unfoldable pub collect_entries :
      FilePath → List (Result DirItem IoError) → Fs → Fs × List (ℕ × Metadata × String)
  collect_entries rel_path [] fs = (fs, [])
  collect_entries rel_path (err e ∷ items) fs = collect_entries rel_path items fs
  collect_entries rel_path (ok item ∷ items) fs = elim item.metadata [
    | err e ↦ collect_entries rel_path items fs
    | ok meta ↦
        let (fs', entries) =
          collect_entries rel_path items
            (register_inode fs meta.ino (join rel_path item.file_name)) in
        (fs', (meta.ino, meta, D.to_string_lossy item.file_name) ∷ entries)
  ]

  -- Each entry with the offset of the one after it.
  unfoldable pub numbered : ℕ → List (ℕ × Metadata × String) → List Listed
  numbered i [] = []
  numbered i ((ino, meta, name) ∷ entries) =
      record { ino = ino; offset = i + 1; kind = metadata_to_filetype meta; name = name }
      ∷ numbered (i + 1) entries

  -- `.` and `..`, and then the entries of the directory.
  unfoldable pub all_entries : ℕ → List (ℕ × Metadata × String) → List Listed
  unfolding numbered
  all_entries ino entries =
      record { ino = ino; offset = 1; kind = directory; name = "." }
      ∷ record { ino = fuse_root_id; offset = 2; kind = directory; name = ".." }
      ∷ numbered 2 entries

  -- `reply.add`, until it says that the buffer is full: the entry it says so for is not in it.
  unfoldable pub add_entries :
      (List Listed → Listed → Bool) → List Listed → List Listed → List Listed
  add_entries is_full sent [] = sent
  add_entries is_full sent (e ∷ entries) =
      let rest = add_entries is_full (sent ++ (e ∷ [])) entries in
      if is_full sent e then sent else rest

  unfoldable pub readdir : (List Listed → Listed → Bool) → ℕ → ℤ → Fs → Fs × Reply
  unfolding collect_entries all_entries add_entries
  readdir is_full ino offset fs = elim (get_path_for_inode fs ino) [
    | none ↦ (fs, error c.enoent)
    | some rel_path ↦
        if D.is_dir (to_real fs rel_path) fs.disk
        then elim (D.read_dir (to_real fs rel_path) fs.disk) [
          | err e ↦ (fs, error (errno e c.enoent))
          | ok items ↦
              let (fs', entries) = collect_entries rel_path items fs in
              (
                fs',
                directory_listing
                    (add_entries is_full [] (drop (as_u64 offset) (all_entries ino entries))),
              )
        ]
        else (fs, error c.enotdir)
  ]

  unfoldable pub opendir : ℕ → Fs → Fs × Reply
  opendir ino fs =
      if (ino == fuse_root_id) || is_some (get_path_for_inode fs ino)
      then (fs, opened 0)
      else (fs, error c.enoent)

  -- A nix error is its errno.
  unfoldable pub access : ℕ → ℕ → Fs → Fs × Reply
  access ino mask fs = elim (get_path_for_inode fs ino) [
    | none ↦ (fs, error c.enoent)
    | some rel_path ↦ elim (D.access (to_real fs rel_path) mask fs.disk) [
      | ok u ↦ (fs, done)
      | err e ↦ (fs, error e)
    ]
  ]

  unfoldable pub statfs : Fs → Fs × Reply
  statfs fs = elim (D.statvfs fs.source_dir fs.disk) [
    | ok stat ↦ (fs, statistics stat)
    | err e ↦ (fs, error e)
  ]
