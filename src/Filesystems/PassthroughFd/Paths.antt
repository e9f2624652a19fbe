-- ===== src/Filesystems/PassthroughFd/Paths.antt =====
-- crates/ize-lib/src/filesystems/passthrough_fd.rs: the handlers that work on paths.
use ize.Prelude.{
  ℕ, ◌+◌, ◌%◌, ℤ, as_u64, Bool, ◌||◌, List, [], ◌∷◌, ◌++◌, drop, Option, none, some, Result, ok,
  err, String, str_eq, is_some, ◌==◌, if◌then◌else◌,
}
use ize.FilePath.{FilePath, join}
use ize.Filesystems.Backing.{Libc, BackingFs, Stat, DirEntry, IoError, errno}
use ize.Filesystems.PassthroughFd.{
  FdPassthroughFs, fuse_root_id, Listed, Reply, error, entry, attr, directory_listing, opened,
  statistics, done, u32_mod, stat_to_attr, dtype_to_filetype, register_inode, forget_inode,
  get_rel_path,
}

-- The inode that a reply names: that of the root is fixed.
unfoldable pub returned_ino : ℕ → Stat → ℕ
returned_ino ino st = if ino == fuse_root_id then fuse_root_id else st.st_ino

-- `stat(…).ok().map(|st| st.st_ino)`
abbrev pub ino_of : Result Stat IoError → Option ℕ
ino_of (ok st) = some st.st_ino
ino_of (err e) = none

module _ (c : Libc) (B : BackingFs) where
  abbrev Fs : Type 0
  Fs = FdPassthroughFs B.State

  -- The reply to a call that only succeeds or fails.
  unfoldable pub reply_empty : ℕ → Fs × Result (Unit {0}) IoError → Fs × Reply
  reply_empty default (fs, ok u) = (fs, done)
  reply_empty default (fs, err e) = (fs, error (errno e default))

  unfoldable pub lookup : ℕ → String → Fs → Fs × Reply
  lookup parent name fs = elim (get_rel_path fs parent) [
    | none ↦ (fs, error c.enoent)
    | some parent_rel ↦
        let child_rel = join parent_rel name in
        elim (B.stat child_rel fs.backing) [
          | ok st ↦ (register_inode fs st.st_ino child_rel, entry (stat_to_attr c st st.st_ino))
          | err e ↦ (fs, error (errno e c.enoent))
        ]
  ]

  -- The end of `getattr` and of `setattr`: a stat by path.
  unfoldable pub reply_attr : ℕ → FilePath → Fs → Fs × Reply
  unfolding returned_ino
  reply_attr ino rel fs = elim (B.stat rel fs.backing) [
    | ok st ↦ (fs, attr (stat_to_attr c st (returned_ino ino st)))
    | err e ↦ (fs, error (errno e c.eio))
  ]

  unfoldable pub getattr_by_path : ℕ → Fs → Fs × Reply
  unfolding reply_attr
  getattr_by_path ino fs = elim (get_rel_path fs ino) [
    | none ↦ (fs, error c.enoent)
    | some rel ↦ reply_attr ino rel fs
  ]

  unfoldable pub mkdir : ℕ → String → ℕ → Fs → Fs × Reply
  mkdir parent name mode fs =
      if fs.read_only then (fs, error c.erofs) else elim (get_rel_path fs parent) [
        | none ↦ (fs, error c.enoent)
        | some parent_rel ↦
            let child_rel = join parent_rel name in
            let (backing, result) = B.mkdir child_rel mode fs.backing in
            let fs' : Fs = record fs { backing = backing } in
            elim result [
              | err e ↦ (fs', error (errno e c.eio))
              | ok u ↦ elim (B.stat child_rel backing) [
                | ok st ↦
                    (register_inode fs' st.st_ino child_rel, entry (stat_to_attr c st st.st_ino))
                | err e ↦ (fs', error (errno e c.eio))
              ]
            ]
      ]

  -- The end of `unlink` and of `rmdir`: the inode seen before is forgotten if the entry is gone.
  unfoldable pub removed : Option ℕ → Fs → B.State × Result (Unit {0}) IoError → Fs × Reply
  removed maybe_ino fs (backing, ok u) =
      (forget_inode (record fs { backing = backing }) maybe_ino, done)
  removed maybe_ino fs (backing, err e) = (record fs { backing = backing }, error (errno e c.eio))

  unfoldable pub unlink : ℕ → String → Fs → Fs × Reply
  unfolding removed
  unlink parent name fs =
      if fs.read_only then (fs, error c.erofs) else elim (get_rel_path fs parent) [
        | none ↦ (fs, error c.enoent)
        | some parent_rel ↦
            let child_rel = join parent_rel name in
            let maybe_ino = ino_of (B.stat child_rel fs.backing) in
            removed maybe_ino fs (B.unlink child_rel fs.backing)
      ]

  unfoldable pub rmdir : ℕ → String → Fs → Fs × Reply
  unfolding removed
  rmdir parent name fs =
      if fs.read_only then (fs, error c.erofs) else elim (get_rel_path fs parent) [
        | none ↦ (fs, error c.enoent)
        | some parent_rel ↦
            let child_rel = join parent_rel name in
            let maybe_ino = ino_of (B.stat child_rel fs.backing) in
            removed maybe_ino fs (B.rmdir child_rel fs.backing)
      ]

  -- The end of `rename`: the inode of the old entry gets the new path.
  unfoldable pub renamed :
      Option ℕ → FilePath → Fs → B.State × Result (Unit {0}) IoError → Fs × Reply
  renamed (some ino) new_rel fs (backing, ok u) =
      (register_inode (record fs { backing = backing }) ino new_rel, done)
  renamed none new_rel fs (backing, ok u) = (record fs { backing = backing }, done)
  renamed maybe_ino new_rel fs (backing, err e) =
      (record fs { backing = backing }, error (errno e c.eio))

  unfoldable pub rename : ℕ → String → ℕ → String → Fs → Fs × Reply
  unfolding renamed
  rename parent name newparent newname fs =
      if fs.read_only then (fs, error c.erofs) else elim (get_rel_path fs parent) [
        | none ↦ (fs, error c.enoent)
        | some old_parent_rel ↦ elim (get_rel_path fs newparent) [
          | none ↦ (fs, error c.enoent)
          | some new_parent_rel ↦
              let old_rel = join old_parent_rel name in
              let new_rel = join new_parent_rel newname in
              let maybe_ino = ino_of (B.stat old_rel fs.backing) in
              renamed maybe_ino new_rel fs (B.rename old_rel new_rel fs.backing)
        ]
      ]

  -- The loop over the entries: each child's inode is registered.
  unfoldable pub register_entries : FilePath → List DirEntry → Fs → Fs
  register_entries rel [] fs = fs
  register_entries rel (e ∷ es) fs = register_entries rel es (
      if str_eq e.name "." || str_eq e.name ".."
      then fs
      else register_inode fs e.ino (join rel e.name))

  -- The entries from a position on, each with the offset of the one after it.
  unfoldable pub listing : ℕ → List DirEntry → List Listed
  listing i [] = []
  listing i (e ∷ es) =
      record { ino = e.ino; offset = i + 1; kind = dtype_to_filetype c e.dtype; name = e.name }
      ∷ listing (i + 1) es

  -- `reply.add`, until it says that the buffer is full: the entry it says so for is not in it.
  unfoldable pub fill : (List Listed → Listed → Bool) → List Listed → List Listed → List Listed
  fill is_full page [] = page
  fill is_full page (e ∷ es) =
      let rest = fill is_full (page ++ (e ∷ [])) es in if is_full page e then page else rest

  -- `is_full` is the reply's buffer: whether the next entry would not fit after those in it.
  unfoldable pub readdir : (List Listed → Listed → Bool) → ℕ → ℤ → Fs → Fs × Reply
  unfolding register_entries listing fill
  readdir is_full ino offset fs = elim (get_rel_path fs ino) [
    | none ↦ (fs, error c.enoent)
    | some rel ↦ elim (B.readdir rel fs.backing) [
      | err e ↦ (fs, error (errno e c.eio))
      | ok entries ↦ (
        register_entries rel entries fs,
        directory_listing (fill is_full [] (drop (as_u64 offset) (listing 0 entries))),
      )
    ]
  ]

  unfoldable pub access : ℕ → ℕ → Fs → Fs × Reply
  access ino mask fs = elim (get_rel_path fs ino) [
    | none ↦ (fs, error c.enoent)
    | some rel ↦ reply_empty c.eacces (fs, B.access rel mask fs.backing)
  ]

  unfoldable pub statfs : Fs → Fs × Reply
  statfs fs = elim (B.statvfs fs.backing) [
    | ok stfs ↦ (
      fs,
      statistics (record stfs {
        f_bsize = stfs.f_bsize % u32_mod;
        f_namemax = stfs.f_namemax % u32_mod;
        f_frsize = stfs.f_frsize % u32_mod;
      }),
    )
    | err e ↦ (fs, error (errno e c.eio))
  ]

  unfoldable pub opendir : ℕ → Fs → Fs × Reply
  opendir ino fs =
      if (ino == fuse_root_id) || is_some (get_rel_path fs ino)
      then (fs, opened 0)
      else (fs, error c.enoent)
