-- ===== src/FdPoc/Paths.antt =====
-- crates/fuse-fd-poc/src/main.rs: the handlers that work on paths.
use ize.Prelude.{
  ℕ, ◌+◌, ◌%◌, ℤ, as_u64, Bool, ◌||◌, List, [], ◌∷◌, ◌++◌, drop, Option, none, some, Result, err,
  String, str_eq, Dict, if◌then◌else◌,
}
use ize.FilePath.{FilePath, join, path_eq}
use ize.Filesystems.Backing.{Libc, IoError, DirEntry}
use ize.Filesystems.Syscalls.{Syscalls}
use ize.Filesystems.PassthroughFd.{
  Listed, entry, attr, directory_listing, opened, statistics, done, u32_mod, stat_to_attr,
  dtype_to_filetype,
}
use ize.Filesystems.PassthroughFd.Paths.{returned_ino}
use ize.Filesystems.LibcBacking.{Outcome, nothing, checked, checked_with}
use ize.FdPoc.{
  sys_mkdirat, sys_unlinkat, sys_renameat, sys_readdir, PocFs, register_inode, alloc_fh,
  open_rel_dir, stat_rel,
}
use ize.FdPoc.Answers.{Answer, at_inode, at_cpath, on_ok, finish}

-- The first inode with the path.
unfoldable pub ino_with_path : FilePath → Dict FilePath → Option ℕ
ino_with_path path [] = none
ino_with_path path ((ino, p) ∷ rest) =
    let found = ino_with_path path rest in if path_eq p path then some ino else found

module _ (S : Syscalls) (c : Libc) where
  unfoldable pub lookup : ℕ → String → PocFs S → Answer S
  lookup parent name fs = at_inode S c parent fs λ parent_rel.
      let child_rel = join parent_rel name in
      on_ok S c.enoent fs (stat_rel S fs child_rel)
        λ st fs. (register_inode S fs st.st_ino child_rel, entry (stat_to_attr c st st.st_ino))

  -- The end of `getattr` and of `setattr`.
  unfoldable pub reply_attr : ℕ → PocFs S → Answer S
  reply_attr ino fs = at_inode S c ino fs λ rel.
      on_ok S c.eio fs (stat_rel S fs rel)
        λ st fs. (fs, attr (stat_to_attr c st (returned_ino ino st)))

  unfoldable pub getattr : ℕ → PocFs S → Answer S
  getattr ino fs = reply_attr ino fs

  unfoldable pub register_entries : FilePath → List DirEntry → PocFs S → PocFs S
  register_entries rel [] fs = fs
  register_entries rel (e ∷ es) fs = register_entries rel es (
      if str_eq e.name "." || str_eq e.name ".."
      then fs
      else register_inode S fs e.ino (join rel e.name))

  unfoldable pub mkdir : ℕ → String → ℕ → PocFs S → Answer S
  mkdir parent name mode fs = at_inode S c parent fs λ parent_rel.
      let child_rel = join parent_rel name in
      at_cpath S c child_rel fs λ path.
        on_ok S c.eio fs (sys_mkdirat S fs.base_fd path mode fs.kernel) λ u fs.
          on_ok S c.eio fs (stat_rel S fs child_rel)
            λ st fs. (register_inode S fs st.st_ino child_rel, entry (stat_to_attr c st st.st_ino))

  -- `unlink` and `rmdir`, by the flags of `unlinkat`.
  unfoldable pub remove_entry : ℕ → ℕ → String → PocFs S → Answer S
  remove_entry flags parent name fs = at_inode S c parent fs λ parent_rel.
      at_cpath S c (join parent_rel name) fs
        λ path. on_ok S c.eio fs (sys_unlinkat S fs.base_fd path flags fs.kernel) (finish S)

  unfoldable pub unlink : ℕ → String → PocFs S → Answer S
  unlink parent name fs = remove_entry 0 parent name fs

  unfoldable pub rmdir : ℕ → String → PocFs S → Answer S
  rmdir parent name fs = remove_entry S.at_removedir parent name fs

  -- The end of `rename`.
  unfoldable pub remapped : Option ℕ → FilePath → PocFs S → PocFs S
  remapped none new_rel fs = fs
  remapped (some ino) new_rel fs = register_inode S fs ino new_rel

  -- `entries` is the order in which the `HashMap` gives its entries.
  unfoldable pub rename :
      (Dict FilePath → Dict FilePath) → ℕ → String → ℕ → String → PocFs S → Answer S
  rename entries parent name newparent newname fs = at_inode S c parent fs λ old_parent_rel.
      at_inode S c newparent fs λ new_parent_rel.
        let old_rel = join old_parent_rel name in
        let new_rel = join new_parent_rel newname in
        at_cpath S c old_rel fs λ old_c. at_cpath S c new_rel fs λ new_c.
          on_ok S c.eio fs (sys_renameat S fs.base_fd old_c fs.base_fd new_c fs.kernel)
            λ u fs. (remapped (ino_with_path old_rel (entries fs.inode_to_path)) new_rel fs, done)

  unfoldable pub access : ℕ → ℕ → PocFs S → Answer S
  access ino mask fs = at_inode S c ino fs λ rel. at_cpath S c rel fs λ path.
      on_ok S c.eacces fs
        (checked S nothing (S.faccessat fs.base_fd path mask S.at_symlink_nofollow fs.kernel))
        (finish S)

  unfoldable pub statfs : PocFs S → Answer S
  statfs fs =
      on_ok S c.eio fs (checked_with S (λ n stfs. stfs) (S.fstatvfs fs.base_fd fs.kernel))
        λ stfs fs. (
          fs,
          statistics (record stfs {
            f_bsize = stfs.f_bsize % u32_mod;
            f_namemax = stfs.f_namemax % u32_mod;
            f_frsize = stfs.f_frsize % u32_mod;
          }),
        )

  unfoldable pub opendir : PocFs S → Answer S
  opendir fs = let (fh, fs) = alloc_fh S fs in (fs, opened fh)

  -- The entries from a position on, each with the offset of the one after it.
  unfoldable pub listing : ℕ → List DirEntry → List Listed
  listing i [] = []
  listing i (e ∷ es) =
      record { ino = e.ino; offset = i + 1; kind = dtype_to_filetype c e.dtype; name = e.name }
      ∷ listing (i + 1) es

  -- `is_full` is the reply's buffer: whether the next entry would not fit after those in it. The
  -- loop over a directory has fuel.
  module _ (is_full : List Listed → Listed → Bool) (fuel : ℕ) where
    unfoldable pub fill : List Listed → List Listed → List Listed
    fill page [] = page
    fill page (e ∷ es) =
        let rest = fill (page ++ (e ∷ [])) es in if is_full page e then page else rest

    -- What a loop that used up its fuel replies stands for nothing: Descriptors has the fuel that is
    -- enough.
    abbrev pub or_none : Option (Result (List DirEntry) IoError) → Result (List DirEntry) IoError
    or_none none = err none
    or_none (some result) = result

    -- `sys_readdir` and the close of the directory after it, whatever it returned.
    unfoldable pub read_and_close : ℕ → PocFs S → Outcome S (List DirEntry)
    read_and_close dir_fd fs =
        let (s, result) = sys_readdir S fuel dir_fd fs.kernel in
        ((S.close dir_fd s).0, or_none result)

    unfoldable pub readdir : ℕ → ℤ → PocFs S → Answer S
    readdir ino offset fs = at_inode S c ino fs λ rel.
        on_ok S c.eio fs (open_rel_dir S c fs rel) λ dir_fd fs.
          on_ok S c.eio fs (read_and_close dir_fd fs) λ es fs. (
            register_entries rel es fs,
            directory_listing (fill [] (drop (as_u64 offset) (listing 0 es))),
          )
