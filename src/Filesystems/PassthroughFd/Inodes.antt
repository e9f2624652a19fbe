-- ===== src/Filesystems/PassthroughFd/Inodes.antt =====
-- The map from inodes to paths: what each call does to it, and what a path found by name is worth.
use ize.Prelude.{
  ℕ, ◌≡◌, false, some, none, ok, String, arith, ◌==◌, if◌then◌else◌, lookup-insert, lookup-remove,
}
use ize.FilePath.{FilePath, join}
use ize.Filesystems.Backing.{Libc, BackingFs, Stat}
use ize.Filesystems.PassthroughFd.{
  FdPassthroughFs, FileAttr, entry, attr, get_rel_path, register_inode, forget_inode, stat_to_attr,
}
use ize.Filesystems.PassthroughFd.Paths
use ize.Filesystems.PassthroughFd.Paths.{
  rename, renamed, unlink, removed, reply_attr, getattr_by_path, returned_ino,
}
use ize.Filesystems.PassthroughFd.Files.{getattr, file_of}

module _ (c : Libc) (B : BackingFs) where
  -- On a writable mount, a rename that succeeds, of an entry that the store can stat, gives the new
  -- path to the inode of the entry, and to no other: an inode below a directory that is renamed
  -- keeps its old path.
  pub rename_remaps :
      (fs : FdPassthroughFs B.State) (parent newparent : ℕ) (name newname : String) (p q : FilePath)
      (st : Stat)
      → fs.read_only ≡ false
      → get_rel_path fs parent ≡ some p
      → get_rel_path fs newparent ≡ some q
      → B.stat (join p name) fs.backing ≡ ok st
      → (B.rename (join p name) (join q newname) fs.backing).1 ≡ ok tt
      → (j : ℕ)
      → get_rel_path (rename c B parent name newparent newname fs).0 j
        ≡ (if st.st_ino == j then some (join q newname) else get_rel_path fs j)
  unfolding rename renamed register_inode get_rel_path
  rename_remaps fs parent newparent name newname p q st rw_mount from to found success j =
      grind (arith, lookup-insert)

  -- On a writable mount, an unlink that succeeds, of an entry that the store can stat, makes the
  -- inode of the entry unknown, and no other, even if the file has a link elsewhere.
  unlink_forgets :
      (fs : FdPassthroughFs B.State) (parent : ℕ) (name : String) (p : FilePath) (st : Stat)
      → fs.read_only ≡ false
      → get_rel_path fs parent ≡ some p
      → B.stat (join p name) fs.backing ≡ ok st
      → (B.unlink (join p name) fs.backing).1 ≡ ok tt
      → (j : ℕ)
      → get_rel_path (unlink c B parent name fs).0 j
        ≡ (if st.st_ino == j then none else get_rel_path fs j)
  unfolding unlink removed forget_inode get_rel_path
  unlink_forgets fs parent name p st rw_mount from found success j = grind (arith, lookup-remove)

  -- The attributes that a lookup by name replies are those that `getattr` then replies for the
  -- inode in them.
  getattr-lookup :
      (fs fs' : FdPassthroughFs B.State) (parent : ℕ) (name : String) (a : FileAttr)
      → Paths.lookup c B parent name fs ≡ (fs', entry a)
      → getattr c B a.ino none fs' ≡ (fs', attr a)
  unfolding Paths.lookup getattr file_of getattr_by_path reply_attr returned_ino get_rel_path
      register_inode stat_to_attr
  getattr-lookup fs fs' parent name a h = grind (arith, lookup-insert)
