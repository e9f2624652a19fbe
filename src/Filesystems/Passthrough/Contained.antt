-- ===== src/Filesystems/Passthrough/Contained.antt =====
-- crates/ize-lib/src/filesystems/passthrough.rs: the paths of the inode map never lead out of the
-- source directory.
pub mod Below
mod Quiet
use ize.Prelude
use ize.Prelude.{
  ℕ, ℤ, ◌≡◌, Bool, List, [], ◌∷◌, some, Result, ok, err, String, Bool-cases, Result-cases, inl, inr,
  All, arith, ◌==◌,
}
use ize.FilePath.{FilePath, root, join}
use ize.Filesystems.Backing.{Libc, IoError}
use ize.Filesystems.StdFs.{StdFs, DirItem}
use ize.Filesystems.Calls.{
  Call, init, destroy, lookup, getattr, readdir, open_file, read, flush, release, fsync, opendir,
  releasedir, access, statfs, write, create, unlink, mkdir, rmdir, rename, setattr,
}
use ize.Filesystems.Passthrough.Handle.{handle}
use ize.Filesystems.PassthroughFd.{Listed, fuse_root_id}
use ize.Filesystems.Passthrough.{
  add_handle, alloc_fh, register_inode, unregister_inode, get_path_for_inode, parent_path,
}
use ize.Filesystems.Passthrough.Entries
use ize.Filesystems.Passthrough.Entries.{Fs}
use ize.Filesystems.Passthrough.Change
use ize.Filesystems.Passthrough.Open
use ize.Filesystems.Passthrough.Contained.Below.{
  IsPlain, IsBelow, IsContained, join-IsBelow, remove-IsContained, insert-IsContained,
  lookup-IsBelow,
}
use ize.Filesystems.Passthrough.Contained.Quiet.{
  open_file-IsContained, write-IsContained, setattr-IsContained, getattr-IsContained,
  read-IsContained, flush-IsContained, release-IsContained, fsync-IsContained, opendir-IsContained,
  access-IsContained, statfs-IsContained,
}

module _ (c : Libc) (D : StdFs) where
  reply_entry-IsContained :
      (default : ℕ) (rel_path : FilePath) (fs : Fs c D)
      → IsBelow rel_path
      → IsContained fs.inode_to_path
      → IsContained (Entries.reply_entry c D default rel_path fs).0.inode_to_path
  unfolding Entries.reply_entry register_inode
  reply_entry-IsContained default rel_path fs h k = grind (arith, insert-IsContained)

  parent_path-IsBelow :
      (fs : Fs c D) (parent : ℕ) (p : FilePath)
      → IsContained fs.inode_to_path
      → parent_path fs parent ≡ some p
      → IsBelow p
  unfolding parent_path get_path_for_inode IsBelow
  parent_path-IsBelow fs parent p h k = elim (Bool-cases (parent == fuse_root_id)) [
    | inl e ↦ let same : p ≡ root = ground (arith, e, k) in rw same tt
    | inr e ↦ lookup-IsBelow parent p fs.inode_to_path h (ground (arith, e, k))
  ]

  lookup-IsContained :
      (parent : ℕ) (name : String) (fs : Fs c D)
      → IsPlain name
      → IsContained fs.inode_to_path
      → IsContained (Entries.lookup c D parent name fs).0.inode_to_path
  unfolding Entries.lookup
  lookup-IsContained parent name fs h k =
      grind (arith, reply_entry-IsContained, parent_path-IsBelow, join-IsBelow)

  mkdir-IsContained :
      (parent : ℕ) (name : String) (mode : ℕ) (fs : Fs c D)
      → IsPlain name
      → IsContained fs.inode_to_path
      → IsContained (Change.mkdir c D parent name mode fs).0.inode_to_path
  unfolding Change.mkdir Entries.reply_entry register_inode
  mkdir-IsContained parent name mode fs h k =
      grind (arith, insert-IsContained, parent_path-IsBelow, join-IsBelow)

  create-IsContained :
      (parent : ℕ) (name : String) (mode : ℕ) (fs : Fs c D)
      → IsPlain name
      → IsContained fs.inode_to_path
      → IsContained (Open.create c D parent name mode fs).0.inode_to_path
  unfolding Open.create add_handle alloc_fh register_inode
  create-IsContained parent name mode fs h k =
      grind (arith, insert-IsContained, parent_path-IsBelow, join-IsBelow)

  unlink-IsContained :
      (parent : ℕ) (name : String) (fs : Fs c D)
      → IsContained fs.inode_to_path
      → IsContained (Change.unlink c D parent name fs).0.inode_to_path
  unfolding Change.unlink Change.after_removal unregister_inode
  unlink-IsContained parent name fs k = grind (arith, remove-IsContained)

  rmdir-IsContained :
      (parent : ℕ) (name : String) (fs : Fs c D)
      → IsContained fs.inode_to_path
      → IsContained (Change.rmdir c D parent name fs).0.inode_to_path
  unfolding Change.rmdir Change.after_removal unregister_inode
  rmdir-IsContained parent name fs k = grind (arith, remove-IsContained)

  rename-IsContained :
      (parent : ℕ) (name : String) (newparent : ℕ) (newname : String) (fs : Fs c D)
      → IsPlain newname
      → IsContained fs.inode_to_path
      → IsContained (Change.rename c D parent name newparent newname fs).0.inode_to_path
  unfolding Change.rename Change.after_rename register_inode
  rename-IsContained parent name newparent newname fs h k =
      grind (arith, insert-IsContained, parent_path-IsBelow, join-IsBelow)

  -- Every name that a directory lists is plain.
  unfoldable pub PlainItem : Result DirItem IoError → Type 0
  PlainItem (ok item) = IsPlain item.file_name
  PlainItem (err e) = Unit

  registered :
      (fs : Fs c D) (ino : ℕ) (p : FilePath)
      → IsBelow p
      → IsContained fs.inode_to_path
      → IsContained (register_inode fs ino p).inode_to_path
  unfolding register_inode
  registered fs ino p h k = insert-IsContained ino p fs.inode_to_path h k

  collect_entries-IsContained :
      (rel_path : FilePath) (items : List (Result DirItem IoError)) (fs : Fs c D)
      → IsBelow rel_path
      → All PlainItem items
      → IsContained fs.inode_to_path
      → IsContained (Entries.collect_entries c D rel_path items fs).0.inode_to_path
  unfolding Entries.collect_entries PlainItem
  collect_entries-IsContained rel_path [] fs h k l = l
  collect_entries-IsContained rel_path (err e ∷ items) fs h k l =
      collect_entries-IsContained rel_path items fs h k.1 l
  collect_entries-IsContained rel_path (ok item ∷ items) fs h k l =
      elim (Result-cases item.metadata) [
        | inl (meta, e) ↦ rw e (
            collect_entries-IsContained rel_path items
              (register_inode fs meta.ino (join rel_path item.file_name)) h k.1
              (registered fs meta.ino (join rel_path item.file_name)
                (join-IsBelow rel_path item.file_name h k.0) l))
        | inr (e, failed) ↦ rw failed (collect_entries-IsContained rel_path items fs h k.1 l)
      ]

  readdir-IsContained :
      (is_full : List Listed → Listed → Bool) (ino : ℕ) (offset : ℤ) (fs : Fs c D)
      → ((p : FilePath) (items : List (Result DirItem IoError))
          → D.read_dir p fs.disk ≡ ok items
          → All PlainItem items)
      → IsContained fs.inode_to_path
      → IsContained (Entries.readdir c D is_full ino offset fs).0.inode_to_path
  unfolding Entries.readdir get_path_for_inode
  readdir-IsContained is_full ino offset fs h k =
      grind (arith, collect_entries-IsContained, lookup-IsBelow)

  -- The names that a call brings in from the kernel.
  unfoldable pub PlainCall : Call → Type 0
  PlainCall (lookup parent name) = IsPlain name
  PlainCall (create parent name mode umask flags) = IsPlain name
  PlainCall (mkdir parent name mode umask) = IsPlain name
  PlainCall (rename parent name newparent newname flags) = IsPlain newname
  PlainCall call = Unit

  -- If no name in a call is `..`, and the directories on the disk list none, then a map in which no
  -- path leads up has no such path after the call either, so that what `to_real` makes of a path in
  -- it stays below the source directory.
  pub handle-IsContained :
      (is_full : List Listed → Listed → Bool) (call : Call) (fs : Fs c D)
      → PlainCall call
      → ((p : FilePath) (items : List (Result DirItem IoError))
          → D.read_dir p fs.disk ≡ ok items
          → All PlainItem items)
      → IsContained fs.inode_to_path
      → IsContained (handle c is_full D call fs).0.inode_to_path
  unfolding handle PlainCall
  handle-IsContained is_full init fs h k l = l
  handle-IsContained is_full destroy fs h k l = l
  handle-IsContained is_full (lookup parent name) fs h k l = lookup-IsContained parent name fs h l
  handle-IsContained is_full (getattr ino fh) fs h k l = getattr-IsContained c D ino fs l
  handle-IsContained is_full (readdir ino fh offset) fs h k l =
      readdir-IsContained is_full ino offset fs k l
  handle-IsContained is_full (open_file ino flags) fs h k l =
      open_file-IsContained c D ino flags fs l
  handle-IsContained is_full (read ino fh offset size) fs h k l =
      read-IsContained c D fh offset size fs l
  handle-IsContained is_full (flush ino fh) fs h k l = flush-IsContained c D fh fs l
  handle-IsContained is_full (release ino fh) fs h k l = release-IsContained c D fh fs l
  handle-IsContained is_full (fsync ino fh datasync) fs h k l =
      fsync-IsContained c D fh datasync fs l
  handle-IsContained is_full (opendir ino flags) fs h k l = opendir-IsContained c D ino fs l
  handle-IsContained is_full (releasedir ino fh) fs h k l = l
  handle-IsContained is_full (access ino mask) fs h k l = access-IsContained c D ino mask fs l
  handle-IsContained is_full (statfs ino) fs h k l = statfs-IsContained c D fs l
  handle-IsContained is_full (write ino fh offset bytes) fs h k l =
      write-IsContained c D fh offset bytes fs l
  handle-IsContained is_full (create parent name mode umask flags) fs h k l =
      create-IsContained parent name mode fs h l
  handle-IsContained is_full (unlink parent name) fs h k l = unlink-IsContained parent name fs l
  handle-IsContained is_full (mkdir parent name mode umask) fs h k l =
      mkdir-IsContained parent name mode fs h l
  handle-IsContained is_full (rmdir parent name) fs h k l = rmdir-IsContained parent name fs l
  handle-IsContained is_full (rename parent name newparent newname flags) fs h k l =
      rename-IsContained parent name newparent newname fs h l
  handle-IsContained is_full (setattr ino a) fs h k l = setattr-IsContained c D ino a fs l
