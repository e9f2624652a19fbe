-- ===== src/Filesystems/Passthrough/Refusals.antt =====
-- crates/ize-lib/src/filesystems/passthrough.rs: what a read-only mount refuses, what a lookup and
-- an opened file are worth to the calls that follow, and what a removal makes of the inode map.
use ize.Prelude.{
  ℕ, ◌≡◌, Bool, true, false, List, none, some, ok, String, arith, ◌==◌, ◌≢◌, if◌then◌else◌,
  lookup-insert, lookup-remove,
}
use ize.FilePath.{FilePath, join, path_eq}
use ize.Filesystems.Backing.{Libc}
use ize.Filesystems.StdFs.{StdFs, Metadata}
use ize.Filesystems.Calls.{Call, write, create, unlink, mkdir, rmdir, rename, setattr}
use ize.Filesystems.Observer.{Event}
use ize.Filesystems.Observing.{Clock}
use ize.Filesystems.Observing.Laws.{event_of}
use ize.Filesystems.PassthroughFd.{Listed, FileAttr, error, entry, attr, fuse_root_id}
use ize.Filesystems.Passthrough.{
  get_path_for_inode, register_inode, unregister_inode, metadata_to_attr, to_real, parent_path,
}
use ize.Filesystems.Passthrough.Entries
use ize.Filesystems.Passthrough.Entries.{Fs}
use ize.Filesystems.Passthrough.Change
use ize.Filesystems.Passthrough.Open
use ize.Filesystems.Passthrough.Handle.{handle}

module _ (c : Libc) (D : StdFs) where
  -- A read-only mount answers each of the mutations that an observer hears of with EROFS, and
  -- neither the disk nor any table changes.
  pub event-refused :
      (is_full : List Listed → Listed → Bool) (clock : Clock) (call : Call) (e : Event)
      (fs : Fs c D)
      → fs.read_only ≡ true
      → event_of clock call ≡ some e
      → handle c is_full D call fs ≡ (fs, error c.erofs)
  unfolding event_of handle Change.unlink Change.mkdir Change.rmdir Change.rename Open.write
      Open.create Open.setattr
  event-refused is_full clock (write ino fh offset bytes) e fs ro h = ground arith
  event-refused is_full clock (create parent name mode umask flags) e fs ro h = ground arith
  event-refused is_full clock (unlink parent name) e fs ro h = ground arith
  event-refused is_full clock (mkdir parent name mode umask) e fs ro h = ground arith
  event-refused is_full clock (rmdir parent name) e fs ro h = ground arith
  event-refused is_full clock (rename parent name newparent newname flags) e fs ro h = ground arith
  event-refused is_full clock (setattr ino a) e fs ro h = ground arith
  event-refused is_full clock call e fs ro h = cc

  -- The attributes that a lookup replies are those that `getattr` then replies for their inode,
  -- unless the entry has the number that stands for the root.
  getattr-after_lookup :
      (fs fs' : Fs c D) (parent : ℕ) (name : String) (a : FileAttr)
      → Entries.lookup c D parent name fs ≡ (fs', entry a)
      → a.ino ≢ fuse_root_id
      → Entries.getattr c D a.ino fs' ≡ (fs', attr a)
  unfolding Entries.lookup Entries.reply_entry Entries.getattr Entries.reply_metadata
      Entries.shown_ino get_path_for_inode register_inode to_real metadata_to_attr
  getattr-after_lookup fs fs' parent name a h k = grind (arith, lookup-insert)

  -- On a writable mount, an entry is unlinked that leads to another path's file, as a symbolic link to
  -- it does: the metadata of the entry are with the inode that the map has for that path. If the
  -- removal succeeds and the other path has metadata after it, then `getattr` on the inode replies
  -- ENOENT all the same, since the map has lost it; the other inodes have the paths that they had.
  pub unlink-forgets_target :
      (fs : Fs c D) (parent : ℕ) (name : String) (p target : FilePath) (meta meta' : Metadata)
      → fs.read_only ≡ false
      → parent_path fs parent ≡ some p
      → D.metadata (to_real fs (join p name)) fs.disk ≡ ok meta
      → get_path_for_inode fs meta.ino ≡ some target
      → path_eq (join p name) target ≡ false
      → (D.remove_file (to_real fs (join p name)) fs.disk).1 ≡ ok tt
      → D.metadata (to_real fs target) (D.remove_file (to_real fs (join p name)) fs.disk).0
        ≡ ok meta'
      → let fs' = (Change.unlink c D parent name fs).0 in
        (Entries.getattr c D meta.ino fs' ≡ (fs', error c.enoent))
        × (D.metadata (to_real fs' target) fs'.disk ≡ ok meta')
        × ((j : ℕ)
            → get_path_for_inode fs' j ≡ (if meta.ino == j then none else get_path_for_inode fs j))
  unfolding Change.unlink Change.after_removal unregister_inode get_path_for_inode Entries.getattr
      to_real
  unlink-forgets_target fs parent name p target meta meta' rw_mount from found known other success
        still =
      (grind (arith, lookup-remove), grind arith, λ j. grind (arith, lookup-remove))
