-- ===== src/Filesystems/Passthrough/Handle.antt =====
-- crates/ize-lib/src/filesystems/passthrough.rs, `impl Filesystem for PassthroughFS`: the handler
-- for each call.
use ize.Prelude.{Bool, List}
use ize.Filesystems.Backing.{Libc}
use ize.Filesystems.StdFs.{StdFs}
use ize.Filesystems.Calls.{
  Call, Filesystem, init, destroy, lookup, getattr, readdir, open_file, read, flush, release, fsync,
  opendir, releasedir, access, statfs, write, create, unlink, mkdir, rmdir, rename, setattr,
}
use ize.Filesystems.PassthroughFd.{Listed, Reply, done}
use ize.Filesystems.Passthrough.Entries
use ize.Filesystems.Passthrough.Entries.{Fs}
use ize.Filesystems.Passthrough.Change
use ize.Filesystems.Passthrough.Open

-- `is_full` is the buffer of a directory's reply.
module _ (c : Libc) (is_full : List Listed → Listed → Bool) (D : StdFs) where
  unfoldable pub handle : Call → Fs c D → Fs c D × Reply
  unfolding Entries.lookup Entries.getattr Entries.readdir Entries.opendir Entries.access
      Entries.statfs Change.unlink Change.mkdir Change.rmdir Change.rename Open.open_file Open.read
      Open.flush Open.release Open.fsync Open.write Open.create Open.setattr
  handle init fs = (fs, done)
  handle destroy fs = (fs, done)
  handle (lookup parent name) fs = Entries.lookup c D parent name fs
  handle (getattr ino fh) fs = Entries.getattr c D ino fs
  handle (readdir ino fh offset) fs = Entries.readdir c D is_full ino offset fs
  handle (open_file ino flags) fs = Open.open_file c D ino flags fs
  handle (read ino fh offset size) fs = Open.read c D fh offset size fs
  handle (flush ino fh) fs = Open.flush c D fh fs
  handle (release ino fh) fs = Open.release c D fh fs
  handle (fsync ino fh datasync) fs = Open.fsync c D fh datasync fs
  handle (opendir ino flags) fs = Entries.opendir c D ino fs
  handle (releasedir ino fh) fs = (fs, done)
  handle (access ino mask) fs = Entries.access c D ino mask fs
  handle (statfs ino) fs = Entries.statfs c D fs
  handle (write ino fh offset bytes) fs = Open.write c D fh offset bytes fs
  handle (create parent name mode umask flags) fs = Open.create c D parent name mode fs
  handle (unlink parent name) fs = Change.unlink c D parent name fs
  handle (mkdir parent name mode umask) fs = Change.mkdir c D parent name mode fs
  handle (rmdir parent name) fs = Change.rmdir c D parent name fs
  handle (rename parent name newparent newname flags) fs =
      Change.rename c D parent name newparent newname fs
  handle (setattr ino a) fs = Open.setattr c D ino a fs

  abbrev pub std_filesystem : Filesystem
  std_filesystem = record { State = Fs c D; Reply = Reply; handle = handle }
