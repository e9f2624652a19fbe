-- ===== src/Filesystems/PassthroughFd/Handle.antt =====
-- crates/ize-lib/src/filesystems/passthrough_fd.rs, `impl Filesystem for FdPassthroughFS`: the
-- handler for each call.
use ize.Prelude.{Bool}
use ize.Filesystems.Backing.{Libc, BackingFs}
use ize.Filesystems.Calls.{
  Call, Filesystem, init, destroy, lookup, getattr, readdir, open_file, read, flush, release, fsync,
  opendir, releasedir, access, statfs, write, create, unlink, mkdir, rmdir, rename, setattr,
}
use ize.Filesystems.PassthroughFd.{FdPassthroughFs, Listed, Reply, done}
use ize.Filesystems.PassthroughFd.Paths
use ize.Filesystems.PassthroughFd.Files
use ize.Prelude.{List}

-- `is_full` is the buffer of a directory's reply.
module _ (c : Libc) (is_full : List Listed → Listed → Bool) (B : BackingFs) where
  unfoldable pub handle : Call → FdPassthroughFs B.State → FdPassthroughFs B.State × Reply
  unfolding Paths.lookup Paths.readdir Paths.opendir Paths.access Paths.statfs Paths.unlink
      Paths.mkdir Paths.rmdir Paths.rename Files.getattr Files.open_file Files.read Files.flush
      Files.release Files.fsync Files.write Files.create Files.setattr
  handle init fs = (fs, done)
  handle destroy fs = (fs, done)
  handle (lookup parent name) fs = Paths.lookup c B parent name fs
  handle (getattr ino fh) fs = Files.getattr c B ino fh fs
  handle (readdir ino fh offset) fs = Paths.readdir c B is_full ino offset fs
  handle (open_file ino flags) fs = Files.open_file c B ino flags fs
  handle (read ino fh offset size) fs = Files.read c B fh offset size fs
  handle (flush ino fh) fs = Files.flush c B fh fs
  handle (release ino fh) fs = Files.release c B fh fs
  handle (fsync ino fh datasync) fs = Files.fsync c B fh fs
  handle (opendir ino flags) fs = Paths.opendir c B ino fs
  handle (releasedir ino fh) fs = (fs, done)
  handle (access ino mask) fs = Paths.access c B ino mask fs
  handle (statfs ino) fs = Paths.statfs c B fs
  handle (write ino fh offset bytes) fs = Files.write c B fh offset bytes fs
  handle (create parent name mode umask flags) fs = Files.create c B parent name mode flags fs
  handle (unlink parent name) fs = Paths.unlink c B parent name fs
  handle (mkdir parent name mode umask) fs = Paths.mkdir c B parent name mode fs
  handle (rmdir parent name) fs = Paths.rmdir c B parent name fs
  handle (rename parent name newparent newname flags) fs =
      Paths.rename c B parent name newparent newname fs
  handle (setattr ino a) fs = Files.setattr c B ino a fs

  abbrev pub fd_filesystem : Filesystem
  fd_filesystem = record { State = FdPassthroughFs B.State; Reply = Reply; handle = handle }
