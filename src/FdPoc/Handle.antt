-- ===== src/FdPoc/Handle.antt =====
-- crates/fuse-fd-poc/src/main.rs, `impl Filesystem for FdPassthroughFS`: the method for each call.
use ize.Prelude.{ℕ, Bool, List, Dict}
use ize.FilePath.{FilePath}
use ize.Filesystems.Backing.{Libc}
use ize.Filesystems.Calls
use ize.Filesystems.Calls.{
  Call, Filesystem, init, destroy, getattr, readdir, open_file, read, write, create, mkdir, unlink,
  rmdir, rename, flush, release, access, setattr, statfs, opendir, releasedir, fsync,
}
use ize.Filesystems.Syscalls.{Syscalls}
use ize.Filesystems.PassthroughFd.{Listed, Reply, done}
use ize.FdPoc.{PocFs}
use ize.FdPoc.Answers.{Answer}
use ize.FdPoc.Paths
use ize.FdPoc.Files

-- `unhandled` is what fuser replies to a call that the file system has no method for.
module _ (S : Syscalls) (c : Libc) (is_full : List Listed → Listed → Bool)
    (entries : Dict FilePath → Dict FilePath) (unhandled : Call → Reply) (fuel : ℕ) where
  unfoldable pub handle : Call → PocFs S → Answer S
  handle init fs = (fs, done)
  handle destroy fs = (fs, done)
  handle (Calls.lookup parent name) fs = Paths.lookup S c parent name fs
  handle (getattr ino fh) fs = Paths.getattr S c ino fs
  handle (readdir ino fh offset) fs = Paths.readdir S c is_full fuel ino offset fs
  handle (open_file ino flags) fs = Files.open_file S c ino flags fs
  handle (read ino fh offset size) fs = Files.read S c fh offset size fs
  handle (write ino fh offset bytes) fs = Files.write S c fh offset bytes fs
  handle (create parent name mode umask flags) fs = Files.create S c parent name mode flags fs
  handle (mkdir parent name mode umask) fs = Paths.mkdir S c parent name mode fs
  handle (unlink parent name) fs = Paths.unlink S c parent name fs
  handle (rmdir parent name) fs = Paths.rmdir S c parent name fs
  handle (rename parent name newparent newname flags) fs =
      Paths.rename S c entries parent name newparent newname fs
  handle (flush ino fh) fs = Files.flush S c fh fs
  handle (release ino fh) fs = Files.release S c fh fs
  handle (access ino mask) fs = Paths.access S c ino mask fs
  handle (setattr ino a) fs = Files.setattr S c ino a fs
  handle (statfs ino) fs = Paths.statfs S c fs
  handle (opendir ino flags) fs = Paths.opendir S c fs
  handle (releasedir ino fh) fs = (fs, done)
  handle (fsync ino fh datasync) fs = (fs, unhandled (fsync ino fh datasync))

  abbrev pub poc_filesystem : Filesystem
  poc_filesystem = record { State = PocFs S; Reply = Reply; handle = handle }
