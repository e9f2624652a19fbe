-- ===== src/Filesystems/PassthroughFd/Descriptors/Owned.antt =====
-- Every descriptor that is open belongs to exactly one entry of the table, after any calls.
use ize.Prelude.{ℕ, ◌+◌, ◌<◌, ◌≡◌, ap, Bool, false, List, [], ◌∷◌, arith, to_num, length}
use ize.FilePath.{FilePath}
use ize.Filesystems.Backing.{Libc, BackingFs}
use ize.Filesystems.Calls.{
  Call, getattr, readdir, open_file, read, flush, release, fsync, opendir, access, statfs, write,
  create, unlink, mkdir, rmdir, setattr,
}
use ize.Filesystems.Calls
use ize.Filesystems.Observing.Laws.{run_inner}
use ize.Operations.Opcode.{u64_mod}
use ize.Filesystems.PassthroughFd.{FdPassthroughFs, Listed, new, with_ignore_filters}
use ize.Filesystems.PassthroughFd.Paths
use ize.Filesystems.PassthroughFd.Files
use ize.Filesystems.PassthroughFd.Handle.{handle, fd_filesystem}
use ize.Filesystems.PassthroughFd.Descriptors.{Tracks, opens}
use ize.Filesystems.PassthroughFd.Descriptors.Quiet.{
  Quiet-getattr, Quiet-read, Quiet-access, Quiet-statfs, Quiet-opendir, Quiet-lookup, Quiet-readdir,
  Quiet-mkdir, Quiet-unlink, Quiet-rmdir, Quiet-rename, Quiet-write, Quiet-flush, Quiet-fsync,
  Quiet-setattr,
}
use ize.Filesystems.PassthroughFd.Descriptors.Opening.{
  Quiet-After, open_file-After, create-After, release-After, After, Owned,
}

module _ (c : Libc) (B : BackingFs) (is_open : ℕ → B.State → Bool) (T : Tracks B is_open)
    (n : ℕ) where
  handle-After :
      (is_full : List Listed → Listed → Bool) (call : Call) (fs : FdPassthroughFs B.State)
      → fs.next_fh + 1 < u64_mod
      → Owned c B is_open T n fs
      → After c B is_open T n fs (handle c is_full B call fs).0
  unfolding handle
  handle-After is_full (Calls.lookup parent name) fs small v =
      Quiet-After c B is_open T n fs (Paths.lookup c B parent name fs).0
        (Quiet-lookup c B is_open T n parent name fs) v
  handle-After is_full (readdir ino fh offset) fs small v =
      Quiet-After c B is_open T n fs (Paths.readdir c B is_full ino offset fs).0
        (Quiet-readdir c B is_open T n is_full ino offset fs) v
  handle-After is_full (mkdir parent name mode umask) fs small v =
      Quiet-After c B is_open T n fs (Paths.mkdir c B parent name mode fs).0
        (Quiet-mkdir c B is_open T n parent name mode fs) v
  handle-After is_full (unlink parent name) fs small v =
      Quiet-After c B is_open T n fs (Paths.unlink c B parent name fs).0
        (Quiet-unlink c B is_open T n parent name fs) v
  handle-After is_full (rmdir parent name) fs small v =
      Quiet-After c B is_open T n fs (Paths.rmdir c B parent name fs).0
        (Quiet-rmdir c B is_open T n parent name fs) v
  handle-After is_full (Calls.rename parent name newparent newname flags) fs small v =
      Quiet-After c B is_open T n fs (Paths.rename c B parent name newparent newname fs).0
        (Quiet-rename c B is_open T n parent name newparent newname fs) v
  handle-After is_full (write ino fh offset bytes) fs small v =
      Quiet-After c B is_open T n fs (Files.write c B fh offset bytes fs).0
        (Quiet-write c B is_open T n fh offset bytes fs) v
  handle-After is_full (flush ino fh) fs small v =
      Quiet-After c B is_open T n fs (Files.flush c B fh fs).0 (Quiet-flush c B is_open T n fh fs) v
  handle-After is_full (fsync ino fh datasync) fs small v =
      Quiet-After c B is_open T n fs (Files.fsync c B fh fs).0 (Quiet-fsync c B is_open T n fh fs) v
  handle-After is_full (setattr ino a) fs small v =
      Quiet-After c B is_open T n fs (Files.setattr c B ino a fs).0
        (Quiet-setattr c B is_open T n ino a fs) v
  handle-After is_full (open_file ino flags) fs small v =
      open_file-After c B is_open T n ino flags fs small v
  handle-After is_full (create parent name mode umask flags) fs small v =
      create-After c B is_open T n parent name mode flags fs small v
  handle-After is_full (release ino fh) fs small v = release-After c B is_open T n fh fs v
  handle-After is_full (getattr ino fh) fs small v =
      Quiet-After c B is_open T n fs (Files.getattr c B ino fh fs).0
        (Quiet-getattr c B is_open T n ino fh fs) v
  handle-After is_full (read ino fh offset size) fs small v =
      Quiet-After c B is_open T n fs (Files.read c B fh offset size fs).0
        (Quiet-read c B is_open T n fh offset size fs) v
  handle-After is_full (access ino mask) fs small v =
      Quiet-After c B is_open T n fs (Paths.access c B ino mask fs).0
        (Quiet-access c B is_open T n ino mask fs) v
  handle-After is_full (statfs ino) fs small v =
      Quiet-After c B is_open T n fs (Paths.statfs c B fs).0 (Quiet-statfs c B is_open T n fs) v
  handle-After is_full (opendir ino flags) fs small v =
      Quiet-After c B is_open T n fs (Paths.opendir c B ino fs).0
        (Quiet-opendir c B is_open T n ino fs) v
  handle-After is_full call fs small v = (v, omega arith)

  run-Owned :
      (is_full : List Listed → Listed → Bool) (calls : List Call) (fs : FdPassthroughFs B.State)
      → fs.next_fh + length calls < u64_mod
      → Owned c B is_open T n fs
      → Owned c B is_open T n (run_inner (fd_filesystem c is_full B) calls fs).0
  unfolding run_inner
  run-Owned is_full [] fs small v = v
  run-Owned is_full (call ∷ calls) fs small v =
      let (w, count) = handle-After is_full call fs (omega arith) v in
      run-Owned is_full calls (handle c is_full B call fs).0 (omega (arith, count)) w

-- No descriptor leaks: from a new file system on, after any calls, each descriptor that the store did
-- not have open at the start is in exactly one entry of the table of open files if it is open, and
-- in none if it is not. The store keeps to its documentation, and there are fewer calls than file
-- handles.
pub descriptors_owned :
    (c : Libc) (is_full : List Listed → Listed → Bool) (B : BackingFs)
    (is_open : ℕ → B.State → Bool)
    → Tracks B is_open
    → (s : B.State) (mount_point : FilePath) (calls : List Call) (n : ℕ) → is_open n s ≡ false
    → 1 + length calls < u64_mod
    → let fs = (run_inner (fd_filesystem c is_full B) calls (new c B s mount_point)).0 in
      to_num (is_open n fs.backing) ≡ opens n fs.open_files
unfolding new with_ignore_filters
descriptors_owned c is_full B is_open T s mount_point calls n closed small =
    (run-Owned c B is_open T n is_full calls (new c B s mount_point) small (ap to_num closed, tt)).0
