-- ===== src/Filesystems/PassthroughFd/ReadOnly.antt =====
-- A read-only mount: what it refuses, and that its observers hear of it all the same.
use ize.Prelude.{ℕ, ◌≡◌, refl, Bool, true, List, some, arith}
use ize.Filesystems.Backing.{Libc, BackingFs}
use ize.Filesystems.Calls.{Call, open_file, write, create, unlink, mkdir, rmdir, rename, setattr}
use ize.Filesystems.Observer.{Event}
use ize.Filesystems.Observing
use ize.Filesystems.Observing.{Clock, ObservingFs}
use ize.Filesystems.Observing.Laws.{event_of, hear, handle-event_of}
use ize.Filesystems.PassthroughFd.{FdPassthroughFs, Listed, error}
use ize.Filesystems.PassthroughFd.Paths
use ize.Filesystems.PassthroughFd.Files
use ize.Filesystems.PassthroughFd.Files.{wants_write}
use ize.Filesystems.PassthroughFd.Handle.{handle, fd_filesystem}

module _ (c : Libc) (is_full : List Listed → Listed → Bool) (B : BackingFs) where
  -- A read-only mount answers each of the seven mutations with EROFS, and neither the backing store
  -- nor any table changes.
  pub mutation_refused :
      (clock : Clock) (call : Call) (e : Event) (fs : FdPassthroughFs B.State)
      → fs.read_only ≡ true
      → event_of clock call ≡ some e
      → handle c is_full B call fs ≡ (fs, error c.erofs)
  unfolding event_of handle Paths.unlink Paths.mkdir Paths.rmdir Paths.rename Files.write
      Files.create Files.setattr
  mutation_refused clock (write ino fh offset bytes) e fs ro h = ground arith
  mutation_refused clock (create parent name mode umask flags) e fs ro h = ground arith
  mutation_refused clock (unlink parent name) e fs ro h = ground arith
  mutation_refused clock (mkdir parent name mode umask) e fs ro h = ground arith
  mutation_refused clock (rmdir parent name) e fs ro h = ground arith
  mutation_refused clock (rename parent name newparent newname flags) e fs ro h = ground arith
  mutation_refused clock (setattr ino a) e fs ro h = ground arith
  mutation_refused clock call e fs ro h = cc

  -- It also refuses to open a file for writing, appending or truncation.
  pub open_refused :
      (ino flags : ℕ) (fs : FdPassthroughFs B.State)
      → fs.read_only ≡ true
      → wants_write c flags ≡ true
      → handle c is_full B (open_file ino flags) fs ≡ (fs, error c.erofs)
  unfolding handle Files.open_file
  open_refused ino flags fs ro h = ground arith

  -- An observed read-only mount tells each of its observers, once and in the order in which they
  -- were added, of a mutation that it then refuses with EROFS, and the file system inside it stays
  -- as it was.
  pub refused_is_heard :
      {World : Type 0} (clock : Clock) (call : Call) (e : Event)
      (fs : ObservingFs (fd_filesystem c is_full B) World)
      → fs.inner.read_only ≡ true
      → event_of clock call ≡ some e
      → Observing.handle clock call fs ≡ (record fs { world = hear fs (some e) }, error c.erofs)
  refused_is_heard clock call e fs ro h =
      rw
        (
          handle-event_of {F = fd_filesystem c is_full B} clock call fs,
          h,
          mutation_refused clock call e fs.inner ro h,
        )
        refl
