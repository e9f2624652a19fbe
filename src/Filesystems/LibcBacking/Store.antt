-- ===== src/Filesystems/LibcBacking/Store.antt =====
-- crates/ize-lib/src/backing_fs/libc_impl.rs: the other methods of `LibcBackingFs`, and the backing
-- store that it is.
use Prim.Native.Nat.{bit_or}
use ize.Prelude.{ℕ, ℤ, as_i64, List, Option, none, some, Result, err, take}
use ize.FilePath.{FilePath}
use ize.Filesystems.Backing.{BackingFs, IoError, Stat, Statvfs, DirEntry, Timespec}
use ize.Filesystems.Syscalls.{Syscalls}
use ize.Operations.Operation.{Bytes}
use ize.Filesystems.LibcBacking.{
  LibcBackingFs, Outcome, nothing, raw_id, checked, checked_with, at_path,
}
use ize.Filesystems.LibcBacking.Readdir.{readdir}

module _ (S : Syscalls) where
  unfoldable pub stat : LibcBackingFs → FilePath → S.State → Outcome S Stat
  unfolding at_path checked_with
  stat b rel s = at_path S rel s λ c_path.
      checked_with S (λ n stat_buf. stat_buf) (S.fstatat b.base_fd c_path S.at_symlink_nofollow s)

  unfoldable pub fstat : ℕ → S.State → Outcome S Stat
  unfolding checked_with
  fstat fd s = checked_with S (λ n stat_buf. stat_buf) (S.fstat fd s)

  unfoldable pub open_file : LibcBackingFs → FilePath → (flags mode : ℕ) → S.State → Outcome S ℕ
  unfolding at_path checked
  open_file b rel flags mode s =
      at_path S rel s
        λ c_path. checked S (λ fd. fd) (S.openat b.base_fd c_path (bit_or flags S.o_cloexec) mode s)

  -- The bytes at the front of the buffer, as many as were read.
  unfoldable pub pread : ℕ → ℕ → ℤ → S.State → Outcome S Bytes
  unfolding checked_with
  pread fd size offset s = checked_with S take (S.pread fd size offset s)

  unfoldable pub pwrite : ℕ → Bytes → ℤ → S.State → Outcome S ℕ
  unfolding checked
  pwrite fd bytes offset s = checked S (λ n. n) (S.pwrite fd bytes offset s)

  unfoldable pub fsync : ℕ → S.State → Outcome S (Unit {0})
  unfolding checked
  fsync fd s = checked S nothing (S.fsync fd s)

  unfoldable pub close_fd : ℕ → S.State → S.State
  close_fd fd s = (S.close fd s).0

  unfoldable pub ftruncate : ℕ → ℕ → S.State → Outcome S (Unit {0})
  unfolding checked
  ftruncate fd size s = checked S nothing (S.ftruncate fd (as_i64 size) s)

  unfoldable pub mkdir : LibcBackingFs → FilePath → ℕ → S.State → Outcome S (Unit {0})
  unfolding at_path checked
  mkdir b rel mode s =
      at_path S rel s λ c_path. checked S nothing (S.mkdirat b.base_fd c_path mode s)

  unfoldable pub rmdir : LibcBackingFs → FilePath → S.State → Outcome S (Unit {0})
  unfolding at_path checked
  rmdir b rel s =
      at_path S rel s λ c_path. checked S nothing (S.unlinkat b.base_fd c_path S.at_removedir s)

  unfoldable pub unlink : LibcBackingFs → FilePath → S.State → Outcome S (Unit {0})
  unfolding at_path checked
  unlink b rel s = at_path S rel s λ c_path. checked S nothing (S.unlinkat b.base_fd c_path 0 s)

  unfoldable pub rename : LibcBackingFs → (old new : FilePath) → S.State → Outcome S (Unit {0})
  unfolding at_path checked
  rename b old new s = at_path S old s λ c_old.
      at_path S new s λ c_new. checked S nothing (S.renameat b.base_fd c_old b.base_fd c_new s)

  unfoldable pub chmod : LibcBackingFs → FilePath → ℕ → S.State → Outcome S (Unit {0})
  unfolding at_path checked
  chmod b rel mode s =
      at_path S rel s λ c_path. checked S nothing (S.fchmodat b.base_fd c_path mode 0 s)

  unfoldable pub chown :
      LibcBackingFs → FilePath → Option ℕ → Option ℕ → S.State → Outcome S (Unit {0})
  unfolding at_path checked raw_id
  chown b rel uid gid s = at_path S rel s λ c_path.
      checked S nothing
        (S.fchownat b.base_fd c_path (raw_id uid) (raw_id gid) S.at_symlink_nofollow s)

  unfoldable pub utimens :
      LibcBackingFs → FilePath → Timespec → Timespec → S.State → Outcome S (Unit {0})
  unfolding at_path checked
  utimens b rel atime mtime s =
      at_path S rel s λ c_path.
        checked S nothing (S.utimensat b.base_fd c_path atime mtime S.at_symlink_nofollow s)

  unfoldable pub access : LibcBackingFs → FilePath → ℕ → S.State → Outcome S (Unit {0})
  unfolding at_path checked
  access b rel mask s =
      at_path S rel s
        λ c_path. checked S nothing (S.faccessat b.base_fd c_path mask S.at_symlink_nofollow s)

  unfoldable pub statvfs : LibcBackingFs → S.State → Outcome S Statvfs
  unfolding checked_with
  statvfs b s = checked_with S (λ n buf. buf) (S.fstatvfs b.base_fd s)

  -- What a loop that used up its fuel replies stands for nothing: Laws has the fuel that is enough.
  abbrev or_none : Option (Result (List DirEntry) IoError) → Result (List DirEntry) IoError
  or_none none = err none
  or_none (some result) = result

  -- `impl BackingFs for LibcBackingFs`. The trait's methods that only read do not hand on a state.
  abbrev pub libc_backing : ℕ → LibcBackingFs → BackingFs
  libc_backing fuel b = record {
    State = S.State;
    stat = λ p s. (stat b p s).1;
    fstat = λ fd s. (fstat fd s).1;
    open_file = open_file b;
    pread = λ fd size offset s. (pread fd size offset s).1;
    pwrite = pwrite;
    fsync = fsync;
    close_fd = close_fd;
    ftruncate = ftruncate;
    mkdir = mkdir b;
    rmdir = rmdir b;
    readdir = λ p s. or_none (readdir S fuel b p s).1;
    unlink = unlink b;
    rename = rename b;
    chmod = chmod b;
    chown = chown b;
    utimens = utimens b;
    access = λ p mask s. (access b p mask s).1;
    statvfs = λ s. (statvfs b s).1;
  }
