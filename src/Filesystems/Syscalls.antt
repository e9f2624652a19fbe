-- ===== src/Filesystems/Syscalls.antt =====
-- The calls of the crate libc that crates/ize-lib/src/backing_fs/libc_impl.rs and
-- crates/fuse-fd-poc/src/main.rs make, of one thread:
-- what each does to the state of the kernel and of `errno`, and what it returns. A call that is given
-- a buffer to fill has the filled buffer beside what it returns.
use ize.Prelude.{ℕ, ℤ, Option, String}
use ize.Filesystems.Backing.{Stat, Statvfs, DirEntry, Timespec}
use ize.Operations.Operation.{Bytes}

pub record Syscalls : Type 1 where
  pub State : Type 0
  -- `*mut DIR`, when it is not null
  pub Dir : Type 0
  pub errno : State → ℕ
  pub set_errno : ℕ → State → State
  pub o_rdonly : ℕ
  pub o_directory : ℕ
  pub o_cloexec : ℕ
  pub at_symlink_nofollow : ℕ
  pub at_removedir : ℕ
  pub open_path : String → ℕ → State → State × ℤ
  pub openat : ℕ → String → ℕ → ℕ → State → State × ℤ
  pub close : ℕ → State → State × ℤ
  pub dup : ℕ → State → State × ℤ
  -- `lseek(fd, 0, SEEK_SET)`
  pub rewind : ℕ → State → State × ℤ
  pub fdopendir : ℕ → State → State × Option Dir
  pub readdir : Dir → State → State × Option DirEntry
  pub closedir : Dir → State → State × ℤ
  pub fstatat : ℕ → String → ℕ → State → State × ℤ × Stat
  pub fstat : ℕ → State → State × ℤ × Stat
  pub pread : ℕ → (size : ℕ) → (offset : ℤ) → State → State × ℤ × Bytes
  pub pwrite : ℕ → Bytes → ℤ → State → State × ℤ
  pub fsync : ℕ → State → State × ℤ
  pub ftruncate : ℕ → ℤ → State → State × ℤ
  pub mkdirat : ℕ → String → ℕ → State → State × ℤ
  pub unlinkat : ℕ → String → ℕ → State → State × ℤ
  pub renameat : ℕ → String → ℕ → String → State → State × ℤ
  pub fchmodat : ℕ → String → (mode flags : ℕ) → State → State × ℤ
  pub fchownat : ℕ → String → (uid gid flags : ℕ) → State → State × ℤ
  pub utimensat : ℕ → String → (atime mtime : Timespec) → (flags : ℕ) → State → State × ℤ
  pub faccessat : ℕ → String → (mask flags : ℕ) → State → State × ℤ
  pub fstatvfs : ℕ → State → State × ℤ × Statvfs
