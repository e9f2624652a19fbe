-- ===== src/Filesystems/Backing.antt =====
-- crates/ize-lib/src/backing_fs/mod.rs: the trait `BackingFs` and what it hands over. A store's
-- operations are those of one caller at a time; what only reads is a function of the store.
use ize.Prelude.{ℕ, ℤ, List, Option, none, some, Result, String}
use ize.FilePath.{FilePath}
use ize.Operations.Operation.{Bytes}

-- The constants of the `libc` crate that the file system uses, for the platform at hand.
pub record Libc : Type 0 where
  pub enoent : ℕ
  pub eio : ℕ
  pub erofs : ℕ
  pub ebadf : ℕ
  pub eacces : ℕ
  pub enotdir : ℕ
  pub enotempty : ℕ
  pub einval : ℕ
  pub o_accmode : ℕ
  pub o_rdonly : ℕ
  pub o_wronly : ℕ
  pub o_rdwr : ℕ
  pub o_append : ℕ
  pub o_trunc : ℕ
  pub o_creat : ℕ
  pub o_nofollow : ℕ
  pub s_ifmt : ℕ
  pub s_ifdir : ℕ
  pub s_ifreg : ℕ
  pub s_iflnk : ℕ
  pub s_ifblk : ℕ
  pub s_ifchr : ℕ
  pub s_ififo : ℕ
  pub s_ifsock : ℕ
  pub dt_dir : ℕ
  pub dt_reg : ℕ
  pub dt_lnk : ℕ
  pub dt_blk : ℕ
  pub dt_chr : ℕ
  pub dt_fifo : ℕ
  pub dt_sock : ℕ
  pub utime_now : ℤ
  pub utime_omit : ℤ

-- `io::Error`, of which only `raw_os_error()` is read.
abbrev pub IoError : Type 0
IoError = Option ℕ

-- `e.raw_os_error().unwrap_or(default)`
abbrev pub errno : IoError → ℕ → ℕ
errno none default = default
errno (some n) default = n

pub record Timespec : Type 0 where
  pub tv_sec : ℤ
  pub tv_nsec : ℤ

-- `libc::stat`
pub record Stat : Type 0 where
  pub st_ino : ℕ
  pub st_mode : ℕ
  pub st_nlink : ℕ
  pub st_uid : ℕ
  pub st_gid : ℕ
  pub st_rdev : ℕ
  pub st_size : ℤ
  pub st_blksize : ℤ
  pub st_blocks : ℤ
  pub st_atim : Timespec
  pub st_mtim : Timespec
  pub st_ctim : Timespec

-- `libc::statvfs`
pub record Statvfs : Type 0 where
  pub f_blocks : ℕ
  pub f_bfree : ℕ
  pub f_bavail : ℕ
  pub f_files : ℕ
  pub f_ffree : ℕ
  pub f_bsize : ℕ
  pub f_namemax : ℕ
  pub f_frsize : ℕ

pub record DirEntry : Type 0 where
  pub ino : ℕ
  pub dtype : ℕ
  pub name : String

pub record BackingFs : Type 1 where
  pub State : Type 0
  pub stat : FilePath → State → Result Stat IoError
  pub fstat : ℕ → State → Result Stat IoError
  pub open_file : FilePath → ℕ → ℕ → State → State × Result ℕ IoError
  pub pread : ℕ → ℕ → ℤ → State → Result Bytes IoError
  pub pwrite : ℕ → Bytes → ℤ → State → State × Result ℕ IoError
  pub fsync : ℕ → State → State × Result (Unit {0}) IoError
  pub close_fd : ℕ → State → State
  pub ftruncate : ℕ → ℕ → State → State × Result (Unit {0}) IoError
  pub mkdir : FilePath → ℕ → State → State × Result (Unit {0}) IoError
  pub rmdir : FilePath → State → State × Result (Unit {0}) IoError
  pub readdir : FilePath → State → Result (List DirEntry) IoError
  pub unlink : FilePath → State → State × Result (Unit {0}) IoError
  pub rename : FilePath → FilePath → State → State × Result (Unit {0}) IoError
  pub chmod : FilePath → ℕ → State → State × Result (Unit {0}) IoError
  pub chown : FilePath → Option ℕ → Option ℕ → State → State × Result (Unit {0}) IoError
  pub utimens : FilePath → Timespec → Timespec → State → State × Result (Unit {0}) IoError
  pub access : FilePath → ℕ → State → Result (Unit {0}) IoError
  pub statvfs : State → Result Statvfs IoError
