-- ===== src/Filesystems/StdFs.antt =====
-- What crates/ize-lib/src/filesystems/passthrough.rs calls of `std::fs` and of nix, as an
-- interface. Paths are those below the root of the disk; what only reads is a function of the
-- state; a nix error is its errno.
use ize.Prelude.{ℕ, ℤ, Bool, List, Option, Result, String}
use ize.FilePath.{FilePath}
use ize.Operations.Operation.{Bytes}
use ize.Filesystems.Backing.{IoError, Timespec, Statvfs}

-- `fs::Metadata`: the tests of its file type and its numbers.
pub record Metadata : Type 0 where
  pub is_dir : Bool
  pub is_file : Bool
  pub is_symlink : Bool
  pub is_block_device : Bool
  pub is_char_device : Bool
  pub is_fifo : Bool
  pub is_socket : Bool
  pub ino : ℕ
  pub size : ℕ
  pub blocks : ℕ
  pub atime : ℤ
  pub mtime : ℤ
  pub ctime : ℤ
  pub mode : ℕ
  pub nlink : ℕ
  pub uid : ℕ
  pub gid : ℕ
  pub rdev : ℕ
  pub blksize : ℕ

-- `OpenOptions`, with what its methods were called with.
pub record OpenOptions : Type 0 where
  pub read : Bool
  pub write : Bool
  pub append : Bool
  pub truncate : Bool
  pub create_new : Bool
  pub custom_flags : ℕ
  pub mode : Option ℕ

-- `fs::DirEntry`: its name, and its metadata, which are those of a link itself.
pub record DirItem : Type 0 where
  pub file_name : String
  pub metadata : Result Metadata IoError

pub record StdFs : Type 1 where
  pub State : Type 0
  -- An open file, which is closed when it is dropped.
  pub File : Type 0
  pub exists : FilePath → State → Bool
  pub is_dir : FilePath → State → Bool
  -- `fs::metadata`, which follows a link at the end of the path.
  pub metadata : FilePath → State → Result Metadata IoError
  pub read_dir : FilePath → State → Result (List (Result DirItem IoError)) IoError
  pub to_string_lossy : String → String
  pub open_with : OpenOptions → FilePath → State → State × Result File IoError
  pub drop_file : File → State → State
  pub read_at : File → ℕ → ℕ → State → Result Bytes IoError
  pub write_at : File → Bytes → ℕ → State → State × Result ℕ IoError
  pub set_len : File → ℕ → State → State × Result (Unit {0}) IoError
  pub sync_all : File → State → State × Result (Unit {0}) IoError
  pub sync_data : File → State → State × Result (Unit {0}) IoError
  pub set_permissions : FilePath → ℕ → State → State × Result (Unit {0}) IoError
  pub create_dir : FilePath → State → State × Result (Unit {0}) IoError
  pub remove_file : FilePath → State → State × Result (Unit {0}) IoError
  pub remove_dir : FilePath → State → State × Result (Unit {0}) IoError
  -- `e.kind() == DirectoryNotEmpty`
  pub directory_not_empty : IoError → Bool
  pub rename : FilePath → FilePath → State → State × Result (Unit {0}) IoError
  pub chown : FilePath → Option ℕ → Option ℕ → State → State × Result (Unit {0}) ℕ
  -- Without following links.
  pub utimensat : FilePath → Timespec → Timespec → State → State × Result (Unit {0}) ℕ
  -- `access` with the flags that `from_bits_truncate` makes of the mask.
  pub access : FilePath → ℕ → State → Result (Unit {0}) ℕ
  pub statvfs : FilePath → State → Result Statvfs ℕ
