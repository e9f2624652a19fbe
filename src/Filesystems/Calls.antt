-- ===== src/Filesystems/Calls.antt =====
-- The calls of fuser's trait `Filesystem` that crates/ize-lib/src/filesystems implements, with the
-- arguments that it reads, and a file system as a value: its state and its answer to a call.
use ize.Prelude.{ℕ, ℤ, Bool, Option, String}
use ize.Operations.Opcode.{SystemTime}
use ize.Operations.Operation.{Bytes}

-- fuser's `TimeOrNow`.
pub data TimeOrNow : Type 0 where
  specific_time : SystemTime → TimeOrNow
  now : TimeOrNow

pub record Attributes : Type 0 where
  pub mode : Option ℕ
  pub uid : Option ℕ
  pub gid : Option ℕ
  pub size : Option ℕ
  pub atime : Option TimeOrNow
  pub mtime : Option TimeOrNow
  pub fh : Option ℕ

pub data Call : Type 0 where
  init destroy : Call
  lookup : (parent : ℕ) (name : String) → Call
  getattr : (ino : ℕ) (fh : Option ℕ) → Call
  readdir : (ino fh : ℕ) (offset : ℤ) → Call
  open_file : (ino flags : ℕ) → Call
  read : (ino fh : ℕ) (offset : ℤ) (size : ℕ) → Call
  flush : (ino fh : ℕ) → Call
  release : (ino fh : ℕ) → Call
  fsync : (ino fh : ℕ) (datasync : Bool) → Call
  opendir : (ino flags : ℕ) → Call
  releasedir : (ino fh : ℕ) → Call
  access : (ino mask : ℕ) → Call
  statfs : (ino : ℕ) → Call
  write : (ino fh : ℕ) (offset : ℤ) (bytes : Bytes) → Call
  create : (parent : ℕ) (name : String) (mode umask flags : ℕ) → Call
  unlink : (parent : ℕ) (name : String) → Call
  mkdir : (parent : ℕ) (name : String) (mode umask : ℕ) → Call
  rmdir : (parent : ℕ) (name : String) → Call
  rename : (parent : ℕ) (name : String) (newparent : ℕ) (newname : String) (flags : ℕ) → Call
  setattr : (ino : ℕ) (attributes : Attributes) → Call

-- `impl Filesystem`: what a call does to the state, and the reply sent.
pub record Filesystem : Type 1 where
  pub State : Type 0
  pub Reply : Type 0
  pub handle : Call → State → State × Reply
