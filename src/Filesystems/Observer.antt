-- ===== src/Filesystems/Observer.antt =====
-- crates/ize-lib/src/filesystems/observing.rs, the trait `FsObserver`: a notification for each of
-- its methods, with the method's arguments.
use ize.Prelude.{ℕ, ℤ, Option, String}
use ize.FilePath.{FilePath}
use ize.Operations.Opcode.{SystemTime}
use ize.Operations.Operation.{Bytes}

pub data Event : Type 0 where
  write : (ino fh : ℕ) (offset : ℤ) (bytes : Bytes) → Event
  create : (parent : ℕ) (name : String) (mode : ℕ) (result_ino : Option ℕ) → Event
  unlink : (parent : ℕ) (name : String) → Event
  mkdir : (parent : ℕ) (name : String) (mode : ℕ) (result_ino : Option ℕ) → Event
  rmdir : (parent : ℕ) (name : String) → Event
  rename : (parent : ℕ) (name : String) (newparent : ℕ) (newname : String) → Event
  setattr : (ino : ℕ) (size mode : Option ℕ) (atime mtime : Option SystemTime) → Event
  symlink : (parent : ℕ) (name : String) (target : FilePath) → Event
  link : (ino newparent : ℕ) (newname : String) → Event
