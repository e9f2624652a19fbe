-- ===== src/Operations/Recorder/Meaning.antt =====
-- The operations that a notification stands for, told without the recorder's state: from the
-- paths that its inodes have, the ignore test and the kinds of file in the source directory.
use ize.Prelude.{
  ℕ, as_u64, ◌≡◌, ◌||◌, List, [], ◌∷◌, ◌++◌, Option, none, some, arith, if◌then◌else◌,
}
use ize.FilePath.{FilePath}
use ize.Filesystems.Observer.{
  Event, write, create, unlink, mkdir, rmdir, rename, setattr, symlink, link,
}
use ize.Operations.Opcode.{SystemTime, secs_since_epoch}
use ize.Operations.Operation.{
  Operation, file_create, file_write, file_truncate, file_delete, file_rename, dir_create,
  dir_delete, dir_rename, set_permissions, set_timestamps, symlink_create, symlink_delete,
  hard_link_create,
}
use ize.Operations.Recorder.{
  Os, OpcodeRecorder, FileKind, symbolic_link, directory, observe, emit, resolve_inode,
  resolve_with_name, is_ignored, to_real,
}

-- The operations for the path or paths, unless one is unresolved or ignored.
at_path : OpcodeRecorder → Option FilePath → (FilePath → List Operation) → List Operation
at_path r none ops = []
at_path r (some p) ops = if is_ignored r p then [] else ops p

at_paths :
    OpcodeRecorder
    → Option FilePath
    → Option FilePath
    → (FilePath → FilePath → List Operation)
    → List Operation
at_paths r none q ops = []
at_paths r (some p) none ops = []
at_paths r (some p) (some q) ops = if is_ignored r p || is_ignored r q then [] else ops p q

removal : Option FileKind → FilePath → Operation
removal (some symbolic_link) p = symlink_delete p
removal kind p = file_delete p

renaming : Option FileKind → FilePath → FilePath → Operation
renaming (some directory) p q = dir_rename p q
renaming kind p q = file_rename p q

resizing : FilePath → Option ℕ → List Operation
resizing p none = []
resizing p (some n) = file_truncate p n ∷ []

chmod : FilePath → Option ℕ → List Operation
chmod p none = []
chmod p (some m) = set_permissions p m ∷ []

seconds : Option SystemTime → Option ℕ
seconds none = none
seconds (some t) = secs_since_epoch t

touching : FilePath → Option SystemTime → Option SystemTime → List Operation
touching p none none = []
touching p atime mtime = set_timestamps p (seconds atime) (seconds mtime) ∷ []

unfoldable pub meaning : Os → OpcodeRecorder → Event → List Operation
unfolding at_path at_paths removal renaming resizing chmod seconds touching
meaning os r (write ino fh offset bytes) =
    at_path r (resolve_inode r ino) (λ p. file_write p (as_u64 offset) bytes ∷ [])
meaning os r (create parent name mode result_ino) =
    at_path r (resolve_with_name r parent name) (λ p. file_create p mode [] ∷ [])
meaning os r (unlink parent name) =
    at_path r (resolve_with_name r parent name)
      (λ p. removal (os.symlink_metadata (to_real r p)) p ∷ [])
meaning os r (mkdir parent name mode result_ino) =
    at_path r (resolve_with_name r parent name) (λ p. dir_create p mode ∷ [])
meaning os r (rmdir parent name) =
    at_path r (resolve_with_name r parent name) (λ p. dir_delete p ∷ [])
meaning os r (rename parent name newparent newname) =
    at_paths r (resolve_with_name r parent name) (resolve_with_name r newparent newname)
      (λ p q. renaming (os.metadata (to_real r p)) p q ∷ [])
meaning os r (setattr ino size mode atime mtime) =
    at_path r (resolve_inode r ino)
      (λ p. resizing p size ++ (chmod p mode ++ touching p atime mtime))
meaning os r (symlink parent name target) =
    at_path r (resolve_with_name r parent name) (λ p. symlink_create p target ∷ [])
meaning os r (link ino newparent newname) =
    at_paths r (resolve_inode r ino) (resolve_with_name r newparent newname)
      (λ p q. hard_link_create p q ∷ [])

unfoldable pub emit_all : Os → OpcodeRecorder → List Operation → OpcodeRecorder
emit_all os r [] = r
emit_all os r (op ∷ ops) = emit_all os (emit os r op) ops

-- A callback emits the operations that the notification stands for, in their order, and does
-- nothing else.
pub observe-meaning :
    (os : Os) (e : Event) (r : OpcodeRecorder) → observe os e r ≡ emit_all os r (meaning os r e)
unfolding observe meaning emit_all
observe-meaning os (write ino fh offset bytes) r = ground arith
observe-meaning os (create parent name mode result_ino) r = ground arith
observe-meaning os (unlink parent name) r = ground arith
observe-meaning os (mkdir parent name mode result_ino) r = ground arith
observe-meaning os (rmdir parent name) r = ground arith
observe-meaning os (rename parent name newparent newname) r = ground arith
observe-meaning os (setattr ino size mode atime mtime) r = ground arith
observe-meaning os (symlink parent name target) r = ground arith
observe-meaning os (link ino newparent newname) r = ground arith
