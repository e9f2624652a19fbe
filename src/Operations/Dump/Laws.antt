-- ===== src/Operations/Dump/Laws.antt =====
-- crates/ize-lib/src/operations/dump_observer.rs against recorder.rs: both observers tell the same
-- of a notification.
use ize.Prelude.{
  pos, as_u64, ◌≡◌, refl, ap, Bool, List, [], ◌∷◌, ◌++◌, map, append-nil, append_assoc, arith,
  length,
}
use ize.Filesystems.Observer.{
  Event, write, create, unlink, mkdir, rmdir, rename, setattr, symlink, link,
}
use ize.Operations.Operation.{Operation, Bytes}
use ize.Operations.Recorder
use ize.Operations.Recorder.{Os, OpcodeRecorder}
use ize.Operations.Recorder.Meaning.{meaning}
use ize.Operations.Dump
use ize.Operations.Dump.{
  Body, Entry, DumpObserver, file_write, file_create, symlink_delete, file_delete, dir_create,
  dir_delete, dir_rename, file_rename, file_truncate, set_permissions, set_timestamps,
  symlink_create, hard_link_create, log_entry, format_bytes, observe,
}

-- The recorder with the same view of the file system.
unfoldable pub recorder_of : DumpObserver → OpcodeRecorder
recorder_of d = record {
  inode_map = d.inode_map;
  source_dir = d.source_dir;
  next_seq = 1;
  sender = record { queue = []; capacity = 0 };
  ignore_filters = d.ignore_filters;
}

-- A body with its offset as the recorder has it.
unfoldable pub unsigned : Body → Body
unsigned (file_write path offset n preview) = file_write path (pos (as_u64 offset)) n preview
unsigned body = body

-- The bodies in the log.
unfoldable pub bodies : DumpObserver → List Body
bodies d = map (λ (e : Entry). unsigned e.body) d.writer

-- The body that tells of an operation; the last is never recorded.
unfoldable pub body_of : (Bytes → Bool) → Operation → List Body
body_of is_utf8 (Operation.file_write path offset bytes) =
    file_write path (pos offset) (length bytes) (format_bytes is_utf8 bytes 100) ∷ []
body_of is_utf8 (Operation.file_create path mode content) = file_create path mode ∷ []
body_of is_utf8 (Operation.file_truncate path new_size) = file_truncate path new_size ∷ []
body_of is_utf8 (Operation.file_delete path) = file_delete path ∷ []
body_of is_utf8 (Operation.file_rename old_path new_path) = file_rename old_path new_path ∷ []
body_of is_utf8 (Operation.dir_create path mode) = dir_create path mode ∷ []
body_of is_utf8 (Operation.dir_delete path) = dir_delete path ∷ []
body_of is_utf8 (Operation.dir_rename old_path new_path) = dir_rename old_path new_path ∷ []
body_of is_utf8 (Operation.set_permissions path mode) = set_permissions path mode ∷ []
body_of is_utf8 (Operation.set_timestamps path atime mtime) = set_timestamps path atime mtime ∷ []
body_of is_utf8 (Operation.symlink_create path target) = symlink_create path target ∷ []
body_of is_utf8 (Operation.symlink_delete path) = symlink_delete path ∷ []
body_of is_utf8 (Operation.hard_link_create p q) = hard_link_create p q ∷ []
body_of is_utf8 op = []

unfoldable pub bodies_of : (Bytes → Bool) → List Operation → List Body
unfolding body_of
bodies_of is_utf8 [] = []
bodies_of is_utf8 (op ∷ ops) = body_of is_utf8 op ++ bodies_of is_utf8 ops

map-append : {A B : Type 0} (f : A → B) (xs ys : List A) → map f (xs ++ ys) ≡ map f xs ++ map f ys
map-append f [] ys = refl
map-append f (x ∷ xs) ys = ap (λ l. f x ∷ l) (map-append f xs ys)

bodies-log_entry :
    (os : Os) (d : DumpObserver) (body : Body)
    → bodies (log_entry os d body) ≡ bodies d ++ (unsigned body ∷ [])
unfolding bodies log_entry
bodies-log_entry os d body = map-append _ d.writer _

-- What a notification adds to the dump is what the operations that the recorder records for it
-- tell, in the same order.
pub bodies-observe :
    (is_utf8 : Bytes → Bool) (os : Os) (e : Event) (d : DumpObserver)
    → bodies (observe is_utf8 os e d) ≡ bodies d ++ bodies_of is_utf8 (meaning os (recorder_of d) e)
unfolding observe meaning recorder_of bodies_of unsigned Dump.resolve_inode Dump.resolve_with_name
    Dump.is_ignored Dump.to_real Recorder.resolve_inode Recorder.resolve_with_name
    Recorder.is_ignored Recorder.to_real
bodies-observe is_utf8 os (write ino fh offset bytes) d =
    grind (arith, append-nil, bodies-log_entry)
bodies-observe is_utf8 os (create parent name mode result_ino) d =
    grind (arith, append-nil, bodies-log_entry)
bodies-observe is_utf8 os (unlink parent name) d = grind (arith, append-nil, bodies-log_entry)
bodies-observe is_utf8 os (mkdir parent name mode result_ino) d =
    grind (arith, append-nil, bodies-log_entry)
bodies-observe is_utf8 os (rmdir parent name) d = grind (arith, append-nil, bodies-log_entry)
bodies-observe is_utf8 os (rename parent name newparent newname) d =
    grind (arith, append-nil, bodies-log_entry)
bodies-observe is_utf8 os (setattr ino size mode atime mtime) d =
    grind (arith, append-nil, append_assoc, bodies-log_entry)
bodies-observe is_utf8 os (symlink parent name target) d =
    grind (arith, append-nil, bodies-log_entry)
bodies-observe is_utf8 os (link ino newparent newname) d =
    grind (arith, append-nil, bodies-log_entry)
