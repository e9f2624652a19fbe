-- ===== src/Operations/Recorder.antt =====
-- crates/ize-lib/src/operations/recorder.rs: the observer that turns notifications into opcodes.
-- What the callbacks ask the operating system is `Os`. The inode map is the file system's, shared
-- under a lock, and the queue is shared with the consumer; both are fields here. A poisoned lock
-- (a thread that panicked while it held it) is not modelled.
pub mod Meaning
pub mod Laws
pub mod Invariant
pub mod Session
use ize.Prelude.{
  ℕ, ℤ, as_u64, ◌+◌, ◌%◌, Bool, true, false, ◌||◌, List, [], ◌++◌, Option, none, some, String, Dict,
  lookup, any, is_some, if◌then◌else◌,
}
use ize.FilePath.{FilePath, join}
use ize.Filesystems.Observer.{
  Event, write, create, unlink, mkdir, rmdir, rename, setattr, symlink, link,
}
use ize.Operations.Opcode
use ize.Operations.Opcode.{SystemTime, secs_since_epoch, u64_mod}
use ize.Operations.Operation.{
  Operation, Bytes, file_create, file_write, file_truncate, file_delete, file_rename, dir_create,
  dir_delete, dir_rename, set_permissions, set_timestamps, symlink_create, symlink_delete,
  hard_link_create,
}
use ize.Operations.Queue
use ize.Operations.Queue.{OpcodeQueue}
use ize.Vcs.{IgnoreFilter}

pub data FileKind : Type 0 where
  regular directory symbolic_link other : FileKind

-- `std::fs::metadata` follows links, `symlink_metadata` does not; `none` is an error. `clock` is the
-- time read for the opcode with the given number.
pub record Os : Type 0 where
  pub metadata : FilePath → Option FileKind
  pub symlink_metadata : FilePath → Option FileKind
  pub clock : ℕ → SystemTime

-- What the disk shows of the kinds of its files at one moment.
pub record Kinds : Type 0 where
  pub metadata : FilePath → Option FileKind
  pub symlink_metadata : FilePath → Option FileKind

abbrev pub seen : Kinds → (ℕ → SystemTime) → Os
seen kinds time = record {
  metadata = kinds.metadata;
  symlink_metadata = kinds.symlink_metadata;
  clock = time;
}

pub record OpcodeRecorder : Type 0 where
  pub inode_map : Dict FilePath
  pub source_dir : FilePath
  pub next_seq : ℕ
  pub sender : OpcodeQueue
  pub ignore_filters : List IgnoreFilter

unfoldable pub new : Dict FilePath → FilePath → OpcodeQueue → OpcodeRecorder
new inode_map source_dir sender = record {
  inode_map = inode_map;
  source_dir = source_dir;
  next_seq = 1;
  sender = sender;
  ignore_filters = [];
}

unfoldable pub with_ignore_filters : OpcodeRecorder → List IgnoreFilter → OpcodeRecorder
with_ignore_filters r filters = record r { ignore_filters = filters }

-- `fetch_add`, which wraps around.
unfoldable pub take_seq : OpcodeRecorder → ℕ × OpcodeRecorder
take_seq r = (r.next_seq, record r { next_seq = (r.next_seq + 1) % u64_mod })

unfoldable pub resolve_inode : OpcodeRecorder → ℕ → Option FilePath
resolve_inode r ino = lookup ino r.inode_map

abbrev join_with : String → Option FilePath → Option FilePath
join_with name none = none
join_with name (some p) = some (join p name)

unfoldable pub resolve_with_name : OpcodeRecorder → ℕ → String → Option FilePath
unfolding resolve_inode
resolve_with_name r parent name = join_with name (resolve_inode r parent)

unfoldable pub to_real : OpcodeRecorder → FilePath → FilePath
to_real r rel_path = r.source_dir ++ rel_path

unfoldable pub is_ignored : OpcodeRecorder → FilePath → Bool
is_ignored r path = any (λ filter. filter.should_ignore path) r.ignore_filters

-- `try_send` gives the opcode back when the queue is full; it is then dropped.
unfoldable pub emit : Os → OpcodeRecorder → Operation → OpcodeRecorder
unfolding take_seq
emit os r op =
    let (seq, r') = take_seq r in
    let (sender, result) = Queue.try_send r'.sender (Opcode.new (os.clock seq) seq op) in
    record r' { sender = sender }

abbrev pub is_symlink : Option FileKind → Bool
is_symlink (some symbolic_link) = true
is_symlink kind = false

abbrev pub is_dir : Option FileKind → Bool
is_dir (some directory) = true
is_dir kind = false

-- `t.duration_since(UNIX_EPOCH).ok().map(|d| d.as_secs())` of a time that may be absent.
abbrev pub secs : Option SystemTime → Option ℕ
secs none = none
secs (some t) = secs_since_epoch t

unfoldable pub on_write : Os → OpcodeRecorder → ℕ → ℕ → ℤ → Bytes → OpcodeRecorder
on_write os r ino fh offset bytes = elim (resolve_inode r ino) [
  | none ↦ r
  | some path ↦ if is_ignored r path then r else emit os r (file_write path (as_u64 offset) bytes)
]

unfoldable pub on_create : Os → OpcodeRecorder → ℕ → String → ℕ → Option ℕ → OpcodeRecorder
on_create os r parent name mode result_ino = elim (resolve_with_name r parent name) [
  | none ↦ r
  | some path ↦ if is_ignored r path then r else emit os r (file_create path mode [])
]

unfoldable pub on_unlink : Os → OpcodeRecorder → ℕ → String → OpcodeRecorder
on_unlink os r parent name = elim (resolve_with_name r parent name) [
  | none ↦ r
  | some path ↦
      if is_ignored r path
      then r
      else (if is_symlink (os.symlink_metadata (to_real r path))
          then emit os r (symlink_delete path)
          else emit os r (file_delete path))
]

unfoldable pub on_mkdir : Os → OpcodeRecorder → ℕ → String → ℕ → Option ℕ → OpcodeRecorder
on_mkdir os r parent name mode result_ino = elim (resolve_with_name r parent name) [
  | none ↦ r
  | some path ↦ if is_ignored r path then r else emit os r (dir_create path mode)
]

unfoldable pub on_rmdir : Os → OpcodeRecorder → ℕ → String → OpcodeRecorder
on_rmdir os r parent name = elim (resolve_with_name r parent name) [
  | none ↦ r
  | some path ↦ if is_ignored r path then r else emit os r (dir_delete path)
]

unfoldable pub on_rename : Os → OpcodeRecorder → ℕ → String → ℕ → String → OpcodeRecorder
on_rename os r parent name newparent newname = elim (resolve_with_name r parent name) [
  | none ↦ r
  | some old_path ↦ elim (resolve_with_name r newparent newname) [
    | none ↦ r
    | some new_path ↦
        if is_ignored r old_path || is_ignored r new_path
        then r
        else (if is_dir (os.metadata (to_real r old_path))
            then emit os r (dir_rename old_path new_path)
            else emit os r (file_rename old_path new_path))
  ]
]

-- The three parts of `on_setattr` after its guards.
unfoldable pub emit_size : Os → OpcodeRecorder → FilePath → Option ℕ → OpcodeRecorder
emit_size os r path none = r
emit_size os r path (some new_size) = emit os r (file_truncate path new_size)

unfoldable pub emit_mode : Os → OpcodeRecorder → FilePath → Option ℕ → OpcodeRecorder
emit_mode os r path none = r
emit_mode os r path (some new_mode) = emit os r (set_permissions path new_mode)

unfoldable pub emit_times :
    Os → OpcodeRecorder → FilePath → Option SystemTime → Option SystemTime → OpcodeRecorder
emit_times os r path atime mtime =
    if is_some atime || is_some mtime
    then emit os r (set_timestamps path (secs atime) (secs mtime))
    else r

unfoldable pub on_setattr :
    Os
    → OpcodeRecorder
    → ℕ
    → Option ℕ
    → Option ℕ
    → Option SystemTime
    → Option SystemTime
    → OpcodeRecorder
unfolding emit_size emit_mode emit_times
on_setattr os r ino size mode atime mtime = elim (resolve_inode r ino) [
  | none ↦ r
  | some path ↦
      if is_ignored r path
      then r
      else emit_times os (emit_mode os (emit_size os r path size) path mode) path atime mtime
]

unfoldable pub on_symlink : Os → OpcodeRecorder → ℕ → String → FilePath → OpcodeRecorder
on_symlink os r parent name target = elim (resolve_with_name r parent name) [
  | none ↦ r
  | some path ↦ if is_ignored r path then r else emit os r (symlink_create path target)
]

unfoldable pub on_link : Os → OpcodeRecorder → ℕ → ℕ → String → OpcodeRecorder
on_link os r ino newparent newname = elim (resolve_inode r ino) [
  | none ↦ r
  | some existing_path ↦ elim (resolve_with_name r newparent newname) [
    | none ↦ r
    | some new_path ↦
        if is_ignored r existing_path || is_ignored r new_path
        then r
        else emit os r (hard_link_create existing_path new_path)
  ]
]

-- `impl FsObserver for OpcodeRecorder`: the method for each notification.
unfoldable pub observe : Os → Event → OpcodeRecorder → OpcodeRecorder
unfolding on_write on_create on_unlink on_mkdir on_rmdir on_rename on_setattr on_symlink on_link
observe os (write ino fh offset bytes) r = on_write os r ino fh offset bytes
observe os (create parent name mode result_ino) r = on_create os r parent name mode result_ino
observe os (unlink parent name) r = on_unlink os r parent name
observe os (mkdir parent name mode result_ino) r = on_mkdir os r parent name mode result_ino
observe os (rmdir parent name) r = on_rmdir os r parent name
observe os (rename parent name newparent newname) r = on_rename os r parent name newparent newname
observe os (setattr ino size mode atime mtime) r = on_setattr os r ino size mode atime mtime
observe os (symlink parent name target) r = on_symlink os r parent name target
observe os (link ino newparent newname) r = on_link os r ino newparent newname
