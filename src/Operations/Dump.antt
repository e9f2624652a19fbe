-- ===== src/Operations/Dump.antt =====
-- crates/ize-lib/src/operations/dump_observer.rs: the observer of `--dump`, which writes each
-- notification to a log. An entry's text is kept as the values that it is made of; writing it is
-- taken to succeed (its errors are dropped by the source).
pub mod Laws
use ize.Prelude.{
  ℕ, ℤ, ◌+◌, ◌%◌, ◌++◌, Bool, ◌||◌, List, [], ◌∷◌, Option, none, some, String, Dict, lookup, any,
  is_some, length, take, ltb, if◌then◌else◌,
}
use ize.FilePath.{FilePath, join}
use ize.Filesystems.Observer.{
  Event, write, create, unlink, mkdir, rmdir, rename, setattr, symlink, link,
}
use ize.Operations.Opcode.{SystemTime, u64_mod}
use ize.Operations.Operation.{Bytes}
use ize.Operations.Recorder.{Os, is_symlink, is_dir, secs}
use ize.Vcs.{IgnoreFilter}

-- The line on a write's content: none for an empty one; otherwise its first bytes, as text if they
-- are UTF-8, and whether dots say that there are more.
pub data Preview : Type 0 where
  empty : Preview
  utf8_content bytes_content : (display : Bytes) (suffix : Bool) → Preview

-- The body of an entry, by the word after `Type:`.
pub data Body : Type 0 where
  file_write : (path : FilePath) (offset : ℤ) (data_len : ℕ) (preview : Preview) → Body
  file_create : (path : FilePath) (mode : ℕ) → Body
  symlink_delete file_delete : (path : FilePath) → Body
  dir_create : (path : FilePath) (mode : ℕ) → Body
  dir_delete : (path : FilePath) → Body
  dir_rename file_rename : (old_path new_path : FilePath) → Body
  file_truncate : (path : FilePath) (new_size : ℕ) → Body
  set_permissions : (path : FilePath) (mode : ℕ) → Body
  set_timestamps : (path : FilePath) (atime mtime : Option ℕ) → Body
  symlink_create : (path target : FilePath) → Body
  hard_link_create : (existing_path new_path : FilePath) → Body

pub record Entry : Type 0 where
  pub seq : ℕ
  pub timestamp : ℕ
  pub body : Body

pub record DumpObserver : Type 0 where
  pub inode_map : Dict FilePath
  pub source_dir : FilePath
  pub next_seq : ℕ
  -- what the log file holds
  pub writer : List Entry
  pub ignore_filters : List IgnoreFilter

-- Appends to what the file holds already.
unfoldable pub open_log : Dict FilePath → FilePath → List Entry → DumpObserver
open_log inode_map source_dir entries = record {
  inode_map = inode_map;
  source_dir = source_dir;
  next_seq = 1;
  writer = entries;
  ignore_filters = [];
}

unfoldable pub with_ignore_filters : DumpObserver → List IgnoreFilter → DumpObserver
with_ignore_filters d filters = record d { ignore_filters = filters }

unfoldable pub resolve_inode : DumpObserver → ℕ → Option FilePath
resolve_inode d ino = lookup ino d.inode_map

abbrev named : String → Option FilePath → Option FilePath
named name none = none
named name (some p) = some (join p name)

unfoldable pub resolve_with_name : DumpObserver → ℕ → String → Option FilePath
unfolding resolve_inode
resolve_with_name d parent name = named name (resolve_inode d parent)

unfoldable pub to_real : DumpObserver → FilePath → FilePath
to_real d rel_path = d.source_dir ++ rel_path

unfoldable pub is_ignored : DumpObserver → FilePath → Bool
is_ignored d path = any (λ filter. filter.should_ignore path) d.ignore_filters

-- Seconds since the epoch, 0 before it.
unfoldable pub now_secs : SystemTime → ℕ
now_secs now = elim (secs (some now)) [ none ↦ 0 | some s ↦ s ]

unfoldable pub log_entry : Os → DumpObserver → Body → DumpObserver
unfolding now_secs
log_entry os d body =
    let entry : Entry = record {
      seq = d.next_seq;
      timestamp = now_secs (os.clock d.next_seq);
      body = body;
    } in
    record d { next_seq = (d.next_seq + 1) % u64_mod; writer = d.writer ++ (entry ∷ []) }

-- `is_utf8` is the test of `std::str::from_utf8`.
unfoldable pub format_bytes : (Bytes → Bool) → Bytes → ℕ → Preview
format_bytes is_utf8 [] max_bytes = empty
format_bytes is_utf8 (b ∷ bs) max_bytes =
    let bytes = b ∷ bs in
    let truncated = ltb max_bytes (length bytes) in
    let display = if truncated then take max_bytes bytes else bytes in
    if is_utf8 display then utf8_content display truncated else bytes_content display truncated

unfoldable pub on_write : (Bytes → Bool) → Os → DumpObserver → ℕ → ℕ → ℤ → Bytes → DumpObserver
on_write is_utf8 os d ino fh offset bytes = elim (resolve_inode d ino) [
  | none ↦ d
  | some path ↦
      if is_ignored d path
      then d
      else log_entry os d (file_write path offset (length bytes) (format_bytes is_utf8 bytes 100))
]

unfoldable pub on_create : Os → DumpObserver → ℕ → String → ℕ → Option ℕ → DumpObserver
on_create os d parent name mode result_ino = elim (resolve_with_name d parent name) [
  | none ↦ d
  | some path ↦ if is_ignored d path then d else log_entry os d (file_create path mode)
]

unfoldable pub on_unlink : Os → DumpObserver → ℕ → String → DumpObserver
on_unlink os d parent name = elim (resolve_with_name d parent name) [
  | none ↦ d
  | some path ↦
      if is_ignored d path
      then d
      else log_entry os d (
          if is_symlink (os.symlink_metadata (to_real d path))
          then symlink_delete path
          else file_delete path)
]

unfoldable pub on_mkdir : Os → DumpObserver → ℕ → String → ℕ → Option ℕ → DumpObserver
on_mkdir os d parent name mode result_ino = elim (resolve_with_name d parent name) [
  | none ↦ d
  | some path ↦ if is_ignored d path then d else log_entry os d (dir_create path mode)
]

unfoldable pub on_rmdir : Os → DumpObserver → ℕ → String → DumpObserver
on_rmdir os d parent name = elim (resolve_with_name d parent name) [
  | none ↦ d
  | some path ↦ if is_ignored d path then d else log_entry os d (dir_delete path)
]

unfoldable pub on_rename : Os → DumpObserver → ℕ → String → ℕ → String → DumpObserver
on_rename os d parent name newparent newname = elim (resolve_with_name d parent name) [
  | none ↦ d
  | some old_path ↦ elim (resolve_with_name d newparent newname) [
    | none ↦ d
    | some new_path ↦
        if is_ignored d old_path || is_ignored d new_path
        then d
        else log_entry os d (
            if is_dir (os.metadata (to_real d old_path))
            then dir_rename old_path new_path
            else file_rename old_path new_path)
  ]
]

-- The three parts of `on_setattr` after its guards.
unfoldable pub log_size : Os → DumpObserver → FilePath → Option ℕ → DumpObserver
log_size os d path none = d
log_size os d path (some new_size) = log_entry os d (file_truncate path new_size)

unfoldable pub log_mode : Os → DumpObserver → FilePath → Option ℕ → DumpObserver
log_mode os d path none = d
log_mode os d path (some new_mode) = log_entry os d (set_permissions path new_mode)

unfoldable pub log_times :
    Os → DumpObserver → FilePath → Option SystemTime → Option SystemTime → DumpObserver
log_times os d path atime mtime =
    if is_some atime || is_some mtime
    then log_entry os d (set_timestamps path (secs atime) (secs mtime))
    else d

unfoldable pub on_setattr :
    Os
    → DumpObserver
    → ℕ
    → Option ℕ
    → Option ℕ
    → Option SystemTime
    → Option SystemTime
    → DumpObserver
unfolding log_size log_mode log_times
on_setattr os d ino size mode atime mtime = elim (resolve_inode d ino) [
  | none ↦ d
  | some path ↦
      if is_ignored d path
      then d
      else log_times os (log_mode os (log_size os d path size) path mode) path atime mtime
]

unfoldable pub on_symlink : Os → DumpObserver → ℕ → String → FilePath → DumpObserver
on_symlink os d parent name target = elim (resolve_with_name d parent name) [
  | none ↦ d
  | some path ↦ if is_ignored d path then d else log_entry os d (symlink_create path target)
]

unfoldable pub on_link : Os → DumpObserver → ℕ → ℕ → String → DumpObserver
on_link os d ino newparent newname = elim (resolve_inode d ino) [
  | none ↦ d
  | some existing_path ↦ elim (resolve_with_name d newparent newname) [
    | none ↦ d
    | some new_path ↦
        if is_ignored d existing_path || is_ignored d new_path
        then d
        else log_entry os d (hard_link_create existing_path new_path)
  ]
]

-- `impl FsObserver for DumpObserver`: the method for each notification.
unfoldable pub observe : (Bytes → Bool) → Os → Event → DumpObserver → DumpObserver
unfolding on_write on_create on_unlink on_mkdir on_rmdir on_rename on_setattr on_symlink on_link
observe is_utf8 os (write ino fh offset bytes) d = on_write is_utf8 os d ino fh offset bytes
observe is_utf8 os (create parent name mode result_ino) d =
    on_create os d parent name mode result_ino
observe is_utf8 os (unlink parent name) d = on_unlink os d parent name
observe is_utf8 os (mkdir parent name mode result_ino) d = on_mkdir os d parent name mode result_ino
observe is_utf8 os (rmdir parent name) d = on_rmdir os d parent name
observe is_utf8 os (rename parent name newparent newname) d =
    on_rename os d parent name newparent newname
observe is_utf8 os (setattr ino size mode atime mtime) d = on_setattr os d ino size mode atime mtime
observe is_utf8 os (symlink parent name target) d = on_symlink os d parent name target
observe is_utf8 os (link ino newparent newname) d = on_link os d ino newparent newname
