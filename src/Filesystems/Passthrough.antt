-- ===== src/Filesystems/Passthrough.antt =====
-- crates/ize-lib/src/filesystems/passthrough.rs: `PassthroughFS`, its state and its helpers. A time
-- of a file before the epoch, at which the conversion to `SystemTime` panics, and a poisoned lock
-- are not modelled.
pub mod Entries
pub mod Open
pub mod Change
pub mod Handle
pub mod Contained
pub mod Refusals
pub mod Tests
use Prim.Native.Nat.{bit_and}
use ize.Prelude.{
  ℕ, ◌+◌, ◌*◌, ◌%◌, ℤ, as_u64, Bool, true, false, [], ◌∷◌, ◌++◌, Option, none, some, Result, ok,
  err, String, Dict, lookup, insert, remove, ◌==◌, if◌then◌else◌,
}
use ize.FilePath.{FilePath, root, join}
use ize.Operations.Opcode.{SystemTime, since_epoch, u64_mod}
use ize.Filesystems.StdFs.{StdFs, Metadata}
use ize.Filesystems.PassthroughFd.{
  fuse_root_id, FileType, directory, regular_file, symlink, block_device, char_device, named_pipe,
  socket, FileAttr, u32_mod,
}

pub record FileHandle (F : Type 0) : Type 0 where
  pub file : F
  pub real_path : FilePath
  pub flags : ℕ

-- The state of the disk below stands beside the fields of the source.
pub record PassthroughFs (S F : Type 0) : Type 0 where
  pub disk : S
  pub source_dir : FilePath
  pub mount_point : FilePath
  pub read_only : Bool
  pub inode_to_path : Dict FilePath
  pub next_fh : ℕ
  pub file_handles : Dict (FileHandle F)

-- The two errors of `new`.
pub data NewError : Type 0 where
  not_found invalid_input : FilePath → NewError

unfoldable pub metadata_kind : Metadata → FileType
metadata_kind meta =
    if meta.is_dir
    then directory
    else if meta.is_file
    then regular_file
    else if meta.is_symlink
    then symlink
    else if meta.is_block_device
    then block_device
    else if meta.is_char_device
    then char_device
    else if meta.is_fifo
    then named_pipe
    else if meta.is_socket
    then socket
    else regular_file

-- `UNIX_EPOCH + Duration::from_secs(seconds as u64)`
unfoldable pub whole_seconds : ℤ → SystemTime
whole_seconds seconds = since_epoch (as_u64 seconds * 1_000_000_000)

unfoldable pub metadata_to_attr : Metadata → ℕ → FileAttr
unfolding metadata_kind whole_seconds
metadata_to_attr meta ino = record {
  ino = ino;
  size = meta.size;
  blocks = meta.blocks;
  atime = whole_seconds meta.atime;
  mtime = whole_seconds meta.mtime;
  ctime = whole_seconds meta.ctime;
  crtime = since_epoch 0;
  kind = metadata_kind meta;
  perm = bit_and meta.mode 0o7777;
  nlink = meta.nlink % u32_mod;
  uid = meta.uid;
  gid = meta.gid;
  rdev = meta.rdev % u32_mod;
  blksize = meta.blksize % u32_mod;
  flags = 0;
}

unfoldable pub metadata_to_filetype : Metadata → FileType
metadata_to_filetype meta =
    if meta.is_dir
    then directory
    else if meta.is_file
    then regular_file
    else if meta.is_symlink
    then symlink
    else regular_file

abbrev joined : String → Option FilePath → Option FilePath
joined name none = none
joined name (some p) = some (join p name)

module _ {S F : Type 0} where
  unfoldable pub to_real : PassthroughFs S F → FilePath → FilePath
  to_real fs rel_path = fs.source_dir ++ rel_path

  unfoldable pub register_inode : PassthroughFs S F → ℕ → FilePath → PassthroughFs S F
  register_inode fs ino rel_path = record fs {
    inode_to_path = insert ino rel_path fs.inode_to_path;
  }

  -- `if let Some(ino) = ino`, with `remove(&ino)`.
  unfoldable pub unregister_inode : PassthroughFs S F → Option ℕ → PassthroughFs S F
  unregister_inode fs none = fs
  unregister_inode fs (some ino) = record fs { inode_to_path = remove ino fs.inode_to_path }

  unfoldable pub get_path_for_inode : PassthroughFs S F → ℕ → Option FilePath
  get_path_for_inode fs ino = lookup ino fs.inode_to_path

  unfoldable pub resolve_inode : PassthroughFs S F → ℕ → Option FilePath
  unfolding get_path_for_inode
  resolve_inode fs ino = get_path_for_inode fs ino

  unfoldable pub resolve_with_name : PassthroughFs S F → ℕ → String → Option FilePath
  unfolding get_path_for_inode
  resolve_with_name fs parent_ino name = joined name (get_path_for_inode fs parent_ino)

  -- The path of a parent: that of the root is known without the map.
  unfoldable pub parent_path : PassthroughFs S F → ℕ → Option FilePath
  unfolding get_path_for_inode
  parent_path fs parent = if parent == fuse_root_id then some root else get_path_for_inode fs parent

  unfoldable pub alloc_fh : PassthroughFs S F → ℕ × PassthroughFs S F
  alloc_fh fs = (fs.next_fh, record fs { next_fh = (fs.next_fh + 1) % u64_mod })

  -- `alloc_fh`, and the new entry of the table.
  unfoldable pub add_handle : PassthroughFs S F → FileHandle F → ℕ × PassthroughFs S F
  unfolding alloc_fh
  add_handle fs handle =
      let (fh, fs') = alloc_fh fs in
      (fh, record fs' { file_handles = insert fh handle fs'.file_handles })

  unfoldable pub set_read_only : PassthroughFs S F → Bool → PassthroughFs S F
  set_read_only fs read_only = record fs { read_only = read_only }

module _ (D : StdFs) where
  unfoldable pub new :
      FilePath → FilePath → D.State → Result (PassthroughFs D.State D.File) NewError
  new source_dir mount_point disk =
      if D.exists source_dir disk
      then (if D.is_dir source_dir disk
          then ok (record {
            disk = disk;
            source_dir = source_dir;
            mount_point = mount_point;
            read_only = false;
            inode_to_path = (fuse_root_id, root) ∷ [];
            next_fh = 1;
            file_handles = [];
          })
          else err (invalid_input source_dir))
      else err (not_found source_dir)

  unfoldable pub new_read_only :
      FilePath → FilePath → D.State → Result (PassthroughFs D.State D.File) NewError
  unfolding new set_read_only
  new_read_only source_dir mount_point disk = elim (new source_dir mount_point disk) [
    | ok fs ↦ ok (set_read_only fs true)
    | err e ↦ err e
  ]
