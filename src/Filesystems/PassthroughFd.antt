-- ===== src/Filesystems/PassthroughFd.antt =====
-- crates/ize-lib/src/filesystems/passthrough_fd.rs: `FdPassthroughFS`, its state and its helpers.
-- A time of a file before the epoch, at which the conversion to `SystemTime` panics, and a
-- poisoned lock are not modelled.
pub mod Paths
pub mod Files
pub mod Handle
pub mod ReadOnly
pub mod Descriptors
pub mod Inodes
pub mod Listing
pub mod Tests
use Prim.Native.Nat.{bit_and}
use ize.Prelude.{
  ℕ, ◌+◌, ◌*◌, ◌%◌, ◌^◌, as_u64, Bool, false, ◌&&◌, List, [], ◌∷◌, ◌++◌, map, Option, none, some,
  ok, err, String, str_eq, any, Dict, lookup, insert, remove, ◌==◌, if◌then◌else◌,
}
use ize.FilePath.{FilePath, root, join}
use ize.Filesystems.Backing.{Libc, BackingFs, Stat, Statvfs, DirEntry, Timespec}
use ize.Operations.Opcode.{SystemTime, since_epoch, u64_mod}
use ize.Operations.Operation.{Bytes}
use ize.Vcs.{IgnoreFilter, git_backend, jujutsu_backend, pijul_backend}

abbrev pub fuse_root_id : ℕ
fuse_root_id = 1

pub record OpenFile : Type 0 where
  pub fd : ℕ
  pub rel_path : FilePath
  pub flags : ℕ

-- `S` is the state of the backing store.
pub record FdPassthroughFs (S : Type 0) : Type 0 where
  pub backing : S
  pub inode_to_path : Dict FilePath
  pub next_fh : ℕ
  pub open_files : Dict OpenFile
  pub read_only : Bool
  pub ignore_filters : List IgnoreFilter
  pub mount_point : FilePath

-- fuser's `FileType` and `FileAttr`.
pub data FileType : Type 0 where
  directory regular_file symlink block_device char_device named_pipe socket : FileType

pub record FileAttr : Type 0 where
  pub ino : ℕ
  pub size : ℕ
  pub blocks : ℕ
  pub atime : SystemTime
  pub mtime : SystemTime
  pub ctime : SystemTime
  pub crtime : SystemTime
  pub kind : FileType
  pub perm : ℕ
  pub nlink : ℕ
  pub uid : ℕ
  pub gid : ℕ
  pub rdev : ℕ
  pub blksize : ℕ
  pub flags : ℕ

-- An entry of a directory listing as the kernel gets it: the offset is that of the next entry.
pub record Listed : Type 0 where
  pub ino : ℕ
  pub offset : ℕ
  pub kind : FileType
  pub name : String

-- What a handler replies, a constructor for each method of fuser's replies.
pub data Reply : Type 0 where
  error : (errno : ℕ) → Reply
  entry : FileAttr → Reply
  attr : FileAttr → Reply
  directory_listing : List Listed → Reply
  opened : (fh : ℕ) → Reply
  created : FileAttr → (fh : ℕ) → Reply
  contents : Bytes → Reply
  written : ℕ → Reply
  statistics : Statvfs → Reply
  done : Reply

abbrev pub u32_mod : ℕ
u32_mod = 2 ^ 32

-- `UNIX_EPOCH + Duration::new(sec as u64, nsec as u32)`
unfoldable pub to_system_time : Timespec → SystemTime
to_system_time t = since_epoch (as_u64 t.tv_sec * 1_000_000_000 + as_u64 t.tv_nsec % u32_mod)

unfoldable pub mode_to_filetype : Libc → ℕ → FileType
mode_to_filetype c mode =
    let format = bit_and mode c.s_ifmt in
    if format == c.s_ifdir
    then directory
    else if format == c.s_ifreg
    then regular_file
    else if format == c.s_iflnk
    then symlink
    else if format == c.s_ifblk
    then block_device
    else if format == c.s_ifchr
    then char_device
    else if format == c.s_ififo
    then named_pipe
    else if format == c.s_ifsock
    then socket
    else regular_file

unfoldable pub stat_to_attr : Libc → Stat → ℕ → FileAttr
unfolding to_system_time mode_to_filetype
stat_to_attr c st ino = record {
  ino = ino;
  size = as_u64 st.st_size;
  blocks = as_u64 st.st_blocks;
  atime = to_system_time st.st_atim;
  mtime = to_system_time st.st_mtim;
  ctime = to_system_time st.st_ctim;
  crtime = since_epoch 0;
  kind = mode_to_filetype c st.st_mode;
  perm = bit_and st.st_mode 0o7777;
  nlink = st.st_nlink % u32_mod;
  uid = st.st_uid;
  gid = st.st_gid;
  rdev = st.st_rdev % u32_mod;
  blksize = as_u64 st.st_blksize % u32_mod;
  flags = 0;
}

unfoldable pub dtype_to_filetype : Libc → ℕ → FileType
dtype_to_filetype c d_type =
    if d_type == c.dt_dir
    then directory
    else if d_type == c.dt_reg
    then regular_file
    else if d_type == c.dt_lnk
    then symlink
    else if d_type == c.dt_blk
    then block_device
    else if d_type == c.dt_chr
    then char_device
    else if d_type == c.dt_fifo
    then named_pipe
    else if d_type == c.dt_sock
    then socket
    else regular_file

abbrev join_with : String → Option FilePath → Option FilePath
join_with name none = none
join_with name (some p) = some (join p name)

module _ {S : Type 0} where
  unfoldable pub register_inode : FdPassthroughFs S → ℕ → FilePath → FdPassthroughFs S
  register_inode fs ino rel_path = record fs {
    inode_to_path = insert ino rel_path fs.inode_to_path;
  }

  -- `self.inode_to_path.write().unwrap().remove(&ino)`, if there is an inode.
  unfoldable pub forget_inode : FdPassthroughFs S → Option ℕ → FdPassthroughFs S
  forget_inode fs none = fs
  forget_inode fs (some ino) = record fs { inode_to_path = remove ino fs.inode_to_path }

  unfoldable pub get_rel_path : FdPassthroughFs S → ℕ → Option FilePath
  get_rel_path fs ino = lookup ino fs.inode_to_path

  unfoldable pub alloc_fh : FdPassthroughFs S → ℕ × FdPassthroughFs S
  alloc_fh fs = (fs.next_fh, record fs { next_fh = (fs.next_fh + 1) % u64_mod })

  -- `alloc_fh`, and the new entry of the table of open files.
  unfoldable pub add_open_file : FdPassthroughFs S → OpenFile → ℕ × FdPassthroughFs S
  unfolding alloc_fh
  add_open_file fs file =
      let (fh, fs') = alloc_fh fs in (fh, record fs' { open_files = insert fh file fs'.open_files })

  unfoldable pub is_ignored_path : FdPassthroughFs S → FilePath → Bool
  is_ignored_path fs rel_path = any (λ filter. filter.should_ignore rel_path) fs.ignore_filters

  unfoldable pub detected_vcs : FdPassthroughFs S → List String
  detected_vcs fs = map (λ filter. filter.dir_name) fs.ignore_filters

  unfoldable pub set_read_only : FdPassthroughFs S → Bool → FdPassthroughFs S
  set_read_only fs read_only = record fs { read_only = read_only }

  unfoldable pub resolve_inode : FdPassthroughFs S → ℕ → Option FilePath
  unfolding get_rel_path
  resolve_inode fs ino = get_rel_path fs ino

  unfoldable pub resolve_with_name : FdPassthroughFs S → ℕ → String → Option FilePath
  unfolding get_rel_path
  resolve_with_name fs parent_ino name = join_with name (get_rel_path fs parent_ino)

-- A filter for each known name among the directories of the backing root.
unfoldable pub filters_of : Libc → List DirEntry → List IgnoreFilter
filters_of c entries =
    found ".git" git_backend ++ (found ".jj" jujutsu_backend ++ found ".pijul" pijul_backend)
  where
    found : String → IgnoreFilter → List IgnoreFilter
    found dir filter =
        if any (λ e. (e.dtype == c.dt_dir) && str_eq e.name dir) entries then filter ∷ [] else []

module _ (c : Libc) (B : BackingFs) where
  unfoldable pub detect_ignore_filters : B.State → List IgnoreFilter
  unfolding filters_of
  detect_ignore_filters backing = elim (B.readdir root backing) [
    | err e ↦ []
    | ok entries ↦ filters_of c entries
  ]

  abbrev chosen : B.State → Option (List IgnoreFilter) → List IgnoreFilter
  chosen backing none = detect_ignore_filters backing
  chosen backing (some filters) = filters

  unfoldable pub with_ignore_filters :
      B.State → FilePath → Option (List IgnoreFilter) → FdPassthroughFs B.State
  with_ignore_filters backing mount_point filters = record {
    backing = backing;
    inode_to_path = (fuse_root_id, root) ∷ [];
    next_fh = 1;
    open_files = [];
    read_only = false;
    ignore_filters = chosen backing filters;
    mount_point = mount_point;
  }

  unfoldable pub new : B.State → FilePath → FdPassthroughFs B.State
  unfolding with_ignore_filters
  new backing mount_point = with_ignore_filters backing mount_point none
