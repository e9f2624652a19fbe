-- ===== src/FdPoc.antt =====
-- crates/fuse-fd-poc/src/main.rs: the wrappers of libc, and `FdPassthroughFS` with its helpers. What
-- it does as passthrough_fd.rs and libc_impl.rs do, to the word, is taken from there: the relative
-- path, the loop over a stream of entries, the attributes and an entry of the table of open files.
pub mod Answers
pub mod Paths
pub mod Files
pub mod Handle
pub mod Laws
pub mod Wrappers
pub mod Descriptors
pub mod Order
mod Tests
use Prim.Native.Nat.{bit_or}
use ize.Prelude.{
  ℕ, ◌+◌, ◌%◌, pos, negsuc, List, [], ◌∷◌, Option, none, some, Result, ok, err, String,
  str_is_empty, intercalate, Dict, lookup, insert, if◌then◌else◌,
}
use ize.FilePath.{FilePath, root}
use ize.Filesystems.Backing.{Libc, IoError, Stat, DirEntry}
use ize.Filesystems.Syscalls.{Syscalls}
use ize.Filesystems.PassthroughFd.{OpenFile, fuse_root_id}
use ize.Filesystems.LibcBacking.{Outcome, nothing, checked, checked_with, rel_cpath}
use ize.Filesystems.LibcBacking.Readdir.{read_stream}
use ize.Operations.Opcode.{u64_mod}

module _ (S : Syscalls) where
  unfoldable pub sys_openat : ℕ → String → (flags mode : ℕ) → S.State → Outcome S ℕ
  sys_openat dirfd path flags mode s = checked S (λ fd. fd) (S.openat dirfd path flags mode s)

  unfoldable pub sys_fstatat : ℕ → String → ℕ → S.State → Outcome S Stat
  sys_fstatat dirfd path flags s =
      checked_with S (λ n stat_buf. stat_buf) (S.fstatat dirfd path flags s)

  unfoldable pub sys_fstat : ℕ → S.State → Outcome S Stat
  sys_fstat fd s = checked_with S (λ n stat_buf. stat_buf) (S.fstat fd s)

  unfoldable pub sys_mkdirat : ℕ → String → ℕ → S.State → Outcome S (Unit {0})
  sys_mkdirat dirfd path mode s = checked S nothing (S.mkdirat dirfd path mode s)

  unfoldable pub sys_unlinkat : ℕ → String → ℕ → S.State → Outcome S (Unit {0})
  sys_unlinkat dirfd path flags s = checked S nothing (S.unlinkat dirfd path flags s)

  unfoldable pub sys_renameat : ℕ → String → ℕ → String → S.State → Outcome S (Unit {0})
  sys_renameat olddirfd oldpath newdirfd newpath s =
      checked S nothing (S.renameat olddirfd oldpath newdirfd newpath s)

  -- The loop over the entries has fuel, and `none` when that is used up.
  unfoldable pub sys_readdir : ℕ → ℕ → S.State → S.State × Option (Result (List DirEntry) IoError)
  sys_readdir fuel dirfd s =
      let (s, dup_fd) = S.dup dirfd s in
      elim dup_fd [
        | negsuc k ↦ (s, some (err (some (S.errno s))))
        | pos dup_fd ↦ read_stream S fuel dup_fd (S.rewind dup_fd s).0
      ]

  -- The file system, with the state of the kernel that its calls change.
  pub record PocFs : Type 0 where
    pub kernel : S.State
    pub base_fd : ℕ
    pub inode_to_path : Dict FilePath
    pub next_fh : ℕ
    pub open_files : Dict OpenFile
    pub mount_point : FilePath

  unfoldable pub new : ℕ → FilePath → S.State → PocFs
  new base_fd mount_point s = record {
    kernel = s;
    base_fd = base_fd;
    inode_to_path = insert fuse_root_id root [];
    next_fh = 1;
    open_files = [];
    mount_point = mount_point;
  }

  unfoldable pub register_inode : PocFs → ℕ → FilePath → PocFs
  register_inode fs ino rel_path = record fs {
    inode_to_path = insert ino rel_path fs.inode_to_path;
  }

  unfoldable pub get_rel_path : PocFs → ℕ → Option FilePath
  get_rel_path fs ino = lookup ino fs.inode_to_path

  unfoldable pub alloc_fh : PocFs → ℕ × PocFs
  alloc_fh fs = (fs.next_fh, record fs { next_fh = (fs.next_fh + 1) % u64_mod })

  -- `impl Drop for OpenFile`, for an entry that may be there.
  unfoldable pub close_dropped : Option OpenFile → S.State → S.State
  close_dropped none s = s
  close_dropped (some file) s = (S.close file.fd s).0

  -- `alloc_fh`, and the new entry of the table; an entry that it replaces is dropped.
  unfoldable pub add_open_file : PocFs → OpenFile → ℕ × PocFs
  add_open_file fs file =
      let (fh, fs') = alloc_fh fs in
      (
        fh,
        record fs' {
          open_files = insert fh file fs'.open_files;
          kernel = close_dropped (lookup fh fs'.open_files) fs'.kernel;
        },
      )

  unfoldable pub close_all : Dict OpenFile → S.State → S.State
  close_all [] s = s
  close_all ((fh, file) ∷ files) s = close_all files (S.close file.fd s).0

  -- The file system dropped: its open files are, and the base descriptor stays the caller's.
  unfoldable pub drop_fs : PocFs → S.State
  drop_fs fs = close_all fs.open_files fs.kernel

  unfoldable pub open_rel_dir : Libc → PocFs → FilePath → Outcome S ℕ
  open_rel_dir c fs rel = elim (rel_cpath rel) [
    | err e ↦ (fs.kernel, err e)
    | ok path ↦
        sys_openat fs.base_fd path (bit_or (bit_or S.o_rdonly S.o_directory) c.o_nofollow) 0
          fs.kernel
  ]

  unfoldable pub stat_rel : PocFs → FilePath → Outcome S Stat
  stat_rel fs rel =
      if str_is_empty (intercalate rel)
      then sys_fstat fs.base_fd fs.kernel
      else elim (rel_cpath rel) [
        | err e ↦ (fs.kernel, err e)
        | ok path ↦ sys_fstatat fs.base_fd path S.at_symlink_nofollow fs.kernel
      ]
