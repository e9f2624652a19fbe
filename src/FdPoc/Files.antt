-- ===== src/FdPoc/Files.antt =====
-- crates/fuse-fd-poc/src/main.rs: the handlers that work on open files.
use Prim.Native.Nat.{bit_or}
use ize.Prelude.{ℕ, ◌%◌, ℤ, as_i64, take, Option, none, some, ok, err, String, lookup, remove}
use ize.FilePath.{FilePath, join}
use ize.Filesystems.Backing.{Libc, Stat, errno}
use ize.Filesystems.Calls.{Attributes}
use ize.Filesystems.Syscalls.{Syscalls}
use ize.Filesystems.PassthroughFd.{
  OpenFile, Reply, error, opened, created, contents, written, done, u32_mod, stat_to_attr,
}
use ize.Filesystems.PassthroughFd.Files.{without_creat}
use ize.Filesystems.LibcBacking.{Outcome, nothing, checked, checked_with}
use ize.FdPoc.{sys_openat, sys_fstat, PocFs, register_inode, close_dropped, add_open_file}
use ize.FdPoc.Answers.{Answer, at_inode, at_cpath, on_ok, finish}
use ize.FdPoc.Paths.{reply_attr}
use ize.Operations.Operation.{Bytes}

module _ (S : Syscalls) (c : Libc) where
  -- A new entry of the table of open files, and the reply that names it.
  abbrev pub into_table : OpenFile → (ℕ → Reply) → PocFs S → Answer S
  into_table file reply fs = let (fh, fs) = add_open_file S fs file in (fs, reply fh)

  unfoldable pub open_file : ℕ → ℕ → PocFs S → Answer S
  open_file ino flags fs = at_inode S c ino fs λ rel. at_cpath S c rel fs λ path.
      on_ok S c.eio fs
        (sys_openat S fs.base_fd path (bit_or (without_creat c flags) c.o_nofollow) 0 fs.kernel)
        λ fd. into_table (record { fd = fd; rel_path = rel; flags = flags }) opened

  abbrev pub file_of : PocFs S → ℕ → Option OpenFile
  file_of fs fh = lookup fh fs.open_files

  unfoldable pub read : ℕ → ℤ → ℕ → PocFs S → Answer S
  read fh offset size fs = elim (file_of fs fh) [
    | none ↦ (fs, error c.ebadf)
    | some ofile ↦
        on_ok S c.eio fs (checked_with S take (S.pread ofile.fd size offset fs.kernel))
          λ buf fs. (fs, contents buf)
  ]

  unfoldable pub write : ℕ → ℤ → Bytes → PocFs S → Answer S
  write fh offset bytes fs = elim (file_of fs fh) [
    | none ↦ (fs, error c.ebadf)
    | some ofile ↦
        on_ok S c.eio fs (checked S (λ n. n) (S.pwrite ofile.fd bytes offset fs.kernel))
          λ n fs. (fs, written (n % u32_mod))
  ]

  -- `create` once the file is open: its descriptor is closed if it has no attributes.
  unfoldable pub created_file : ℕ → FilePath → ℕ → Outcome S Stat → PocFs S → Answer S
  created_file fd child_rel flags (s, ok st) fs =
      into_table (record { fd = fd; rel_path = child_rel; flags = flags })
        (created (stat_to_attr c st st.st_ino))
        (register_inode S (record fs { kernel = s }) st.st_ino child_rel)
  created_file fd child_rel flags (s, err e) fs =
      (record fs { kernel = (S.close fd s).0 }, error (errno e c.eio))

  unfoldable pub create : ℕ → String → (mode flags : ℕ) → PocFs S → Answer S
  create parent name mode flags fs = at_inode S c parent fs λ parent_rel.
      let child_rel = join parent_rel name in
      at_cpath S c child_rel fs λ path.
        on_ok S c.eio fs
          (sys_openat S fs.base_fd path (bit_or (bit_or flags c.o_creat) c.o_nofollow) mode
            fs.kernel)
          λ fd fs. created_file fd child_rel flags (sys_fstat S fd fs.kernel) fs

  unfoldable pub flush : ℕ → PocFs S → Answer S
  flush fh fs = elim (file_of fs fh) [
    | none ↦ (fs, done)
    | some ofile ↦ on_ok S c.eio fs (checked S nothing (S.fsync ofile.fd fs.kernel)) (finish S)
  ]

  -- The entry taken from the table is dropped.
  unfoldable pub release : ℕ → PocFs S → Answer S
  release fh fs = (
    record fs {
      open_files = remove fh fs.open_files;
      kernel = close_dropped S (file_of fs fh) fs.kernel;
    },
    done,
  )

  -- `ftruncate` and then `close`, before the error is looked at.
  unfoldable pub truncate_and_close : ℕ → ℕ → PocFs S → Outcome S (Unit {0})
  truncate_and_close fd new_size fs =
      let (s, rc) = S.ftruncate fd (as_i64 new_size) fs.kernel in
      checked S nothing ((S.close fd s).0, rc)

  unfoldable pub truncate_by_path : ℕ → ℕ → PocFs S → Answer S
  truncate_by_path ino new_size fs = at_inode S c ino fs λ rel. at_cpath S c rel fs λ path.
      on_ok S c.eio fs (sys_openat S fs.base_fd path (bit_or c.o_wronly c.o_nofollow) 0 fs.kernel)
        λ fd fs. on_ok S c.eio fs (truncate_and_close fd new_size fs) λ u fs. reply_attr S c ino fs

  -- The truncation by an open file; with a handle that is not in the table there is none.
  unfoldable pub truncate_by_handle : Option OpenFile → ℕ → ℕ → PocFs S → Answer S
  truncate_by_handle none ino new_size fs = reply_attr S c ino fs
  truncate_by_handle (some ofile) ino new_size fs =
      on_ok S c.eio fs (checked S nothing (S.ftruncate ofile.fd (as_i64 new_size) fs.kernel))
        λ u fs. reply_attr S c ino fs

  unfoldable pub resize : (size fh : Option ℕ) → ℕ → PocFs S → Answer S
  resize none fh ino fs = reply_attr S c ino fs
  resize (some new_size) (some fh) ino fs = truncate_by_handle (file_of fs fh) ino new_size fs
  resize (some new_size) none ino fs = truncate_by_path ino new_size fs

  -- Of the attributes, only a new size is set.
  unfoldable pub setattr : ℕ → Attributes → PocFs S → Answer S
  setattr ino a fs = resize a.size a.fh ino fs
