-- ===== src/Filesystems/PassthroughFd/Files.antt =====
-- crates/ize-lib/src/filesystems/passthrough_fd.rs: the handlers that work on open files.
use Prim.Native.Nat.{bit_and, bit_or}
use ize.Prelude.{
  ℕ, ◌-◌, ◌/◌, ◌%◌, ℤ, pos, Bool, ◌&&◌, ◌||◌, not, Option, none, some, Result, ok, err, String,
  is_some, ◌==◌, remove, if◌then◌else◌,
}
use ize.Prelude
use ize.FilePath.{FilePath, join}
use ize.Filesystems.Backing.{Libc, BackingFs, IoError, Timespec, errno}
use ize.Filesystems.Calls.{Attributes, TimeOrNow, specific_time, now}
use ize.Filesystems.PassthroughFd.{
  FdPassthroughFs, OpenFile, Reply, error, attr, opened, created, contents, written, done,
  stat_to_attr, register_inode, get_rel_path, add_open_file, u32_mod,
}
use ize.Filesystems.PassthroughFd.Paths.{returned_ino, reply_empty, reply_attr, getattr_by_path}
use ize.Operations.Opcode.{since_epoch, before_epoch}
use ize.Operations.Operation.{Bytes}

-- `to_timespec` in `setattr`; a time before the epoch counts as the epoch.
unfoldable pub to_timespec : Libc → Option TimeOrNow → Timespec
to_timespec c (some (specific_time (since_epoch nanos))) = record {
  tv_sec = pos (nanos / 1_000_000_000);
  tv_nsec = pos (nanos % 1_000_000_000);
}
to_timespec c (some (specific_time (before_epoch nanos))) = record {
  tv_sec = pos 0;
  tv_nsec = pos 0;
}
to_timespec c (some now) = record { tv_sec = pos 0; tv_nsec = c.utime_now }
to_timespec c none = record { tv_sec = pos 0; tv_nsec = c.utime_omit }

-- `flags & (O_WRONLY | O_RDWR | O_APPEND | O_TRUNC) != 0`
unfoldable pub wants_write : Libc → ℕ → Bool
wants_write c flags =
    not (bit_and flags (bit_or c.o_wronly (bit_or c.o_rdwr (bit_or c.o_append c.o_trunc))) == 0)

-- `flags & !O_CREAT`
unfoldable pub without_creat : Libc → ℕ → ℕ
without_creat c flags = flags - bit_and flags c.o_creat

module _ {S : Type 0} where
  -- `handles.get(&fh)`, for a handle that a call may lack.
  unfoldable pub file_of : FdPassthroughFs S → Option ℕ → Option OpenFile
  file_of fs none = none
  file_of fs (some fh) = Prelude.lookup fh fs.open_files

module _ (c : Libc) (B : BackingFs) where
  abbrev Fs : Type 0
  Fs = FdPassthroughFs B.State

  unfoldable pub getattr : ℕ → Option ℕ → Fs → Fs × Reply
  unfolding file_of getattr_by_path returned_ino
  getattr ino fh fs = elim (file_of fs fh) [
    | none ↦ getattr_by_path c B ino fs
    | some ofile ↦ elim (B.fstat ofile.fd fs.backing) [
      | ok st ↦ (fs, attr (stat_to_attr c st (returned_ino ino st)))
      | err e ↦ getattr_by_path c B ino fs
    ]
  ]

  unfoldable pub open_file : ℕ → ℕ → Fs → Fs × Reply
  unfolding wants_write without_creat add_open_file
  open_file ino flags fs =
      if fs.read_only && wants_write c flags
      then (fs, error c.erofs)
      else elim (get_rel_path fs ino) [
        | none ↦ (fs, error c.enoent)
        | some rel ↦
            let (backing, result) = B.open_file rel (without_creat c flags) 0 fs.backing in
            let fs' : Fs = record fs { backing = backing } in
            elim result [
              | err e ↦ (fs', error (errno e c.eio))
              | ok fd ↦
                  let (fh, fs'') =
                    add_open_file fs' (record { fd = fd; rel_path = rel; flags = flags }) in
                  (fs'', opened fh)
            ]
      ]

  unfoldable pub read : ℕ → ℤ → ℕ → Fs → Fs × Reply
  unfolding file_of
  read fh offset size fs = elim (file_of fs (some fh)) [
    | none ↦ (fs, error c.ebadf)
    | some ofile ↦ elim (B.pread ofile.fd size offset fs.backing) [
      | ok bytes ↦ (fs, contents bytes)
      | err e ↦ (fs, error (errno e c.eio))
    ]
  ]

  unfoldable pub write : ℕ → ℤ → Bytes → Fs → Fs × Reply
  unfolding file_of
  write fh offset bytes fs =
      if fs.read_only then (fs, error c.erofs) else elim (file_of fs (some fh)) [
        | none ↦ (fs, error c.ebadf)
        | some ofile ↦
            let (backing, result) = B.pwrite ofile.fd bytes offset fs.backing in
            let fs' : Fs = record fs { backing = backing } in
            elim result [
              | ok n ↦ (fs', written (n % u32_mod))
              | err e ↦ (fs', error (errno e c.eio))
            ]
      ]

  unfoldable pub create : ℕ → String → ℕ → ℕ → Fs → Fs × Reply
  unfolding add_open_file
  create parent name mode flags fs =
      if fs.read_only then (fs, error c.erofs) else elim (get_rel_path fs parent) [
        | none ↦ (fs, error c.enoent)
        | some parent_rel ↦
            let child_rel = join parent_rel name in
            let (backing, result) =
              B.open_file child_rel (bit_or flags c.o_creat) mode fs.backing in
            let fs' : Fs = record fs { backing = backing } in
            elim result [
              | err e ↦ (fs', error (errno e c.eio))
              | ok fd ↦ elim (B.fstat fd backing) [
                | ok st ↦
                    let (fh, fs'') =
                      add_open_file (register_inode fs' st.st_ino child_rel)
                        (record { fd = fd; rel_path = child_rel; flags = flags }) in
                    (fs'', created (stat_to_attr c st st.st_ino) fh)
                | err e ↦ (record fs { backing = B.close_fd fd backing }, error (errno e c.eio))
              ]
            ]
      ]

  -- The truncation in `setattr`: by the open file of the call's handle, or by a descriptor of its
  -- own that it closes again.
  unfoldable pub truncate_by_path : FilePath → ℕ → B.State → B.State × Result (Unit {0}) IoError
  truncate_by_path rel new_size backing =
      let (backing', opening) = B.open_file rel c.o_wronly 0 backing in
      elim opening [
        | err e ↦ (backing', err e)
        | ok fd ↦
            let (backing'', result) = B.ftruncate fd new_size backing' in
            (B.close_fd fd backing'', result)
      ]

  unfoldable pub set_size :
      Fs → FilePath → Option ℕ → Option ℕ → B.State × Result (Unit {0}) IoError
  unfolding file_of truncate_by_path
  set_size fs rel fh none = (fs.backing, ok tt)
  set_size fs rel fh (some new_size) = elim (file_of fs fh) [
    | some ofile ↦ B.ftruncate ofile.fd new_size fs.backing
    | none ↦ truncate_by_path rel new_size fs.backing
  ]

  -- The step after a step that may have failed: the handler returns at the first failure.
  abbrev and_then :
      B.State × Result (Unit {0}) IoError
      → (B.State → B.State × Result (Unit {0}) IoError)
      → B.State × Result (Unit {0}) IoError
  and_then (backing, ok u) next = next backing
  and_then (backing, err e) next = (backing, err e)

  unfoldable pub set_mode : FilePath → Option ℕ → B.State → B.State × Result (Unit {0}) IoError
  set_mode rel none backing = (backing, ok tt)
  set_mode rel (some mode) backing = B.chmod rel mode backing

  unfoldable pub set_owner :
      FilePath → Option ℕ → Option ℕ → B.State → B.State × Result (Unit {0}) IoError
  set_owner rel uid gid backing =
      if is_some uid || is_some gid then B.chown rel uid gid backing else (backing, ok tt)

  unfoldable pub set_times :
      FilePath → Option TimeOrNow → Option TimeOrNow → B.State → B.State × Result (Unit {0}) IoError
  unfolding to_timespec
  set_times rel atime mtime backing =
      if is_some atime || is_some mtime
      then B.utimens rel (to_timespec c atime) (to_timespec c mtime) backing
      else (backing, ok tt)

  unfoldable pub set_all : Fs → FilePath → Attributes → B.State × Result (Unit {0}) IoError
  unfolding set_size set_mode set_owner set_times
  set_all fs rel a =
      and_then
        (and_then (and_then (set_size fs rel a.fh a.size) (set_mode rel a.mode))
          (set_owner rel a.uid a.gid))
        (set_times rel a.atime a.mtime)

  -- The re-stat at the end, or the error of the step that failed.
  unfoldable pub updated : ℕ → FilePath → Fs → B.State × Result (Unit {0}) IoError → Fs × Reply
  unfolding reply_attr
  updated ino rel fs (backing, ok u) = reply_attr c B ino rel (record fs { backing = backing })
  updated ino rel fs (backing, err e) = (record fs { backing = backing }, error (errno e c.eio))

  unfoldable pub setattr : ℕ → Attributes → Fs → Fs × Reply
  unfolding set_all updated
  setattr ino a fs = if fs.read_only then (fs, error c.erofs) else elim (get_rel_path fs ino) [
    | none ↦ (fs, error c.enoent)
    | some rel ↦ updated ino rel fs (set_all fs rel a)
  ]

  -- `flush` takes the error EBADF for success.
  unfoldable pub flushed : Fs → B.State × Result (Unit {0}) IoError → Fs × Reply
  flushed fs (backing, ok u) = (record fs { backing = backing }, done)
  flushed fs (backing, err none) = (record fs { backing = backing }, error c.eio)
  flushed fs (backing, err (some n)) =
      (record fs { backing = backing }, (if n == c.ebadf then done else error n))

  unfoldable pub flush : ℕ → Fs → Fs × Reply
  unfolding file_of flushed
  flush fh fs = elim (file_of fs (some fh)) [
    | none ↦ (fs, done)
    | some ofile ↦ flushed fs (B.fsync ofile.fd fs.backing)
  ]

  unfoldable pub release : ℕ → Fs → Fs × Reply
  unfolding file_of
  release fh fs = elim (file_of fs (some fh)) [
    | none ↦ (fs, done)
    | some ofile ↦ (
      record fs { open_files = remove fh fs.open_files; backing = B.close_fd ofile.fd fs.backing },
      done,
    )
  ]

  unfoldable pub fsync : ℕ → Fs → Fs × Reply
  unfolding file_of reply_empty
  fsync fh fs = elim (file_of fs (some fh)) [
    | none ↦ (fs, error c.ebadf)
    | some ofile ↦
        let (backing, result) = B.fsync ofile.fd fs.backing in
        reply_empty c B c.eio (record fs { backing = backing }, result)
  ]
