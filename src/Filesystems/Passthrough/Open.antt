-- ===== src/Filesystems/Passthrough/Open.antt =====
-- crates/ize-lib/src/filesystems/passthrough.rs: the handlers that work on open files, and
-- `setattr`.
use Prim.Native.Nat.{bit_and, bit_or}
use ize.Prelude.{
  ℕ, ◌-◌, ◌%◌, ℤ, as_u64, Bool, true, false, ◌&&◌, ◌||◌, not, Option, none, some, Result, ok, err,
  String, is_some, ◌==◌, remove, if◌then◌else◌,
}
use ize.Prelude
use ize.FilePath.{FilePath, join}
use ize.Filesystems.Backing.{Libc, IoError, errno}
use ize.Filesystems.Calls.{Attributes}
use ize.Filesystems.StdFs.{StdFs, OpenOptions}
use ize.Filesystems.PassthroughFd.{u32_mod, Reply, error, opened, created, contents, written, done}
use ize.Filesystems.PassthroughFd.Files.{to_timespec, wants_write}
use ize.Filesystems.Passthrough.{
  FileHandle, metadata_to_attr, to_real, register_inode, get_path_for_inode, parent_path,
  add_handle,
}
use ize.Filesystems.Passthrough.Entries.{Fs, reply_metadata}
use ize.Operations.Operation.{Bytes}

-- `OpenOptions::new()`
abbrev no_options : OpenOptions
no_options = record {
  read = false;
  write = false;
  append = false;
  truncate = false;
  create_new = false;
  custom_flags = 0;
  mode = none;
}

-- `flags & mask != 0`
abbrev has : ℕ → ℕ → Bool
has flags mask = not (bit_and flags mask == 0)

-- Whether the options read, and whether they write, for an access mode.
unfoldable pub access_of : Libc → ℕ → Bool × Bool
access_of c access_mode =
    if access_mode == c.o_rdonly
    then (true, false)
    else if access_mode == c.o_wronly
    then (false, true)
    else if access_mode == c.o_rdwr
    then (true, true)
    else (true, false)

-- The options that `open` makes of the flags: those that have no method are custom ones.
unfoldable pub open_options : Libc → ℕ → OpenOptions
unfolding access_of
open_options c flags =
    let (reads, writes) = access_of c (bit_and flags c.o_accmode) in
    record {
      read = reads;
      write = writes;
      append = has flags c.o_append;
      truncate = has flags c.o_trunc;
      create_new = false;
      custom_flags =
          flags
          - bit_and flags (bit_or c.o_accmode (bit_or c.o_append (bit_or c.o_trunc c.o_creat)));
      mode = none;
    }

module _ (c : Libc) (D : StdFs) where
  -- `handles.get(&fh)`, for a handle that a call may lack.
  unfoldable pub handle_of : Fs c D → Option ℕ → Option (FileHandle D.File)
  handle_of fs none = none
  handle_of fs (some fh) = Prelude.lookup fh fs.file_handles

  unfoldable pub open_file : ℕ → ℕ → Fs c D → Fs c D × Reply
  unfolding wants_write open_options add_handle
  open_file ino flags fs =
      if fs.read_only && wants_write c flags
      then (fs, error c.erofs)
      else elim (get_path_for_inode fs ino) [
        | none ↦ (fs, error c.enoent)
        | some rel_path ↦
            let real_path = to_real fs rel_path in
            let (disk, result) = D.open_with (open_options c flags) real_path fs.disk in
            let fs' : Fs c D = record fs { disk = disk } in
            elim result [
              | err e ↦ (fs', error (errno e c.eio))
              | ok file ↦
                  let (fh, fs'') =
                    add_handle fs' (record { file = file; real_path = real_path; flags = flags }) in
                  (fs'', opened fh)
            ]
      ]

  unfoldable pub read : ℕ → ℤ → ℕ → Fs c D → Fs c D × Reply
  unfolding handle_of
  read fh offset size fs = elim (handle_of fs (some fh)) [
    | none ↦ (fs, error c.ebadf)
    | some handle ↦ elim (D.read_at handle.file size (as_u64 offset) fs.disk) [
      | ok bytes ↦ (fs, contents bytes)
      | err e ↦ (fs, error (errno e c.eio))
    ]
  ]

  unfoldable pub write : ℕ → ℤ → Bytes → Fs c D → Fs c D × Reply
  unfolding handle_of
  write fh offset bytes fs =
      if fs.read_only then (fs, error c.erofs) else elim (handle_of fs (some fh)) [
        | none ↦ (fs, error c.ebadf)
        | some handle ↦
            let (disk, result) = D.write_at handle.file bytes (as_u64 offset) fs.disk in
            let fs' : Fs c D = record fs { disk = disk } in
            elim result [
              | ok n ↦ (fs', written (n % u32_mod))
              | err e ↦ (fs', error (errno e c.eio))
            ]
      ]

  -- `flush` takes the error EBADF for success.
  unfoldable pub flush_reply : Result (Unit {0}) IoError → Reply
  flush_reply (ok u) = done
  flush_reply (err none) = error c.eio
  flush_reply (err (some n)) = if n == c.ebadf then done else error n

  unfoldable pub flush : ℕ → Fs c D → Fs c D × Reply
  unfolding handle_of flush_reply
  flush fh fs = elim (handle_of fs (some fh)) [
    | none ↦ (fs, done)
    | some handle ↦
        let (disk, result) = D.sync_all handle.file fs.disk in
        (record fs { disk = disk }, flush_reply result)
  ]

  -- The removed handle is dropped, which closes the file.
  unfoldable pub release : ℕ → Fs c D → Fs c D × Reply
  unfolding handle_of
  release fh fs = elim (handle_of fs (some fh)) [
    | none ↦ (fs, done)
    | some handle ↦ (
      record fs {
        file_handles = remove fh fs.file_handles;
        disk = D.drop_file handle.file fs.disk;
      },
      done,
    )
  ]

  -- `Ok(()) => reply.ok()`, and the errno of an error.
  unfoldable pub sync_reply : Result (Unit {0}) IoError → Reply
  sync_reply (ok u) = done
  sync_reply (err e) = error (errno e c.eio)

  unfoldable pub fsync : ℕ → Bool → Fs c D → Fs c D × Reply
  unfolding handle_of sync_reply
  fsync fh datasync fs = elim (handle_of fs (some fh)) [
    | none ↦ (fs, error c.ebadf)
    | some handle ↦
        let (disk, result) =
          if datasync then D.sync_data handle.file fs.disk else D.sync_all handle.file fs.disk in
        (record fs { disk = disk }, sync_reply result)
  ]

  -- If the metadata cannot be read the file is dropped, and stays on the disk.
  unfoldable pub create : ℕ → String → ℕ → Fs c D → Fs c D × Reply
  unfolding add_handle
  create parent name mode fs =
      if fs.read_only then (fs, error c.erofs) else elim (parent_path fs parent) [
        | none ↦ (fs, error c.enoent)
        | some path ↦
            let rel_path = join path name in
            let real_path = to_real fs rel_path in
            let options : OpenOptions = record no_options {
              read = true;
              write = true;
              create_new = true;
              mode = some mode;
            } in
            let (disk, result) = D.open_with options real_path fs.disk in
            let fs' : Fs c D = record fs { disk = disk } in
            elim result [
              | err e ↦ (fs', error (errno e c.eio))
              | ok file ↦ elim (D.metadata real_path disk) [
                | ok meta ↦
                    let (fh, fs'') =
                      add_handle (register_inode fs' meta.ino rel_path)
                        (record { file = file; real_path = real_path; flags = c.o_rdwr }) in
                    (fs'', created (metadata_to_attr meta meta.ino) fh)
                | err e ↦ (record fs { disk = D.drop_file file disk }, error (errno e c.eio))
              ]
            ]
      ]

  -- A file that is opened for writing, and dropped after `set_len`.
  unfoldable pub truncate_via_path : FilePath → ℕ → D.State → D.State × Result (Unit {0}) IoError
  truncate_via_path path size disk =
      let (disk', opening) = D.open_with (record no_options { write = true }) path disk in
      elim opening [
        | err e ↦ (disk', err e)
        | ok file ↦
            let (disk'', result) = D.set_len file size disk' in (D.drop_file file disk'', result)
      ]

  -- By the call's handle, if that is open for writing, and by path if not.
  unfoldable pub truncate_to :
      Fs c D → FilePath → Option ℕ → ℕ → D.State × Result (Unit {0}) IoError
  unfolding handle_of truncate_via_path
  truncate_to fs real_path fh new_size = elim (handle_of fs fh) [
    | none ↦ truncate_via_path real_path new_size fs.disk
    | some handle ↦
        if has handle.flags (bit_or c.o_wronly c.o_rdwr)
        then D.set_len handle.file new_size fs.disk
        else truncate_via_path real_path new_size fs.disk
  ]

  -- The errno of a step that fails, which ends the handler.
  abbrev io_code : D.State × Result (Unit {0}) IoError → D.State × Result (Unit {0}) ℕ
  io_code (disk, ok u) = (disk, ok u)
  io_code (disk, err e) = (disk, err (errno e c.eio))

  abbrev then_step :
      D.State × Result (Unit {0}) ℕ
      → (D.State → D.State × Result (Unit {0}) ℕ)
      → D.State × Result (Unit {0}) ℕ
  then_step (disk, ok u) next = next disk
  then_step (disk, err e) next = (disk, err e)

  -- The size, the mode, the owner and the times, as far as the call names them.
  unfoldable pub change_size : Fs c D → FilePath → Attributes → D.State × Result (Unit {0}) ℕ
  unfolding truncate_to
  change_size fs real_path a = elim a.size [
    | none ↦ (fs.disk, ok tt)
    | some new_size ↦ io_code (truncate_to fs real_path a.fh new_size)
  ]

  unfoldable pub change_mode : FilePath → Attributes → D.State → D.State × Result (Unit {0}) ℕ
  change_mode real_path a disk = elim a.mode [
    | none ↦ (disk, ok tt)
    | some new_mode ↦ io_code (D.set_permissions real_path new_mode disk)
  ]

  unfoldable pub change_owner : FilePath → Attributes → D.State → D.State × Result (Unit {0}) ℕ
  change_owner real_path a disk =
      if is_some a.uid || is_some a.gid then D.chown real_path a.uid a.gid disk else (disk, ok tt)

  unfoldable pub change_times : FilePath → Attributes → D.State → D.State × Result (Unit {0}) ℕ
  unfolding to_timespec
  change_times real_path a disk =
      if is_some a.atime || is_some a.mtime
      then D.utimensat real_path (to_timespec c a.atime) (to_timespec c a.mtime) disk
      else (disk, ok tt)

  unfoldable pub change_all : Fs c D → FilePath → Attributes → D.State × Result (Unit {0}) ℕ
  unfolding change_size change_mode change_owner change_times
  change_all fs real_path a =
      then_step
        (then_step (then_step (change_size fs real_path a) (change_mode real_path a))
          (change_owner real_path a))
        (change_times real_path a)

  -- The metadata at the end, or the error of the step that failed.
  unfoldable pub after_changes :
      ℕ → FilePath → Fs c D → D.State × Result (Unit {0}) ℕ → Fs c D × Reply
  unfolding reply_metadata
  after_changes ino rel_path fs (disk, ok u) =
      reply_metadata c D c.eio ino rel_path (record fs { disk = disk })
  after_changes ino rel_path fs (disk, err e) = (record fs { disk = disk }, error e)

  unfoldable pub setattr : ℕ → Attributes → Fs c D → Fs c D × Reply
  unfolding change_all after_changes
  setattr ino a fs =
      if fs.read_only then (fs, error c.erofs) else elim (get_path_for_inode fs ino) [
        | none ↦ (fs, error c.enoent)
        | some rel_path ↦ after_changes ino rel_path fs (change_all fs (to_real fs rel_path) a)
      ]
