-- ===== src/Commands/MountFd.antt =====
-- crates/ize/src/bin/ize_mount_fd.rs: a mount of a directory over itself, by its descriptor. The
-- handler of the signals, which unmounts and exits, is not modelled, nor is what is printed.
pub mod Laws
pub mod Refused
use ize.Prelude.{
  ℕ, Bool, true, false, List, [], ◌∷◌, Dict, Result, ok, err, String, str_eq, if◌then◌else◌,
}
use ize.Operations.Opcode.{SystemTime}
use ize.FilePath.{FilePath}
use ize.Vcs.{IgnoreFilter, git_backend, jujutsu_backend, pijul_backend}
use ize.Filesystems.Backing.{Libc, IoError}
use ize.Filesystems.Calls.{Call, Filesystem}
use ize.Filesystems.Syscalls.{Syscalls}
use ize.Filesystems.Observing
use ize.Filesystems.Observing.{Clock, ObservingFs, add_observer}
use ize.Filesystems.Observing.Laws.{run}
use ize.Filesystems.PassthroughFd.{FdPassthroughFs, Listed, new, set_read_only, detected_vcs}
use ize.Filesystems.PassthroughFd.Handle.{fd_filesystem}
use ize.Filesystems.LibcBacking.{LibcBackingFs, open_dir, drop}
use ize.Filesystems.LibcBacking.Store.{libc_backing}
use ize.Filesystems.Logging.{dumping}
use ize.Operations.Operation.{Bytes}
use ize.Operations.Recorder.{Kinds}
use ize.Operations.Dump
use ize.Operations.Dump.{DumpObserver, Entry, open_log}
use ize.Pijul.Backend.{attempt, or_else}

-- The push of `build_ignore_filters` for a name.
unfoldable pub filters_named : String → List IgnoreFilter → List IgnoreFilter
filters_named name filters =
    if str_eq name ".git"
    then git_backend ∷ filters
    else if str_eq name ".jj"
    then jujutsu_backend ∷ filters
    else if str_eq name ".pijul"
    then pijul_backend ∷ filters
    else filters

unfoldable pub build_ignore_filters : List String → List IgnoreFilter
unfolding filters_named
build_ignore_filters [] = []
build_ignore_filters (name ∷ vcs_names) = filters_named name (build_ignore_filters vcs_names)

pub data MountFdError : Type 0 where
  not_canonical not_opened no_handler no_log mount_failed : IoError → MountFdError
  not_a_directory : MountFdError

-- What the command asks of the standard library: paths, and the log of the dump, which is opened to
-- append to the entries that it has.
pub record Host (S : Syscalls) : Type 0 where
  pub canonicalize : String → S.State → Result String IoError
  pub is_dir : String → S.State → Bool
  -- `ctrlc::set_handler`, which may open descriptors of its own.
  pub set_handler : S.State → S.State × Result (Unit {0}) IoError
  pub open_dump : S.State → S.State × Result (List Entry) IoError

module _ (S : Syscalls) (H : Host S) (c : Libc) (is_full : List Listed → Listed → Bool) (fuel : ℕ)
    (as_path : String → FilePath) (is_utf8 : Bytes → Bool) (kinds : FdPassthroughFs S.State → Kinds)
    (time : ℕ → SystemTime) (clock : Clock) where
  -- `FdPassthroughFS<LibcBackingFs>`
  abbrev pub Fd : LibcBackingFs → Filesystem
  Fd store = fd_filesystem c is_full (libc_backing S fuel store)

  abbrev pub inode_map : FdPassthroughFs S.State → Dict FilePath
  inode_map fs = fs.inode_to_path

  -- The mounted file system, without an observer or with the one for the dump.
  pub data Mounted : Type 0 where
    plain : (store : LibcBackingFs) → ObservingFs (Fd store) (Unit {0}) → Mounted
    dumped : (store : LibcBackingFs) → ObservingFs (Fd store) DumpObserver → Mounted

  abbrev pub Command : Type 0
  Command = S.State × Result Mounted MountFdError

  -- `DumpObserver::open(…)?` and the observer that it gives. When the log cannot be opened, the
  -- file system is dropped.
  unfoldable pub with_log :
      LibcBackingFs
      → FilePath
      → FdPassthroughFs S.State
      → List IgnoreFilter
      → S.State × Result (List Entry) IoError
      → Command
  unfolding Observing.new add_observer open_log Dump.with_ignore_filters
  with_log store target_dir fs ignore_filters (s, err e) = (drop S store s, err (no_log e))
  with_log store target_dir fs ignore_filters (s, ok entries) =
      let observer =
        Dump.with_ignore_filters (open_log fs.inode_to_path target_dir entries) ignore_filters in
      let observing_fs = Observing.new {F = Fd store} (record fs { backing = s }) observer in
      (
        s,
        ok (
            dumped store (
              add_observer {F = Fd store} observing_fs
                (dumping (Fd store) inode_map kinds time is_utf8 clock))),
      )

  -- `if cli.dump { … }`
  unfoldable pub observe_dump :
      (dump : Bool) → LibcBackingFs → FilePath → FdPassthroughFs S.State → Command
  unfolding Observing.new build_ignore_filters detected_vcs with_log
  observe_dump false store target_dir fs =
      (fs.backing, ok (plain store (Observing.new {F = Fd store} fs tt)))
  observe_dump true store target_dir fs =
      let ignore_filters = build_ignore_filters (detected_vcs fs) in
      with_log store target_dir fs ignore_filters (H.open_dump fs.backing)

  -- `ctrlc::set_handler(…)?` and the rest. On an error the file system is dropped.
  unfoldable pub with_handler :
      (dump : Bool)
      → LibcBackingFs
      → FilePath
      → FdPassthroughFs S.State
      → S.State × Result (Unit {0}) IoError
      → Command
  unfolding observe_dump
  with_handler dump store target_dir fs (s, err e) = (drop S store s, err (no_handler e))
  with_handler dump store target_dir fs (s, ok done) =
      observe_dump dump store target_dir (record fs { backing = s })

  -- From the directory's descriptor on.
  unfoldable pub mount_backing :
      (read_only dump : Bool) → FilePath → LibcBackingFs → S.State → Command
  unfolding new set_read_only with_handler
  mount_backing read_only dump target_dir backing s =
      let fs = new c (libc_backing S fuel backing) s target_dir in
      with_handler dump backing target_dir (if read_only then set_read_only fs true else fs)
        (H.set_handler s)

  -- `main` up to the mount.
  unfoldable pub mount_fd : (directory : String) (read_only dump : Bool) → S.State → Command
  unfolding open_dir mount_backing
  mount_fd directory read_only dump s =
      attempt s (or_else not_canonical (H.canonicalize directory s)) λ target_dir.
        if H.is_dir target_dir s
        then (let (s', opened) = open_dir S target_dir s in
            attempt s' (or_else not_opened opened)
              λ backing. mount_backing read_only dump (as_path target_dir) backing s')
        else (s, err not_a_directory)

  -- `mount2` serves calls until it returns, none if it cannot mount; then the file system is
  -- dropped, whether it returns an error or not.
  unfoldable pub mount2 :
      List Call → Result (Unit {0}) IoError → Mounted → S.State × Result (Unit {0}) MountFdError
  unfolding run drop
  mount2 calls returned (plain store fs) =
      (drop S store (run clock calls fs).0.inner.backing, or_else mount_failed returned)
  mount2 calls returned (dumped store fs) =
      (drop S store (run clock calls fs).0.inner.backing, or_else mount_failed returned)
