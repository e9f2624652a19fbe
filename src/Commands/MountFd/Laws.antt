-- ===== src/Commands/MountFd/Laws.antt =====
-- crates/ize/src/bin/ize_mount_fd.rs: what the dump of a mount has, and a refused mount.
use mathlib.Core.Path.{subst}
use ize.Prelude.{
  ℕ, ◌≡◌, refl, sym, ap, Bool, true, false, List, [], ◌++◌, map, Dict, Result, ok, err, String,
  arith, if_either,
}
use ize.Operations.Opcode.{SystemTime}
use ize.FilePath.{FilePath, root}
use ize.Vcs.{IgnoreFilter, git_backend, jujutsu_backend, pijul_backend}
use ize.Filesystems.Backing.{Libc, BackingFs, IoError, DirEntry}
use ize.Filesystems.Calls.{Call, Filesystem}
use ize.Filesystems.Syscalls.{Syscalls}
use ize.Filesystems.Observing.{Clock}
use ize.Filesystems.Observing.Laws.{run}
use ize.Filesystems.PassthroughFd.{
  FdPassthroughFs, Listed, new, with_ignore_filters, set_read_only, detected_vcs, filters_of,
  detect_ignore_filters,
}
use ize.Filesystems.LibcBacking.{LibcBackingFs}
use ize.Filesystems.LibcBacking.Store.{libc_backing}
use ize.Filesystems.Logging.{run-dumped}
use ize.Filesystems.Recording.{trace}
use ize.Operations.Operation.{Bytes}
use ize.Operations.Recorder.{Kinds}
use ize.Operations.Dump
use ize.Operations.Dump.{Entry, open_log}
use ize.Operations.Dump.Laws.{bodies, bodies_of}
use ize.Pijul.Backend.{attempt_either}
use ize.Commands.MountFd
use ize.Commands.MountFd.{
  build_ignore_filters, MountFdError, Host, Mounted, plain, dumped, with_log, observe_dump,
  with_handler, mount_backing, mount_fd,
}

build_ignore_filters-filters_of :
    (c : Libc) (entries : List DirEntry)
    → build_ignore_filters (map (λ filter. filter.dir_name) (filters_of c entries))
      ≡ filters_of c entries
unfolding build_ignore_filters filters_of git_backend jujutsu_backend pijul_backend
build_ignore_filters-filters_of c entries = ground arith

-- The names are read back into the filters that gave them.
build_ignore_filters-detected_vcs :
    (c : Libc) (B : BackingFs) (backing : B.State) (mount_point : FilePath)
    → build_ignore_filters (detected_vcs (new c B backing mount_point))
      ≡ (new c B backing mount_point).ignore_filters
unfolding new with_ignore_filters detected_vcs detect_ignore_filters build_ignore_filters
build_ignore_filters-detected_vcs c B backing mount_point = of_listing (B.readdir root backing)
  where
    of_listing :
        (r : Result (List DirEntry) IoError)
        → (let filters : List IgnoreFilter = elim r [
          | err e ↦ []
          | ok entries ↦ filters_of c entries
        ] in
            build_ignore_filters (map (λ filter. filter.dir_name) filters) ≡ filters)
    of_listing (err e) = refl
    of_listing (ok entries) = build_ignore_filters-filters_of c entries

module _ (S : Syscalls) (H : Host S) (c : Libc) (is_full : List Listed → Listed → Bool) (fuel : ℕ)
    (as_path : String → FilePath) (is_utf8 : Bytes → Bool) (kinds : FdPassthroughFs S.State → Kinds)
    (time : ℕ → SystemTime) (clock : Clock) where
  abbrev Fd : LibcBackingFs → Filesystem
  Fd store = MountFd.Fd S H c is_full fuel as_path is_utf8 kinds time clock store

  abbrev inode_map : FdPassthroughFs S.State → Dict FilePath
  inode_map fs = MountFd.inode_map S H c is_full fuel as_path is_utf8 kinds time clock fs

  abbrev Mount : Type 0
  Mount = Mounted S H c is_full fuel as_path is_utf8 kinds time clock

  -- What the calls have left in the log, with the dump asked for, and no observer without.
  unfoldable pub Logged : (dump : Bool) → List Call → Mount → Type 0
  Logged dump calls (plain store fs) = (dump ≡ false) × (fs.observers ≡ [])
  Logged dump calls (dumped store fs) =
      (dump ≡ true)
      × (bodies (run clock calls fs).0.world
          ≡ bodies fs.world
            ++ bodies_of is_utf8 (
                trace (Fd store) inode_map kinds time clock calls fs.inner fs.inner.mount_point
                  fs.inner.ignore_filters))

  abbrev LoggedResult : (dump : Bool) → List Call → Result Mount MountFdError → Type 0
  LoggedResult dump calls (err e) = Unit
  LoggedResult dump calls (ok mount) = Logged dump calls mount

  abbrev FiltersRead : FdPassthroughFs S.State → Type 0
  FiltersRead fs = build_ignore_filters (detected_vcs fs) ≡ fs.ignore_filters

  abbrev IsLogged : (dump : Bool) → List Call → S.State × Result Mount MountFdError → Type 0
  IsLogged dump calls out = LoggedResult dump calls out.1

  with_log-Logged :
      (store : LibcBackingFs) (fs : FdPassthroughFs S.State) (calls : List Call)
      (log : S.State × Result (List Entry) IoError)
      → LoggedResult true calls
          (with_log S H c is_full fuel as_path is_utf8 kinds time clock store fs.mount_point fs
            fs.ignore_filters log).1
  unfolding with_log Logged
  with_log-Logged store fs calls (s, err e) = tt
  with_log-Logged store fs calls (s, ok entries) = (
    refl,
    run-dumped (Fd store) inode_map kinds time is_utf8 clock calls (record fs { backing = s })
        (Dump.with_ignore_filters (open_log fs.inode_to_path fs.mount_point entries)
          fs.ignore_filters),
  )

  observe_dump-Logged :
      (dump : Bool) (store : LibcBackingFs) (fs : FdPassthroughFs S.State) (calls : List Call)
      → build_ignore_filters (detected_vcs fs) ≡ fs.ignore_filters
      → LoggedResult dump calls
          (observe_dump S H c is_full fuel as_path is_utf8 kinds time clock dump store
            fs.mount_point fs).1
  unfolding observe_dump Logged
  observe_dump-Logged false store fs calls read = (refl, refl)
  observe_dump-Logged true store fs calls read =
      subst
        (λ filters.
          LoggedResult true calls
            (with_log S H c is_full fuel as_path is_utf8 kinds time clock store fs.mount_point fs
              filters (H.open_dump fs.backing)).1)
        (sym read) (with_log-Logged store fs calls (H.open_dump fs.backing))

  with_handler-Logged :
      (dump : Bool) (store : LibcBackingFs) (fs : FdPassthroughFs S.State) (calls : List Call)
      (out : S.State × Result (Unit {0}) IoError)
      → build_ignore_filters (detected_vcs fs) ≡ fs.ignore_filters
      → LoggedResult dump calls
          (with_handler S H c is_full fuel as_path is_utf8 kinds time clock dump store
            fs.mount_point fs out).1
  unfolding with_handler detected_vcs
  with_handler-Logged dump store fs calls (s, err e) read = tt
  with_handler-Logged dump store fs calls (s, ok done) read =
      observe_dump-Logged dump store (record fs { backing = s }) calls read

  mount_backing-Logged :
      (read_only dump : Bool) (target_dir : FilePath) (store : LibcBackingFs) (s : S.State)
      (calls : List Call)
      → LoggedResult dump calls
          (mount_backing S H c is_full fuel as_path is_utf8 kinds time clock read_only dump
            target_dir store s).1
  unfolding mount_backing new with_ignore_filters set_read_only detected_vcs
  mount_backing-Logged true dump target_dir store s calls =
      with_handler-Logged dump store
        (set_read_only (new c (libc_backing S fuel store) s target_dir) true) calls
        (H.set_handler s)
        (build_ignore_filters-detected_vcs c (libc_backing S fuel store) s target_dir)
  mount_backing-Logged false dump target_dir store s calls =
      with_handler-Logged dump store (new c (libc_backing S fuel store) s target_dir) calls
        (H.set_handler s)
        (build_ignore_filters-detected_vcs c (libc_backing S fuel store) s target_dir)

  mount_fd-LoggedResult :
      (directory : String) (read_only dump : Bool) (s : S.State) (calls : List Call)
      → LoggedResult dump calls
          (mount_fd S H c is_full fuel as_path is_utf8 kinds time clock directory read_only dump
            s).1
  unfolding mount_fd
  mount_fd-LoggedResult directory read_only dump s calls =
      attempt_either (IsLogged dump calls) s _ _ (λ e. tt)
        λ target_dir.
          if_either (IsLogged dump calls) (H.is_dir target_dir s) _ _
            (attempt_either (IsLogged dump calls) _ _ _ (λ e. tt)
              λ store. mount_backing-Logged read_only dump (as_path target_dir) store _ calls)
            tt

  -- Without the dump, a mounted file system has no observer. With it, when calls are served, the
  -- log has after what it had before, in order, the bodies that tell of the operations that the
  -- calls stand for, each found with the file system's inode map at that moment, and ignored by the
  -- filters that the file system itself has detected.
  pub mount_fd-Logged :
      (directory : String) (read_only dump : Bool) (s s' : S.State) (mount : Mount)
      (calls : List Call)
      → mount_fd S H c is_full fuel as_path is_utf8 kinds time clock directory read_only dump s
        ≡ (s', ok mount)
      → Logged dump calls mount
  mount_fd-Logged directory read_only dump s s' mount calls mounted =
      subst (LoggedResult dump calls) (ap (λ out. out.1) mounted)
        (mount_fd-LoggedResult directory read_only dump s calls)
