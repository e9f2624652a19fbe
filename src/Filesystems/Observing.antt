-- ===== src/Filesystems/Observing.antt =====
-- crates/ize-lib/src/filesystems/observing.rs: `ObservingFS`, which tells its observers of each
-- mutation and then delegates to the inner file system.
pub mod Laws
use ize.Prelude.{ℕ, ℤ, List, [], ◌∷◌, ◌++◌, Option, none, some, String}
use ize.FilePath.{FilePath}
use ize.Filesystems.Observer
use ize.Filesystems.Observer.{Event}
use ize.Filesystems.Calls
use ize.Filesystems.Calls.{
  TimeOrNow, specific_time, now, Call, Filesystem, init, destroy, lookup, getattr, readdir,
  open_file, read, flush, release, fsync, opendir, releasedir, access, statfs, write, create,
  unlink, mkdir, rmdir, rename, setattr,
}
use ize.Operations.Opcode.{SystemTime}
use ize.Operations.Operation.{Bytes}

-- The two times that `setattr` may read from the clock.
pub record Clock : Type 0 where
  pub atime_now : SystemTime
  pub mtime_now : SystemTime

unfoldable pub time_or_now_to_system_time : SystemTime → TimeOrNow → Option SystemTime
time_or_now_to_system_time clock (specific_time st) = some st
time_or_now_to_system_time clock now = some clock

-- `atime.and_then(time_or_now_to_system_time)`
abbrev and_then : SystemTime → Option TimeOrNow → Option SystemTime
and_then clock none = none
and_then clock (some t) = time_or_now_to_system_time clock t

-- The observers' states, taken together, are a `World`. An observer may look at what the inner file
-- system shares with it (its inode map), and changes only the world.
module _ (F : Filesystem) (World : Type 0) where
  abbrev pub FsObserver : Type 0
  FsObserver = Event → F.State → World → World

  pub record ObservingFs : Type 0 where
    pub inner : F.State
    pub observers : List FsObserver
    pub world : World

-- `for observer in &self.observers { … }`
unfoldable pub for_each :
    {State World : Type 0} → List (Event → State → World → World) → Event → State → World → World
for_each [] e inner world = world
for_each (observer ∷ observers) e inner world = for_each observers e inner (observer e inner world)

module _ {F : Filesystem} {World : Type 0} where
  unfoldable pub new : F.State → World → ObservingFs F World
  new inner world = record { inner = inner; observers = []; world = world }

  unfoldable pub add_observer : ObservingFs F World → FsObserver F World → ObservingFs F World
  add_observer fs observer = record fs { observers = fs.observers ++ (observer ∷ []) }

  unfoldable pub notify : ObservingFs F World → Event → ObservingFs F World
  notify fs e = record fs { world = for_each fs.observers e fs.inner fs.world }

  unfoldable pub notify_write : ObservingFs F World → ℕ → ℕ → ℤ → Bytes → ObservingFs F World
  notify_write fs ino fh offset bytes = notify fs (Observer.write ino fh offset bytes)

  unfoldable pub notify_create : ObservingFs F World → ℕ → String → ℕ → ObservingFs F World
  notify_create fs parent name mode = notify fs (Observer.create parent name mode none)

  unfoldable pub notify_unlink : ObservingFs F World → ℕ → String → ObservingFs F World
  notify_unlink fs parent name = notify fs (Observer.unlink parent name)

  unfoldable pub notify_mkdir : ObservingFs F World → ℕ → String → ℕ → ObservingFs F World
  notify_mkdir fs parent name mode = notify fs (Observer.mkdir parent name mode none)

  unfoldable pub notify_rmdir : ObservingFs F World → ℕ → String → ObservingFs F World
  notify_rmdir fs parent name = notify fs (Observer.rmdir parent name)

  unfoldable pub notify_rename : ObservingFs F World → ℕ → String → ℕ → String → ObservingFs F World
  notify_rename fs parent name newparent newname =
      notify fs (Observer.rename parent name newparent newname)

  unfoldable pub notify_setattr :
      ObservingFs F World
      → ℕ
      → Option ℕ
      → Option ℕ
      → Option SystemTime
      → Option SystemTime
      → ObservingFs F World
  notify_setattr fs ino size mode atime mtime =
      notify fs (Observer.setattr ino size mode atime mtime)

  unfoldable pub notify_symlink : ObservingFs F World → ℕ → String → FilePath → ObservingFs F World
  notify_symlink fs parent name target = notify fs (Observer.symlink parent name target)

  unfoldable pub notify_link : ObservingFs F World → ℕ → ℕ → String → ObservingFs F World
  notify_link fs ino newparent newname = notify fs (Observer.link ino newparent newname)

  -- `self.inner.method(…)`
  unfoldable pub delegate : Call → ObservingFs F World → ObservingFs F World × F.Reply
  delegate call fs =
      let (inner, reply) = F.handle call fs.inner in (record fs { inner = inner }, reply)

  -- `impl Filesystem for ObservingFS<F>`: the method for each call.
  unfoldable pub handle : Clock → Call → ObservingFs F World → ObservingFs F World × F.Reply
  unfolding delegate notify notify_write notify_create notify_unlink notify_mkdir notify_rmdir
      notify_rename notify_setattr
  handle clock (write ino fh offset bytes) fs =
      delegate (write ino fh offset bytes) (notify_write fs ino fh offset bytes)
  handle clock (create parent name mode umask flags) fs =
      delegate (create parent name mode umask flags) (notify_create fs parent name mode)
  handle clock (unlink parent name) fs =
      delegate (unlink parent name) (notify_unlink fs parent name)
  handle clock (mkdir parent name mode umask) fs =
      delegate (mkdir parent name mode umask) (notify_mkdir fs parent name mode)
  handle clock (rmdir parent name) fs = delegate (rmdir parent name) (notify_rmdir fs parent name)
  handle clock (rename parent name newparent newname flags) fs =
      delegate (rename parent name newparent newname flags)
        (notify_rename fs parent name newparent newname)
  handle clock (setattr ino a) fs =
      let atime_st = and_then clock.atime_now a.atime in
      let mtime_st = and_then clock.mtime_now a.mtime in
      delegate (setattr ino a) (notify_setattr fs ino a.size a.mode atime_st mtime_st)
  handle clock init fs = delegate init fs
  handle clock destroy fs = delegate destroy fs
  handle clock (lookup parent name) fs = delegate (lookup parent name) fs
  handle clock (getattr ino fh) fs = delegate (getattr ino fh) fs
  handle clock (readdir ino fh offset) fs = delegate (readdir ino fh offset) fs
  handle clock (open_file ino flags) fs = delegate (open_file ino flags) fs
  handle clock (read ino fh offset size) fs = delegate (read ino fh offset size) fs
  handle clock (flush ino fh) fs = delegate (flush ino fh) fs
  handle clock (release ino fh) fs = delegate (release ino fh) fs
  handle clock (fsync ino fh datasync) fs = delegate (fsync ino fh datasync) fs
  handle clock (opendir ino flags) fs = delegate (opendir ino flags) fs
  handle clock (releasedir ino fh) fs = delegate (releasedir ino fh) fs
  handle clock (access ino mask) fs = delegate (access ino mask) fs
  handle clock (statfs ino) fs = delegate (statfs ino) fs
