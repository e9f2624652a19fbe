-- ===== src/Commands/Mount.antt =====
-- crates/ize/src/main.rs: the mount command up to the mount itself, which serves the calls that
-- Session has. Setting the handler of the signals, which unmounts and exits, is not modelled.
pub mod Laws
use ize.Prelude.{Bool, true, false, List, Dict, Result, ok, err, String, if◌then◌else◌, ℕ}
use ize.Operations.Opcode.{SystemTime}
use ize.FilePath.{FilePath}
use ize.Filesystems.Backing.{Libc}
use ize.Filesystems.StdFs.{StdFs}
use ize.Filesystems.Calls.{Filesystem}
use ize.Filesystems.Observing
use ize.Filesystems.Observing.{Clock, ObservingFs, add_observer}
use ize.Filesystems.PassthroughFd.{Listed}
use ize.Filesystems.Passthrough.{PassthroughFs, NewError, new, new_read_only}
use ize.Filesystems.Passthrough.Entries.{Fs}
use ize.Filesystems.Passthrough.Handle.{std_filesystem}
use ize.Filesystems.Recording.{recording}
use ize.Operations.Queue
use ize.Operations.Recorder
use ize.Operations.Recorder.{Kinds, OpcodeRecorder}
use ize.Pijul.Libpijul.{Libpijul}
use ize.Pijul.Backend.{PijulError, Repository, attempt, or_else}
use ize.Pijul.Backend.Channels.{open_repository}
use ize.Project.{Central}
use ize.Commands.Projects.{
  CommandError, currently_mounted, io_failed, passthrough_failed, new_manager, get_project,
  is_fuse_mounted,
}

-- The file system reads the disk that holds the projects as `disk_of` shows it, and a path by its
-- components.
module _ (L : Libpijul) (C : Central L) (c : Libc) (is_full : List Listed → Listed → Bool)
    (D : StdFs) (disk_of : C.disk.State → D.State) (as_path : String → FilePath)
    (kinds : Fs c D → Kinds) (time : ℕ → SystemTime) (clock : Clock) where
  abbrev pub Std : Filesystem
  Std = std_filesystem c is_full D

  abbrev pub inodes_of : Fs c D → Dict FilePath
  inodes_of fs = fs.inode_to_path

  abbrev pub Observed : Type 0
  Observed = ObservingFs Std OpcodeRecorder

  -- What is mounted: the file system itself, or with the recorder, and what the consumer thread
  -- gets when it opens the repository. On an error that thread ends, and nothing is recorded.
  pub data Mount : Type 0 where
    direct : Fs c D → Mount
    observed : Observed → Result (Repository L) PijulError → Mount

  unfoldable pub start_recording : Fs c D → FilePath → Observed
  unfolding Queue.new Recorder.new Observing.new add_observer
  start_recording fs working_dir =
      let queue = Queue.new in
      let recorder = Recorder.new (inodes_of fs) working_dir queue in
      add_observer {F = Std} (Observing.new fs recorder) (recording Std inodes_of kinds time clock)

  unfoldable pub new_passthrough :
      Bool → FilePath → FilePath → D.State → Result (PassthroughFs D.State D.File) NewError
  unfolding new new_read_only
  new_passthrough true source_dir mount_point disk = new_read_only D source_dir mount_point disk
  new_passthrough false source_dir mount_point disk = new D source_dir mount_point disk

  -- The end of the command, from the project's directories.
  unfoldable pub mount_over :
      Bool
      → (pijul_dir working_dir : String) → Fs c D
      → C.disk.State
      → C.disk.State × Result Mount CommandError
  unfolding start_recording open_repository
  mount_over true pijul_dir working_dir fs d = (d, ok (direct fs))
  mount_over false pijul_dir working_dir fs d =
      let (d', repository) = open_repository L C.disk C.change_files pijul_dir working_dir d in
      (d', ok (observed (start_recording fs (as_path working_dir)) repository))

  unfoldable pub cmd_mount :
      (central_dir directory : String) (read_only : Bool)
      → C.disk.State
      → C.disk.State × Result Mount CommandError
  unfolding new_manager get_project is_fuse_mounted new_passthrough mount_over
  cmd_mount central_dir directory read_only d =
      let (d, manager) = new_manager L C central_dir d in
      attempt d manager λ m.
        attempt d (or_else io_failed (C.canonicalize directory d)) λ source_dir.
          let (d, project) = get_project L C m source_dir d in
          attempt d project λ p.
            if is_fuse_mounted L C source_dir d
            then (d, err (currently_mounted source_dir))
            else (let working_dir = p.pijul.working_dir in
                let created =
                  new_passthrough read_only (as_path working_dir) (as_path source_dir)
                    (disk_of d) in
                attempt d (or_else passthrough_failed created)
                  λ fs. mount_over read_only p.pijul.pijul_dir working_dir fs d)
