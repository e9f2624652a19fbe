-- ===== src/Commands/Mount/Laws.antt =====
-- What the mount command sets up: a recorder with an empty queue whose session records every call,
-- or a read-only file system that refuses every mutation.
use mathlib.Core.Path.{subst}
use ize.Prelude.{
  ℕ, ℤ, ◌≤◌, ◌≡◌, refl, sym, ap, ◌∙◌, Bool, true, false, List, [], ◌++◌, Result, ok, err, some,
  Option, String, length, arith, if◌then◌else◌,
}
use ize.Operations.Opcode.{SystemTime}
use ize.FilePath.{FilePath}
use ize.Filesystems.Backing.{Libc}
use ize.Filesystems.StdFs.{StdFs}
use ize.Filesystems.Calls.{Call}
use ize.Filesystems.Observer.{Event}
use ize.Filesystems.Observing.{Clock}
use ize.Filesystems.Observing.Laws.{event_of}
use ize.Filesystems.PassthroughFd.{Listed, error}
use ize.Filesystems.Passthrough.{new_read_only, set_read_only, new}
use ize.Filesystems.Passthrough.Entries.{Fs}
use ize.Filesystems.Passthrough.Handle.{handle}
use ize.Filesystems.Passthrough.Refusals.{event-refused}
use ize.Filesystems.Recording.{trace, recorded}
use ize.Operations.Operation.{Operation}
use ize.Operations.Queue
use ize.Operations.Queue.{default_capacity}
use ize.Operations.Recorder
use ize.Operations.Recorder.{Kinds}
use ize.Operations.Recorder.Laws.{number, length-number}
use ize.Pijul.Libpijul.{Libpijul}
use ize.Pijul.Backend.{PijulError, Repository, attempt-ok, or_else-ok}
use ize.Pijul.Backend.Record.{recording_backend}
use ize.Pijul.Operations.{PijulBackend, Message}
use ize.Pijul.Operations.Calls.{make_all, calls_for}
use ize.Project.{Central}
use ize.Commands.Projects.{CommandError}
use ize.Commands.Laws.{apply_all, apply_all-make_all}
use ize.Commands.Session.{SessionStep, calls_of, polls, run_session}
use ize.Commands.Session.Laws.{run_session-drained}
use ize.Commands.Mount.{
  Std, inodes_of, Observed, Mount, direct, observed, start_recording, new_passthrough, mount_over,
  cmd_mount,
}

module _ (L : Libpijul) (C : Central L) (c : Libc) (is_full : List Listed → Listed → Bool)
    (D : StdFs) (disk_of : C.disk.State → D.State) (as_path : String → FilePath)
    (kinds : Fs c D → Kinds) (time : ℕ → SystemTime) (clock : Clock) where
  abbrev Mounted : Type 0
  Mounted = Mount L C c is_full D disk_of as_path kinds time clock

  abbrev Command : Type 0
  Command = C.disk.State × Result Mounted CommandError

  -- What the command has done when it succeeds.
  abbrev SetUp : Bool → Mounted → Type 0
  SetUp read_only mount =
      (pijul_dir : String) × (working_dir : String) × (mount_point : FilePath) × (fs : Fs c D)
      × (d : C.disk.State) × (new_passthrough L C c is_full D disk_of as_path kinds time clock
            read_only (as_path working_dir) mount_point (disk_of d)
          ≡ ok fs)
      × ((mount_over L C c is_full D disk_of as_path kinds time clock read_only pijul_dir
            working_dir fs d).1
          ≡ ok mount)

  unless_mounted :
      (mounted : Bool) (refused out : Command) (mount : Mounted) (e : CommandError)
      → refused.1 ≡ err e
      → (if mounted then refused else out).1 ≡ ok mount
      → out.1 ≡ ok mount
  unless_mounted true refused out mount e was h = cc (was, h)
  unless_mounted false refused out mount e was h = h

  cmd_mount-SetUp :
      (central_dir directory : String) (read_only : Bool) (d : C.disk.State) (mount : Mounted)
      → (cmd_mount L C c is_full D disk_of as_path kinds time clock central_dir directory read_only
          d).1
        ≡ ok mount
      → SetUp read_only mount
  unfolding cmd_mount
  cmd_mount-SetUp central_dir directory read_only d mount h =
      let (m, got_m, h1, same1) = attempt-ok _ _ _ h in
      let (source_dir, got_s, h2, same2) = attempt-ok _ _ _ h1 in
      let (p, got_p, h3, same3) = attempt-ok _ _ _ h2 in
      let h4 = unless_mounted _ _ _ mount _ refl h3 in
      let (fs, made, h5, same5) = attempt-ok _ _ _ h4 in
      (p.pijul.pijul_dir, p.pijul.working_dir, as_path source_dir, fs, _, or_else-ok _ _ made, h5)

  new_passthrough-read_only :
      (source_dir mount_point : FilePath) (disk : D.State) (fs : Fs c D)
      → new_passthrough L C c is_full D disk_of as_path kinds time clock true source_dir mount_point
          disk
        ≡ ok fs
      → fs.read_only ≡ true
  unfolding new_passthrough new_read_only set_read_only new
  new_passthrough-read_only source_dir mount_point disk fs h = ground (arith, h)

  -- What is mounted read-only is the file system itself, and it answers each mutation that an
  -- observer would hear of with EROFS and stays as it is.
  pub cmd_mount-refuses :
      (central_dir directory : String) (d : C.disk.State) (mount : Mounted) (call : Call)
      (e : Event)
      → (cmd_mount L C c is_full D disk_of as_path kinds time clock central_dir directory true d).1
        ≡ ok mount
      → event_of clock call ≡ some e
      → (fs : Fs c D) × (mount ≡ direct fs) × (handle c is_full D call fs ≡ (fs, error c.erofs))
  unfolding mount_over
  cmd_mount-refuses central_dir directory d mount call e h heard =
      let (pijul_dir, working_dir, mount_point, fs, d', made, out) =
        cmd_mount-SetUp central_dir directory true d mount h in
      let read_only =
        new_passthrough-read_only (as_path working_dir) mount_point (disk_of d') fs made in
      (fs, cc out, event-refused c D is_full clock call e fs read_only heard)

  abbrev Recording : Type 0
  Recording = Observed L C c is_full D disk_of as_path kinds time clock

  start_recording-recorded :
      (fs : Fs c D) (working_dir : FilePath)
      → start_recording L C c is_full D disk_of as_path kinds time clock fs working_dir
        ≡ recorded
            (Std L C c is_full D disk_of as_path kinds time clock)
            (inodes_of L C c is_full D disk_of as_path kinds time clock)
            kinds
            time
            clock
            fs
            (Recorder.new fs.inode_to_path working_dir Queue.new)
  unfolding start_recording
  start_recording-recorded fs working_dir = refl

  mount_over-observed :
      (pijul_dir working_dir : String) (fs : Fs c D) (d : C.disk.State) (out : Recording)
      (r : Result (Repository L) PijulError)
      → (mount_over L C c is_full D disk_of as_path kinds time clock false pijul_dir working_dir fs
          d).1
        ≡ ok (observed out r)
      → out
        ≡ start_recording L C c is_full D disk_of as_path kinds time clock fs (as_path working_dir)
  unfolding mount_over
  mount_over-observed pijul_dir working_dir fs d out r h = cc h

  module _ (to_str : FilePath → Option String) (now : ℤ) (message_of : Message → String) where
    abbrev pub Pijul : PijulBackend
    Pijul = recording_backend L now message_of

    -- The operations that a schedule's calls stand for.
    abbrev pub operations : List SessionStep → Recording → List Operation
    operations steps fs =
        trace (Std L C c is_full D disk_of as_path kinds time clock)
          (inodes_of L C c is_full D disk_of as_path kinds time clock) kinds time clock
          (calls_of steps) fs.inner fs.world.source_dir []

    abbrev Drained : List SessionStep → ℕ → Recording → Repository L → Type 0
    Drained steps n fs repository =
        (run_session (Std L C c is_full D disk_of as_path kinds time clock) clock to_str Pijul
          (steps ++ polls n) (record { fs = fs; repository = repository })).repository
        ≡ apply_all to_str Pijul (number time 1 (operations steps fs)) repository

    started-Drained :
        (steps : List SessionStep) (n : ℕ) (fs : Fs c D) (working_dir : FilePath)
        (repository : Repository L) (out : Recording)
        → out ≡ start_recording L C c is_full D disk_of as_path kinds time clock fs working_dir
        → length (operations steps out) ≤ default_capacity
        → length (operations steps out) ≤ n
        → Drained steps n out repository
    unfolding start_recording
    started-Drained steps n fs working_dir repository out same room enough =
        let started =
          start_recording L C c is_full D disk_of as_path kinds time clock fs working_dir in
        let count : length (operations steps out) ≡ length (operations steps started) =
          ap (λ o. length (operations steps o)) same in
        subst (λ o. Drained steps n o repository) (sym same)
          (run_session-drained (Std L C c is_full D disk_of as_path kinds time clock)
            (inodes_of L C c is_full D disk_of as_path kinds time clock) kinds time clock to_str
            Pijul steps n fs (Recorder.new fs.inode_to_path working_dir Queue.new) repository
            (omega (arith, count), omega (arith, count))
            (omega (arith, count, length-number time 1 (operations steps started))))

    -- A directory that is mounted to record: if the queue can hold all that the calls stand for, a
    -- schedule of calls and turns of the consumer's loop, in any order, that ends in as many turns
    -- leaves the repository as the record calls for the operations make it, one after the other in
    -- the order of the calls and with the messages for opcodes numbered from 1: a file operation
    -- whose paths are UTF-8 is worth one call, and each other operation none.
    pub cmd_mount-drained :
        (central_dir directory : String) (d : C.disk.State) (fs : Recording)
        (repository : Repository L) (steps : List SessionStep) (n : ℕ)
        → (cmd_mount L C c is_full D disk_of as_path kinds time clock central_dir directory false
            d).1
          ≡ ok (observed fs (ok repository))
        → length (operations steps fs) ≤ default_capacity
        → length (operations steps fs) ≤ n
        → (run_session
            (Std L C c is_full D disk_of as_path kinds time clock)
            clock
            to_str
            Pijul
            (steps ++ polls n)
            (record { fs = fs; repository = repository })).repository
          ≡ make_all Pijul (calls_for to_str (number time 1 (operations steps fs))) repository
    cmd_mount-drained central_dir directory d fs repository steps n h room enough =
        let (pijul_dir, working_dir, mount_point, inner, d', made, out) =
          cmd_mount-SetUp central_dir directory false d (observed fs (ok repository)) h in
        started-Drained steps n inner (as_path working_dir) repository fs
          (mount_over-observed pijul_dir working_dir inner d' fs (ok repository) out) room enough
        ∙ apply_all-make_all to_str Pijul (number time 1 (operations steps fs)) repository
