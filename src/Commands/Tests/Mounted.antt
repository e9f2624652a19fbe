-- ===== src/Commands/Tests/Mounted.antt =====
-- A mount of the small disk, over the small libpijul.
use ize.Prelude.{
  ℕ, ◌≡◌, refl, List, [], ◌∷◌, ◌++◌, some, Option, none, ok, String, pos, false, true, Bool, arith,
  length, Dict, lookup, insert,
}
use ize.FilePath.{FilePath, join}
use ize.Filesystems.Recording.{trace, recorded}
use ize.Filesystems.Observing.Laws.{event_of}
use ize.Filesystems.Passthrough.{parent_path, register_inode, to_real}
use ize.Filesystems.Calls.{Filesystem, create, unlink}
use ize.Filesystems.Observer
use ize.Filesystems.Observing.{Clock}
use ize.Filesystems.PassthroughFd.{error}
use ize.Filesystems.PassthroughFd.Tests.Store.{linux, one_at_a_time}
use ize.Filesystems.Passthrough.Tests.Disk.{small}
use ize.Filesystems.Passthrough.Entries.{Fs}
use ize.Filesystems.Passthrough.Handle.{handle}
use ize.Operations.Opcode.{since_epoch, SystemTime}
use ize.Operations.Operation.{Operation}
use ize.Operations.Recorder.{OpcodeRecorder, Kinds, resolve_with_name, is_ignored}
use ize.Operations.Recorder.Meaning.{meaning}
use ize.Operations.Recorder.Laws.{number}
use ize.Pijul.Backend.{Repository, attempt}
use ize.Pijul.Backend.Channels.{open_repository}
use ize.Pijul.Backend.Toy.{Database, toy}
use ize.Pijul.Operations.{Message, PijulBackend}
use ize.Commands.Tests.Directory.{central, with_main}
use ize.Pijul.Operations.Calls.{make_all, calls_for}
use ize.Commands.Session.Laws.{Handed, run_session-Handed}
use ize.Commands.Session.{Session, calls_of, SessionStep, serve, poll, polls, run_session}
use ize.Commands.Mount.{
  Std, inodes_of, Observed, Mount, direct, observed, start_recording, cmd_mount,
}
use ize.Commands.Mount.Laws.{Pijul, operations, cmd_mount-drained, cmd_mount-refuses}

abbrev pub bare : {State : Type 0} → State → Kinds
bare s = record { metadata = λ p. none; symlink_metadata = λ p. none }

abbrev pub ticks : ℕ → SystemTime
ticks n = since_epoch n

abbrev pub dawn : Clock
dawn = record { atime_now = since_epoch 0; mtime_now = since_epoch 0 }

abbrev disk_of : Database → ℕ
disk_of d = 0

abbrev as_path : String → FilePath
as_path p = p ∷ []

abbrev as_text : FilePath → Option String
as_text [] = some ""
as_text (c ∷ cs) = some c

abbrev message_of : Message → String
message_of m = "change"

abbrev inner : (read_only : Bool) → Fs linux small
inner read_only = record {
  disk = 0;
  source_dir = "working" ∷ [];
  mount_point = "/src" ∷ [];
  read_only = read_only;
  inode_to_path = (1, []) ∷ [];
  next_fh = 1;
  file_handles = [];
}

abbrev repository : Repository toy
repository = record {
  pijul_dir = ".pijul";
  working_dir = "working";
  pristine = with_main;
  change_files = [];
  current_channel = "main";
}

abbrev SmallMount : Type 0
SmallMount = Mount toy central linux one_at_a_time small disk_of as_path bare ticks dawn

read_only_mount :
    (cmd_mount toy central linux one_at_a_time small disk_of as_path bare ticks dawn "c" "/src" true
      with_main).1
    ≡ ok (direct (inner true))
unfolding cmd_mount attempt open_repository
read_only_mount = refl

cmd_mount-refuses_example :
    (fs : Fs linux small) × (◌≡◌ {A = SmallMount} (direct (inner true)) (direct fs))
    × (handle linux one_at_a_time small (unlink 1 "a") fs ≡ (fs, error linux.erofs))
unfolding event_of
cmd_mount-refuses_example =
    cmd_mount-refuses toy central linux one_at_a_time small disk_of as_path bare ticks dawn "c"
      "/src" with_main (direct (inner true)) (unlink 1 "a") (Observer.unlink 1 "a") read_only_mount
      refl

abbrev started : Observed toy central linux one_at_a_time small disk_of as_path bare ticks dawn
started =
    start_recording toy central linux one_at_a_time small disk_of as_path bare ticks dawn
      (inner false) ("working" ∷ [])

recording_mount :
    (cmd_mount toy central linux one_at_a_time small disk_of as_path bare ticks dawn "c" "/src"
      false with_main).1
    ≡ ok (observed started (ok repository))
unfolding cmd_mount attempt open_repository
recording_mount = refl

abbrev schedule : List SessionStep
schedule = serve (create 1 "a" 0o644 0 2) ∷ poll ∷ serve (unlink 1 "a") ∷ []

abbrev small_pijul : PijulBackend
small_pijul =
    Pijul toy central linux one_at_a_time small disk_of as_path bare ticks dawn as_text (pos 5)
      message_of

abbrev two_operations : List Operation
two_operations =
    operations toy central linux one_at_a_time small disk_of as_path bare ticks dawn as_text (pos 5)
      message_of schedule started

two : length two_operations ≡ 2
unfolding trace calls_of event_of meaning resolve_with_name lookup start_recording is_ignored handle
    parent_path register_inode insert to_real join
two = refl

cmd_mount-drained_example :
    (run_session
      (Std toy central linux one_at_a_time small disk_of as_path bare ticks dawn)
      dawn
      as_text
      small_pijul
      (schedule ++ polls 2)
      (record { fs = started; repository = repository })).repository
    ≡ make_all small_pijul (calls_for as_text (number ticks 1 two_operations)) repository
cmd_mount-drained_example =
    cmd_mount-drained toy central linux one_at_a_time small disk_of as_path bare ticks dawn as_text
      (pos 5) message_of "c" "/src" with_main started repository schedule 2 recording_mount
      (omega (arith, two)) (omega (arith, two))

abbrev empty_recorder : OpcodeRecorder
empty_recorder = record {
  inode_map = (1, []) ∷ [];
  source_dir = "working" ∷ [];
  next_seq = 1;
  sender = record { queue = []; capacity = 3 };
  ignore_filters = [];
}

abbrev SmallStd : Filesystem
SmallStd = Std toy central linux one_at_a_time small disk_of as_path bare ticks dawn

abbrev small_inodes : Fs linux small → Dict FilePath
small_inodes = inodes_of toy central linux one_at_a_time small disk_of as_path bare ticks dawn

abbrev session : Session SmallStd dawn as_text small_pijul
session = record {
  fs = recorded SmallStd small_inodes bare ticks dawn (inner false) empty_recorder;
  repository = repository;
}

two_calls :
    length (
      trace SmallStd small_inodes bare ticks dawn
        (calls_of schedule)
        (inner false)
        ("working" ∷ [])
        [])
    ≡ 2
unfolding trace calls_of event_of meaning resolve_with_name lookup is_ignored handle parent_path
    register_inode insert to_real join
two_calls = refl

run_session-Handed_example :
    Handed SmallStd small_inodes bare ticks dawn as_text small_pijul
      (number ticks 1 (
        trace SmallStd small_inodes bare ticks dawn
          (calls_of schedule)
          (inner false)
          ("working" ∷ [])
          []))
      repository
      (run_session SmallStd dawn as_text small_pijul schedule session)
run_session-Handed_example =
    run_session-Handed SmallStd small_inodes bare ticks dawn as_text small_pijul schedule
      (inner false) empty_recorder repository (omega (arith, two_calls), omega (arith, two_calls))
