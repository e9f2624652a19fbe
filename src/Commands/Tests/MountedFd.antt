-- ===== src/Commands/Tests/MountedFd.antt =====
-- Mounts of the small kernel's directory.
use ize.Prelude.{◌≡◌, refl, Bool, true, false, List, [], ◌∷◌, some, Result, ok, err, String}
use ize.FilePath.{FilePath}
use ize.Filesystems.Backing.{IoError}
use ize.Filesystems.Calls.{Call, create, unlink}
use ize.Filesystems.PassthroughFd.{FdPassthroughFs, detect_ignore_filters}
use ize.Filesystems.PassthroughFd.Tests.Store.{linux, one_at_a_time}
use ize.Filesystems.LibcBacking.{open_dir, drop}
use ize.Filesystems.LibcBacking.Readdir.{readdir}
use ize.Filesystems.LibcBacking.Tests.{
  Kernel, kernel, in_table, stream_fd, left, kernel-DescriptorLaws, booted, base, with_base,
}
use ize.Filesystems.Logging
use ize.Operations.Operation.{Bytes}
use ize.Operations.Dump.{DumpObserver, Entry}
use ize.Pijul.Backend.{attempt}
use ize.Commands.MountFd.{Host, Fd, inode_map, Mounted, dumped, no_log, mount_fd, with_log}
use ize.Commands.MountFd.Laws.{Logged, mount_fd-Logged}
use ize.Commands.MountFd.Refused.{mount_fd_refused}
use ize.Commands.Tests.Mounted.{bare, ticks, dawn}

abbrev host_with : Result (List Entry) IoError → Host kernel
host_with log = record {
  canonicalize = λ p s. ok "/src";
  is_dir = λ p s. true;
  set_handler = λ s. (s, ok tt);
  open_dump = λ s. (s, log);
}

abbrev whole : String → FilePath
whole p = p ∷ []

abbrev is_text : Bytes → Bool
is_text bytes = true

abbrev inner : FdPassthroughFs Kernel
inner = record {
  backing = with_base;
  inode_to_path = (1, []) ∷ [];
  next_fh = 1;
  open_files = [];
  read_only = false;
  ignore_filters = [];
  mount_point = "/src" ∷ [];
}

abbrev empty_log : DumpObserver
empty_log = record {
  inode_map = (1, []) ∷ [];
  source_dir = "/src" ∷ [];
  next_seq = 1;
  writer = [];
  ignore_filters = [];
}

abbrev host : Host kernel
host = host_with (ok [])

abbrev SmallMounted : Type 0
SmallMounted = Mounted kernel host linux one_at_a_time 3 whole is_text bare ticks dawn

abbrev logging : SmallMounted
logging = dumped base (
    Logging.dumped (Fd kernel host linux one_at_a_time 3 whole is_text bare ticks dawn base)
      (inode_map kernel host linux one_at_a_time 3 whole is_text bare ticks dawn) bare ticks is_text
      dawn inner empty_log)

logging_mount :
    mount_fd kernel host linux one_at_a_time 3 whole is_text bare ticks dawn "src" false true booted
    ≡ (with_base, ok logging)
unfolding mount_fd attempt open_dir detect_ignore_filters readdir
logging_mount = refl

abbrev two_calls : List Call
two_calls = create 1 "a" 0o644 0 2 ∷ unlink 1 "a" ∷ []

mount_fd-Logged_example :
    Logged kernel host linux one_at_a_time 3 whole is_text bare ticks dawn true two_calls logging
mount_fd-Logged_example =
    mount_fd-Logged kernel host linux one_at_a_time 3 whole is_text bare ticks dawn "src" false true
      booted with_base logging two_calls logging_mount

abbrev bare_host : Host kernel
bare_host = host_with (err (some 13))

abbrev after_refusal : Kernel
after_refusal =
    (mount_fd kernel bare_host linux one_at_a_time 3 whole is_text bare ticks dawn "src" false true
      booted).0

refused_mount :
    mount_fd kernel bare_host linux one_at_a_time 3 whole is_text bare ticks dawn "src" false true
      booted
    ≡ (after_refusal, err (no_log (some 13)))
unfolding mount_fd attempt open_dir with_log drop
refused_mount = refl

mount_fd_refused_example : in_table 1 after_refusal ≡ in_table 1 booted
mount_fd_refused_example =
    mount_fd_refused kernel in_table stream_fd left kernel-DescriptorLaws bare_host linux
      one_at_a_time 3 whole is_text bare ticks dawn 1 "src" false true booted after_refusal
      (no_log (some 13)) (λ s. refl) (λ s. refl) refused_mount
