-- ===== src/Commands/Tests.antt =====
-- The consumer on a repository that counts what it records, and a removal over the small libpijul.
pub mod Directory
mod Mounted
mod MountedFd
mod Shown
use ize.Prelude.{
  ℕ, ◌+◌, ◌≡◌, List, [], ◌∷◌, some, Option, none, Result, ok, err, String, Bool, true, false, refl,
  map,
}
use ize.FilePath.{FilePath}
use ize.Operations.Opcode.{Opcode}
use ize.Operations.Operation.{file_delete, dir_create}
use ize.Pijul.Operations.{PijulBackend}
use ize.Commands.{Consumer}
use ize.Pijul.Backend.Toy.{Database, toy}
use ize.Pijul.Backend.{attempt}
use ize.Pijul.Backend.Channels.{open_repository}
use ize.Project.Manager.{ProjectInfo, list_projects}
use ize.Project.Create.{proceed}
use ize.Commands.Projects.{
  cmd_remove, cmd_channel, cmd_init, cmd_list, cmd_unmount, not_mounted, Listed, CommandError,
  is_fuse_mounted, list_action, already_tracked, aborted, removed,
}
use ize.Commands.Removal.{IsGuarded, cmd_remove-IsGuarded}
use ize.Commands.Tests.Directory.{central, with_main}

abbrev counting : PijulBackend
counting = record {
  State = ℕ;
  Hash = ℕ;
  PijulError = ℕ;
  record_file_create = λ path mode content message n. (n + 1, ok (some n));
  record_file_write = λ path offset bytes message n. (n + 1, ok (some n));
  record_file_truncate = λ path size message n. (n + 1, ok (some n));
  record_file_delete = λ path message n. (n + 1, ok (some n));
  record_file_rename = λ p q message n. (n + 1, ok n);
}

abbrev as_text : FilePath → Option String
as_text [] = some ""
as_text (c ∷ cs) = some c

abbrev removals : List Opcode
removals =
    record { seq = 1; timestamp = 5; op = file_delete ("a" ∷ []) }
    ∷ record { seq = 2; timestamp = 6; op = dir_create ("d" ∷ []) 0o755 }
    ∷ record { seq = 3; timestamp = 7; op = file_delete ("b" ∷ []) }
    ∷ []

abbrev waiting : Consumer as_text counting
waiting = record { queue = record { queue = removals; capacity = 10 }; repository = 0 }

abbrev HasMain : Database → Type 0
HasMain d = d.channels ≡ "main" ∷ []

declined : (cmd_remove toy central "c" "/src" false (ok false) with_main).1 ≡ ok aborted
unfolding cmd_remove attempt open_repository
declined = refl

confirmed_removal :
    cmd_remove toy central "c" "/src" false (ok true) with_main
    ≡ (record with_main { channels = [] }, ok removed)
unfolding cmd_remove attempt open_repository
confirmed_removal = refl

cmd_remove-IsGuarded_example :
    IsGuarded toy central HasMain
      (λ path d kept. kept)
      (λ path d kept. kept)
      false
      (ok true)
      (cmd_remove toy central "c" "/src" false (ok true) with_main)
cmd_remove-IsGuarded_example =
    cmd_remove-IsGuarded toy central HasMain (λ path d kept. kept) (λ path d kept. kept) "c" "/src"
      false (ok true) with_main refl

mounted :
    is_fuse_mounted toy
      (record central { read_to_string = λ path d. ok "proc /proc proc rw\r\nize /src fuse rw\n" })
      "/src"
      with_main
    ≡ true
unfolding is_fuse_mounted
mounted = refl

two_lines :
    is_fuse_mounted toy
      (record central { read_to_string = λ path d. ok "ize /a fuse rw\next4 /src rw" })
      "/src"
      with_main
    ≡ false
unfolding is_fuse_mounted
two_lines = refl

abbrev channels_of : Result (Listed toy central) CommandError → List (String × Bool)
channels_of (ok l) = l.1
channels_of (err e) = []

listed :
    channels_of (cmd_channel toy central "c" "/src" (list_action none) with_main).1
    ≡ ("main", true) ∷ []
unfolding cmd_channel attempt open_repository
listed = refl

initialized_twice :
    (cmd_init toy central 1 "u" "v" "today" "c" "/src" none with_main).1
    ≡ some (err (already_tracked "/src"))
unfolding cmd_init attempt open_repository proceed
initialized_twice = refl

not_there :
    cmd_unmount toy central (λ path d. (d, ok true)) "/src" with_main
    ≡ (with_main, err (not_mounted "/src"))
unfolding cmd_unmount attempt
not_there = refl

abbrev names_of : Result (List (ProjectInfo × Bool)) CommandError → List (String × Bool)
names_of (ok ps) = map (λ p. (p.0.source_dir, p.1)) ps
names_of (err e) = []

all_projects : names_of (cmd_list toy central "c" with_main).1 ≡ ("/src", false) ∷ []
unfolding cmd_list attempt list_projects
all_projects = refl
