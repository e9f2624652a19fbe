-- ===== src/Lib.antt =====
-- A model of Ize, a file system that records every change to a directory as opcodes and keeps
-- them in a Pijul repository, and of its terminal viewer, with the theorems that hold of them.
--
-- How the parts work together. The kernel's calls reach `ObservingFS`, which tells its observers of
-- each mutation and hands every call on to the file system inside it. The recorder is such an
-- observer: it finds the path of each inode, leaves out what an ignore filter covers, and puts an
-- opcode for each mutation on the queue, which a consumer on another thread takes from. The
-- consumer's opcodes change file contents in the repository, and the viewer shows projects,
-- channels and changes.
--
-- Which file is about which code (paths from the root of the repository):
--
--   FilePath            `PathBuf` as the program uses it
--   Operations          crates/ize-lib/src/operations
--     Operation, Opcode   opcode.rs: `Operation`, `Opcode`
--     Queue               queue.rs: `OpcodeQueue`, `OpcodeSender`; Threads has their interleavings
--     Recorder            recorder.rs: `OpcodeRecorder`; Meaning has the operations that a
--                         notification stands for, Session a recorder with a consumer
--     Dump                dump_observer.rs: `DumpObserver`
--   Vcs                 crates/ize-lib/src/vcs: mod.rs, git.rs, jujutsu.rs, pijul.rs
--   Filesystems         crates/ize-lib/src/filesystems
--     Observer            observing.rs: the trait `FsObserver`
--     Calls               the calls of fuser's trait `Filesystem` that the program implements
--     Observing           observing.rs: `ObservingFS`
--     Backing             the trait `BackingFs` of crates/ize-lib/src/backing_fs/mod.rs
--     Syscalls            what libc_impl.rs and fuse-fd-poc call of libc
--     LibcBacking         `LibcBackingFs` of crates/ize-lib/src/backing_fs/libc_impl.rs; Readdir has
--                         `readdir`, Store the other methods and the store they make
--     PassthroughFd       passthrough_fd.rs: `FdPassthroughFS`; Paths and Files have the handlers,
--                         Handle the handler for each call
--     StdFs               what passthrough.rs calls of `std::fs` and nix
--     Passthrough         passthrough.rs: `PassthroughFS`; Entries, Change and Open have the
--                         handlers, Handle the handler for each call
--     Recording           the recorder on `ObservingFS` over a file system whose inode map it shares
--     Logging             the dump observer there
--     Errors              error.rs: `FsError`, which no other file uses
--   Pijul               crates/ize-lib/src/pijul
--     Content             backend.rs: the contents that `record_file_write` and
--                         `record_file_truncate` compute
--     Operations          operations.rs: `OpcodeRecordingBackend`; Calls has the calls of the
--                         repository that operations are worth
--     Libpijul            the calls of libpijul that backend.rs and query.rs make
--     Backend             backend.rs: `PijulBackend`; Record has what records a change, Channels the
--                         set-up, the channels and what only reads
--     Query               query.rs: `PijulQuery`
--   Project             crates/ize-lib/src/project: mod.rs; Manager and Create have
--                       manager.rs, Create also `init` and the copy of a directory
--   Commands            crates/ize/src/main.rs: the consumer of the mount command;
--                       Projects has the other commands on projects, Table what list
--                       prints, Export the export command, Mount what the mount
--                       command sets up, Session a mounted file system with the consumer,
--                       MountFd crates/ize/src/bin/ize_mount_fd.rs
--   Viewer              crates/izev/src
--     Event               event.rs
--     Changes             what app.rs shows of crates/ize-lib/src/pijul/query.rs
--     App                 app.rs; Keys has the handlers
--     Terminal            main.rs, tui.rs: the loop of `run_tui` and the terminal
--   FdPoc               crates/fuse-fd-poc/src/main.rs: its `FdPassthroughFS`; Answers has the steps at
--                       which a handler may return, Paths and Files the handlers, Handle the handler
--                       for each call, Order has the order of the map that `rename` looks through
--   Prelude             shared types, tests, lists, maps and lemmas
--
-- How the state corresponds. A structure behind a lock is a record, and a method that holds the
-- lock from end to end is one function on it. A method that gives the lock up (the blocking `pop`)
-- is several steps of a relation between states. A method that takes `&mut self` is a function
-- from the state to the new state, with the reply beside it where it has one. A path is its list
-- of components, and in the projects and the commands its text.
--
-- What the model takes as given: what the operating system answers (`Recorder.Os`; in a session
-- the kinds of files are those that the disk shows at each moment; the clocks, the predicate
-- `is_dir`), the file system inside `ObservingFS` (any `Filesystem`), the constants of libc and
-- its calls (`Libc`, `Syscalls`), the backing store and `std::fs` (`BackingFs`, `StdFs`), how much
-- a directory's reply holds, the order of a `HashMap`, the calls of libpijul (`Libpijul`), the
-- disk on which a repository is set up and projects are kept (`Disk`, `Central`), the paths and
-- the log of a mount by its descriptor (`Host`), what the viewer reads from disk (`Env`), and
-- crossterm and ratatui (`Terminal`). These are arguments, and the theorems hold for each of them,
-- or for each that keeps the laws that they name (`ContentLaws`, `CurrentLaws`, `Tracks`,
-- `DescriptorLaws`, `ReadLaws`, `Restoring`, `Impatient`).
--
-- Bounds. The recorder's counter is a `u64` and wraps around: what says that its numbers rise
-- asks for fewer steps than the counter has values, three for each notification. So does what
-- says that file handles are distinct, one for each call. Offsets and lengths inside a content
-- are those of vectors that fit in memory, so their sums do not wrap around. The copy of a
-- directory has fuel, and Project.Termination says how much is enough: more than the source is
-- deep. So has the loop of `readdir`, and LibcBacking.Balanced and FdPoc.Descriptors say how
-- much: more than a directory has entries. So has the viewer's loop, and Viewer.Terminal.Ends
-- says how much: more than the turns until Ctrl-C is held down. Every other recursion is on a
-- list, or on the number of turns that a loop makes.
--
-- Not modelled: drawing (ui.rs); what the handlers of signals do when one comes (crates/ize);
-- storage/mod.rs, a placeholder; the script with which fuse-fd-poc mounts its file system and tries
-- it out; file times before the epoch, and poisoned locks.
pub mod Prelude
pub mod FilePath
pub mod Operations
pub mod Vcs
pub mod Filesystems
pub mod Pijul
pub mod FdPoc
pub mod Project
pub mod Viewer
pub mod Commands
