-- ===== src/Filesystems/PassthroughFd/Tests.antt =====
-- The file system at work on a small backing store.
pub mod Store
use ize.Prelude.{
  ℕ, ◌+◌, ◌≡◌, refl, Bool, true, false, List, [], ◌∷◌, ◌++◌, some, none, pos, arith, to_num, length,
  drop, get_elem?, lookup,
}
use ize.FilePath.{root, join}
use ize.Filesystems.Calls.{Call, mkdir, open_file, create, release}
use ize.Filesystems.Observer
use ize.Filesystems.Observer.{Event}
use ize.Filesystems.Observing
use ize.Filesystems.Observing.{Clock, ObservingFs, FsObserver}
use ize.Filesystems.Observing.Laws.{run_inner, hear, event_of}
use ize.Operations.Opcode.{since_epoch}
use ize.Filesystems.PassthroughFd.{
  FdPassthroughFs, Listed, error, directory_listing, get_rel_path, new,
}
use ize.Filesystems.PassthroughFd.Paths
use ize.Filesystems.PassthroughFd.Paths.{readdir, listing, rename}
use ize.Filesystems.PassthroughFd.Handle.{handle, fd_filesystem}
use ize.Filesystems.PassthroughFd.ReadOnly.{mutation_refused, refused_is_heard}
use ize.Filesystems.PassthroughFd.Descriptors.{opens}
use ize.Filesystems.PassthroughFd.Descriptors.Owned.{descriptors_owned}
use ize.Filesystems.PassthroughFd.Inodes.{rename_remaps}
use ize.Filesystems.PassthroughFd.Listing.{readdir_resumes}
use ize.Filesystems.PassthroughFd.Files
use ize.Filesystems.PassthroughFd.Tests.Store.{
  linux, plain_stat, two_entries, store, is_open, store-Tracks, one_at_a_time,
}

abbrev opens_and_closes : List Call
opens_and_closes =
    create 1 "a" 0o644 0 2 ∷ open_file 1 0 ∷ release 41 1 ∷ create 1 "b" 0o644 0 1 ∷ []

descriptors_owned_example :
    let fs =
      (run_inner
        (fd_filesystem linux one_at_a_time store)
        opens_and_closes
        (new linux store [] root)).0 in
    to_num (is_open 2 fs.backing) ≡ opens 2 fs.open_files
descriptors_owned_example =
    descriptors_owned linux one_at_a_time store is_open store-Tracks [] root opens_and_closes 2 refl
      (omega arith)

abbrev mounted : Bool → FdPassthroughFs (List ℕ)
mounted read_only = record {
  backing = [];
  inode_to_path = (1, []) ∷ (41, "docs" ∷ []) ∷ [];
  next_fh = 1;
  open_files = [];
  read_only = read_only;
  ignore_filters = [];
  mount_point = "mnt" ∷ [];
}

abbrev dawn : Clock
dawn = record { atime_now = since_epoch 6; mtime_now = since_epoch 6 }

mutation_refused_example :
    handle linux one_at_a_time store (mkdir 1 "new" 0o755 0) (mounted true)
    ≡ (mounted true, error 30)
unfolding event_of
mutation_refused_example =
    mutation_refused linux one_at_a_time store dawn (mkdir 1 "new" 0o755 0)
      (Observer.mkdir 1 "new" 0o755 none) (mounted true) refl refl

abbrev note : FsObserver (fd_filesystem linux one_at_a_time store) (List Event)
note e fs heard = heard ++ (e ∷ [])

abbrev watched : ObservingFs (fd_filesystem linux one_at_a_time store) (List Event)
watched = record { inner = mounted true; observers = note ∷ []; world = [] }

refused_is_heard_example :
    Observing.handle dawn (mkdir 1 "new" 0o755 0) watched
    ≡ (record watched { world = Observer.mkdir 1 "new" 0o755 none ∷ [] }, error 30)
unfolding event_of hear
refused_is_heard_example =
    refused_is_heard linux one_at_a_time store {World = List Event} dawn (mkdir 1 "new" 0o755 0)
      (Observer.mkdir 1 "new" 0o755 none) watched refl refl

rename_remaps_example :
    get_rel_path (rename linux store 1 "docs" 1 "old" (mounted false)).0 41 ≡ some ("old" ∷ [])
unfolding get_rel_path lookup join
rename_remaps_example =
    rename_remaps linux store (mounted false) 1 1 "docs" "old" [] [] (plain_stat 41) refl refl refl
      refl refl 41

abbrev found : FdPassthroughFs (List ℕ)
found = (Paths.lookup linux store 1 "docs" (mounted false)).0

readdir_resumes_example :
    let whole = listing linux store 0 two_entries in
    (page : List Listed) × ((readdir linux store one_at_a_time 1 (pos 1) (mounted false)).1
      ≡ directory_listing page)
    × (page ++ drop (1 + length page) whole ≡ drop 1 whole)
    × ((j : ℕ) (e : Listed) → get_elem? page j ≡ some e → e.offset ≡ 1 + j + 1)
unfolding get_rel_path lookup
readdir_resumes_example =
    readdir_resumes linux store one_at_a_time (mounted false) 1 (pos 1) [] two_entries refl refl
