-- ===== src/Filesystems/Passthrough/Tests.antt =====
-- The file system at work on a small disk.
pub mod Disk
use text.Mathlib.TextEquality.{eq_iff}
use ize.Prelude.{
  if◌then◌else◌, ◌==◌, ℕ, ◌≡◌, refl, Bool, false, List, [], ◌∷◌, All, none, Result, ok, arith,
}
use ize.FilePath.{FilePath}
use ize.Filesystems.Backing.{IoError}
use ize.Filesystems.StdFs.{DirItem}
use ize.Filesystems.Calls.{rename}
use ize.Filesystems.PassthroughFd.{error}
use ize.Filesystems.PassthroughFd.Tests.Store.{linux, one_at_a_time}
use ize.Filesystems.Passthrough.{PassthroughFs, get_path_for_inode}
use ize.Filesystems.Passthrough.Tests.Disk.{plain, listed, small}
use ize.Filesystems.Passthrough.Entries
use ize.Filesystems.Passthrough.Change
use ize.Filesystems.Passthrough.Open
use ize.Filesystems.Passthrough.Handle.{handle}
use ize.Filesystems.Passthrough.Contained.Below.{IsContained, IsBelow}
use ize.Filesystems.Passthrough.Contained.{PlainItem, PlainCall, handle-IsContained}
use ize.Filesystems.Passthrough.Refusals.{unlink-forgets_target}

abbrev mounted : Bool → PassthroughFs ℕ FilePath
mounted read_only = record {
  disk = 0;
  source_dir = "src" ∷ [];
  mount_point = "mnt" ∷ [];
  read_only = read_only;
  inode_to_path = (1, []) ∷ (42, "docs" ∷ []) ∷ [];
  next_fh = 1;
  file_handles = [];
}

small-PlainItem :
    (p : FilePath) (items : List (Result DirItem IoError))
    → small.read_dir p 0 ≡ ok items
    → All (PlainItem linux small) items
unfolding PlainItem
small-PlainItem p items h =
    let same : items ≡ listed = cc h in rw same (ground (arith, eq_iff "a" ".."), (tt, tt))

old-PlainCall : PlainCall linux small (rename 1 "docs" 42 "old" 0)
unfolding PlainCall
old-PlainCall = ground (arith, eq_iff "old" "..")

mounted-IsContained : IsContained (mounted false).inode_to_path
unfolding IsContained IsBelow
mounted-IsContained = (tt, ((ground (arith, eq_iff "docs" ".."), tt), tt))

handle-IsContained_example :
    IsContained
      (handle linux one_at_a_time small
        (rename 1 "docs" 42 "old" 0)
        (mounted false)).0.inode_to_path
handle-IsContained_example =
    handle-IsContained linux small one_at_a_time (rename 1 "docs" 42 "old" 0) (mounted false)
      old-PlainCall small-PlainItem mounted-IsContained

abbrev found : PassthroughFs ℕ FilePath
found = (Entries.lookup linux small 1 "docs" (mounted false)).0

abbrev opened_once : PassthroughFs ℕ FilePath
opened_once = (Open.open_file linux small 42 0 (mounted false)).0

-- The entry `link` leads to `docs`, and has its inode.
unlink-forgets_target_example :
    let fs' = (Change.unlink linux small 1 "link" (mounted false)).0 in
    (Entries.getattr linux small 42 fs' ≡ (fs', error 2))
    × (small.metadata ("src" ∷ "docs" ∷ []) fs'.disk ≡ ok (plain 42))
    × ((j : ℕ)
        → get_path_for_inode fs' j
          ≡ (if 42 == j then none else get_path_for_inode (mounted false) j))
unfolding ize.Filesystems.Passthrough.parent_path ize.Filesystems.Passthrough.to_real
    ize.FilePath.join get_path_for_inode ize.Prelude.lookup ize.FilePath.path_eq Change.unlink
    ize.Filesystems.Passthrough.unregister_inode
unlink-forgets_target_example =
    unlink-forgets_target linux small (mounted false) 1 "link" [] ("docs" ∷ []) (plain 42)
      (plain 42) refl refl refl refl refl refl refl
