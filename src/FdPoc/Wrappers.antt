-- ===== src/FdPoc/Wrappers.antt =====
-- crates/fuse-fd-poc/src/main.rs: what the wrappers of libc do to the open descriptors.
use Prim.Native.Nat.{bit_or}
use ize.Prelude.{
  ℕ, ◌≡◌, refl, ℤ, pos, negsuc, List, Option, some, Result, ok, err, String, str_is_empty,
  intercalate, if_either, arith,
}
use ize.FilePath.{FilePath}
use ize.Filesystems.Backing.{Libc, IoError, DirEntry, Stat}
use ize.Filesystems.Syscalls.{Syscalls}
use ize.Filesystems.LibcBacking.{Outcome, checked_with, rel_cpath}
use ize.Filesystems.LibcBacking.Readdir.{read_stream}
use ize.Filesystems.LibcBacking.Laws.{Keeps, Opened, OpenedResult, checked-OpenedResult}
use ize.Filesystems.LibcBacking.Balanced.{read_stream-Finishes}
use ize.Filesystems.LibcBacking.Tracked.{checked-Keeps}
use ize.FdPoc.{PocFs, sys_openat, sys_fstat, sys_readdir, sys_fstatat, open_rel_dir, stat_rel}
use ize.FdPoc.Laws.{Watch}

module _ (S : Syscalls) (W : Watch S) (n : ℕ) where
  pub checked_with-Keeps :
      {A B : Type 0} (s : S.State) (value : ℕ → A → B) (out : S.State × ℤ × A)
      → Keeps W.is_open n s out.0
      → Keeps W.is_open n s (checked_with S value out).0
  unfolding checked_with
  checked_with-Keeps s value (s', m, buffer) keeps =
      checked-Keeps S W.is_open W.fd_of W.left W.laws n s (λ m. value m buffer) (s', m) keeps

  pub stat_rel-Keeps :
      (fs : PocFs S) (rel : FilePath) → Keeps W.is_open n fs.kernel (stat_rel S fs rel).0
  unfolding stat_rel sys_fstat sys_fstatat
  stat_rel-Keeps fs rel =
      if_either (λ (out : Outcome S Stat). Keeps W.is_open n fs.kernel out.0)
        (str_is_empty (intercalate rel)) _ _
        (checked_with-Keeps fs.kernel _ (S.fstat fs.base_fd fs.kernel)
          (W.reads.fstat n fs.base_fd fs.kernel))
        (by_path (rel_cpath rel))
    where
      by_path :
          (path : Result String IoError)
          → Keeps W.is_open n fs.kernel
              (elim path as (λ x. Outcome S Stat) [
                | err e ↦ (fs.kernel, err e)
                | ok path ↦ sys_fstatat S fs.base_fd path S.at_symlink_nofollow fs.kernel
              ]).0
      by_path (err e) = refl
      by_path (ok path) =
          checked_with-Keeps fs.kernel (λ n stat_buf. stat_buf)
            (S.fstatat fs.base_fd path S.at_symlink_nofollow fs.kernel)
            (W.reads.fstatat n fs.base_fd path S.at_symlink_nofollow fs.kernel)

  pub sys_openat-OpenedResult :
      (fd : ℕ) (path : String) (flags mode : ℕ) (s : S.State)
      → OpenedResult S W.is_open W.fd_of W.left W.laws n s (sys_openat S fd path flags mode s)
  unfolding sys_openat
  sys_openat-OpenedResult fd path flags mode s =
      checked-OpenedResult S W.is_open W.fd_of W.left W.laws n s _
        (W.laws.openat n fd path flags mode s)

  pub open_rel_dir-OpenedResult :
      (c : Libc) (fs : PocFs S) (rel : FilePath)
      → OpenedResult S W.is_open W.fd_of W.left W.laws n fs.kernel (open_rel_dir S c fs rel)
  unfolding open_rel_dir
  open_rel_dir-OpenedResult c fs rel = by_path (rel_cpath rel)
    where
      by_path :
          (path : Result String IoError)
          → OpenedResult S W.is_open W.fd_of W.left W.laws n fs.kernel
              (elim path as (λ x. Outcome S ℕ) [
                | err e ↦ (fs.kernel, err e)
                | ok path ↦
                    sys_openat S fs.base_fd path
                      (bit_or (bit_or S.o_rdonly S.o_directory) c.o_nofollow)
                      0
                      fs.kernel
              ])
      by_path (err e) = refl
      by_path (ok path) =
          sys_openat-OpenedResult fs.base_fd path
            (bit_or (bit_or S.o_rdonly S.o_directory) c.o_nofollow) 0 fs.kernel

  -- The call returns, and every descriptor is as it was.
  abbrev pub Returns : S.State → S.State × Option (Result (List DirEntry) IoError) → Type 0
  Returns s out =
      (result : Result (List DirEntry) IoError) × (out.1 ≡ some result) × Keeps W.is_open n s out.0

  duplicated-Returns :
      (s : S.State) (out : S.State × ℤ)
      → Opened W.is_open n s out
      → Returns s (elim out.1 as (λ x. S.State × Option (Result (List DirEntry) IoError)) [
        | negsuc k ↦ (out.0, some (err (some (S.errno out.0))))
        | pos fd ↦ read_stream S W.fuel fd (S.rewind fd out.0).0
      ])
  duplicated-Returns s (s', negsuc k) same = (_, refl, same)
  duplicated-Returns s (s', pos fd) (fresh, both) =
      let (result, same, closed) =
        read_stream-Finishes S W.is_open W.fd_of W.left W.laws W.fuel W.enough n fd
          (S.rewind fd s').0 in
      (result, same, ground (arith, closed, fresh, both, W.reads.rewind n fd s'))

  -- If the fuel is more than any directory has entries, the listing returns, and on each of its
  -- paths the table of descriptors is afterwards as it was before.
  pub sys_readdir-Returns : (fd : ℕ) (s : S.State) → Returns s (sys_readdir S W.fuel fd s)
  unfolding sys_readdir
  sys_readdir-Returns fd s = duplicated-Returns s (S.dup fd s) (W.laws.dup n fd s)
