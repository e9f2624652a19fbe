-- ===== src/FdPoc/Descriptors.antt =====
-- crates/fuse-fd-poc/src/main.rs: the descriptors that are open after any calls, and once the file
-- system is dropped.
mod Steps
mod PathCalls
mod FileCalls
use ize.Prelude.{ℕ, ◌+◌, ◌<◌, ◌≡◌, ◌∙◌, Bool, List, [], ◌∷◌, to_num, arith, Dict, lookup, length}
use ize.FilePath.{FilePath}
use ize.Filesystems.Backing.{Libc}
use ize.Filesystems.Calls
use ize.Filesystems.Calls.{
  Call, init, destroy, getattr, readdir, open_file, read, write, create, mkdir, unlink, rmdir,
  rename, flush, release, access, setattr, statfs, opendir, releasedir, fsync,
}
use ize.Filesystems.Syscalls.{Syscalls}
use ize.Filesystems.Observing.Laws.{run_inner}
use ize.Filesystems.PassthroughFd.{Listed, Reply}
use ize.Filesystems.PassthroughFd.Descriptors.{opens}
use ize.FdPoc
use ize.FdPoc.{PocFs, new, drop_fs}
use ize.FdPoc.Paths
use ize.FdPoc.Files
use ize.FdPoc.Handle.{handle, poc_filesystem}
use ize.FdPoc.Laws
use ize.FdPoc.Laws.{Watch, close_all-opens}
use ize.Operations.Opcode.{u64_mod}
use ize.FdPoc.Descriptors.Steps.{Within, Fine, answer}
use ize.FdPoc.Descriptors.PathCalls.{
  lookup-Fine, reply_attr-Fine, mkdir-Fine, remove_entry-Fine, rename-Fine, access-Fine,
  statfs-Fine, opendir-Fine, readdir-Fine,
}
use ize.FdPoc.Descriptors.FileCalls.{
  open_file-Fine, create-Fine, read-Fine, write-Fine, flush-Fine, release-Fine, resize-Fine,
}

module _ (S : Syscalls) (W : Watch S) (c : Libc) (n before k : ℕ) where
  module _ (is_full : List Listed → Listed → Bool) (entries : Dict FilePath → Dict FilePath)
      (unhandled : Call → Reply) where
    handle-Fine :
        (call : Call) (fs : PocFs S)
        → k + 1 < u64_mod
        → Within S W c n before k k fs
        → Fine S W c n before k (handle S c is_full entries unhandled W.fuel call fs)
    unfolding handle Paths.getattr Paths.unlink Paths.rmdir Files.setattr
    handle-Fine init fs small within = answer S W c n before k fs _ within
    handle-Fine destroy fs small within = answer S W c n before k fs _ within
    handle-Fine (Calls.lookup parent name) fs small within =
        lookup-Fine S W c n before k parent name fs within
    handle-Fine (getattr ino fh) fs small within = reply_attr-Fine S W c n before k ino fs within
    handle-Fine (readdir ino fh offset) fs small within =
        readdir-Fine S W c n before k is_full ino offset fs within
    handle-Fine (open_file ino flags) fs small within =
        open_file-Fine S W c n before k ino flags fs small within
    handle-Fine (read ino fh offset size) fs small within =
        read-Fine S W c n before k fh offset size fs within
    handle-Fine (write ino fh offset bytes) fs small within =
        write-Fine S W c n before k fh offset bytes fs within
    handle-Fine (create parent name mode umask flags) fs small within =
        create-Fine S W c n before k parent name mode flags fs small within
    handle-Fine (mkdir parent name mode umask) fs small within =
        mkdir-Fine S W c n before k parent name mode fs within
    handle-Fine (unlink parent name) fs small within =
        remove_entry-Fine S W c n before k 0 parent name fs within
    handle-Fine (rmdir parent name) fs small within =
        remove_entry-Fine S W c n before k S.at_removedir parent name fs within
    handle-Fine (rename parent name newparent newname flags) fs small within =
        rename-Fine S W c n before k entries parent name newparent newname fs within
    handle-Fine (flush ino fh) fs small within = flush-Fine S W c n before k fh fs within
    handle-Fine (release ino fh) fs small within = release-Fine S W c n before k fh fs within
    handle-Fine (access ino mask) fs small within = access-Fine S W c n before k ino mask fs within
    handle-Fine (setattr ino a) fs small within =
        resize-Fine S W c n before k a.size a.fh ino fs within
    handle-Fine (statfs ino) fs small within = statfs-Fine S W c n before k fs within
    handle-Fine (opendir ino flags) fs small within = opendir-Fine S W c n before k fs small within
    handle-Fine (releasedir ino fh) fs small within = answer S W c n before k fs _ within
    handle-Fine (fsync ino fh datasync) fs small within = answer S W c n before k fs _ within

    pub handle-Within :
        (call : Call) (fs : PocFs S)
        → k + 1 < u64_mod
        → Within S W c n before k k fs
        → Within S W c n before k (k + 1) (handle S c is_full entries unhandled W.fuel call fs).0
    unfolding Fine
    handle-Within call fs small within = handle-Fine call fs small within

module _ (S : Syscalls) (W : Watch S) (c : Libc) (is_full : List Listed → Listed → Bool)
    (entries : Dict FilePath → Dict FilePath) (unhandled : Call → Reply) (n : ℕ) where
  abbrev served : List Call → PocFs S → PocFs S
  served calls fs = (run_inner (poc_filesystem S c is_full entries unhandled W.fuel) calls fs).0

  run-Owned :
      (before k : ℕ) (calls : List Call) (fs : PocFs S)
      → k + length calls < u64_mod
      → Laws.Within S W.is_open W.fd_of W.left W.laws n before k k fs
      → Laws.Owned S W.is_open W.fd_of W.left W.laws n before k (served calls fs)
  unfolding run_inner
  run-Owned before k [] fs small within = within.0
  run-Owned before k (call ∷ calls) fs small within =
      run-Owned before (k + 1) calls _ (omega arith)
        (handle-Within S W c n before k is_full entries unhandled call fs (omega arith) within)

  drop_fs-Owned :
      (s : S.State) (fs : PocFs S)
      → to_num (W.is_open n fs.kernel) ≡ to_num (W.is_open n s) + opens n fs.open_files
      → W.is_open n (drop_fs S fs) ≡ W.is_open n s
  unfolding drop_fs
  drop_fs-Owned s fs owned =
      close_all-opens S W.is_open W.fd_of W.left W.laws n 0 0 fs.open_files fs.kernel
      ∙ ground (arith, owned)

  -- The proof of concept leaks no descriptor: a file system is made over a base descriptor, it serves
  -- calls, fewer than there are file handles, and is dropped. Then each descriptor is open exactly if
  -- it was at the start, so that the base descriptor still is. The kernel keeps to its documentation,
  -- and the fuel is more than any directory has entries.
  pub drop_fs-keeps_open :
      (base_fd : ℕ) (mount_point : FilePath) (s : S.State) (calls : List Call)
      → 1 + length calls < u64_mod
      → W.is_open n (drop_fs S (served calls (new S base_fd mount_point s))) ≡ W.is_open n s
  unfolding new
  drop_fs-keeps_open base_fd mount_point s calls small =
      drop_fs-Owned s (served calls (new S base_fd mount_point s))
        (run-Owned (to_num (W.is_open n s)) 1 calls (new S base_fd mount_point s) small
          ((omega arith, tt), omega arith)).0
