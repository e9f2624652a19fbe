-- ===== src/FdPoc/Descriptors/PathCalls.antt =====
-- crates/fuse-fd-poc/src/main.rs: the descriptors after the handlers that work on paths.
use native.Mathlib.Nat.{mod-eq_of_lt}
use ize.Prelude.{
  ℕ, ◌+◌, ◌%◌, ◌<◌, ◌≡◌, ℤ, Bool, ◌||◌, List, [], ◌∷◌, Option, none, some, String, str_eq,
  if_either, arith, Dict,
}
use ize.FilePath.{FilePath, join}
use ize.Filesystems.Backing.{Libc, DirEntry}
use ize.Filesystems.Syscalls.{Syscalls}
use ize.Filesystems.PassthroughFd.{Listed}
use ize.Filesystems.PassthroughFd.Descriptors.{Descends-mono}
use ize.Filesystems.LibcBacking.{nothing}
use ize.FdPoc.{
  PocFs, register_inode, sys_readdir, sys_mkdirat, sys_unlinkat, sys_renameat, alloc_fh,
}
use ize.FdPoc.Paths
use ize.FdPoc.Laws
use ize.FdPoc.Wrappers.{open_rel_dir-OpenedResult, sys_readdir-Returns}
use ize.FdPoc.Laws.{Watch}
use ize.Operations.Opcode.{u64_mod}
use ize.FdPoc.Descriptors.Steps.{
  Within, Holds, Fine, answer, at_inode-Fine, at_cpath-Fine, on_stat, on_checked, on_filled,
  on_open, on_closed,
}

module _ (S : Syscalls) (W : Watch S) (c : Libc) (n before k : ℕ) where
  pub lookup-Fine :
      (parent : ℕ) (name : String) (fs : PocFs S)
      → Within S W c n before k k fs
      → Fine S W c n before k (Paths.lookup S c parent name fs)
  unfolding Paths.lookup register_inode
  lookup-Fine parent name fs within = at_inode-Fine S W c n before k parent fs _ within λ rel.
      on_stat S W c n before k c.enoent fs (join rel name) _ within
        λ st fs. answer S W c n before k _ _

  pub reply_attr-Fine :
      (ino : ℕ) (fs : PocFs S)
      → Within S W c n before k k fs
      → Fine S W c n before k (Paths.reply_attr S c ino fs)
  unfolding Paths.reply_attr
  reply_attr-Fine ino fs within =
      at_inode-Fine S W c n before k ino fs _ within
        λ rel. on_stat S W c n before k c.eio fs rel _ within λ st fs. answer S W c n before k _ _

  pub mkdir-Fine :
      (parent : ℕ) (name : String) (mode : ℕ) (fs : PocFs S)
      → Within S W c n before k k fs
      → Fine S W c n before k (Paths.mkdir S c parent name mode fs)
  unfolding Paths.mkdir register_inode sys_mkdirat
  mkdir-Fine parent name mode fs within = at_inode-Fine S W c n before k parent fs _ within λ rel.
      at_cpath-Fine S W c n before k (join rel name) fs _ within λ path.
        on_checked S W c n before k c.eio fs nothing _ _
          (W.laws.mkdirat n fs.base_fd path mode fs.kernel) within
          λ u fs within.
            on_stat S W c n before k c.eio fs (join rel name) _ within
              λ st fs. answer S W c n before k _ _

  pub remove_entry-Fine :
      (flags parent : ℕ) (name : String) (fs : PocFs S)
      → Within S W c n before k k fs
      → Fine S W c n before k (Paths.remove_entry S c flags parent name fs)
  unfolding Paths.remove_entry sys_unlinkat
  remove_entry-Fine flags parent name fs within =
      at_inode-Fine S W c n before k parent fs _ within λ rel.
        at_cpath-Fine S W c n before k (join rel name) fs _ within λ path.
          on_checked S W c n before k c.eio fs nothing _ _
            (W.laws.unlinkat n fs.base_fd path flags fs.kernel) within
            λ u fs. answer S W c n before k _ _

  pub remapped-Within :
      (found : Option ℕ) (rel : FilePath) (fs : PocFs S)
      → Within S W c n before k k fs
      → Within S W c n before k k (Paths.remapped S c found rel fs)
  unfolding Paths.remapped register_inode
  remapped-Within none rel fs within = within
  remapped-Within (some ino) rel fs within = within

  pub rename-Fine :
      (entries : Dict FilePath → Dict FilePath) (parent : ℕ) (name : String) (newparent : ℕ)
      (newname : String) (fs : PocFs S)
      → Within S W c n before k k fs
      → Fine S W c n before k (Paths.rename S c entries parent name newparent newname fs)
  unfolding Paths.rename sys_renameat
  rename-Fine entries parent name newparent newname fs within =
      at_inode-Fine S W c n before k parent fs _ within λ old_rel.
        at_inode-Fine S W c n before k newparent fs _ within λ new_rel.
          at_cpath-Fine S W c n before k (join old_rel name) fs _ within λ old_c.
            at_cpath-Fine S W c n before k (join new_rel newname) fs _ within λ new_c.
              on_checked S W c n before k c.eio fs nothing _ _
                (W.laws.renameat n fs.base_fd old_c fs.base_fd new_c fs.kernel) within
                λ u fs within.
                  answer S W c n before k _ _ (remapped-Within _ (join new_rel newname) fs within)

  pub access-Fine :
      (ino mask : ℕ) (fs : PocFs S)
      → Within S W c n before k k fs
      → Fine S W c n before k (Paths.access S c ino mask fs)
  unfolding Paths.access
  access-Fine ino mask fs within = at_inode-Fine S W c n before k ino fs _ within λ rel.
      at_cpath-Fine S W c n before k rel fs _ within λ path.
        on_checked S W c n before k c.eacces fs nothing _ _
          (W.reads.faccessat n fs.base_fd path mask _ fs.kernel) within
          λ u fs. answer S W c n before k _ _

  pub statfs-Fine :
      (fs : PocFs S) → Within S W c n before k k fs → Fine S W c n before k (Paths.statfs S c fs)
  unfolding Paths.statfs
  statfs-Fine fs within =
      on_filled S W c n before k c.eio fs (λ n stfs. stfs) _ _
        (W.reads.fstatvfs n fs.base_fd fs.kernel) within λ stfs fs. answer S W c n before k _ _

  pub opendir-Fine :
      (fs : PocFs S)
      → k + 1 < u64_mod
      → Within S W c n before k k fs
      → Fine S W c n before k (Paths.opendir S c fs)
  unfolding Fine Paths.opendir alloc_fh
  opendir-Fine fs small ((owned, table), le) =
      let next : (fs.next_fh + 1) % u64_mod ≡ fs.next_fh + 1 = mod-eq_of_lt (omega arith) in
      rw next (
        (owned, Descends-mono fs.next_fh (fs.next_fh + 1) fs.open_files (omega arith) table),
        omega arith,
      )

  pub register_entries-Within :
      (rel : FilePath) (es : List DirEntry) (fs : PocFs S)
      → Within S W c n before k k fs
      → Within S W c n before k k (Paths.register_entries S c rel es fs)
  unfolding Paths.register_entries register_inode
  register_entries-Within rel [] fs within = within
  register_entries-Within rel (e ∷ es) fs within = register_entries-Within rel es _ (
      if_either (Within S W c n before k k) (str_eq e.name "." || str_eq e.name "..") fs
        (register_inode S fs e.ino (join rel e.name)) within within)

  pub readdir-Fine :
      (is_full : List Listed → Listed → Bool) (ino : ℕ) (offset : ℤ) (fs : PocFs S)
      → Within S W c n before k k fs
      → Fine S W c n before k (Paths.readdir S c is_full W.fuel ino offset fs)
  unfolding Paths.readdir Paths.read_and_close
  readdir-Fine is_full ino offset fs within = at_inode-Fine S W c n before k ino fs _ within λ rel.
      on_open S W c n before k c.eio fs _ _ (open_rel_dir-OpenedResult S W n c fs rel) within
        λ fd fs holds.
          on_closed S W c n before k c.eio fs _ _ (listed fd fs holds)
            λ es fs within. answer S W c n before k _ _ (register_entries-Within rel es fs within)
    where
      listed :
          (fd : ℕ) (fs : PocFs S)
          → Holds S W c n before k fd fs
          → Within S W c n before k k
              (record fs { kernel = (Paths.read_and_close S c is_full W.fuel fd fs).0 })
      listed fd fs holds =
          let (result, same, keeps) = sys_readdir-Returns S W n fd fs.kernel in
          Laws.closed S W.is_open W.fd_of W.left W.laws n before k fd
            (record fs { kernel = (sys_readdir S W.fuel fd fs.kernel).0 })
            (Laws.held S W.is_open W.fd_of W.left W.laws n before k fd fs
              (sys_readdir S W.fuel fd fs.kernel).0 keeps holds)
