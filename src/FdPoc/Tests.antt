-- ===== src/FdPoc/Tests.antt =====
-- The proof of concept over a small kernel: a file is made, read and left open, a directory is listed.
use mathlib.Core.List.Perm
use mathlib.Core.List.{reverse_perm}
use ize.Prelude.{reverse, ◌≤◌, ℕ, ◌≡◌, refl, pos, List, [], ◌∷◌, none, some, arith}
use ize.FilePath.{path_eq, FilePath, root}
use ize.Filesystems.Calls.{Call, Attributes, create, open_file, read, readdir, release, setattr}
use ize.Filesystems.Observing.Laws.{run_inner}
use ize.Filesystems.PassthroughFd.{Reply, error}
use ize.Filesystems.PassthroughFd.Tests.Store.{linux, one_at_a_time}
use ize.Filesystems.LibcBacking.Tests.{
  kernel, in_table, stream_fd, left, with_base, few_entries, kernel-DescriptorLaws,
}
use ize.FdPoc.{PocFs, new, drop_fs}
use ize.FdPoc.Handle.{poc_filesystem}
use ize.FdPoc.Laws.{ReadLaws, Watch}
use ize.FdPoc.Paths.{rename}
use ize.FdPoc.Order.{inodes_at, rename_any_order}
use ize.FdPoc.Descriptors.{drop_fs-keeps_open}

kernel-ReadLaws : ReadLaws kernel in_table
kernel-ReadLaws = record {
  rewind = λ n fd s. refl;
  fstatat = λ n fd p flags s. refl;
  fstat = λ n fd s. refl;
  pread = λ n fd size offset s. refl;
  faccessat = λ n fd p mask flags s. refl;
  fstatvfs = λ n fd s. refl;
}

abbrev kernel_watch : Watch kernel
kernel_watch = record {
  is_open = in_table;
  fd_of = stream_fd;
  left = left;
  laws = kernel-DescriptorLaws;
  reads = kernel-ReadLaws;
  fuel = 3;
  enough = few_entries;
}

abbrev new_size : Attributes
new_size = record {
  mode = none;
  uid = none;
  gid = none;
  size = some 4;
  atime = none;
  mtime = none;
  fh = some 1;
}

abbrev calls : List Call
calls =
    create 1 "a" 0o644 0 2
    ∷ open_file 41 0
    ∷ read 41 1 (pos 0) 2
    ∷ setattr 41 new_size
    ∷ readdir 1 0 (pos 0)
    ∷ release 41 1
    ∷ []

abbrev unhandled : Call → Reply
unhandled call = error 38

abbrev in_order : List (ℕ × FilePath) → List (ℕ × FilePath)
in_order entries = entries

abbrev served_kernel : PocFs kernel × List Reply
served_kernel =
    run_inner (poc_filesystem kernel linux one_at_a_time in_order unhandled 3) calls
      (new kernel 1 root with_base)

drop_fs-keeps_open_example : in_table 4 (drop_fs kernel served_kernel.0) ≡ in_table 4 with_base
drop_fs-keeps_open_example =
    drop_fs-keeps_open kernel kernel_watch linux one_at_a_time in_order unhandled 4 1 root with_base
      calls (omega arith)

-- A directory's file and its root.
abbrev two_inodes : PocFs kernel
two_inodes = record served_kernel.0 { inode_to_path = (41, "a" ∷ []) ∷ (1, []) ∷ [] }

one_inode_each : (path : FilePath) → inodes_at path two_inodes.inode_to_path ≤ 1
unfolding inodes_at path_eq
one_inode_each [] = ground arith
one_inode_each (c ∷ path) = ground arith

rename_any_order_example :
    rename kernel linux in_order 1 "a" 1 "b" two_inodes
    ≡ rename kernel linux reverse 1 "a" 1 "b" two_inodes
rename_any_order_example =
    rename_any_order kernel linux in_order reverse (λ m. Perm.refl m)
      (λ m. Perm.symm (reverse_perm m)) 1 "a" 1 "b" two_inodes one_inode_each
