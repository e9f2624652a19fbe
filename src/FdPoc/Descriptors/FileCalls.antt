-- ===== src/FdPoc/Descriptors/FileCalls.antt =====
-- crates/fuse-fd-poc/src/main.rs: the descriptors after the handlers that work on open files.
use ize.Prelude.{
  ℕ, ◌+◌, ◌<◌, ◌≡◌, refl, sym, ap, ◌∙◌, ℤ, Option, none, some, ok, err, String, to_num, arith,
  lookup, remove, take, as_i64,
}
use ize.FilePath.{FilePath, join}
use ize.Filesystems.Backing.{Libc, Stat}
use ize.Filesystems.Syscalls.{Syscalls}
use ize.Filesystems.PassthroughFd.{OpenFile, Reply, created, opened, stat_to_attr}
use ize.Filesystems.PassthroughFd.Descriptors.{opens, opens-remove, remove-Descends}
use ize.Filesystems.LibcBacking.{Outcome, nothing}
use ize.Filesystems.LibcBacking.Laws.{Keeps}
use ize.Filesystems.LibcBacking.Tracked.{checked-Keeps}
use ize.FdPoc.{PocFs, register_inode, close_dropped, sys_fstat}
use ize.FdPoc.Answers.{Answer}
use ize.FdPoc.Files
use ize.FdPoc.Files.{created_file, truncate_and_close, resize, file_of}
use ize.FdPoc.Laws
use ize.FdPoc.Wrappers.{checked_with-Keeps, sys_openat-OpenedResult}
use ize.FdPoc.Laws.{Watch, remove_missing}
use ize.Operations.Opcode.{u64_mod}
use ize.Operations.Operation.{Bytes}
use ize.FdPoc.Descriptors.Steps.{
  Within, Holds, Fine, answer, at_inode-Fine, at_cpath-Fine, on_checked, on_filled, on_open,
  on_closed,
}
use ize.FdPoc.Descriptors.PathCalls.{reply_attr-Fine}

module _ (S : Syscalls) (W : Watch S) (c : Libc) (n before k : ℕ) where
  pub into_table-Fine :
      (file : OpenFile) (reply : ℕ → Reply) (fs : PocFs S)
      → k + 1 < u64_mod
      → Holds S W c n before k file.fd fs
      → Fine S W c n before k (Files.into_table S c file reply fs)
  unfolding Fine
  into_table-Fine file reply fs small holds =
      Laws.add_open_file-Within S W.is_open W.fd_of W.left W.laws n before k file fs small holds

  pub open_file-Fine :
      (ino flags : ℕ) (fs : PocFs S)
      → k + 1 < u64_mod
      → Within S W c n before k k fs
      → Fine S W c n before k (Files.open_file S c ino flags fs)
  unfolding Files.open_file
  open_file-Fine ino flags fs small within = at_inode-Fine S W c n before k ino fs _ within λ rel.
      at_cpath-Fine S W c n before k rel fs _ within λ path.
        on_open S W c n before k c.eio fs _ _
          (sys_openat-OpenedResult S W n fs.base_fd path _ 0 fs.kernel) within
          λ fd fs.
            into_table-Fine (record { fd = fd; rel_path = rel; flags = flags }) opened fs small

  pub created_file-Fine :
      (fd : ℕ) (rel : FilePath) (flags : ℕ) (out : Outcome S Stat) (fs : PocFs S)
      → k + 1 < u64_mod
      → Keeps W.is_open n fs.kernel out.0
      → Holds S W c n before k fd fs
      → Fine S W c n before k (created_file S c fd rel flags out fs)
  unfolding created_file register_inode
  created_file-Fine fd rel flags (s, ok st) fs small keeps holds =
      into_table-Fine (record { fd = fd; rel_path = rel; flags = flags })
        (created (stat_to_attr c st st.st_ino))
        (register_inode S (record fs { kernel = s }) st.st_ino rel) small
        (Laws.held S W.is_open W.fd_of W.left W.laws n before k fd fs s keeps holds)
  created_file-Fine fd rel flags (s, err e) fs small keeps holds = answer S W c n before k _ _ (
      Laws.closed S W.is_open W.fd_of W.left W.laws n before k fd (record fs { kernel = s })
        (Laws.held S W.is_open W.fd_of W.left W.laws n before k fd fs s keeps holds))

  pub create-Fine :
      (parent : ℕ) (name : String) (mode flags : ℕ) (fs : PocFs S)
      → k + 1 < u64_mod
      → Within S W c n before k k fs
      → Fine S W c n before k (Files.create S c parent name mode flags fs)
  unfolding Files.create sys_fstat
  create-Fine parent name mode flags fs small within =
      at_inode-Fine S W c n before k parent fs _ within λ rel.
        at_cpath-Fine S W c n before k (join rel name) fs _ within λ path.
          on_open S W c n before k c.eio fs _ _
            (sys_openat-OpenedResult S W n fs.base_fd path _ mode fs.kernel) within
            λ fd fs.
              created_file-Fine fd (join rel name) flags _ fs small
                (checked_with-Keeps S W n fs.kernel _ _ (W.reads.fstat n fd fs.kernel))

  -- A call that reads the table of open files.
  pub on_file :
      (file : Option OpenFile) (fs : PocFs S) (missing : Reply) (f : OpenFile → Answer S)
      → Within S W c n before k k fs
      → ((file : OpenFile) → Fine S W c n before k (f file))
      → Fine S W c n before k
          (elim file as (λ x. Answer S) [ none ↦ (fs, missing) | some file ↦ f file ])
  on_file none fs missing f within next = answer S W c n before k fs missing within
  on_file (some file) fs missing f within next = next file

  pub read-Fine :
      (fh : ℕ) (offset : ℤ) (size : ℕ) (fs : PocFs S)
      → Within S W c n before k k fs
      → Fine S W c n before k (Files.read S c fh offset size fs)
  unfolding Files.read
  read-Fine fh offset size fs within = on_file (file_of S c fs fh) fs _ _ within λ file.
      on_filled S W c n before k c.eio fs take _ _ (W.reads.pread n file.fd size offset fs.kernel)
        within λ buf fs. answer S W c n before k _ _

  pub write-Fine :
      (fh : ℕ) (offset : ℤ) (bytes : Bytes) (fs : PocFs S)
      → Within S W c n before k k fs
      → Fine S W c n before k (Files.write S c fh offset bytes fs)
  unfolding Files.write
  write-Fine fh offset bytes fs within = on_file (file_of S c fs fh) fs _ _ within λ file.
      on_checked S W c n before k c.eio fs (λ n. n) _ _
        (W.laws.pwrite n file.fd bytes offset fs.kernel) within λ m fs. answer S W c n before k _ _

  pub flush-Fine :
      (fh : ℕ) (fs : PocFs S)
      → Within S W c n before k k fs
      → Fine S W c n before k (Files.flush S c fh fs)
  unfolding Files.flush
  flush-Fine fh fs within = on_file (file_of S c fs fh) fs _ _ within λ file.
      on_checked S W c n before k c.eio fs nothing _ _ (W.laws.fsync n file.fd fs.kernel) within
        λ u fs. answer S W c n before k _ _

  pub release-Fine :
      (fh : ℕ) (fs : PocFs S)
      → Within S W c n before k k fs
      → Fine S W c n before k (Files.release S c fh fs)
  unfolding Files.release close_dropped
  release-Fine fh fs ((owned, table), le) = answer S W c n before k _ _ (
    (by_file (lookup fh fs.open_files) refl, remove-Descends fh fs.next_fh fs.open_files table),
    le,
  )
    where
      by_file :
          (file : Option OpenFile)
          → lookup fh fs.open_files ≡ file
          → to_num (W.is_open n (close_dropped S file fs.kernel))
            ≡ before + opens n (remove fh fs.open_files)
      by_file none absent =
          owned ∙ ap (λ m. before + opens n m) (sym (remove_missing fh fs.open_files absent))
      by_file (some file) there = ground (
        arith,
        W.laws.close n file.fd fs.kernel,
        owned,
        opens-remove n fh fs.next_fh file fs.open_files table there,
      )

  pub truncate_by_path-Fine :
      (ino size : ℕ) (fs : PocFs S)
      → Within S W c n before k k fs
      → Fine S W c n before k (Files.truncate_by_path S c ino size fs)
  unfolding Files.truncate_by_path truncate_and_close
  truncate_by_path-Fine ino size fs within = at_inode-Fine S W c n before k ino fs _ within λ rel.
      at_cpath-Fine S W c n before k rel fs _ within λ path.
        on_open S W c n before k c.eio fs _ _
          (sys_openat-OpenedResult S W n fs.base_fd path _ 0 fs.kernel) within
          λ fd fs holds.
            on_closed S W c n before k c.eio fs _ _ (truncated fd fs holds)
              λ u fs. reply_attr-Fine S W c n before k ino fs
    where
      truncated :
          (fd : ℕ) (fs : PocFs S)
          → Holds S W c n before k fd fs
          → Within S W c n before k k (record fs { kernel = (truncate_and_close S c fd size fs).0 })
      truncated fd fs holds =
          let (s, rc) = S.ftruncate fd (as_i64 size) fs.kernel in
          Laws.kept S W.is_open W.fd_of W.left W.laws n before k
            (record fs { kernel = (S.close fd s).0 }) (truncate_and_close S c fd size fs).0
            (checked-Keeps S W.is_open W.fd_of W.left W.laws n (S.close fd s).0 nothing
              ((S.close fd s).0, rc) refl)
            (Laws.closed S W.is_open W.fd_of W.left W.laws n before k fd (record fs { kernel = s })
              (Laws.held S W.is_open W.fd_of W.left W.laws n before k fd fs s
                (W.laws.ftruncate n fd (as_i64 size) fs.kernel) holds))

  pub truncate_by_handle-Fine :
      (file : Option OpenFile) (ino size : ℕ) (fs : PocFs S)
      → Within S W c n before k k fs
      → Fine S W c n before k (Files.truncate_by_handle S c file ino size fs)
  unfolding Files.truncate_by_handle
  truncate_by_handle-Fine none ino size fs within = reply_attr-Fine S W c n before k ino fs within
  truncate_by_handle-Fine (some file) ino size fs within =
      on_checked S W c n before k c.eio fs nothing _ _
        (W.laws.ftruncate n file.fd (as_i64 size) fs.kernel) within
        λ u fs. reply_attr-Fine S W c n before k ino fs

  pub resize-Fine :
      (size fh : Option ℕ) (ino : ℕ) (fs : PocFs S)
      → Within S W c n before k k fs
      → Fine S W c n before k (resize S c size fh ino fs)
  unfolding resize
  resize-Fine none fh ino fs within = reply_attr-Fine S W c n before k ino fs within
  resize-Fine (some size) (some fh) ino fs within =
      truncate_by_handle-Fine (file_of S c fs fh) ino size fs within
  resize-Fine (some size) none ino fs within = truncate_by_path-Fine ino size fs within
