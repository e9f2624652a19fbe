-- ===== src/Filesystems/PassthroughFd/Descriptors/Quiet.antt =====
-- The calls that leave the descriptors as they are.
use ize.Prelude.{
  ℕ, ◌≡◌, refl, sym, ap, Bool, true, false, List, [], ◌∷◌, Option, String, arith, inl, inr,
  Result-cases, Bool-cases, ℤ, ◌∙◌, ◌==◌, if◌then◌else◌,
}
use ize.FilePath.{FilePath, join}
use ize.Filesystems.Backing.{Libc, BackingFs, DirEntry}
use ize.Filesystems.Calls.{Attributes}
use ize.Operations.Operation.{Bytes}
use ize.Filesystems.PassthroughFd.{FdPassthroughFs, Listed, register_inode, forget_inode}
use ize.Filesystems.PassthroughFd.Paths
use ize.Filesystems.PassthroughFd.Paths.{
  register_entries, removed, renamed, reply_attr, reply_empty, getattr_by_path,
}
use ize.Filesystems.PassthroughFd.Files
use ize.Filesystems.PassthroughFd.Files.{
  set_all, set_size, set_mode, set_owner, set_times, truncate_by_path, updated, flushed,
}
use ize.Filesystems.PassthroughFd.Descriptors.{Tracks}

module _ (c : Libc) (B : BackingFs) (is_open : ℕ → B.State → Bool) (T : Tracks B is_open)
    (n : ℕ) where
  -- The descriptor's state, the table and the counter are as before.
  abbrev pub Quiet : FdPassthroughFs B.State → FdPassthroughFs B.State → Type 0
  Quiet fs fs' =
      (is_open n fs'.backing ≡ is_open n fs.backing)
      × (fs'.open_files ≡ fs.open_files)
      × (fs'.next_fh ≡ fs.next_fh)

  pub Quiet-lookup :
      (parent : ℕ) (name : String) (fs : FdPassthroughFs B.State)
      → Quiet fs (Paths.lookup c B parent name fs).0
  unfolding Paths.lookup register_inode
  Quiet-lookup parent name fs = ground arith

  Quiet-register_entries :
      (rel : FilePath) (es : List DirEntry) (fs : FdPassthroughFs B.State)
      → Quiet fs (register_entries c B rel es fs)
  unfolding register_entries register_inode
  Quiet-register_entries rel [] fs = (refl, refl, refl)
  Quiet-register_entries rel (e ∷ es) fs = grind (
    arith,
    Quiet-register_entries rel es fs,
    Quiet-register_entries rel es (register_inode fs e.ino (join rel e.name)),
  )

  pub Quiet-readdir :
      (is_full : List Listed → Listed → Bool) (ino : ℕ) (offset : ℤ) (fs : FdPassthroughFs B.State)
      → Quiet fs (Paths.readdir c B is_full ino offset fs).0
  unfolding Paths.readdir
  Quiet-readdir is_full ino offset fs = grind (arith, Quiet-register_entries)

  pub Quiet-getattr :
      (ino : ℕ) (fh : Option ℕ) (fs : FdPassthroughFs B.State)
      → Quiet fs (Files.getattr c B ino fh fs).0
  unfolding Files.getattr getattr_by_path reply_attr
  Quiet-getattr ino fh fs = ground arith

  pub Quiet-read :
      (fh : ℕ) (offset : ℤ) (size : ℕ) (fs : FdPassthroughFs B.State)
      → Quiet fs (Files.read c B fh offset size fs).0
  unfolding Files.read
  Quiet-read fh offset size fs = ground arith

  pub Quiet-access :
      (ino mask : ℕ) (fs : FdPassthroughFs B.State) → Quiet fs (Paths.access c B ino mask fs).0
  unfolding Paths.access reply_empty
  Quiet-access ino mask fs = ground arith

  pub Quiet-statfs : (fs : FdPassthroughFs B.State) → Quiet fs (Paths.statfs c B fs).0
  unfolding Paths.statfs
  Quiet-statfs fs = ground arith

  pub Quiet-opendir :
      (ino : ℕ) (fs : FdPassthroughFs B.State) → Quiet fs (Paths.opendir c B ino fs).0
  unfolding Paths.opendir
  Quiet-opendir ino fs = ground arith

  pub Quiet-mkdir :
      (parent : ℕ) (name : String) (mode : ℕ) (fs : FdPassthroughFs B.State)
      → Quiet fs (Paths.mkdir c B parent name mode fs).0
  unfolding Paths.mkdir register_inode
  Quiet-mkdir parent name mode fs = grind (arith, T.mkdir)

  pub Quiet-unlink :
      (parent : ℕ) (name : String) (fs : FdPassthroughFs B.State)
      → Quiet fs (Paths.unlink c B parent name fs).0
  unfolding Paths.unlink removed forget_inode
  Quiet-unlink parent name fs = grind (arith, T.unlink)

  pub Quiet-rmdir :
      (parent : ℕ) (name : String) (fs : FdPassthroughFs B.State)
      → Quiet fs (Paths.rmdir c B parent name fs).0
  unfolding Paths.rmdir removed forget_inode
  Quiet-rmdir parent name fs = grind (arith, T.rmdir)

  pub Quiet-rename :
      (parent : ℕ) (name : String) (newparent : ℕ) (newname : String) (fs : FdPassthroughFs B.State)
      → Quiet fs (Paths.rename c B parent name newparent newname fs).0
  unfolding Paths.rename renamed register_inode
  Quiet-rename parent name newparent newname fs = grind (arith, T.rename)

  pub Quiet-write :
      (fh : ℕ) (offset : ℤ) (bytes : Bytes) (fs : FdPassthroughFs B.State)
      → Quiet fs (Files.write c B fh offset bytes fs).0
  unfolding Files.write
  Quiet-write fh offset bytes fs = grind (arith, T.pwrite)

  pub Quiet-flush : (fh : ℕ) (fs : FdPassthroughFs B.State) → Quiet fs (Files.flush c B fh fs).0
  unfolding Files.flush flushed
  Quiet-flush fh fs = grind (arith, T.fsync)

  pub Quiet-fsync : (fh : ℕ) (fs : FdPassthroughFs B.State) → Quiet fs (Files.fsync c B fh fs).0
  unfolding Files.fsync reply_empty
  Quiet-fsync fh fs = grind (arith, T.fsync)

  pub fresh_closed :
      (fd : ℕ) (s : B.State)
      → is_open fd s ≡ false
      → (if fd == n then false else (if fd == n then true else is_open n s)) ≡ is_open n s
  fresh_closed fd s h = elim (Bool-cases (fd == n)) [
    | inl e ↦
        let same : fd ≡ n = ground (arith, e) in rw e (sym (ap (λ k. is_open k s) (sym same) ∙ h))
    | inr e ↦ rw e refl
  ]

  is_open-truncate_by_path :
      (rel : FilePath) (size : ℕ) (s : B.State)
      → is_open n (truncate_by_path c B rel size s).0 ≡ is_open n s
  unfolding truncate_by_path
  is_open-truncate_by_path rel size s = elim (Result-cases (B.open_file rel c.o_wronly 0 s).1) [
    | inr (e, failed) ↦ rw (failed, truncate_by_path) (T.open_err n rel c.o_wronly 0 s e failed)
    | inl (fd, opened) ↦
        let (fresh, after) = T.open_ok n rel c.o_wronly 0 s fd opened in
        rw (opened, truncate_by_path)
          (rw (T.close_fd, T.ftruncate, after) (fresh_closed fd s fresh))
  ]

  is_open-set_all :
      (fs : FdPassthroughFs B.State) (rel : FilePath) (a : Attributes)
      → is_open n (set_all c B fs rel a).0 ≡ is_open n fs.backing
  unfolding set_all set_size set_mode set_owner set_times
  is_open-set_all fs rel a =
      grind (arith, is_open-truncate_by_path, T.ftruncate, T.chmod, T.chown, T.utimens)

  pub Quiet-setattr :
      (ino : ℕ) (a : Attributes) (fs : FdPassthroughFs B.State)
      → Quiet fs (Files.setattr c B ino a fs).0
  unfolding Files.setattr updated reply_attr
  Quiet-setattr ino a fs = grind (arith, is_open-set_all)
