-- ===== src/Filesystems/LibcBacking/Tracked.antt =====
-- crates/ize-lib/src/backing_fs/libc_impl.rs and bin/ize_mount_fd.rs: `LibcBackingFs` as the store of
-- `FdPassthroughFS`, and the descriptors that are open once it is unmounted.
use ize.Prelude.{
  ℕ, ◌+◌, ◌<◌, ◌≡◌, ◌≢◌, refl, sym, ap, ◌∙◌, ℤ, pos, negsuc, Bool, true, false, List, Result, ok,
  err, String, ◌==◌, if◌then◌else◌, arith, length, to_num,
}
use ize.FilePath.{FilePath}
use ize.Filesystems.Backing.{Libc, IoError}
use ize.Filesystems.Calls.{Call}
use ize.Filesystems.Observing.Laws.{run_inner}
use ize.Filesystems.Syscalls.{Syscalls}
use ize.Filesystems.PassthroughFd.{Listed, new}
use ize.Filesystems.PassthroughFd.Handle.{fd_filesystem}
use ize.Filesystems.PassthroughFd.Descriptors.{Tracks, opens}
use ize.Filesystems.PassthroughFd.Descriptors.Owned.{descriptors_owned}
use ize.Filesystems.LibcBacking.{
  LibcBackingFs, Outcome, checked, at_path, open_dir, drop, rel_cpath, c_string, directory_flags,
}
use ize.Filesystems.LibcBacking.Store
use ize.Filesystems.LibcBacking.Store.{libc_backing}
use ize.Filesystems.LibcBacking.Laws.{
  DescriptorLaws, Keeps, Opened, OpenedResult, checked-OpenedResult, at_path-OpenedResult,
}
use ize.Operations.Opcode.{u64_mod}

module _ (S : Syscalls) (is_open : ℕ → S.State → Bool) (fd_of : S.Dir → ℕ)
    (left : S.Dir → S.State → ℕ) (D : DescriptorLaws S is_open fd_of left) where
  pub checked-Keeps :
      {A : Type 0} (n : ℕ) (s : S.State) (value : ℕ → A) (out : S.State × ℤ)
      → Keeps is_open n s out.0
      → Keeps is_open n s (checked S value out).0
  unfolding checked
  checked-Keeps n s value (s', pos k) h = h
  checked-Keeps n s value (s', negsuc k) h = h

  at_path-Keeps :
      {A : Type 0} (n : ℕ) (rel : FilePath) (s : S.State) (f : String → Outcome S A)
      → ((c_path : String) → Keeps is_open n s (f c_path).0)
      → Keeps is_open n s (at_path S rel s f).0
  unfolding at_path
  at_path-Keeps {A} n rel s f h = by_path (rel_cpath rel)
    where
      by_path :
          (r : Result String IoError)
          → Keeps is_open n s
              (elim r as (λ x. Outcome S A) [ err e ↦ (s, err e) | ok c_path ↦ f c_path ]).0
      by_path (ok c_path) = h c_path
      by_path (err e) = refl

  open_file-OpenedResult :
      (n : ℕ) (b : LibcBackingFs) (rel : FilePath) (flags mode : ℕ) (s : S.State)
      → OpenedResult S is_open fd_of left D n s (Store.open_file S b rel flags mode s)
  unfolding Store.open_file
  open_file-OpenedResult n b rel flags mode s =
      at_path-OpenedResult S is_open fd_of left D n rel s _ λ c_path.
        checked-OpenedResult S is_open fd_of left D n s _ (D.openat n b.base_fd c_path _ mode s)

  OpenedResult-ok :
      (n fd : ℕ) (s : S.State) (out : Outcome S ℕ)
      → OpenedResult S is_open fd_of left D n s out
      → out.1 ≡ ok fd
      → (is_open fd s ≡ false) × (is_open n out.0 ≡ (if fd == n then true else is_open n s))
  OpenedResult-ok n fd s (s', ok k) h same =
      let e : k ≡ fd = cc same in
      (ap (λ m. is_open m s) (sym e) ∙ h.0, h.1 ∙ ap (λ m. if m == n then true else is_open n s) e)
  OpenedResult-ok n fd s (s', err e) h same = cc same

  OpenedResult-err :
      (n : ℕ) (e : IoError) (s : S.State) (out : Outcome S ℕ)
      → OpenedResult S is_open fd_of left D n s out
      → out.1 ≡ err e
      → is_open n out.0 ≡ is_open n s
  OpenedResult-err n e s (s', ok k) h same = cc same
  OpenedResult-err n e s (s', err f) h same = h

  -- The store is one that the file system may use.
  pub libc_backing-Tracks : (fuel : ℕ) (b : LibcBackingFs) → Tracks (libc_backing S fuel b) is_open
  unfolding Store.pwrite Store.fsync Store.ftruncate Store.mkdir Store.rmdir Store.unlink
      Store.rename Store.chmod Store.chown Store.utimens Store.close_fd
  libc_backing-Tracks fuel b = record {
    open_ok =
        λ n p flags mode s fd. OpenedResult-ok n fd s _ (open_file-OpenedResult n b p flags mode s);
    open_err =
        λ n p flags mode s e. OpenedResult-err n e s _ (open_file-OpenedResult n b p flags mode s);
    close_fd = D.close;
    pwrite = λ n fd bytes offset s. checked-Keeps n s _ _ (D.pwrite n fd bytes offset s);
    fsync = λ n fd s. checked-Keeps n s _ _ (D.fsync n fd s);
    ftruncate = λ n fd size s. checked-Keeps n s _ _ (D.ftruncate n fd _ s);
    mkdir = λ n p mode s.
        at_path-Keeps n p s _ λ c. checked-Keeps n s _ _ (D.mkdirat n b.base_fd c mode s);
    rmdir =
        λ n p s. at_path-Keeps n p s _ λ c. checked-Keeps n s _ _ (D.unlinkat n b.base_fd c _ s);
    unlink =
        λ n p s. at_path-Keeps n p s _ λ c. checked-Keeps n s _ _ (D.unlinkat n b.base_fd c 0 s);
    rename = λ n p q s. at_path-Keeps n p s _ λ c.
        at_path-Keeps n q s _ λ c'. checked-Keeps n s _ _ (D.renameat n b.base_fd c b.base_fd c' s);
    chmod = λ n p mode s.
        at_path-Keeps n p s _ λ c. checked-Keeps n s _ _ (D.fchmodat n b.base_fd c mode 0 s);
    chown = λ n p uid gid s.
        at_path-Keeps n p s _ λ c. checked-Keeps n s _ _ (D.fchownat n b.base_fd c _ _ _ s);
    utimens = λ n p atime mtime s.
        at_path-Keeps n p s _
          λ c. checked-Keeps n s _ _ (D.utimensat n b.base_fd c atime mtime _ s);
  }

  -- What is known of a store over a directory that was opened.
  abbrev IsOwner : ℕ → S.State → S.State → LibcBackingFs → Type 0
  IsOwner n s s' b =
      (b.owned ≡ true) × (is_open n s' ≡ (if b.base_fd == n then true else is_open n s))

  checked-IsOwner :
      (n : ℕ) (s s' : S.State) (b : LibcBackingFs) (out : S.State × ℤ)
      → Opened is_open n s out
      → checked S (λ fd. record { base_fd = fd; owned = true }) out ≡ (s', ok b)
      → IsOwner n s s' b
  unfolding checked
  checked-IsOwner n s s' b (t, pos fd) (fresh, same) h =
      let state : t ≡ s' = ap (λ o. o.0) h in
      let store : ◌≡◌ {A = LibcBackingFs} (record { base_fd = fd; owned = true }) b = cc h in
      (
        sym (ap (λ k. k.owned) store),
        sym (ap (is_open n) state)
            ∙ same
            ∙ ap (λ k. if k.base_fd == n then true else is_open n s) store,
      )
  checked-IsOwner n s s' b (t, negsuc k) same h = cc h

  open_dir-IsOwner :
      (n : ℕ) (path : String) (s s' : S.State) (b : LibcBackingFs)
      → open_dir S path s ≡ (s', ok b)
      → IsOwner n s s' b
  unfolding open_dir
  open_dir-IsOwner n path s s' b h = by_path (c_string path) h
    where
      by_path :
          (r : Result String IoError)
          → (elim r as (λ x. Outcome S LibcBackingFs) [
            | err e ↦ (s, err e)
            | ok c_path ↦
                checked S
                  (λ fd. record { base_fd = fd; owned = true })
                  (S.open_path c_path (directory_flags S) s)
          ])
            ≡ (s', ok b)
          → IsOwner n s s' b
      by_path (ok c_path) h =
          checked-IsOwner n s s' b _ (D.open_path n c_path (directory_flags S) s) h
      by_path (err e) h = cc h

  drop-owned :
      (b : LibcBackingFs) (s : S.State) → b.owned ≡ true → drop S b s ≡ (S.close b.base_fd s).0
  unfolding drop
  drop-owned b s owned = ap (λ o. if o then (S.close b.base_fd s).0 else s) owned

  -- A directory is opened, a file system is made over it, and calls are served, fewer than there
  -- are file handles. When the store is then dropped, the directory's descriptor is closed, and of
  -- the others each that was not open before is in exactly one entry of the table of open files if
  -- it is open, and in none if it is not.
  pub open_dir_owned :
      (c : Libc) (is_full : List Listed → Listed → Bool) (fuel : ℕ) (path : String) (s s' : S.State)
      (b : LibcBackingFs) (mount_point : FilePath) (calls : List Call) (n : ℕ)
      → open_dir S path s ≡ (s', ok b)
      → is_open n s ≡ false
      → b.base_fd ≢ n
      → 1 + length calls < u64_mod
      → let store = libc_backing S fuel b in
        let fs = (run_inner (fd_filesystem c is_full store) calls (new c store s' mount_point)).0 in
        (is_open b.base_fd (drop S b fs.backing) ≡ false)
        × (to_num (is_open n (drop S b fs.backing)) ≡ opens n fs.open_files)
  open_dir_owned c is_full fuel path s s' b mount_point calls n opened closed other small =
      let store = libc_backing S fuel b in
      let fs = (run_inner (fd_filesystem c is_full store) calls (new c store s' mount_point)).0 in
      let (owned, after) = open_dir-IsOwner n path s s' b opened in
      let before : is_open n s' ≡ false = ground (arith, after, closed, other) in
      let tracked =
        descriptors_owned c is_full store is_open (libc_backing-Tracks fuel b) s' mount_point calls
          n before small in
      let closing = drop-owned b fs.backing owned in
      (
        ap (is_open b.base_fd) closing ∙ ground (arith, D.close b.base_fd b.base_fd fs.backing),
        ap (λ t. to_num (is_open n t)) closing
            ∙ ap to_num (ground (arith, D.close n b.base_fd fs.backing, other))
            ∙ tracked,
      )
