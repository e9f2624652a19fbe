-- ===== src/Filesystems/LibcBacking/Laws.antt =====
-- What POSIX says of descriptors, for the calls that `LibcBackingFs` makes.
use ize.Prelude.{
  ℕ, ◌<◌, ◌≡◌, refl, ℤ, pos, negsuc, Bool, true, false, some, Result, ok, err, String, ◌==◌,
  if◌then◌else◌,
}
use ize.FilePath.{FilePath}
use ize.Filesystems.Backing.{IoError, DirEntry, Timespec}
use ize.Filesystems.Syscalls.{Syscalls}
use ize.Filesystems.LibcBacking.{Outcome, rel_cpath, checked, at_path}
use ize.Operations.Operation.{Bytes}

-- A call that opens a descriptor: a new one, or none on an error.
abbrev pub Opened : {State : Type 0} → (ℕ → State → Bool) → ℕ → State → State × ℤ → Type 0
Opened is_open n s (s', pos fd) =
    (is_open fd s ≡ false) × (is_open n s' ≡ (if fd == n then true else is_open n s))
Opened is_open n s (s', negsuc k) = is_open n s' ≡ is_open n s

-- A call that closes a descriptor.
abbrev pub Closed : {State : Type 0} → (ℕ → State → Bool) → ℕ → ℕ → State → State → Type 0
Closed is_open n fd s s' = is_open n s' ≡ (if fd == n then false else is_open n s)

abbrev pub Keeps : {State : Type 0} → (ℕ → State → Bool) → ℕ → State → State → Type 0
Keeps is_open n s s' = is_open n s' ≡ is_open n s

-- `is_open` is the table of descriptors, `fd_of` the descriptor of a stream, and `left` how many
-- entries a stream has left.
pub record DescriptorLaws (S : Syscalls) (is_open : ℕ → S.State → Bool) (fd_of : S.Dir → ℕ)
    (left : S.Dir → S.State → ℕ) : Type 0 where
  pub open_path :
      (n : ℕ) (p : String) (flags : ℕ) (s : S.State) → Opened is_open n s (S.open_path p flags s)
  pub openat :
      (n fd : ℕ) (p : String) (flags mode : ℕ) (s : S.State)
      → Opened is_open n s (S.openat fd p flags mode s)
  pub dup : (n fd : ℕ) (s : S.State) → Opened is_open n s (S.dup fd s)
  pub close : (n fd : ℕ) (s : S.State) → Closed is_open n fd s (S.close fd s).0
  pub fdopendir : (n fd : ℕ) (s : S.State) → Keeps is_open n s (S.fdopendir fd s).0
  pub fdopendir_some :
      (fd : ℕ) (s : S.State) (dirp : S.Dir) → (S.fdopendir fd s).1 ≡ some dirp → fd_of dirp ≡ fd
  pub set_errno : (n e : ℕ) (s : S.State) → Keeps is_open n s (S.set_errno e s)
  pub readdir : (n : ℕ) (dirp : S.Dir) (s : S.State) → Keeps is_open n s (S.readdir dirp s).0
  pub readdir_some :
      (dirp : S.Dir) (s : S.State) (entry : DirEntry)
      → (S.readdir dirp (S.set_errno 0 s)).1 ≡ some entry
      → left dirp (S.readdir dirp (S.set_errno 0 s)).0 < left dirp s
  pub closedir :
      (n : ℕ) (dirp : S.Dir) (s : S.State) → Closed is_open n (fd_of dirp) s (S.closedir dirp s).0
  pub pwrite :
      (n fd : ℕ) (bytes : Bytes) (offset : ℤ) (s : S.State)
      → Keeps is_open n s (S.pwrite fd bytes offset s).0
  pub fsync : (n fd : ℕ) (s : S.State) → Keeps is_open n s (S.fsync fd s).0
  pub ftruncate : (n fd : ℕ) (size : ℤ) (s : S.State) → Keeps is_open n s (S.ftruncate fd size s).0
  pub mkdirat :
      (n fd : ℕ) (p : String) (mode : ℕ) (s : S.State) → Keeps is_open n s (S.mkdirat fd p mode s).0
  pub unlinkat :
      (n fd : ℕ) (p : String) (flags : ℕ) (s : S.State)
      → Keeps is_open n s (S.unlinkat fd p flags s).0
  pub renameat :
      (n fd : ℕ) (p : String) (fd' : ℕ) (q : String) (s : S.State)
      → Keeps is_open n s (S.renameat fd p fd' q s).0
  pub fchmodat :
      (n fd : ℕ) (p : String) (mode flags : ℕ) (s : S.State)
      → Keeps is_open n s (S.fchmodat fd p mode flags s).0
  pub fchownat :
      (n fd : ℕ) (p : String) (uid gid flags : ℕ) (s : S.State)
      → Keeps is_open n s (S.fchownat fd p uid gid flags s).0
  pub utimensat :
      (n fd : ℕ) (p : String) (atime mtime : Timespec) (flags : ℕ) (s : S.State)
      → Keeps is_open n s (S.utimensat fd p atime mtime flags s).0

module _ (S : Syscalls) (is_open : ℕ → S.State → Bool) (fd_of : S.Dir → ℕ)
    (left : S.Dir → S.State → ℕ) (D : DescriptorLaws S is_open fd_of left) where
  -- The reply with a new descriptor, or an error.
  abbrev pub OpenedResult : ℕ → S.State → Outcome S ℕ → Type 0
  OpenedResult n s (s', ok fd) =
      (is_open fd s ≡ false) × (is_open n s' ≡ (if fd == n then true else is_open n s))
  OpenedResult n s (s', err e) = Keeps is_open n s s'

  pub checked-OpenedResult :
      (n : ℕ) (s : S.State) (out : S.State × ℤ)
      → Opened is_open n s out
      → OpenedResult n s (checked S (λ fd. fd) out)
  unfolding checked
  checked-OpenedResult n s (s', pos fd) h = h
  checked-OpenedResult n s (s', negsuc k) h = h

  pub at_path-OpenedResult :
      (n : ℕ) (rel : FilePath) (s : S.State) (f : String → Outcome S ℕ)
      → ((c_path : String) → OpenedResult n s (f c_path))
      → OpenedResult n s (at_path S rel s f)
  unfolding at_path
  at_path-OpenedResult n rel s f h = by_path (rel_cpath rel)
    where
      by_path :
          (r : Result String IoError)
          → OpenedResult n s
              (elim r as (λ x. Outcome S ℕ) [ err e ↦ (s, err e) | ok c_path ↦ f c_path ])
      by_path (ok c_path) = h c_path
      by_path (err e) = refl
