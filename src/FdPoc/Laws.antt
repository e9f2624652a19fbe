-- ===== src/FdPoc/Laws.antt =====
-- crates/fuse-fd-poc/src/main.rs: what each step of a handler does to the open descriptors.
use native.Mathlib.Nat.{mod-eq_of_lt}
use ize.Prelude.{
  ℕ, ◌+◌, ◌%◌, ◌≤◌, ◌<◌, ◌≡◌, refl, sym, ap, ◌∙◌, Bool, true, false, [], ◌∷◌, Option, none, some,
  Result, ok, err, String, ◌==◌, if◌then◌else◌, to_num, arith, Dict, lookup, remove, ℤ,
}
use ize.FilePath.{FilePath}
use ize.Filesystems.Backing.{Libc, IoError, errno}
use ize.Filesystems.Syscalls.{Syscalls}
use ize.Filesystems.PassthroughFd.{OpenFile, error}
use ize.Filesystems.PassthroughFd.Descriptors.{
  opens, Descends, Descends-mono, Descends-insert, opens-insert,
}
use ize.Filesystems.LibcBacking.{Outcome, rel_cpath}
use ize.Filesystems.LibcBacking.Laws.{DescriptorLaws, Keeps, OpenedResult}
use ize.FdPoc.{PocFs, get_rel_path, alloc_fh, add_open_file, close_dropped, close_all}
use ize.FdPoc.Answers.{Answer, on_ok, at_inode, at_cpath}
use ize.Operations.Opcode.{u64_mod}

-- The calls that only read leave the table of descriptors as it is.
pub record ReadLaws (S : Syscalls) (is_open : ℕ → S.State → Bool) : Type 0 where
  pub rewind : (n fd : ℕ) (s : S.State) → Keeps is_open n s (S.rewind fd s).0
  pub fstatat :
      (n fd : ℕ) (p : String) (flags : ℕ) (s : S.State)
      → Keeps is_open n s (S.fstatat fd p flags s).0
  pub fstat : (n fd : ℕ) (s : S.State) → Keeps is_open n s (S.fstat fd s).0
  pub pread :
      (n fd size : ℕ) (offset : ℤ) (s : S.State) → Keeps is_open n s (S.pread fd size offset s).0
  pub faccessat :
      (n fd : ℕ) (p : String) (mask flags : ℕ) (s : S.State)
      → Keeps is_open n s (S.faccessat fd p mask flags s).0
  pub fstatvfs : (n fd : ℕ) (s : S.State) → Keeps is_open n s (S.fstatvfs fd s).0

-- The kernel as the proofs see it: its table of descriptors, the laws of it, and fuel for a directory.
pub record Watch (S : Syscalls) : Type 0 where
  pub is_open : ℕ → S.State → Bool
  pub fd_of : S.Dir → ℕ
  pub left : S.Dir → S.State → ℕ
  pub laws : DescriptorLaws S is_open fd_of left
  pub reads : ReadLaws S is_open
  pub fuel : ℕ
  pub enough : (dirp : S.Dir) (s : S.State) → left dirp s < fuel

pub lookup_absent : (k : ℕ) (m : Dict OpenFile) → Descends k m → lookup k m ≡ none
unfolding lookup
lookup_absent k [] d = refl
lookup_absent k (e ∷ m) d =
    ground (arith, lookup_absent k m (Descends-mono e.0 k m (omega (arith, d.0)) d.1))

pub remove_missing : (k : ℕ) (m : Dict OpenFile) → lookup k m ≡ none → remove k m ≡ m
unfolding lookup remove
remove_missing k [] h = refl
remove_missing k (e ∷ m) h = ground (arith, remove_missing k m)

module _ (S : Syscalls) (is_open : ℕ → S.State → Bool) (fd_of : S.Dir → ℕ)
    (left : S.Dir → S.State → ℕ) (D : DescriptorLaws S is_open fd_of left) (n before k : ℕ) where
  -- Of the descriptor's uses, those at the start and those in the table are all.
  abbrev pub Owned : PocFs S → Type 0
  Owned fs =
      (to_num (is_open n fs.kernel) ≡ before + opens n fs.open_files)
      × Descends fs.next_fh fs.open_files

  -- That, at most so many file handles later.
  abbrev pub Within : ℕ → PocFs S → Type 0
  Within j fs = Owned fs × (fs.next_fh ≤ j)

  -- A handler holds a descriptor that is not in the table.
  abbrev pub Holds : ℕ → PocFs S → Type 0
  Holds fd fs =
      (to_num (is_open n fs.kernel) ≡ before + (to_num (fd == n) + opens n fs.open_files))
      × Descends fs.next_fh fs.open_files
      × (fs.next_fh ≤ k)

  pub later : (fs : PocFs S) → Within k fs → Within (k + 1) fs
  later fs (owned, le) = (owned, omega arith)

  pub kept :
      (fs : PocFs S) (s : S.State)
      → Keeps is_open n fs.kernel s
      → Within k fs
      → Within k (record fs { kernel = s })
  kept fs s keeps (owned, le) = ((ap to_num keeps ∙ owned.0, owned.1), le)

  pub held :
      (fd : ℕ) (fs : PocFs S) (s : S.State)
      → Keeps is_open n fs.kernel s
      → Holds fd fs
      → Holds fd (record fs { kernel = s })
  held fd fs s keeps (owned, table, le) = (ap to_num keeps ∙ owned, table, le)

  pub closed :
      (fd : ℕ) (fs : PocFs S)
      → Holds fd fs
      → Within k (record fs { kernel = (S.close fd fs.kernel).0 })
  closed fd fs (owned, table, le) = ((ground (arith, D.close n fd fs.kernel, owned), table), le)

  pub on_ok-Within :
      {A : Type 0} (default : ℕ) (fs : PocFs S) (out : Outcome S A) (f : A → PocFs S → Answer S)
      → Within k (record fs { kernel = out.0 })
      → ((a : A) (fs : PocFs S) → Within k fs → Within (k + 1) (f a fs).0)
      → Within (k + 1) (on_ok S default fs out f).0
  unfolding on_ok
  on_ok-Within default fs (s, ok a) f within next = next a (record fs { kernel = s }) within
  on_ok-Within default fs (s, err e) f within next = later (record fs { kernel = s }) within

  pub on_open-Within :
      (default : ℕ) (fs : PocFs S) (out : Outcome S ℕ) (f : ℕ → PocFs S → Answer S)
      → OpenedResult S is_open fd_of left D n fs.kernel out
      → Within k fs
      → ((fd : ℕ) (fs : PocFs S) → Holds fd fs → Within (k + 1) (f fd fs).0)
      → Within (k + 1) (on_ok S default fs out f).0
  unfolding on_ok
  on_open-Within default fs (s, err e) f opened within next =
      later (record fs { kernel = s }) (kept fs s opened within)
  on_open-Within default fs (s, ok fd) f (fresh, opened) ((owned, table), le) next =
      next fd (record fs { kernel = s }) (count, table, le)
    where
      same : (fd == n) ≡ true → is_open n fs.kernel ≡ false
      same h = let e : fd ≡ n = ground (arith, h) in ap (λ m. is_open m fs.kernel) (sym e) ∙ fresh

      count : to_num (is_open n s) ≡ before + (to_num (fd == n) + opens n fs.open_files)
      count = ground (arith, opened, owned, same)

  pub at_inode-Within :
      (c : Libc) (ino : ℕ) (fs : PocFs S) (f : FilePath → Answer S)
      → Within k fs
      → ((rel : FilePath) → Within (k + 1) (f rel).0)
      → Within (k + 1) (at_inode S c ino fs f).0
  unfolding at_inode
  at_inode-Within c ino fs f within next = by_path (get_rel_path S fs ino)
    where
      by_path :
          (path : Option FilePath)
          → Within
              (k + 1)
              (elim path as (λ x. Answer S) [ none ↦ (fs, error c.enoent) | some rel ↦ f rel ]).0
      by_path none = later fs within
      by_path (some rel) = next rel

  pub at_cpath-Within :
      (c : Libc) (rel : FilePath) (fs : PocFs S) (f : String → Answer S)
      → Within k fs
      → ((path : String) → Within (k + 1) (f path).0)
      → Within (k + 1) (at_cpath S c rel fs f).0
  unfolding at_cpath
  at_cpath-Within c rel fs f within next = by_path (rel_cpath rel)
    where
      by_path :
          (path : Result String IoError)
          → Within
              (k + 1)
              (elim path as (λ x. Answer S) [
                | err e ↦ (fs, error (errno e c.einval))
                | ok path ↦ f path
              ]).0
      by_path (err e) = later fs within
      by_path (ok path) = next path

  -- The descriptor goes into the table.
  pub add_open_file-Within :
      (file : OpenFile) (fs : PocFs S)
      → k + 1 < u64_mod
      → Holds file.fd fs
      → Within (k + 1) (add_open_file S fs file).1
  unfolding add_open_file alloc_fh close_dropped
  add_open_file-Within file fs small (owned, table, le) =
      let next : (fs.next_fh + 1) % u64_mod ≡ fs.next_fh + 1 = mod-eq_of_lt (omega arith) in
      rw (lookup_absent fs.next_fh fs.open_files table) (
        rw next (
          (
            owned ∙ ap (λ m. before + m) (sym (opens-insert n fs.next_fh file fs.open_files table)),
            Descends-insert fs.next_fh file fs.open_files table,
          ),
          omega arith,
        ))

  -- All that the table has are closed.
  pub close_all-opens :
      (files : Dict OpenFile) (s : S.State)
      → is_open n (close_all S files s) ≡ (if opens n files == 0 then is_open n s else false)
  unfolding close_all
  close_all-opens [] s = refl
  close_all-opens ((fh, file) ∷ files) s =
      ground (arith, close_all-opens files (S.close file.fd s).0, D.close n file.fd s)
