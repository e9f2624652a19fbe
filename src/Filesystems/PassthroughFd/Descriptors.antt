-- ===== src/Filesystems/PassthroughFd/Descriptors.antt =====
-- The table of open files, and what the backing store's documentation says of descriptors: one that
-- `open_file` returns is the caller's until `close_fd`.
pub mod Quiet
mod Opening
pub mod Owned
use ize.Prelude.{
  ℕ, ◌+◌, ◌≤◌, ◌<◌, ◌≡◌, refl, Bool, true, false, [], ◌∷◌, some, Option, ok, err, arith, to_num,
  Dict, lookup, insert, remove, ◌==◌, if◌then◌else◌, ℤ,
}
use ize.FilePath.{FilePath}
use ize.Filesystems.Backing.{BackingFs, IoError, Timespec}
use ize.Filesystems.PassthroughFd.{OpenFile}
use ize.Operations.Operation.{Bytes}

-- How many entries of the table have the descriptor.
abbrev pub opens : ℕ → Dict OpenFile → ℕ
opens n [] = 0
opens n (e ∷ m) = to_num (e.1.fd == n) + opens n m

-- The handles fall along the table and lie below `hi`: none occurs twice.
abbrev pub Descends : ℕ → Dict OpenFile → Type 0
Descends hi [] = Unit {0}
Descends hi (e ∷ m) = (e.0 < hi) × Descends e.0 m

pub Descends-mono : (lo hi : ℕ) (m : Dict OpenFile) → lo ≤ hi → Descends lo m → Descends hi m
Descends-mono lo hi [] h d = tt
Descends-mono lo hi (e ∷ m) h d = (omega (arith, d.0), d.1)

remove_absent : (k : ℕ) (m : Dict OpenFile) → Descends k m → remove k m ≡ m
unfolding remove
remove_absent k [] d = refl
remove_absent k (e ∷ m) d =
    ground (arith, remove_absent k m (Descends-mono e.0 k m (omega (arith, d.0)) d.1))

pub remove-Descends : (k hi : ℕ) (m : Dict OpenFile) → Descends hi m → Descends hi (remove k m)
unfolding remove
remove-Descends k hi [] d = tt
remove-Descends k hi (e ∷ m) d =
    ground
      (arith, remove-Descends k e.0 m d.1, Descends-mono e.0 hi (remove k m) (omega (arith, d.0)))

pub opens-remove :
    (n k hi : ℕ) (f : OpenFile) (m : Dict OpenFile)
    → Descends hi m
    → lookup k m ≡ some f
    → opens n (remove k m) + to_num (f.fd == n) ≡ opens n m
unfolding remove lookup
opens-remove n k hi f [] d h = ground arith
opens-remove n k hi f (e ∷ m) d h =
    ground (arith, opens-remove n k e.0 f m d.1, remove_absent e.0 m d.1)

pub Descends-insert :
    (hi : ℕ) (f : OpenFile) (m : Dict OpenFile) → Descends hi m → Descends (hi + 1) (insert hi f m)
unfolding insert
Descends-insert hi f m d = rw (remove_absent hi m d) (omega arith, d)

pub opens-insert :
    (n hi : ℕ) (f : OpenFile) (m : Dict OpenFile)
    → Descends hi m
    → opens n (insert hi f m) ≡ to_num (f.fd == n) + opens n m
unfolding insert
opens-insert n hi f m d = rw (remove_absent hi m d) refl

pub record Tracks (B : BackingFs) (is_open : ℕ → B.State → Bool) : Type 0 where
  pub open_ok :
      (n : ℕ) (p : FilePath) (flags mode : ℕ) (s : B.State) (fd : ℕ)
      → (B.open_file p flags mode s).1 ≡ ok fd
      → (is_open fd s ≡ false)
        × (is_open n (B.open_file p flags mode s).0 ≡ (if fd == n then true else is_open n s))
  pub open_err :
      (n : ℕ) (p : FilePath) (flags mode : ℕ) (s : B.State) (e : IoError)
      → (B.open_file p flags mode s).1 ≡ err e
      → is_open n (B.open_file p flags mode s).0 ≡ is_open n s
  pub close_fd :
      (n fd : ℕ) (s : B.State)
      → is_open n (B.close_fd fd s) ≡ (if fd == n then false else is_open n s)
  pub pwrite :
      (n fd : ℕ) (bytes : Bytes) (offset : ℤ) (s : B.State)
      → is_open n (B.pwrite fd bytes offset s).0 ≡ is_open n s
  pub fsync : (n fd : ℕ) (s : B.State) → is_open n (B.fsync fd s).0 ≡ is_open n s
  pub ftruncate : (n fd size : ℕ) (s : B.State) → is_open n (B.ftruncate fd size s).0 ≡ is_open n s
  pub mkdir :
      (n : ℕ) (p : FilePath) (mode : ℕ) (s : B.State) → is_open n (B.mkdir p mode s).0 ≡ is_open n s
  pub rmdir : (n : ℕ) (p : FilePath) (s : B.State) → is_open n (B.rmdir p s).0 ≡ is_open n s
  pub unlink : (n : ℕ) (p : FilePath) (s : B.State) → is_open n (B.unlink p s).0 ≡ is_open n s
  pub rename : (n : ℕ) (p q : FilePath) (s : B.State) → is_open n (B.rename p q s).0 ≡ is_open n s
  pub chmod :
      (n : ℕ) (p : FilePath) (mode : ℕ) (s : B.State) → is_open n (B.chmod p mode s).0 ≡ is_open n s
  pub chown :
      (n : ℕ) (p : FilePath) (uid gid : Option ℕ) (s : B.State)
      → is_open n (B.chown p uid gid s).0 ≡ is_open n s
  pub utimens :
      (n : ℕ) (p : FilePath) (atime mtime : Timespec) (s : B.State)
      → is_open n (B.utimens p atime mtime s).0 ≡ is_open n s
