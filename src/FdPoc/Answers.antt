-- ===== src/FdPoc/Answers.antt =====
-- crates/fuse-fd-poc/src/main.rs: the steps at which a handler may reply and return.
use ize.Prelude.{ℕ, none, some, ok, err, String}
use ize.FilePath.{FilePath}
use ize.Filesystems.Backing.{Libc, errno}
use ize.Filesystems.Syscalls.{Syscalls}
use ize.Filesystems.PassthroughFd.{Reply, error, done}
use ize.Filesystems.LibcBacking.{Outcome, rel_cpath}
use ize.FdPoc.{PocFs, get_rel_path}

module _ (S : Syscalls) where
  abbrev pub Answer : Type 0
  Answer = PocFs S × Reply

  abbrev pub finish : Unit {0} → PocFs S → Answer
  finish u fs = (fs, done)

  -- The reply to what fails with its code, or with the one given.
  unfoldable pub on_ok : {A : Type 0} → ℕ → PocFs S → Outcome S A → (A → PocFs S → Answer) → Answer
  on_ok default fs (s, ok a) f = f a (record fs { kernel = s })
  on_ok default fs (s, err e) f = (record fs { kernel = s }, error (errno e default))

module _ (S : Syscalls) (c : Libc) where
  -- `match self.get_rel_path(ino)`, or ENOENT.
  unfoldable pub at_inode : ℕ → PocFs S → (FilePath → Answer S) → Answer S
  at_inode ino fs f = elim (get_rel_path S fs ino) [
    | none ↦ (fs, error c.enoent)
    | some rel ↦ f rel
  ]

  -- `match rel_cpath(rel)`, or EINVAL.
  unfoldable pub at_cpath : FilePath → PocFs S → (String → Answer S) → Answer S
  at_cpath rel fs f = elim (rel_cpath rel) [
    | err e ↦ (fs, error (errno e c.einval))
    | ok path ↦ f path
  ]
