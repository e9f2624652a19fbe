-- ===== src/FdPoc/Descriptors/Steps.antt =====
-- crates/fuse-fd-poc/src/main.rs: answers after which the open descriptors are accounted for.
use ize.Prelude.{ℕ, ◌+◌, ℤ, String}
use ize.FilePath.{FilePath}
use ize.Filesystems.Backing.{Libc, Stat}
use ize.Filesystems.Syscalls.{Syscalls}
use ize.Filesystems.PassthroughFd.{Reply}
use ize.Filesystems.PassthroughFd.Descriptors.{opens}
use ize.Filesystems.LibcBacking.{Outcome, checked, checked_with}
use ize.Filesystems.LibcBacking.Laws.{Keeps, OpenedResult}
use ize.Filesystems.LibcBacking.Tracked.{checked-Keeps}
use ize.FdPoc.{PocFs, stat_rel}
use ize.FdPoc.Answers.{Answer, on_ok, at_inode, at_cpath}
use ize.FdPoc.Laws
use ize.FdPoc.Wrappers.{checked_with-Keeps, stat_rel-Keeps}
use ize.FdPoc.Laws.{Watch}

module _ (S : Syscalls) (W : Watch S) (c : Libc) (n before k : ℕ) where
  abbrev pub Within : ℕ → PocFs S → Type 0
  Within j fs = Laws.Within S W.is_open W.fd_of W.left W.laws n before k j fs

  abbrev pub Holds : ℕ → PocFs S → Type 0
  Holds fd fs = Laws.Holds S W.is_open W.fd_of W.left W.laws n before k fd fs

  -- An answer at most one file handle later.
  unfoldable pub Fine : Answer S → Type 0
  Fine out = Within (k + 1) out.0

  pub answer : (fs : PocFs S) (reply : Reply) → Within k fs → Fine (fs, reply)
  unfolding Fine
  answer fs reply within = Laws.later S W.is_open W.fd_of W.left W.laws n before k fs within

  pub on_kept :
      {A : Type 0} (default : ℕ) (fs : PocFs S) (out : Outcome S A) (f : A → PocFs S → Answer S)
      → Keeps W.is_open n fs.kernel out.0
      → Within k fs
      → ((a : A) (fs : PocFs S) → Within k fs → Fine (f a fs))
      → Fine (on_ok S default fs out f)
  unfolding Fine
  on_kept default fs out f keeps within next =
      Laws.on_ok-Within S W.is_open W.fd_of W.left W.laws n before k default fs out f
        (Laws.kept S W.is_open W.fd_of W.left W.laws n before k fs out.0 keeps within) next

  pub at_inode-Fine :
      (ino : ℕ) (fs : PocFs S) (f : FilePath → Answer S)
      → Within k fs
      → ((rel : FilePath) → Fine (f rel))
      → Fine (at_inode S c ino fs f)
  unfolding Fine
  at_inode-Fine ino fs f within next =
      Laws.at_inode-Within S W.is_open W.fd_of W.left W.laws n before k c ino fs f within next

  pub at_cpath-Fine :
      (rel : FilePath) (fs : PocFs S) (f : String → Answer S)
      → Within k fs
      → ((path : String) → Fine (f path))
      → Fine (at_cpath S c rel fs f)
  unfolding Fine
  at_cpath-Fine rel fs f within next =
      Laws.at_cpath-Within S W.is_open W.fd_of W.left W.laws n before k c rel fs f within next

  pub on_stat :
      (default : ℕ) (fs : PocFs S) (rel : FilePath) (f : Stat → PocFs S → Answer S)
      → Within k fs
      → ((st : Stat) (fs : PocFs S) → Within k fs → Fine (f st fs))
      → Fine (on_ok S default fs (stat_rel S fs rel) f)
  on_stat default fs rel f within next =
      on_kept default fs (stat_rel S fs rel) f (stat_rel-Keeps S W n fs rel) within next

  pub on_checked :
      {A : Type 0} (default : ℕ) (fs : PocFs S) (value : ℕ → A) (out : S.State × ℤ)
      (f : A → PocFs S → Answer S)
      → Keeps W.is_open n fs.kernel out.0
      → Within k fs
      → ((a : A) (fs : PocFs S) → Within k fs → Fine (f a fs))
      → Fine (on_ok S default fs (checked S value out) f)
  on_checked default fs value out f keeps within next =
      on_kept default fs (checked S value out) f
        (checked-Keeps S W.is_open W.fd_of W.left W.laws n fs.kernel value out keeps) within next

  pub on_filled :
      {A B : Type 0} (default : ℕ) (fs : PocFs S) (value : ℕ → A → B) (out : S.State × ℤ × A)
      (f : B → PocFs S → Answer S)
      → Keeps W.is_open n fs.kernel out.0
      → Within k fs
      → ((b : B) (fs : PocFs S) → Within k fs → Fine (f b fs))
      → Fine (on_ok S default fs (checked_with S value out) f)
  on_filled default fs value out f keeps within next =
      on_kept default fs (checked_with S value out) f
        (checked_with-Keeps S W n fs.kernel value out keeps) within next

  pub on_open :
      (default : ℕ) (fs : PocFs S) (out : Outcome S ℕ) (f : ℕ → PocFs S → Answer S)
      → OpenedResult S W.is_open W.fd_of W.left W.laws n fs.kernel out
      → Within k fs
      → ((fd : ℕ) (fs : PocFs S) → Holds fd fs → Fine (f fd fs))
      → Fine (on_ok S default fs out f)
  unfolding Fine
  on_open default fs out f opens within next =
      Laws.on_open-Within S W.is_open W.fd_of W.left W.laws n before k default fs out f opens within
        next

  -- The next step after one that has closed the descriptor.
  pub on_closed :
      {A : Type 0} (default : ℕ) (fs : PocFs S) (out : Outcome S A) (f : A → PocFs S → Answer S)
      → Within k (record fs { kernel = out.0 })
      → ((a : A) (fs : PocFs S) → Within k fs → Fine (f a fs))
      → Fine (on_ok S default fs out f)
  unfolding Fine
  on_closed default fs out f within next =
      Laws.on_ok-Within S W.is_open W.fd_of W.left W.laws n before k default fs out f within next
