-- ===== src/Filesystems/PassthroughFd/Tests/Store.antt =====
-- A backing store whose state is the list of its open descriptors; every path exists there, with an
-- inode that is 40 more than its depth.
use ize.Prelude.{
  ℕ, ◌+◌, ◌<◌, ◌≡◌, refl, Bool, false, List, [], ◌∷◌, none, ok, err, pos, arith, any, length, ◌==◌,
  if◌then◌else◌, ltb,
}
use ize.Filesystems.Backing.{Libc, BackingFs, Stat, DirEntry, Timespec}
use ize.Filesystems.PassthroughFd.{Listed}
use ize.Filesystems.PassthroughFd.Descriptors.{Tracks}

abbrev pub linux : Libc
linux = record {
  enoent = 2;
  eio = 5;
  erofs = 30;
  ebadf = 9;
  eacces = 13;
  enotdir = 20;
  enotempty = 39;
  einval = 22;
  o_accmode = 3;
  o_rdonly = 0;
  o_wronly = 1;
  o_rdwr = 2;
  o_append = 0o2000;
  o_trunc = 0o1000;
  o_creat = 0o100;
  o_nofollow = 0o400000;
  s_ifmt = 0o170000;
  s_ifdir = 0o040000;
  s_ifreg = 0o100000;
  s_iflnk = 0o120000;
  s_ifblk = 0o060000;
  s_ifchr = 0o020000;
  s_ififo = 0o010000;
  s_ifsock = 0o140000;
  dt_dir = 4;
  dt_reg = 8;
  dt_lnk = 10;
  dt_blk = 6;
  dt_chr = 2;
  dt_fifo = 1;
  dt_sock = 12;
  utime_now = pos 0x3fffffff;
  utime_omit = pos 0x3ffffffe;
}

abbrev midnight : Timespec
midnight = record { tv_sec = pos 0; tv_nsec = pos 0 }

abbrev pub plain_stat : ℕ → Stat
plain_stat ino = record {
  st_ino = ino;
  st_mode = 0o100644;
  st_nlink = 1;
  st_uid = 0;
  st_gid = 0;
  st_rdev = 0;
  st_size = pos 0;
  st_blksize = pos 512;
  st_blocks = pos 0;
  st_atim = midnight;
  st_mtim = midnight;
  st_ctim = midnight;
}

abbrev pub sum : List ℕ → ℕ
sum [] = 0
sum (m ∷ s) = m + sum s

abbrev pub without : ℕ → List ℕ → List ℕ
without fd [] = []
without fd (m ∷ s) = let rest = without fd s in if m == fd then rest else m ∷ rest

abbrev pub two_entries : List DirEntry
two_entries =
    record { ino = 41; dtype = 8; name = "a" } ∷ record { ino = 42; dtype = 4; name = "b" } ∷ []

abbrev pub store : BackingFs
store = record {
  State = List ℕ;
  stat = λ p s. ok (plain_stat (40 + length p));
  fstat = λ fd s. ok (plain_stat 50);
  open_file = λ p flags mode s. ((1 + sum s) ∷ s, ok (1 + sum s));
  pread = λ fd size offset s. ok [];
  pwrite = λ fd bytes offset s. (s, ok (length bytes));
  fsync = λ fd s. (s, ok tt);
  close_fd = without;
  ftruncate = λ fd size s. (s, ok tt);
  mkdir = λ p mode s. (s, ok tt);
  rmdir = λ p s. (s, ok tt);
  readdir = λ p s. ok two_entries;
  unlink = λ p s. (s, ok tt);
  rename = λ p q s. (s, ok tt);
  chmod = λ p mode s. (s, ok tt);
  chown = λ p uid gid s. (s, ok tt);
  utimens = λ p atime mtime s. (s, ok tt);
  access = λ p mask s. ok tt;
  statvfs = λ s. err none;
}

abbrev pub is_open : ℕ → List ℕ → Bool
is_open n s = any (λ m. m == n) s

pub closed_above : (s : List ℕ) (k : ℕ) → sum s < k → is_open k s ≡ false
closed_above [] k h = refl
closed_above (m ∷ s) k h = ground (arith, closed_above s k (omega arith))

pub is_open-without :
    (n fd : ℕ) (s : List ℕ) → is_open n (without fd s) ≡ (if fd == n then false else is_open n s)
is_open-without n fd [] = ground arith
is_open-without n fd (m ∷ s) = ground (arith, is_open-without n fd s)

pub store-Tracks : Tracks store is_open
store-Tracks = record {
  open_ok = λ n p flags mode s fd h.
      let same : 1 + sum s ≡ fd = cc in
      rw (← same) (closed_above s (1 + sum s) (omega arith), ground arith);
  open_err = λ n p flags mode s e h. cc;
  close_fd = is_open-without;
  pwrite = λ n fd bytes offset s. refl;
  fsync = λ n fd s. refl;
  ftruncate = λ n fd size s. refl;
  mkdir = λ n p mode s. refl;
  rmdir = λ n p s. refl;
  unlink = λ n p s. refl;
  rename = λ n p q s. refl;
  chmod = λ n p mode s. refl;
  chown = λ n p uid gid s. refl;
  utimens = λ n p atime mtime s. refl;
}

abbrev pub one_at_a_time : List Listed → Listed → Bool
one_at_a_time page e = ltb 0 (length page)
