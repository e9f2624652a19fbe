-- ===== src/Filesystems/LibcBacking/Tests.antt =====
-- A small kernel: a table of descriptors, and one directory of two entries. Every path exists.
use ize.Prelude.{
  ℕ, ◌+◌, ◌-◌, ◌<◌, ◌≡◌, refl, ℤ, pos, negsuc, Bool, true, false, List, [], ◌∷◌, Option, none, some,
  Result, ok, err, String, ltb, ◌==◌, if◌then◌else◌, arith, length, to_num,
}
use ize.FilePath.{root}
use ize.Filesystems.Backing.{DirEntry, IoError}
use ize.Filesystems.Calls.{Call, create, open_file, release}
use ize.Filesystems.Observing.Laws.{run_inner}
use ize.Filesystems.Syscalls.{Syscalls}
use ize.Filesystems.PassthroughFd.{new}
use ize.Filesystems.PassthroughFd.Handle.{fd_filesystem}
use ize.Filesystems.PassthroughFd.Descriptors.{opens}
use ize.Filesystems.PassthroughFd.Tests.Store.{
  linux, plain_stat, sum, without, is_open, closed_above, is_open-without, one_at_a_time,
}
use ize.Filesystems.LibcBacking.{LibcBackingFs, drop, open_dir, rel_cpath}
use ize.Filesystems.LibcBacking.Readdir.{readdir}
use ize.Filesystems.LibcBacking.Store.{libc_backing}
use ize.Filesystems.LibcBacking.Laws.{DescriptorLaws}
use ize.Filesystems.LibcBacking.Balanced.{readdir-Balanced}
use ize.Filesystems.LibcBacking.Tracked.{open_dir_owned}

pub record Kernel : Type 0 where
  pub opened : List ℕ
  pub code : ℕ
  pub position : ℕ

abbrev add_descriptor : Kernel → Kernel × ℤ
add_descriptor s = (record s { opened = (1 + sum s.opened) ∷ s.opened }, pos (1 + sum s.opened))

-- `errno` is left alone by what succeeds.
abbrev read_next : Kernel → Kernel × Option DirEntry
read_next s =
    if ltb s.position 2
    then (record s { position = s.position + 1 }, some (record { ino = 41; dtype = 8; name = "a" }))
    else (s, none)

abbrev pub kernel : Syscalls
kernel = record {
  State = Kernel;
  Dir = ℕ;
  errno = λ s. s.code;
  set_errno = λ e s. record s { code = e };
  o_rdonly = 0;
  o_directory = 0o200000;
  o_cloexec = 0o2000000;
  at_symlink_nofollow = 0x100;
  at_removedir = 0x200;
  open_path = λ p flags s. add_descriptor s;
  openat = λ fd p flags mode s. add_descriptor s;
  close = λ fd s. (record s { opened = without fd s.opened }, pos 0);
  dup = λ fd s. add_descriptor s;
  rewind = λ fd s. (s, pos 0);
  fdopendir = λ fd s. (s, some fd);
  readdir = λ dirp s. read_next s;
  closedir = λ dirp s. (record s { opened = without dirp s.opened }, pos 0);
  fstatat = λ fd p flags s. (s, pos 0, plain_stat 41);
  fstat = λ fd s. (s, pos 0, plain_stat 41);
  pread = λ fd size offset s. (s, pos 1, 7 ∷ 8 ∷ []);
  pwrite = λ fd bytes offset s. (s, pos (length bytes));
  fsync = λ fd s. (s, pos 0);
  ftruncate = λ fd size s. (s, pos 0);
  mkdirat = λ fd p mode s. (s, pos 0);
  unlinkat = λ fd p flags s. (s, pos 0);
  renameat = λ fd p fd' q s. (s, pos 0);
  fchmodat = λ fd p mode flags s. (s, pos 0);
  fchownat = λ fd p uid gid flags s. (s, pos 0);
  utimensat = λ fd p atime mtime flags s. (s, pos 0);
  faccessat = λ fd p mask flags s. (s, pos 0);
  fstatvfs = λ fd s. (
    record s { code = 38 },
    negsuc 0,
    record {
      f_blocks = 0;
      f_bfree = 0;
      f_bavail = 0;
      f_files = 0;
      f_ffree = 0;
      f_bsize = 0;
      f_namemax = 0;
      f_frsize = 0;
    },
  );
}

abbrev pub in_table : ℕ → Kernel → Bool
in_table n s = is_open n s.opened

abbrev pub stream_fd : ℕ → ℕ
stream_fd dirp = dirp

abbrev pub left : ℕ → Kernel → ℕ
left dirp s = 2 - s.position

new_is_closed : (s : Kernel) → in_table (1 + sum s.opened) s ≡ false
new_is_closed s = closed_above s.opened (1 + sum s.opened) (omega arith)

add_opens :
    (n : ℕ) (s : Kernel)
    → in_table n (add_descriptor s).0 ≡ (if 1 + sum s.opened == n then true else in_table n s)
add_opens n s = ground arith

read_keeps : (n : ℕ) (s : Kernel) → in_table n (read_next s).0 ≡ in_table n s
read_keeps n s = ground arith

read_advances :
    (s : Kernel) (entry : DirEntry)
    → (read_next (record s { code = 0 })).1 ≡ some entry
    → 2 - (read_next (record s { code = 0 })).0.position < 2 - s.position
read_advances s entry h = ground arith

pub kernel-DescriptorLaws : DescriptorLaws kernel in_table stream_fd left
kernel-DescriptorLaws = record {
  open_path = λ n p flags s. (new_is_closed s, add_opens n s);
  openat = λ n fd p flags mode s. (new_is_closed s, add_opens n s);
  dup = λ n fd s. (new_is_closed s, add_opens n s);
  close = λ n fd s. is_open-without n fd s.opened;
  fdopendir = λ n fd s. refl;
  fdopendir_some = λ fd s dirp h. cc h;
  set_errno = λ n e s. refl;
  readdir = λ n dirp s. read_keeps n s;
  readdir_some = λ dirp s entry h. read_advances s entry h;
  closedir = λ n dirp s. is_open-without n dirp s.opened;
  pwrite = λ n fd bytes offset s. refl;
  fsync = λ n fd s. refl;
  ftruncate = λ n fd size s. refl;
  mkdirat = λ n fd p mode s. refl;
  unlinkat = λ n fd p flags s. refl;
  renameat = λ n fd p fd' q s. refl;
  fchmodat = λ n fd p mode flags s. refl;
  fchownat = λ n fd p uid gid flags s. refl;
  utimensat = λ n fd p atime mtime flags s. refl;
}

-- Standard input is open.
abbrev pub booted : Kernel
booted = record { opened = 0 ∷ []; code = 0; position = 0 }

pub few_entries : (dirp : ℕ) (s : Kernel) → left dirp s < 3
few_entries dirp s = omega arith

readdir-Balanced_example :
    (result : Result (List DirEntry) IoError) × ((readdir kernel 3
        (record { base_fd = 0; owned = false })
        ("d" ∷ [])
        booted).1
      ≡ some result)
    × (in_table 1 (readdir kernel 3 (record { base_fd = 0; owned = false }) ("d" ∷ []) booted).0
        ≡ in_table 1 booted)
readdir-Balanced_example =
    readdir-Balanced kernel in_table stream_fd left kernel-DescriptorLaws 3 few_entries 1
      (record { base_fd = 0; owned = false }) ("d" ∷ []) booted

abbrev opens_two : List Call
opens_two = create 1 "a" 0o644 0 2 ∷ open_file 1 0 ∷ release 41 1 ∷ []

abbrev pub base : LibcBackingFs
base = record { base_fd = 1; owned = true }

abbrev pub with_base : Kernel
with_base = record { opened = 1 ∷ 0 ∷ []; code = 0; position = 0 }

base_opened : open_dir kernel "/src" booted ≡ (with_base, ok base)
unfolding open_dir
base_opened = refl

open_dir_owned_example :
    let store = libc_backing kernel 3 base in
    let fs =
      (run_inner
        (fd_filesystem linux one_at_a_time store)
        opens_two
        (new linux store with_base root)).0 in
    (in_table 1 (drop kernel base fs.backing) ≡ false)
    × (to_num (in_table 4 (drop kernel base fs.backing)) ≡ opens 4 fs.open_files)
open_dir_owned_example =
    open_dir_owned kernel in_table stream_fd left kernel-DescriptorLaws linux one_at_a_time 3 "/src"
      booted with_base base root opens_two 4 base_opened refl (omega arith) (omega arith)

paths :
    ◌≡◌ {A = List (Result String IoError)}
      (rel_cpath [] ∷ rel_cpath ("a" ∷ "b" ∷ []) ∷ rel_cpath ("a\0" ∷ []) ∷ [])
      (ok "." ∷ ok "a/b" ∷ err none ∷ [])
unfolding rel_cpath
paths = refl
