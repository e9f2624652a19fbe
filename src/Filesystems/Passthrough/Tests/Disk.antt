-- ===== src/Filesystems/Passthrough/Tests/Disk.antt =====
-- A small disk for the tests, on which every path exists.
use ize.Prelude.{ℕ, ◌+◌, true, false, List, [], ◌∷◌, length, none, Result, ok, err, pos}
use ize.FilePath.{FilePath}
use ize.Filesystems.Backing.{IoError}
use ize.Filesystems.StdFs.{StdFs, Metadata, DirItem}

abbrev pub plain : ℕ → Metadata
plain ino = record {
  is_dir = false;
  is_file = true;
  is_symlink = false;
  is_block_device = false;
  is_char_device = false;
  is_fifo = false;
  is_socket = false;
  ino = ino;
  size = 3;
  blocks = 1;
  atime = pos 1;
  mtime = pos 2;
  ctime = pos 3;
  mode = 0o644;
  nlink = 1;
  uid = 0;
  gid = 0;
  rdev = 0;
  blksize = 512;
}

abbrev pub listed : List (Result DirItem IoError)
listed = ok (record { file_name = "a"; metadata = ok (plain 41) }) ∷ err none ∷ []

-- The state of the disk is the number of files that are open.
abbrev pub small : StdFs
small = record {
  State = ℕ;
  File = FilePath;
  exists = λ p s. true;
  is_dir = λ p s. true;
  metadata = λ p s. ok (plain (40 + length p));
  read_dir = λ p s. ok listed;
  to_string_lossy = λ name. name;
  open_with = λ options p s. (s + 1, ok p);
  drop_file = λ file s. s;
  read_at = λ file size offset s. ok (7 ∷ []);
  write_at = λ file bytes offset s. (s, ok (length bytes));
  set_len = λ file size s. (s, ok tt);
  sync_all = λ file s. (s, ok tt);
  sync_data = λ file s. (s, ok tt);
  set_permissions = λ p mode s. (s, ok tt);
  create_dir = λ p s. (s, ok tt);
  remove_file = λ p s. (s, ok tt);
  remove_dir = λ p s. (s, ok tt);
  directory_not_empty = λ e. false;
  rename = λ p q s. (s, ok tt);
  chown = λ p uid gid s. (s, ok tt);
  utimensat = λ p atime mtime s. (s, ok tt);
  access = λ p mask s. ok tt;
  statvfs = λ p s. err 38;
}
