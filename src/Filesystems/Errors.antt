-- ===== src/Filesystems/Errors.antt =====
-- crates/ize-lib/src/filesystems/error.rs: `FsError`, its codes, and the errors of `std::io` as such.
-- No other file uses it: the file systems reply with codes of their own.
use ize.Prelude.{ℕ, ◌≡◌, refl, ◌⊎◌, inl, inr, Option, none, some, String}
use ize.FilePath.{FilePath}

-- `io::ErrorKind`, as far as it is told apart.
pub data ErrorKind : Type 0 where
  not_found permission_denied already_exists other : ErrorKind

-- `io::Error`: `kind()` and `raw_os_error()`.
pub record IoFailure : Type 0 where
  pub kind : ErrorKind
  pub raw_os_error : Option ℕ

pub data FsError : Type 0 where
  io : IoFailure → FsError
  invalid_path path_not_found path_permission_denied path_exists : FilePath → FsError
  invalid_file_type : FilePath → FsError
  read_only_fs db_inside_mount_point : FsError
  inode_allocation_failed : FilePath → FsError
  inode_not_found : (ino : ℕ) → FsError
  path_conversion_error : FilePath → FsError
  operation_not_supported internal : String → FsError

-- Constants of libc.
pub record ErrorCodes : Type 0 where
  pub eio : ℕ
  pub einval : ℕ
  pub enoent : ℕ
  pub eperm : ℕ
  pub eacces : ℕ
  pub eexist : ℕ
  pub erofs : ℕ
  pub enomem : ℕ
  pub enosys : ℕ

abbrev of_kind : ErrorKind → IoFailure → FilePath → FsError
of_kind not_found e path = path_not_found path
of_kind permission_denied e path = path_permission_denied path
of_kind already_exists e path = path_exists path
of_kind other e path = io e

unfoldable pub into_fs_error : IoFailure → FilePath → FsError
into_fs_error e path = of_kind e.kind e path

-- `unwrap_or`
abbrev code_or : ℕ → Option ℕ → ℕ
code_or default none = default
code_or default (some code) = code

unfoldable pub to_error_code : ErrorCodes → FsError → ℕ
to_error_code c (io e) = code_or c.eio e.raw_os_error
to_error_code c (invalid_path path) = c.einval
to_error_code c (path_not_found path) = c.enoent
to_error_code c (path_permission_denied path) = c.eacces
to_error_code c (path_exists path) = c.eexist
to_error_code c (invalid_file_type path) = c.einval
to_error_code c read_only_fs = c.erofs
to_error_code c db_inside_mount_point = c.einval
to_error_code c (inode_allocation_failed path) = c.enomem
to_error_code c (inode_not_found ino) = c.enoent
to_error_code c (path_conversion_error path) = c.einval
to_error_code c (operation_not_supported what) = c.enosys
to_error_code c (internal what) = c.eio

-- The codes for which `std` gives an error of the system its kind.
abbrev OfSystem : ErrorCodes → ErrorKind → Option ℕ → Type 0
OfSystem c not_found raw = raw ≡ some c.enoent
OfSystem c permission_denied raw = (raw ≡ some c.eacces) ⊎ (raw ≡ some c.eperm)
OfSystem c already_exists raw = raw ≡ some c.eexist
OfSystem c other raw = Unit

-- An error of the system comes back as its own code, unless that is EPERM, which becomes EACCES.
to_error_code-into_fs_error :
    (c : ErrorCodes) (e : IoFailure) (path : FilePath)
    → OfSystem c e.kind e.raw_os_error
    → (to_error_code c (into_fs_error e path) ≡ code_or c.eio e.raw_os_error)
      ⊎ ((e.raw_os_error ≡ some c.eperm) × (to_error_code c (into_fs_error e path) ≡ c.eacces))
unfolding to_error_code into_fs_error
to_error_code-into_fs_error c e path system = by_kind e.kind system
  where
    by_kind :
        (kind : ErrorKind)
        → OfSystem c kind e.raw_os_error
        → (to_error_code c (of_kind kind e path) ≡ code_or c.eio e.raw_os_error)
          ⊎ ((e.raw_os_error ≡ some c.eperm) × (to_error_code c (of_kind kind e path) ≡ c.eacces))
    by_kind not_found is_enoent = inl (rw is_enoent refl)
    by_kind permission_denied (inl is_eacces) = inl (rw is_eacces refl)
    by_kind permission_denied (inr is_eperm) = inr (is_eperm, refl)
    by_kind already_exists is_eexist = inl (rw is_eexist refl)
    by_kind other system = inl refl
