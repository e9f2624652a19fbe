-- ===== src/Operations/Operation.antt =====
-- crates/ize-lib/src/operations/opcode.rs, `Operation`: the kinds of mutation and what they touch.
pub mod Laws
use ize.Prelude.{ℕ, Bool, true, false, ◌||◌, List, Option}
use ize.FilePath.{FilePath, path_eq}

-- `Vec<u8>`
abbrev pub Bytes : Type 0
Bytes = List ℕ

pub data Operation : Type 0 where
  file_create : (path : FilePath) (mode : ℕ) (content : Bytes) → Operation
  file_write : (path : FilePath) (offset : ℕ) (bytes : Bytes) → Operation
  file_truncate : (path : FilePath) (new_size : ℕ) → Operation
  file_delete : (path : FilePath) → Operation
  file_rename : (old_path new_path : FilePath) → Operation
  dir_create : (path : FilePath) (mode : ℕ) → Operation
  dir_delete : (path : FilePath) → Operation
  dir_rename : (old_path new_path : FilePath) → Operation
  set_permissions : (path : FilePath) (mode : ℕ) → Operation
  set_timestamps : (path : FilePath) (atime mtime : Option ℕ) → Operation
  set_ownership : (path : FilePath) (uid gid : Option ℕ) → Operation
  symlink_create : (path target : FilePath) → Operation
  symlink_delete : (path : FilePath) → Operation
  hard_link_create : (existing_path new_path : FilePath) → Operation

unfoldable pub path : Operation → FilePath
path (file_create p mode content) = p
path (file_write p offset bytes) = p
path (file_truncate p new_size) = p
path (file_delete p) = p
path (file_rename old_path new_path) = old_path
path (dir_create p mode) = p
path (dir_delete p) = p
path (dir_rename old_path new_path) = old_path
path (set_permissions p mode) = p
path (set_timestamps p atime mtime) = p
path (set_ownership p uid gid) = p
path (symlink_create p target) = p
path (symlink_delete p) = p
path (hard_link_create existing_path new_path) = new_path

unfoldable pub affects_path : Operation → FilePath → Bool
affects_path (file_rename old_path new_path) p = path_eq old_path p || path_eq new_path p
affects_path (dir_rename old_path new_path) p = path_eq old_path p || path_eq new_path p
affects_path (hard_link_create existing_path new_path) p =
    path_eq existing_path p || path_eq new_path p
affects_path op p = path_eq (path op) p

unfoldable pub is_file_op : Operation → Bool
is_file_op (file_create p mode content) = true
is_file_op (file_write p offset bytes) = true
is_file_op (file_truncate p new_size) = true
is_file_op (file_delete p) = true
is_file_op (file_rename old_path new_path) = true
is_file_op op = false

unfoldable pub is_dir_op : Operation → Bool
is_dir_op (dir_create p mode) = true
is_dir_op (dir_delete p) = true
is_dir_op (dir_rename old_path new_path) = true
is_dir_op op = false

unfoldable pub is_metadata_op : Operation → Bool
is_metadata_op (set_permissions p mode) = true
is_metadata_op (set_timestamps p atime mtime) = true
is_metadata_op (set_ownership p uid gid) = true
is_metadata_op op = false

unfoldable pub is_link_op : Operation → Bool
is_link_op (symlink_create p target) = true
is_link_op (symlink_delete p) = true
is_link_op (hard_link_create existing_path new_path) = true
is_link_op op = false

unfoldable pub modifies_content : Operation → Bool
modifies_content (file_create p mode content) = true
modifies_content (file_write p offset bytes) = true
modifies_content (file_truncate p new_size) = true
modifies_content op = false

unfoldable pub is_destructive : Operation → Bool
is_destructive (file_delete p) = true
is_destructive (dir_delete p) = true
is_destructive (symlink_delete p) = true
is_destructive op = false
