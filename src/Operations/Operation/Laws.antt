-- ===== src/Operations/Operation/Laws.antt =====
-- The tests on operations against each other and against the list of paths that one names.
use ize.Prelude.{◌+◌, ◌≡◌, refl, true, false, List, [], ◌∷◌, any, arith, to_num}
use ize.FilePath.{FilePath, path_eq, path_eq_refl}
use ize.Operations.Operation.{
  Operation, file_create, file_rename, dir_rename, hard_link_create, path, affects_path, is_file_op,
  is_dir_op, is_metadata_op, is_link_op, modifies_content, is_destructive,
}

-- Every path of the mounted tree that the operation names; a symlink's target is not one.
unfoldable pub named_paths : Operation → List FilePath
unfolding path
named_paths (file_rename old_path new_path) = old_path ∷ new_path ∷ []
named_paths (dir_rename old_path new_path) = old_path ∷ new_path ∷ []
named_paths (hard_link_create existing_path new_path) = existing_path ∷ new_path ∷ []
named_paths op = path op ∷ []

-- Every operation affects its primary path.
pub affects_path-path : (op : Operation) → affects_path op (path op) ≡ true
unfolding path affects_path
affects_path-path (file_rename a b) = ground (arith, path_eq_refl a)
affects_path-path (dir_rename a b) = ground (arith, path_eq_refl a)
affects_path-path (hard_link_create a b) = ground (arith, path_eq_refl b)
affects_path-path op = path_eq_refl (path op)

-- An operation affects exactly the paths that it names.
affects_path-named_paths :
    (op : Operation) (p : FilePath) → affects_path op p ≡ any (λ q. path_eq q p) (named_paths op)
unfolding path affects_path named_paths
affects_path-named_paths (file_rename a b) p = ground arith
affects_path-named_paths (dir_rename a b) p = ground arith
affects_path-named_paths (hard_link_create a b) p = ground arith
affects_path-named_paths op p = ground arith

-- Every operation is of exactly one of the four kinds: file, directory, metadata, link.
pub kinds_exclusive :
    (op : Operation)
    → to_num (is_file_op op)
        + to_num (is_dir_op op)
        + to_num (is_metadata_op op)
        + to_num (is_link_op op)
      ≡ 1
unfolding is_file_op is_dir_op is_metadata_op is_link_op
kinds_exclusive (file_create p m c) = refl
kinds_exclusive op = refl

-- What modifies content is a file operation, and is not destructive.
pub modifies_content-is_file_op :
    (op : Operation)
    → modifies_content op ≡ true
    → (is_file_op op ≡ true) × (is_destructive op ≡ false)
unfolding modifies_content is_file_op is_destructive
modifies_content-is_file_op (file_create p m c) h = (refl, refl)
modifies_content-is_file_op op h = ground arith
