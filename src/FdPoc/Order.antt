-- ===== src/FdPoc/Order.antt =====
-- crates/fuse-fd-poc/src/main.rs: the order in which `rename` meets the entries of its `HashMap`.
use mathlib.Core.List.{Perm, Permᴰ}
use mathlib.Core.Path.{subst, fun_ext}
use mathlib.Core.Logic.{∥∥₁_elim}
use ize.Prelude.{
  ℕ, ◌+◌, ◌≤◌, ◌≡◌, refl, sym, ap, ◌∙◌, [], ◌∷◌, Option, ok, err, String, to_num, arith, Dict,
}
use ize.FilePath.{FilePath, join, path_eq}
use ize.Filesystems.Backing.{Libc}
use ize.Filesystems.Syscalls.{Syscalls}
use ize.Filesystems.PassthroughFd.{done}
use ize.Filesystems.LibcBacking.{Outcome}
use ize.FdPoc.{PocFs, sys_renameat}
use ize.FdPoc.Answers.{Answer, on_ok, at_inode, at_cpath}
use ize.FdPoc.Paths.{rename, remapped, ino_with_path}

-- How many inodes have the path.
unfoldable pub inodes_at : FilePath → Dict FilePath → ℕ
inodes_at path [] = 0
inodes_at path ((ino, p) ∷ rest) = to_num (path_eq p path) + inodes_at path rest

option_set : IsSet (Option ℕ)
option_set = hlevel

module _ (path : FilePath) where
  ino_with_path_swap :
      (a b : ℕ × FilePath) (m : Dict FilePath)
      → inodes_at path (a ∷ b ∷ m) ≤ 1
      → ino_with_path path (a ∷ b ∷ m) ≡ ino_with_path path (b ∷ a ∷ m)
  unfolding inodes_at ino_with_path
  ino_with_path_swap a b m le = ground (arith, le)

  inodes_at_same : {m m' : Dict FilePath} → Permᴰ m m' → inodes_at path m ≡ inodes_at path m'
  unfolding inodes_at
  inodes_at_same Permᴰ.nil = refl
  inodes_at_same (Permᴰ.cons e p) = let rest = inodes_at_same p in rw e (rw rest refl)
  inodes_at_same (Permᴰ.swap e e') = rw e (rw e' (omega arith))
  inodes_at_same (Permᴰ.trans p q) = inodes_at_same p ∙ inodes_at_same q

  ino_with_path_same :
      {m m' : Dict FilePath}
      → Permᴰ m m'
      → inodes_at path m ≤ 1
      → ino_with_path path m ≡ ino_with_path path m'
  unfolding inodes_at ino_with_path
  ino_with_path_same Permᴰ.nil le = refl
  ino_with_path_same (Permᴰ.cons e p) le =
      let rest = ino_with_path_same p (omega arith) in rw e (rw rest refl)
  ino_with_path_same (Permᴰ.swap {a} {b} {a'} {b'} {l} e e') le =
      ino_with_path_swap a b l le ∙ rw e (rw e' refl)
  ino_with_path_same (Permᴰ.trans p q) le =
      ino_with_path_same p le ∙ ino_with_path_same q (subst (λ k. k ≤ 1) (inodes_at_same p) le)

  ino_with_path_perm :
      {m m' : Dict FilePath}
      → Perm m m'
      → inodes_at path m ≤ 1
      → ino_with_path path m ≡ ino_with_path path m'
  ino_with_path_perm p le = ∥∥₁_elim p (option_set _ _) (λ p. ino_with_path_same p le)

module _ (S : Syscalls) (c : Libc) where
  on_ok_same :
      {A : Type 0} (default : ℕ) (fs : PocFs S) (out : Outcome S A) (f g : A → PocFs S → Answer S)
      → ((a : A) → f a (record fs { kernel = out.0 }) ≡ g a (record fs { kernel = out.0 }))
      → on_ok S default fs out f ≡ on_ok S default fs out g
  unfolding on_ok
  on_ok_same default fs (s, ok a) f g same = same a
  on_ok_same default fs (s, err e) f g same = refl

  -- If no two inodes have one path, the order in which the `HashMap` gives its entries makes no
  -- difference to a rename: neither to the state that it leaves nor to the reply.
  pub rename_any_order :
      (entries entries' : Dict FilePath → Dict FilePath)
      → ((m : Dict FilePath) → Perm m (entries m))
      → ((m : Dict FilePath) → Perm m (entries' m))
      → (parent : ℕ) (name : String) (newparent : ℕ) (newname : String) (fs : PocFs S)
      → ((path : FilePath) → inodes_at path fs.inode_to_path ≤ 1)
      → rename S c entries parent name newparent newname fs
        ≡ rename S c entries' parent name newparent newname fs
  unfolding rename
  rename_any_order entries entries' perm perm' parent name newparent newname fs one =
      ap (at_inode S c parent fs) (
        fun_ext λ old_parent_rel. ap (at_inode S c newparent fs) (
          fun_ext λ new_parent_rel. ap (at_cpath S c (join old_parent_rel name) fs) (
            fun_ext λ old_c. ap (at_cpath S c (join new_parent_rel newname) fs) (
              fun_ext λ new_c.
                let old_rel = join old_parent_rel name in
                let new_rel = join new_parent_rel newname in
                let (s, result) = sys_renameat S fs.base_fd old_c fs.base_fd new_c fs.kernel in
                let same =
                  sym (ino_with_path_perm old_rel (perm fs.inode_to_path) (one old_rel))
                  ∙ ino_with_path_perm old_rel (perm' fs.inode_to_path) (one old_rel) in
                on_ok_same c.eio fs (s, result) _ _
                  λ u.
                    ap (λ ino. (remapped S c ino new_rel (record fs { kernel = s }), done)) same))))
