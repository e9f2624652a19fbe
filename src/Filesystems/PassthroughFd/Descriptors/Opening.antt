-- ===== src/Filesystems/PassthroughFd/Descriptors/Opening.antt =====
-- crates/ize-lib/src/filesystems/passthrough_fd.rs: the calls that put a descriptor into the table of
-- open files, or take one out.
use mathlib.Core.Path.{subst}
use Prim.Native.Nat.{bit_or}
use native.Mathlib.Nat.{mod-eq_of_lt}
use ize.Prelude.{
  ℕ, ◌+◌, ◌%◌, ◌≤◌, ◌<◌, ◌≡◌, refl, sym, ap, ◌∙◌, Bool, true, false, Result, String, arith, to_num,
  inl, inr, Result-cases, Option-cases, Bool-cases, ◌==◌, ◌&&◌, if◌then◌else◌, lookup,
}
use ize.FilePath.{FilePath, join}
use ize.Filesystems.Backing.{Libc, BackingFs, IoError}
use ize.Operations.Opcode.{u64_mod}
use ize.Filesystems.PassthroughFd.{
  OpenFile, FdPassthroughFs, get_rel_path, register_inode, add_open_file,
}
use ize.Filesystems.PassthroughFd.Files
use ize.Filesystems.PassthroughFd.Files.{file_of, wants_write, without_creat}
use ize.Filesystems.PassthroughFd.Descriptors.{
  Tracks, opens, Descends, Descends-insert, opens-insert, opens-remove, remove-Descends,
}
use ize.Filesystems.PassthroughFd.Descriptors.Quiet.{Quiet, fresh_closed}

module _ (c : Libc) (B : BackingFs) (is_open : ℕ → B.State → Bool) (T : Tracks B is_open)
    (n : ℕ) where
  -- The descriptor is open exactly as often as the table has it, and the table's handles are
  -- distinct and below the counter.
  abbrev pub Owned : FdPassthroughFs B.State → Type 0
  Owned fs =
      (to_num (is_open n fs.backing) ≡ opens n fs.open_files) × Descends fs.next_fh fs.open_files

  -- The descriptors are owned, and the counter has moved by at most one.
  abbrev pub After : FdPassthroughFs B.State → FdPassthroughFs B.State → Type 0
  After fs fs' = Owned fs' × (fs'.next_fh ≤ fs.next_fh + 1)

  pub Quiet-After :
      (fs fs' : FdPassthroughFs B.State) → Quiet c B is_open T n fs fs' → Owned fs → After fs fs'
  Quiet-After fs fs' q v = (
    (
      ap to_num q.0 ∙ v.0 ∙ ap (opens n) (sym q.1),
      subst (λ m. Descends fs'.next_fh m) (sym q.1)
          (subst (λ k. Descends k fs.open_files) (sym q.2) v.1),
    ),
    omega (arith, q.2),
  )

  fresh_at : (fd : ℕ) (s : B.State) → is_open fd s ≡ false → (fd == n) ≡ true → is_open n s ≡ false
  fresh_at fd s h e = let same : fd ≡ n = ground (arith, e) in ap (λ k. is_open k s) (sym same) ∙ h

  -- A descriptor that the store has just opened goes into the table.
  opened-After :
      (fs fs' : FdPassthroughFs B.State) (f : OpenFile)
      → is_open f.fd fs.backing ≡ false
      → is_open n fs'.backing ≡ (if f.fd == n then true else is_open n fs.backing)
      → fs'.open_files ≡ fs.open_files
      → fs'.next_fh ≡ fs.next_fh
      → fs.next_fh + 1 < u64_mod
      → Owned fs
      → After fs (add_open_file fs' f).1
  unfolding add_open_file
  opened-After fs fs' f fresh after table counter small v =
      let descends : Descends fs'.next_fh fs'.open_files =
        subst (λ m. Descends fs'.next_fh m) (sym table)
          (subst (λ k. Descends k fs.open_files) (sym counter) v.1) in
      let counted : to_num (is_open n fs.backing) ≡ opens n fs'.open_files =
        v.0 ∙ ap (opens n) (sym table) in
      let next : (fs'.next_fh + 1) % u64_mod ≡ fs'.next_fh + 1 =
        mod-eq_of_lt (omega (arith, counter, small)) in
      (
        (
          ground (
            arith,
            after,
            counted,
            opens-insert n fs'.next_fh f fs'.open_files descends,
            fresh_at f.fd fs.backing fresh,
          ),
          rw next (Descends-insert fs'.next_fh f fs'.open_files descends),
        ),
        rw next (omega (arith, counter)),
      )

  pub open_file-After :
      (ino flags : ℕ) (fs : FdPassthroughFs B.State)
      → fs.next_fh + 1 < u64_mod
      → Owned fs
      → After fs (Files.open_file c B ino flags fs).0
  unfolding Files.open_file
  open_file-After ino flags fs small v = elim (Bool-cases (fs.read_only && wants_write c flags)) [
    | inl e ↦ rw (e, Files.open_file) (v, omega arith)
    | inr e ↦ elim (Option-cases (get_rel_path fs ino)) [
      | inl none_there ↦ rw (e, none_there, Files.open_file) (v, omega arith)
      | inr (rel, known) ↦
          elim (Result-cases (B.open_file rel (without_creat c flags) 0 fs.backing).1) [
            | inr (message, failed) ↦
                rw (e, known, failed, Files.open_file)
                  (Quiet-After fs
                    (record fs {
                      backing = (B.open_file rel (without_creat c flags) 0 fs.backing).0;
                    })
                    (
                      T.open_err n rel (without_creat c flags) 0 fs.backing message failed,
                      refl,
                      refl,
                    )
                    v)
            | inl (fd, opened) ↦
                let (fresh, after) =
                  T.open_ok n rel (without_creat c flags) 0 fs.backing fd opened in
                rw (e, known, opened, Files.open_file)
                  (opened-After fs
                    (record fs {
                      backing = (B.open_file rel (without_creat c flags) 0 fs.backing).0;
                    })
                    (record { fd = fd; rel_path = rel; flags = flags }) fresh after refl refl small
                    v)
          ]
    ]
  ]

  -- `create` after its guards, on the path of the new file.
  pub create-After :
      (parent : ℕ) (name : String) (mode flags : ℕ) (fs : FdPassthroughFs B.State)
      → fs.next_fh + 1 < u64_mod
      → Owned fs
      → After fs (Files.create c B parent name mode flags fs).0
  unfolding Files.create register_inode get_rel_path
  create-After parent name mode flags fs small v = elim (Bool-cases fs.read_only) [
    | inl e ↦ rw (e, Files.create) (v, omega arith)
    | inr e ↦ elim (Option-cases (get_rel_path fs parent)) [
      | inl none_there ↦ rw (e, none_there, Files.create) (v, omega arith)
      | inr (rel, known) ↦ elim (Result-cases (opening rel).1) [
        | inr (message, failed) ↦
            rw (e, known, failed, Files.create)
              (Quiet-After fs (record fs { backing = (opening rel).0 })
                (
                  T.open_err n (join rel name) (bit_or flags c.o_creat) mode fs.backing message
                      failed,
                  refl,
                  refl,
                )
                v)
        | inl (fd, opened) ↦
            let (fresh, after) =
              T.open_ok n (join rel name) (bit_or flags c.o_creat) mode fs.backing fd opened in
            elim (Result-cases (B.fstat fd (opening rel).0)) [
              | inr (message, failed) ↦
                  rw (e, known, opened, failed, Files.create)
                    (Quiet-After fs (record fs { backing = B.close_fd fd (opening rel).0 })
                      (
                        T.close_fd n fd (opening rel).0
                            ∙ ap (λ b. if fd == n then false else b) after
                            ∙ fresh_closed c B is_open T n fd fs.backing fresh,
                        refl,
                        refl,
                      )
                      v)
              | inl (st, stated) ↦
                  rw (e, known, opened, stated, Files.create)
                    (opened-After fs
                      (register_inode (record fs { backing = (opening rel).0 }) st.st_ino
                        (join rel name))
                      (record { fd = fd; rel_path = join rel name; flags = flags }) fresh after refl
                      refl small v)
            ]
      ]
    ]
  ]
    where
      opening : FilePath → B.State × Result ℕ IoError
      opening rel = B.open_file (join rel name) (bit_or flags c.o_creat) mode fs.backing

  pub release-After :
      (fh : ℕ) (fs : FdPassthroughFs B.State) → Owned fs → After fs (Files.release c B fh fs).0
  unfolding Files.release file_of
  release-After fh fs v = elim (Option-cases (lookup fh fs.open_files)) [
    | inl e ↦ rw (e, Files.release) (v, omega arith)
    | inr (f, e) ↦
        rw (e, Files.release)
          (
            (
              ground (
                arith,
                T.close_fd n f.fd fs.backing,
                v.0,
                opens-remove n fh fs.next_fh f fs.open_files v.1 e,
              ),
              remove-Descends fh fs.next_fh fs.open_files v.1,
            ),
            omega arith,
          )
  ]
