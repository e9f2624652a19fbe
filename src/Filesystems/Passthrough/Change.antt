-- ===== src/Filesystems/Passthrough/Change.antt =====
-- crates/ize-lib/src/filesystems/passthrough.rs: the handlers that change the tree.
use ize.Prelude.{ℕ, Option, none, some, Result, ok, err, String, if◌then◌else◌}
use ize.FilePath.{FilePath, join}
use ize.Filesystems.Backing.{Libc, IoError, errno}
use ize.Filesystems.StdFs.{StdFs, Metadata}
use ize.Filesystems.PassthroughFd.{Reply, error, done}
use ize.Filesystems.Passthrough.{to_real, register_inode, unregister_inode, parent_path}
use ize.Filesystems.Passthrough.Entries.{Fs, reply_entry}

-- `fs::metadata(..).ok().map(|m| m.ino())`
abbrev pub metadata_ino : Result Metadata IoError → Option ℕ
metadata_ino (ok meta) = some meta.ino
metadata_ino (err e) = none

module _ (c : Libc) (D : StdFs) where
  unfoldable pub mkdir : ℕ → String → ℕ → Fs c D → Fs c D × Reply
  unfolding reply_entry
  mkdir parent name mode fs =
      if fs.read_only then (fs, error c.erofs) else elim (parent_path fs parent) [
        | none ↦ (fs, error c.enoent)
        | some path ↦
            let rel_path = join path name in
            let (disk, result) = D.create_dir (to_real fs rel_path) fs.disk in
            elim result [
              | err e ↦ (record fs { disk = disk }, error (errno e c.eio))
              -- That the permissions could not be set is only logged.
              | ok u ↦
                  let (disk', permitted) = D.set_permissions (to_real fs rel_path) mode disk in
                  reply_entry c D c.eio rel_path (record fs { disk = disk' })
            ]
      ]

  -- The end of `unlink`, and of `rmdir` but for one error.
  unfoldable pub after_removal :
      (IoError → ℕ) → Option ℕ → Fs c D → D.State × Result (Unit {0}) IoError → Fs c D × Reply
  after_removal code ino fs (disk, ok u) = (unregister_inode (record fs { disk = disk }) ino, done)
  after_removal code ino fs (disk, err e) = (record fs { disk = disk }, error (code e))

  unfoldable pub unlink : ℕ → String → Fs c D → Fs c D × Reply
  unfolding after_removal
  unlink parent name fs =
      if fs.read_only then (fs, error c.erofs) else elim (parent_path fs parent) [
        | none ↦ (fs, error c.enoent)
        | some path ↦
            let real_path = to_real fs (join path name) in
            let ino = metadata_ino (D.metadata real_path fs.disk) in
            after_removal (λ e. errno e c.eio) ino fs (D.remove_file real_path fs.disk)
      ]

  unfoldable pub rmdir_code : IoError → ℕ
  rmdir_code e = if D.directory_not_empty e then c.enotempty else errno e c.eio

  unfoldable pub rmdir : ℕ → String → Fs c D → Fs c D × Reply
  unfolding after_removal rmdir_code
  rmdir parent name fs =
      if fs.read_only then (fs, error c.erofs) else elim (parent_path fs parent) [
        | none ↦ (fs, error c.enoent)
        | some path ↦
            let real_path = to_real fs (join path name) in
            let ino = metadata_ino (D.metadata real_path fs.disk) in
            after_removal rmdir_code ino fs (D.remove_dir real_path fs.disk)
      ]

  -- The end of `rename`: the inode seen at the old path gets the new one.
  unfoldable pub after_rename :
      Option ℕ → FilePath → Fs c D → D.State × Result (Unit {0}) IoError → Fs c D × Reply
  after_rename (some ino) new_rel_path fs (disk, ok u) =
      (register_inode (record fs { disk = disk }) ino new_rel_path, done)
  after_rename none new_rel_path fs (disk, ok u) = (record fs { disk = disk }, done)
  after_rename ino new_rel_path fs (disk, err e) =
      (record fs { disk = disk }, error (errno e c.eio))

  unfoldable pub rename : ℕ → String → ℕ → String → Fs c D → Fs c D × Reply
  unfolding after_rename
  rename parent name newparent newname fs =
      if fs.read_only then (fs, error c.erofs) else elim (parent_path fs parent) [
        | none ↦ (fs, error c.enoent)
        | some old_parent_path ↦ elim (parent_path fs newparent) [
          | none ↦ (fs, error c.enoent)
          | some new_parent_path ↦
              let old_real_path = to_real fs (join old_parent_path name) in
              let new_rel_path = join new_parent_path newname in
              let ino = metadata_ino (D.metadata old_real_path fs.disk) in
              after_rename ino new_rel_path fs
                (D.rename old_real_path (to_real fs new_rel_path) fs.disk)
        ]
      ]
