-- ===== src/Filesystems/Passthrough/Contained/Quiet.antt =====
-- crates/ize-lib/src/filesystems/passthrough.rs: the calls that leave the inode map.
use ize.Prelude.{ℕ, ℤ, Bool, Result, ok, err, arith}
use ize.FilePath.{FilePath}
use ize.Filesystems.Backing.{Libc}
use ize.Filesystems.StdFs.{StdFs}
use ize.Operations.Operation.{Bytes}
use ize.Filesystems.Calls.{Attributes}
use ize.Filesystems.Passthrough.{add_handle, alloc_fh}
use ize.Filesystems.Passthrough.Entries
use ize.Filesystems.Passthrough.Entries.{Fs}
use ize.Filesystems.Passthrough.Open
use ize.Filesystems.Passthrough.Contained.Below.{IsContained}

module _ (c : Libc) (D : StdFs) where
  pub open_file-IsContained :
      (ino flags : ℕ) (fs : Fs c D)
      → IsContained fs.inode_to_path
      → IsContained (Open.open_file c D ino flags fs).0.inode_to_path
  unfolding Open.open_file add_handle alloc_fh
  open_file-IsContained ino flags fs h = ground arith

  pub write-IsContained :
      (fh : ℕ) (offset : ℤ) (bytes : Bytes) (fs : Fs c D)
      → IsContained fs.inode_to_path
      → IsContained (Open.write c D fh offset bytes fs).0.inode_to_path
  unfolding Open.write
  write-IsContained fh offset bytes fs h = ground arith

  after_changes-IsContained :
      (ino : ℕ) (p : FilePath) (fs : Fs c D) (out : D.State × Result (Unit {0}) ℕ)
      → IsContained fs.inode_to_path
      → IsContained (Open.after_changes c D ino p fs out).0.inode_to_path
  unfolding Open.after_changes Entries.reply_metadata
  after_changes-IsContained ino p fs (disk, ok u) h = ground arith
  after_changes-IsContained ino p fs (disk, err e) h = h

  pub setattr-IsContained :
      (ino : ℕ) (a : Attributes) (fs : Fs c D)
      → IsContained fs.inode_to_path
      → IsContained (Open.setattr c D ino a fs).0.inode_to_path
  unfolding Open.setattr
  setattr-IsContained ino a fs h = grind (arith, after_changes-IsContained)

  pub getattr-IsContained :
      (ino : ℕ) (fs : Fs c D)
      → IsContained fs.inode_to_path
      → IsContained (Entries.getattr c D ino fs).0.inode_to_path
  unfolding Entries.getattr Entries.reply_metadata
  getattr-IsContained ino fs h = ground arith

  pub read-IsContained :
      (fh : ℕ) (offset : ℤ) (size : ℕ) (fs : Fs c D)
      → IsContained fs.inode_to_path
      → IsContained (Open.read c D fh offset size fs).0.inode_to_path
  unfolding Open.read
  read-IsContained fh offset size fs h = ground arith

  pub flush-IsContained :
      (fh : ℕ) (fs : Fs c D)
      → IsContained fs.inode_to_path
      → IsContained (Open.flush c D fh fs).0.inode_to_path
  unfolding Open.flush
  flush-IsContained fh fs h = ground arith

  pub release-IsContained :
      (fh : ℕ) (fs : Fs c D)
      → IsContained fs.inode_to_path
      → IsContained (Open.release c D fh fs).0.inode_to_path
  unfolding Open.release
  release-IsContained fh fs h = ground arith

  pub fsync-IsContained :
      (fh : ℕ) (datasync : Bool) (fs : Fs c D)
      → IsContained fs.inode_to_path
      → IsContained (Open.fsync c D fh datasync fs).0.inode_to_path
  unfolding Open.fsync
  fsync-IsContained fh datasync fs h = ground arith

  pub opendir-IsContained :
      (ino : ℕ) (fs : Fs c D)
      → IsContained fs.inode_to_path
      → IsContained (Entries.opendir c D ino fs).0.inode_to_path
  unfolding Entries.opendir
  opendir-IsContained ino fs h = ground arith

  pub access-IsContained :
      (ino mask : ℕ) (fs : Fs c D)
      → IsContained fs.inode_to_path
      → IsContained (Entries.access c D ino mask fs).0.inode_to_path
  unfolding Entries.access
  access-IsContained ino mask fs h = ground arith

  pub statfs-IsContained :
      (fs : Fs c D)
      → IsContained fs.inode_to_path
      → IsContained (Entries.statfs c D fs).0.inode_to_path
  unfolding Entries.statfs
  statfs-IsContained fs h = ground arith
