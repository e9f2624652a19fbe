-- ===== src/Filesystems/LibcBacking.antt =====
-- crates/ize-lib/src/backing_fs/libc_impl.rs: `LibcBackingFs`, a backing store by calls of libc that
-- are relative to a directory's descriptor. A method that only reads also leaves a state, in which
-- `errno` may be another. The loop over a directory has fuel, and `none` when that is used up.
pub mod Readdir
pub mod Store
pub mod Laws
pub mod Balanced
pub mod Tracked
pub mod Tests
use Prim.Native.Nat.{bit_or}
use ize.Prelude.{
  ℕ, ℤ, pos, negsuc, ◌-◌, ◌^◌, Bool, true, false, any, codes, Option, none, some, Result, ok, err,
  String, str_is_empty, intercalate, ◌==◌, if◌then◌else◌,
}
use ize.FilePath.{FilePath}
use ize.Filesystems.Backing.{IoError}
use ize.Filesystems.Syscalls.{Syscalls}

-- `CString::new`, which refuses a NUL byte; its error has no code of the system.
unfoldable pub c_string : String → Result String IoError
c_string bytes = if any (λ b. b == 0) (codes bytes) then err none else ok bytes

unfoldable pub rel_cpath : FilePath → Result String IoError
unfolding c_string
rel_cpath rel =
    let bytes = intercalate rel in if str_is_empty bytes then c_string "." else c_string bytes

pub record LibcBackingFs : Type 0 where
  pub base_fd : ℕ
  pub owned : Bool

-- `-1i32 as libc::uid_t`
abbrev pub no_change : ℕ
no_change = 2 ^ 32 - 1

-- `map_or(-1i32 as libc::uid_t, |u| u)`
unfoldable pub raw_id : Option ℕ → ℕ
raw_id none = no_change
raw_id (some id) = id

unfoldable pub from_raw_fd : ℕ → LibcBackingFs
from_raw_fd base_fd = record { base_fd = base_fd; owned = false }

abbrev pub nothing : ℕ → Unit {0}
nothing n = tt

module _ (S : Syscalls) where
  abbrev pub Outcome : Type 0 → Type 0
  Outcome A = S.State × Result A IoError

  -- A negative result stands for the error in `errno`; `value` makes the reply of the others.
  unfoldable pub checked : {A : Type 0} → (ℕ → A) → S.State × ℤ → Outcome A
  checked value (s, pos n) = (s, ok (value n))
  checked value (s, negsuc k) = (s, err (some (S.errno s)))

  unfoldable pub checked_with : {A B : Type 0} → (ℕ → A → B) → S.State × ℤ × A → Outcome B
  unfolding checked
  checked_with value (s, n, buffer) = checked (λ n. value n buffer) (s, n)

  -- `let c_path = rel_cpath(rel)?;`
  unfoldable pub at_path : {A : Type 0} → FilePath → S.State → (String → Outcome A) → Outcome A
  unfolding rel_cpath
  at_path rel s f = elim (rel_cpath rel) [ err e ↦ (s, err e) | ok c_path ↦ f c_path ]

  abbrev pub directory_flags : ℕ
  directory_flags = bit_or (bit_or S.o_rdonly S.o_directory) S.o_cloexec

  unfoldable pub open_dir_for : ℕ → FilePath → S.State → Outcome ℕ
  unfolding at_path checked
  open_dir_for base_fd rel s =
      at_path rel s λ c_path. checked (λ fd. fd) (S.openat base_fd c_path directory_flags 0 s)

  unfoldable pub open_dir : String → S.State → Outcome LibcBackingFs
  unfolding c_string checked
  open_dir path s = elim (c_string path) [
    | err e ↦ (s, err e)
    | ok c_path ↦
        checked (λ fd. record { base_fd = fd; owned = true }) (S.open_path c_path directory_flags s)
  ]

  unfoldable pub drop : LibcBackingFs → S.State → S.State
  drop b s = if b.owned then (S.close b.base_fd s).0 else s
