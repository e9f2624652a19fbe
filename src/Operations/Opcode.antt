-- ===== src/Operations/Opcode.antt =====
-- crates/ize-lib/src/operations/opcode.rs, `Opcode`: an operation with its number and its time.
use ize.Prelude.{ℕ, ◌/◌, ◌%◌, ◌^◌, Bool, Option, none, some}
use ize.FilePath.{FilePath}
use ize.Operations.Operation
use ize.Operations.Operation.{Operation}

pub record Opcode : Type 0 where
  pub seq : ℕ
  pub timestamp : ℕ
  pub op : Operation

-- `std::time::SystemTime`: nanoseconds before or since the Unix epoch.
pub data SystemTime : Type 0 where
  before_epoch : ℕ → SystemTime
  since_epoch : ℕ → SystemTime

-- `SystemTime::duration_since(UNIX_EPOCH)`, in nanoseconds; the error case is `none`.
abbrev pub duration_since_epoch : SystemTime → Option ℕ
duration_since_epoch (before_epoch n) = none
duration_since_epoch (since_epoch n) = some n

-- `d.as_secs()` of a time since the epoch.
abbrev pub secs_since_epoch : SystemTime → Option ℕ
secs_since_epoch (before_epoch n) = none
secs_since_epoch (since_epoch n) = some (n / 1_000_000_000)

abbrev pub u64_mod : ℕ
u64_mod = 2 ^ 64

abbrev stamp : Option ℕ → ℕ
stamp none = 0
stamp (some nanos) = nanos % u64_mod

-- `Opcode::new`, with the reading of the clock as an argument.
unfoldable pub new : SystemTime → ℕ → Operation → Opcode
new now seq op = record { seq = seq; timestamp = stamp (duration_since_epoch now); op = op }

unfoldable pub with_timestamp : ℕ → ℕ → Operation → Opcode
with_timestamp seq timestamp op = record { seq = seq; timestamp = timestamp; op = op }

unfoldable pub path : Opcode → FilePath
path o = Operation.path o.op

unfoldable pub affects_path : Opcode → FilePath → Bool
affects_path o p = Operation.affects_path o.op p
