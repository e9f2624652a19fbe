-- ===== src/Pijul/Content.antt =====
-- crates/ize-lib/src/pijul/backend.rs, `record_file_write` and `record_file_truncate`: the content
-- that is diffed against the repository's. On a 64-bit machine `as usize` keeps a `u64`.
pub mod Laws
pub mod Replay
use ize.Prelude.{ℕ, ◌+◌, ◌-◌, ◌++◌, length, take, drop, replicate, ltb, if◌then◌else◌}
use ize.Operations.Operation.{Bytes}

-- `Vec::resize(n, 0)`
unfoldable pub resize : Bytes → ℕ → Bytes
resize content n = take n content ++ replicate (n - length content) 0

-- `content[at..at + bytes.len()].copy_from_slice(bytes)`
unfoldable pub copy_at : Bytes → ℕ → Bytes → Bytes
copy_at content at bytes = take at content ++ (bytes ++ drop (at + length bytes) content)

-- Extends with zeros up to a length, if the content is shorter.
unfoldable pub grow : Bytes → ℕ → Bytes
grow content n = if ltb (length content) n then resize content n else content

-- Zeros up to the offset, then up to the end of the data, and the data copied over.
unfoldable pub apply_write : Bytes → ℕ → Bytes → Bytes
apply_write content offset bytes =
    copy_at (grow (grow content offset) (offset + length bytes)) offset bytes

-- `content.truncate(new_size as usize)`
unfoldable pub apply_truncate : Bytes → ℕ → Bytes
apply_truncate content new_size = take new_size content
