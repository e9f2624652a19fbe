-- ===== src/Pijul/Tests.antt =====
-- Writes and truncations of a content of four bytes.
use ize.Prelude.{
  ◌↔◌, false, ℕ, List, String, Option, some, none, ok, err, ◌+◌, ◌-◌, ◌≡◌, [], ◌∷◌, arith, length,
  ltb, if◌then◌else◌,
}
use ize.FilePath.{FilePath}
use ize.Operations.Opcode.{Opcode}
use ize.Operations.Operation.{Bytes, Operation, dir_create, is_file_op}
use ize.Pijul.Operations.{
  PijulBackend, apply_opcode, unsupported_operation, apply_opcode_refused_iff,
}
use ize.Pijul.Content.{apply_write}
use ize.Pijul.Content.Laws.{byte_at, byte_at-apply_write}
use ize.Pijul.Content.Replay.{apply_write_comm}

abbrev four : Bytes
four = 1 ∷ 2 ∷ 3 ∷ 4 ∷ []

abbrev two : Bytes
two = 8 ∷ 9 ∷ []

byte_at-apply_write_example : byte_at (apply_write four 6 two) 5 ≡ (
    if ltb 5 6
    then byte_at four 5
    else (if ltb 5 (6 + length two) then byte_at two (5 - 6) else byte_at four 5))
byte_at-apply_write_example = byte_at-apply_write four 6 two 5

apply_write_comm_example :
    apply_write (apply_write four 0 two) 5 two ≡ apply_write (apply_write four 5 two) 0 two
apply_write_comm_example = apply_write_comm four 0 5 two two (omega arith)

abbrev logging : PijulBackend
logging = record {
  State = List String;
  Hash = ℕ;
  PijulError = ℕ;
  record_file_create = λ path mode content message log. (path ∷ log, ok (some 1));
  record_file_write = λ path offset bytes message log. (path ∷ log, ok (some 2));
  record_file_truncate = λ path size message log. (path ∷ log, ok (some 3));
  record_file_delete = λ path message log. (path ∷ log, ok (some 4));
  record_file_rename = λ p q message log. (p ∷ q ∷ log, ok 5);
}

abbrev first_component : FilePath → Option String
first_component [] = none
first_component (c ∷ cs) = some c

abbrev numbered : Operation → Opcode
numbered op = record { seq = 1; timestamp = 5; op = op }

apply_opcode_refused_iff_example :
    (apply_opcode first_component logging (numbered (dir_create ("d" ∷ []) 0o755)) []
      ≡ ([], err (unsupported_operation (dir_create ("d" ∷ []) 0o755))))
    ↔ (is_file_op (dir_create ("d" ∷ []) 0o755) ≡ false)
apply_opcode_refused_iff_example =
    apply_opcode_refused_iff first_component logging (numbered (dir_create ("d" ∷ []) 0o755)) []
