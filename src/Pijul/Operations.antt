-- ===== src/Pijul/Operations.antt =====
-- crates/ize-lib/src/pijul/operations.rs: `OpcodeRecordingBackend`, which records an opcode by a
-- call of `PijulBackend`. The backend's methods are an interface here. A message is kept as the
-- number and the operation that it is made of.
pub mod Calls
use ize.Prelude.{
  ◌↔◌, ap, Bool, ℕ, ◌≡◌, ◌≢◌, refl, true, false, Option, none, some, Result, ok, err, String,
}
use ize.FilePath.{FilePath}
use ize.Operations.Opcode.{Opcode}
use ize.Operations.Operation.{
  Operation, Bytes, file_create, file_write, file_truncate, file_delete, file_rename, is_file_op,
}

abbrev pub Message : Type 0
Message = ℕ × Operation

-- The methods of `PijulBackend` that record a change.
pub record PijulBackend : Type 1 where
  pub State : Type 0
  pub Hash : Type 0
  pub PijulError : Type 0
  pub record_file_create :
      String → ℕ → Bytes → Message → State → State × Result (Option Hash) PijulError
  pub record_file_write :
      String → ℕ → Bytes → Message → State → State × Result (Option Hash) PijulError
  pub record_file_truncate : String → ℕ → Message → State → State × Result (Option Hash) PijulError
  pub record_file_delete : String → Message → State → State × Result (Option Hash) PijulError
  pub record_file_rename : String → String → Message → State → State × Result Hash PijulError

pub data OpcodeError (E : Type 0) : Type 0 where
  pijul : E → OpcodeError E
  path_conversion : FilePath → OpcodeError E
  unsupported_operation : Operation → OpcodeError E

-- `map_err(Into::into)`, beside the state.
unfoldable pub map_err : {S A E : Type 0} → S × Result A E → S × Result A (OpcodeError E)
map_err (s, ok a) = (s, ok a)
map_err (s, err e) = (s, err (pijul e))

-- `map(Some)`
unfoldable pub map_some : {S A E : Type 0} → S × Result A E → S × Result (Option A) E
map_some (s, ok a) = (s, ok (some a))
map_some (s, err e) = (s, err e)

-- `to_str` is `Path::to_str`, which fails on a path that is not UTF-8.
module _ (to_str : FilePath → Option String) (B : PijulBackend) where
  abbrev Outcome : Type 0
  Outcome = B.State × Result (Option B.Hash) (OpcodeError B.PijulError)

  -- `path_to_str(path)?`, and the rest of the arm.
  unfoldable pub path_to_str : FilePath → B.State → (String → Outcome) → Outcome
  path_to_str path s rest = elim (to_str path) [
    | none ↦ (s, err (path_conversion path))
    | some path_str ↦ rest path_str
  ]

  unfoldable pub apply_operation : Message → Operation → B.State → Outcome
  unfolding path_to_str map_err map_some
  apply_operation message (file_create path mode content) s =
      path_to_str path s λ p. map_err (B.record_file_create p mode content message s)
  apply_operation message (file_write path offset bytes) s =
      path_to_str path s λ p. map_err (B.record_file_write p offset bytes message s)
  apply_operation message (file_truncate path new_size) s =
      path_to_str path s λ p. map_err (B.record_file_truncate p new_size message s)
  apply_operation message (file_delete path) s =
      path_to_str path s λ p. map_err (B.record_file_delete p message s)
  apply_operation message (file_rename old_path new_path) s =
      path_to_str old_path s
        λ p. path_to_str new_path s λ q. map_err (map_some (B.record_file_rename p q message s))
  apply_operation message op s = (s, err (unsupported_operation op))

  unfoldable pub apply_opcode : Opcode → B.State → Outcome
  unfolding apply_operation
  apply_opcode opcode s = apply_operation (opcode.seq, opcode.op) opcode.op s

  map_err_supported :
      {S A : Type 0} (r : S × Result A B.PijulError) (op : Operation)
      → (map_err r).1 ≢ err (unsupported_operation op)
  unfolding map_err
  map_err_supported (s, ok a) op h = cc
  map_err_supported (s, err e) op h = cc

  path_to_str_supported :
      (path : FilePath) (s : B.State) (rest : String → Outcome) (op : Operation)
      → ((p : String) → (rest p).1 ≢ err (unsupported_operation op))
      → (path_to_str path s rest).1 ≢ err (unsupported_operation op)
  unfolding path_to_str
  path_to_str_supported path s rest op fine h = by_text (to_str path) h
    where
      by_text :
          (o : Option String)
          → ¬ (
              (elim o as (λ _. Outcome) [
                | none ↦ (s, err (path_conversion path))
                | some path_str ↦ rest path_str
              ]).1
              ≡ err (unsupported_operation op))
      by_text none h = cc
      by_text (some p) h = fine p h

  operation_refused :
      (message : Message) (o : Operation) (s : B.State)
      → is_file_op o ≡ false
      → apply_operation message o s ≡ (s, err (unsupported_operation o))
  unfolding is_file_op apply_operation
  operation_refused message (file_create path mode content) s h = cc
  operation_refused message (file_write path offset bytes) s h = cc
  operation_refused message (file_truncate path new_size) s h = cc
  operation_refused message (file_delete path) s h = cc
  operation_refused message (file_rename old_path new_path) s h = cc
  operation_refused message o s h = refl

  operation_supported :
      (message : Message) (o op : Operation) (s : B.State)
      → is_file_op o ≡ true
      → (apply_operation message o s).1 ≢ err (unsupported_operation op)
  unfolding is_file_op apply_operation
  operation_supported message (file_create path mode content) op s h k =
      path_to_str_supported path s _ op (λ p. map_err_supported _ op) k
  operation_supported message (file_write path offset bytes) op s h k =
      path_to_str_supported path s _ op (λ p. map_err_supported _ op) k
  operation_supported message (file_truncate path new_size) op s h k =
      path_to_str_supported path s _ op (λ p. map_err_supported _ op) k
  operation_supported message (file_delete path) op s h k =
      path_to_str_supported path s _ op (λ p. map_err_supported _ op) k
  operation_supported message (file_rename old_path new_path) op s h k =
      path_to_str_supported old_path s _ op
        (λ p. path_to_str_supported new_path s _ op (λ q. map_err_supported _ op)) k
  operation_supported message o op s h k = cc

  -- An opcode is refused as unsupported, with the repository as it was, exactly if it is no file
  -- operation (it is one of a directory, of metadata or of a link).
  pub apply_opcode_refused_iff :
      (opcode : Opcode) (s : B.State)
      → (apply_opcode opcode s ≡ (s, err (unsupported_operation opcode.op)))
        ↔ (is_file_op opcode.op ≡ false)
  unfolding apply_opcode
  apply_opcode_refused_iff opcode s = (
    no_file_op (is_file_op opcode.op) refl,
    operation_refused (opcode.seq, opcode.op) opcode.op s,
  )
    where
      no_file_op :
          (b : Bool)
          → is_file_op opcode.op ≡ b
          → apply_opcode opcode s ≡ (s, err (unsupported_operation opcode.op))
          → is_file_op opcode.op ≡ false
      no_file_op true is refused = absurd (
          operation_supported (opcode.seq, opcode.op) opcode.op opcode.op s is
            (ap (λ r. r.1) refused))
      no_file_op false is refused = is
