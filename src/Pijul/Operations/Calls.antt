-- ===== src/Pijul/Operations/Calls.antt =====
-- crates/ize-lib/src/pijul/operations.rs: which call of the repository an operation is worth, told
-- without `apply_opcode`: the five operations on files are worth one each, if their paths are UTF-8,
-- and operations on directories, metadata and links are worth none.
use ize.Prelude.{
  ℕ, ◌≡◌, refl, sym, ap, ◌∙◌, List, [], ◌∷◌, Option, none, some, Result, ok, err, String,
}
use ize.FilePath.{FilePath}
use ize.Operations.Opcode.{Opcode}
use ize.Operations.Operation.{
  Operation, Bytes, file_create, file_write, file_truncate, file_delete, file_rename,
}
use ize.Pijul.Operations.{
  PijulBackend, Message, OpcodeError, path_conversion, map_err, map_some, path_to_str,
  apply_operation, apply_opcode,
}

pub data RecordCall : Type 0 where
  creates : (path : String) (mode : ℕ) (content : Bytes) → RecordCall
  writes : (path : String) (offset : ℕ) (bytes : Bytes) → RecordCall
  truncates : (path : String) (new_size : ℕ) → RecordCall
  deletes : (path : String) → RecordCall
  renames : (old_path new_path : String) → RecordCall

abbrev with_path : Option String → (String → Option RecordCall) → Option RecordCall
with_path none call = none
with_path (some p) call = call p

unfoldable pub call_for : (FilePath → Option String) → Operation → Option RecordCall
call_for to_str (file_create path mode content) =
    with_path (to_str path) λ p. some (creates p mode content)
call_for to_str (file_write path offset bytes) =
    with_path (to_str path) λ p. some (writes p offset bytes)
call_for to_str (file_truncate path new_size) =
    with_path (to_str path) λ p. some (truncates p new_size)
call_for to_str (file_delete path) = with_path (to_str path) λ p. some (deletes p)
call_for to_str (file_rename old_path new_path) =
    with_path (to_str old_path) λ p. with_path (to_str new_path) λ q. some (renames p q)
call_for to_str op = none

-- The calls that the opcodes are worth, each with the message for its opcode.
unfoldable pub calls_for : (FilePath → Option String) → List Opcode → List (Message × RecordCall)
calls_for to_str [] = []
calls_for to_str (o ∷ os) =
    let later = calls_for to_str os in
    elim (call_for to_str o.op) [ none ↦ later | some call ↦ ((o.seq, o.op), call) ∷ later ]

module _ (B : PijulBackend) where
  -- The repository after a call, whatever its result.
  unfoldable pub make : Message → RecordCall → B.State → B.State
  make message (creates path mode content) s = (B.record_file_create path mode content message s).0
  make message (writes path offset bytes) s = (B.record_file_write path offset bytes message s).0
  make message (truncates path new_size) s = (B.record_file_truncate path new_size message s).0
  make message (deletes path) s = (B.record_file_delete path message s).0
  make message (renames old_path new_path) s = (B.record_file_rename old_path new_path message s).0

  unfoldable pub make_all : List (Message × RecordCall) → B.State → B.State
  make_all [] s = s
  make_all ((message, call) ∷ calls) s = make_all calls (make message call s)

  abbrev made : Message → Option RecordCall → B.State → B.State
  made message none s = s
  made message (some call) s = make message call s

  map_err_state : {A : Type 0} (r : B.State × Result A B.PijulError) → (map_err r).0 ≡ r.0
  unfolding map_err
  map_err_state (s, ok a) = refl
  map_err_state (s, err e) = refl

  map_some_state : {A : Type 0} (r : B.State × Result A B.PijulError) → (map_some r).0 ≡ r.0
  unfolding map_some
  map_some_state (s, ok a) = refl
  map_some_state (s, err e) = refl

  module _ (to_str : FilePath → Option String) where
    abbrev Outcome : Type 0
    Outcome = B.State × Result (Option B.Hash) (OpcodeError B.PijulError)

    at_path :
        (message : Message) (path : FilePath) (s : B.State) (rest : String → Outcome)
        (call : String → Option RecordCall)
        → ((p : String) → (rest p).0 ≡ made message (call p) s)
        → (path_to_str to_str B path s rest).0 ≡ made message (with_path (to_str path) call) s
    unfolding path_to_str
    at_path message path s rest call same = by_text (to_str path)
      where
        by_text :
            (o : Option String)
            → (elim o as (λ _. Outcome) [
              | none ↦ (s, err (path_conversion path))
              | some path_str ↦ rest path_str
            ]).0
              ≡ made message (with_path o call) s
        by_text none = refl
        by_text (some p) = same p

    apply_operation-call_for :
        (message : Message) (op : Operation) (s : B.State)
        → (apply_operation to_str B message op s).0 ≡ made message (call_for to_str op) s
    unfolding apply_operation call_for make
    apply_operation-call_for message (file_create path mode content) s =
        at_path message path s _ _
          λ p. map_err_state (B.record_file_create p mode content message s)
    apply_operation-call_for message (file_write path offset bytes) s =
        at_path message path s _ _ λ p. map_err_state (B.record_file_write p offset bytes message s)
    apply_operation-call_for message (file_truncate path new_size) s =
        at_path message path s _ _ λ p. map_err_state (B.record_file_truncate p new_size message s)
    apply_operation-call_for message (file_delete path) s =
        at_path message path s _ _ λ p. map_err_state (B.record_file_delete p message s)
    apply_operation-call_for message (file_rename old_path new_path) s =
        at_path message old_path s _ _ λ p. at_path message new_path s _ _ λ q.
          map_err_state (map_some (B.record_file_rename p q message s))
          ∙ map_some_state (B.record_file_rename p q message s)
    apply_operation-call_for message op s = refl

    pub apply_opcode-call_for :
        (o : Opcode) (os : List Opcode) (s : B.State)
        → make_all (calls_for to_str (o ∷ os)) s
          ≡ make_all (calls_for to_str os) (apply_opcode to_str B o s).0
    unfolding apply_opcode calls_for make_all
    apply_opcode-call_for o os s =
        by_call (call_for to_str o.op)
        ∙ ap (make_all (calls_for to_str os)) (sym (apply_operation-call_for (o.seq, o.op) o.op s))
      where
        by_call :
            (call : Option RecordCall)
            → make_all
                (elim call as (λ _. List (Message × RecordCall)) [
                  | none ↦ calls_for to_str os
                  | some call ↦ ((o.seq, o.op), call) ∷ calls_for to_str os
                ])
                s
              ≡ make_all (calls_for to_str os) (made (o.seq, o.op) call s)
        by_call none = refl
        by_call (some call) = refl
