-- ===== src/Pijul/Backend/Atomic.antt =====
-- crates/ize-lib/src/pijul/backend.rs: what an operation of `PijulBackend` leaves of the pristine
-- database when it fails, and what stands behind a hash that it returns.
use ize.Prelude.{
  ℕ, ℤ, ◌≡◌, refl, ◌⊎◌, inl, inr, [], is_empty, Option, none, some, Result, ok, err, String, Bool,
  if◌then◌else◌,
}
use ize.FilePath.{FilePath}
use ize.Operations.Operation.{
  Bytes, Operation, file_create, file_write, file_truncate, file_delete, file_rename,
}
use ize.Pijul.Content.{apply_write, apply_truncate}
use ize.Operations.Opcode.{Opcode}
use ize.Pijul.Libpijul.{Libpijul, ChangeHeader}
use ize.Pijul.Operations.{
  Message, apply_opcode, apply_operation, OpcodeError, path_conversion, map_err, map_some,
  path_to_str,
}
use ize.Pijul.Backend.{
  or_else-ok, PijulError, attempt, transaction, Repository, save_and_apply, record_actions,
  diff_and_record,
}
use ize.Pijul.Backend.Record.{
  record_file_create, record_file_write, record_file_truncate, record_file_delete,
  record_file_rename, record_content, record_with_memory, recording_backend,
}

module _ (L : Libpijul) where
  -- The database is the commit of a transaction to which a change of this hash was applied.
  abbrev pub Applied : L.Hash → L.Pristine → Type 0
  Applied hash pristine =
      (channel : L.ChannelRef) × (change : L.Change) × (txn : L.Txn) × (txn' : L.Txn)
      × (L.apply_local_change channel change hash txn ≡ ok txn')
      × (L.commit txn' ≡ ok pristine)

  abbrev pub SomeApplied : Option L.Hash → L.Pristine → Type 0
  SomeApplied o pristine = (hash : L.Hash) × (o ≡ some hash) × Applied hash pristine

  -- The database is the one before, or the result is a value that stands in `P` to the new one.
  unfoldable pub Kept :
      {A E : Type 0} → (A → L.Pristine → Type 0) → Repository L → Repository L × Result A E → Type 0
  Kept P r out = (out.0.pristine ≡ r.pristine) ⊎ ((a : _) × (out.1 ≡ ok a) × P a out.0.pristine)

  attempt-Kept :
      {A B : Type 0} (P : B → L.Pristine → Type 0) (r r' : Repository L) (m : Result A PijulError)
      (f : A → Repository L × Result B PijulError)
      → r'.pristine ≡ r.pristine
      → ((a : A) → m ≡ ok a → Kept P r (f a))
      → Kept P r (attempt r' m f)
  unfolding attempt Kept
  attempt-Kept P r r' (ok a) f same h = h a refl
  attempt-Kept P r r' (err e) f same h = inl same

  save_and_apply-Kept :
      (header : ChangeHeader) (txn : L.Txn) (channel : L.ChannelRef) (recorded : L.Recorded)
      (r : Repository L)
      → Kept Applied r (save_and_apply L header txn channel recorded r)
  unfolding save_and_apply Kept
  save_and_apply-Kept header txn channel recorded r =
      attempt-Kept Applied r r _ _ refl λ change made.
        attempt-Kept Applied r _ _ _ refl λ saved kept.
          attempt-Kept Applied r _ _ _ refl λ txn' applied.
            attempt-Kept Applied r _ _ _ refl λ pristine done'. inr (
              saved.1,
              refl,
              (
                channel,
                saved.0,
                txn,
                txn',
                or_else-ok transaction _ applied,
                or_else-ok transaction _ done',
              ),
            )

  some_result-Kept :
      (r : Repository L) (out : Repository L × Result L.Hash PijulError)
      → Kept Applied r out
      → Kept SomeApplied r (attempt out.0 out.1 λ hash. (out.0, ok (some hash)))
  unfolding Kept attempt
  some_result-Kept r (r', ok hash) (inl same) = inl same
  some_result-Kept r (r', ok hash) (inr (a, same, applied)) =
      inr (some a, cc same, (a, refl, applied))
  some_result-Kept r (r', err e) (inl same) = inl same
  some_result-Kept r (r', err e) (inr (a, same, applied)) = cc same

  record_actions-Kept :
      (header : ChangeHeader) (txn : L.Txn) (channel : L.ChannelRef) (recorded : L.Recorded)
      (r : Repository L)
      → Kept SomeApplied r (record_actions L header txn channel recorded r)
  unfolding record_actions Kept
  record_actions-Kept header txn channel recorded r =
      if-Kept (is_empty (L.actions recorded)) _ _ (inl refl)
        (some_result-Kept r _ (save_and_apply-Kept header txn channel recorded r))
    where
      if-Kept :
          (b : Bool) (x y : Repository L × Result (Option L.Hash) PijulError)
          → Kept SomeApplied r x
          → Kept SomeApplied r y
          → Kept SomeApplied r (if b then x else y)
      if-Kept Bool.true x y h k = h
      if-Kept Bool.false x y h k = k

  diff_and_record-Kept :
      (now : ℤ) (txn : L.Txn) (channel : L.ChannelRef) (path : String) (file_pos : L.Position)
      (inode : L.Inode) (new_content : Bytes) (message : String) (r : Repository L)
      → Kept SomeApplied r
          (diff_and_record L now txn channel path file_pos inode new_content message r)
  unfolding diff_and_record
  diff_and_record-Kept now txn channel path file_pos inode new_content message r =
      attempt-Kept SomeApplied r r _ _ refl
        λ recorded h. record_actions-Kept _ txn channel recorded r

  record_content-Kept :
      (now : ℤ) (path : String) (update : Bytes → Bytes) (message : String) (r : Repository L)
      → Kept SomeApplied r (record_content L now path update message r)
  unfolding record_content
  record_content-Kept now path update message r = attempt-Kept SomeApplied r r _ _ refl λ begun h.
      attempt-Kept SomeApplied r r _ _ refl λ found h.
        attempt-Kept SomeApplied r r _ _ refl λ content h.
          diff_and_record-Kept now begun.0 begun.1 path found.0 found.1 (update content) message r

  record_file_write-Kept :
      (now : ℤ) (path : String) (offset : ℕ) (bytes : Bytes) (message : String) (r : Repository L)
      → Kept SomeApplied r (record_file_write L now path offset bytes message r)
  unfolding record_file_write
  record_file_write-Kept now path offset bytes message r =
      record_content-Kept now path (λ content. apply_write content offset bytes) message r

  record_file_truncate-Kept :
      (now : ℤ) (path : String) (new_size : ℕ) (message : String) (r : Repository L)
      → Kept SomeApplied r (record_file_truncate L now path new_size message r)
  unfolding record_file_truncate
  record_file_truncate-Kept now path new_size message r =
      record_content-Kept now path (λ content. apply_truncate content new_size) message r

  record_file_create-Kept :
      (now : ℤ) (path : String) (mode : ℕ) (content : Bytes) (message : String) (r : Repository L)
      → Kept SomeApplied r (record_file_create L now path mode content message r)
  unfolding record_file_create record_with_memory
  record_file_create-Kept now path mode content message r =
      attempt-Kept SomeApplied r r _ _ refl λ begun h.
        attempt-Kept SomeApplied r r _ _ refl λ txn' h.
          attempt-Kept SomeApplied r r _ _ refl
            λ recorded h. record_actions-Kept _ recorded.0 begun.1 recorded.1 r

  record_file_delete-Kept :
      (now : ℤ) (path message : String) (r : Repository L)
      → Kept SomeApplied r (record_file_delete L now path message r)
  unfolding record_file_delete
  record_file_delete-Kept now path message r = attempt-Kept SomeApplied r r _ _ refl λ begun h.
      attempt-Kept SomeApplied r r _ _ refl λ found h.
        attempt-Kept SomeApplied r r _ _ refl
          λ txn' h. diff_and_record-Kept now txn' begun.1 path found.0 found.1 [] message r

  record_file_rename-Kept :
      (now : ℤ) (old_path new_path message : String) (r : Repository L)
      → Kept Applied r (record_file_rename L now old_path new_path message r)
  unfolding record_file_rename
  record_file_rename-Kept now old_path new_path message r =
      attempt-Kept Applied r r _ _ refl λ begun h. attempt-Kept Applied r r _ _ refl λ txn' h.
        attempt-Kept Applied r r _ _ refl
          λ recorded h. save_and_apply-Kept _ recorded.0 begun.1 recorded.1 r

  map_err-Kept :
      (r : Repository L) (out : Repository L × Result (Option L.Hash) PijulError)
      → Kept SomeApplied r out
      → Kept SomeApplied r (map_err out)
  unfolding map_err Kept
  map_err-Kept r (r', ok o) (inl same) = inl same
  map_err-Kept r (r', ok o) (inr (a, same, applied)) = inr (a, cc same, applied)
  map_err-Kept r (r', err e) (inl same) = inl same
  map_err-Kept r (r', err e) (inr (a, same, applied)) = cc same

  map_some-Kept :
      (r : Repository L) (out : Repository L × Result L.Hash PijulError)
      → Kept Applied r out
      → Kept SomeApplied r (map_some out)
  unfolding map_some Kept
  map_some-Kept r (r', ok a) (inl same) = inl same
  map_some-Kept r (r', ok a) (inr (b, same, applied)) = inr (some b, cc same, (b, refl, applied))
  map_some-Kept r (r', err e) (inl same) = inl same
  map_some-Kept r (r', err e) (inr (b, same, applied)) = cc same

  module _ (now : ℤ) (message_of : Message → String) (to_str : FilePath → Option String) where
    path_to_str-Kept :
        (path : FilePath) (r : Repository L)
        (rest : String → Repository L × Result (Option L.Hash) (OpcodeError PijulError))
        → ((p : String) → Kept SomeApplied r (rest p))
        → Kept SomeApplied r (path_to_str to_str (recording_backend L now message_of) path r rest)
    unfolding path_to_str Kept
    path_to_str-Kept path r rest h = by_text (to_str path)
      where
        by_text :
            (o : Option String)
            → Kept SomeApplied r
                (elim o as (λ _. Repository L × Result (Option L.Hash) (OpcodeError PijulError)) [
                  | none ↦ (r, err (path_conversion path))
                  | some p ↦ rest p
                ])
        by_text none = inl refl
        by_text (some p) = h p

    apply_operation-Kept :
        (message : Message) (op : Operation) (r : Repository L)
        → Kept SomeApplied r
            (apply_operation to_str (recording_backend L now message_of) message op r)
    unfolding apply_operation Kept
    apply_operation-Kept message (file_create path mode content) r =
        path_to_str-Kept path r _
          λ p. map_err-Kept r _ (record_file_create-Kept now p mode content (message_of message) r)
    apply_operation-Kept message (file_write path offset bytes) r =
        path_to_str-Kept path r _
          λ p. map_err-Kept r _ (record_file_write-Kept now p offset bytes (message_of message) r)
    apply_operation-Kept message (file_truncate path new_size) r =
        path_to_str-Kept path r _
          λ p. map_err-Kept r _ (record_file_truncate-Kept now p new_size (message_of message) r)
    apply_operation-Kept message (file_delete path) r =
        path_to_str-Kept path r _
          λ p. map_err-Kept r _ (record_file_delete-Kept now p (message_of message) r)
    apply_operation-Kept message (file_rename old_path new_path) r =
        path_to_str-Kept old_path r _ λ p. path_to_str-Kept new_path r _ λ q.
          map_err-Kept r _
            (map_some-Kept r _ (record_file_rename-Kept now p q (message_of message) r))
    apply_operation-Kept message op r = inl refl

    -- Applying an opcode to the repository leaves the pristine database as it is, or it returns the
    -- hash of a change that was applied in a transaction whose commit is the new database: an
    -- opcode that fails, or that changes nothing, commits nothing.
    pub apply_opcode-Kept :
        (opcode : Opcode) (r : Repository L)
        → Kept SomeApplied r (apply_opcode to_str (recording_backend L now message_of) opcode r)
    unfolding apply_opcode
    apply_opcode-Kept opcode r = apply_operation-Kept (opcode.seq, opcode.op) opcode.op r
