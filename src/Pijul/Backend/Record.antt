-- ===== src/Pijul/Backend/Record.antt =====
-- crates/ize-lib/src/pijul/backend.rs: the operations that record a change of a file, and the
-- interface of operations.rs that they fill.
use ize.Prelude.{
  ℕ, ℤ, List, [], ◌∷◌, Option, Result, String, if◌then◌else◌, str_is_empty, push_str, split_slash,
}
use ize.Operations.Operation.{Bytes}
use ize.Pijul.Libpijul.{Libpijul}
use ize.Pijul.Operations.{Message}
use ize.Pijul.Operations
use ize.Pijul.Content.{apply_write, apply_truncate}
use ize.Pijul.Backend.{
  PijulError, transaction, recording, or_else, attempt, Repository, begin_on_channel,
  get_file_position, get_file_content_at, save_and_apply, record_actions, new_header,
  diff_and_record,
}

-- The directories above a file of the given components: each is the one before, a slash if that is
-- not empty, and the component. The last component is the file and makes no directory.
unfoldable pub directories : String → List String → List String
directories current_path [] = []
directories current_path (component ∷ []) = []
directories current_path (component ∷ next ∷ rest) =
    let dir =
      push_str (if str_is_empty current_path then "" else push_str current_path "/") component in
    dir ∷ directories dir (next ∷ rest)

-- `filter(|c| !c.is_empty())`
unfoldable pub non_empty : List String → List String
non_empty [] = []
non_empty (c ∷ cs) = let rest = non_empty cs in if str_is_empty c then rest else c ∷ rest

module _ (L : Libpijul) where
  -- `let _ = t.add_dir(..)` for each directory.
  unfoldable pub add_directories : List String → L.Txn → L.Txn
  add_directories [] txn = txn
  add_directories (dir ∷ dirs) txn = add_directories dirs (L.add_dir dir txn).0

  -- The working copy that holds one file and the directories above it.
  unfoldable pub memory_directories : List String → L.Memory → L.Memory
  memory_directories [] memory = memory
  memory_directories (dir ∷ dirs) memory = memory_directories dirs (L.memory_add_dir dir memory)

  unfoldable pub memory_of : String → Bytes → L.Memory
  unfolding directories non_empty memory_directories
  memory_of path content =
      L.memory_add_file path content
        (memory_directories (directories "" (non_empty (split_slash path))) L.memory_new)

  unfoldable pub record_with_memory :
      ℤ
      → L.Txn
      → L.ChannelRef
      → String
      → Bytes
      → String
      → Repository L
      → Repository L × Result (Option L.Hash) PijulError
  unfolding memory_of record_actions
  record_with_memory now txn channel path content message r =
      attempt r
        (or_else recording
          (L.record_changes r.change_files channel (memory_of path content) path txn))
        λ recorded. record_actions L (new_header now message) recorded.0 channel recorded.1 r

  unfoldable pub record_file_create :
      ℤ
      → String
      → ℕ
      → Bytes
      → String
      → Repository L
      → Repository L × Result (Option L.Hash) PijulError
  unfolding directories add_directories record_with_memory
  record_file_create now path mode content message r =
      attempt r (begin_on_channel L r) λ (txn, channel).
        let with_dirs = add_directories (directories "" (split_slash path)) txn in
        attempt r (or_else transaction (L.add_file path with_dirs))
          λ txn'. record_with_memory now txn' channel path content message r

  -- What a write and a truncation share: the new content is made of the one in the repository.
  unfoldable pub record_content :
      ℤ
      → String
      → (Bytes → Bytes)
      → String
      → Repository L
      → Repository L × Result (Option L.Hash) PijulError
  unfolding diff_and_record
  record_content now path update message r = attempt r (begin_on_channel L r) λ (txn, channel).
      attempt r (get_file_position L r txn channel path) λ (file_pos, inode).
        attempt r (get_file_content_at L r txn channel file_pos) λ content.
          diff_and_record L now txn channel path file_pos inode (update content) message r

  unfoldable pub record_file_write :
      ℤ
      → String
      → ℕ
      → Bytes
      → String
      → Repository L
      → Repository L × Result (Option L.Hash) PijulError
  unfolding record_content
  record_file_write now path offset bytes message r =
      record_content now path (λ content. apply_write content offset bytes) message r

  unfoldable pub record_file_truncate :
      ℤ → String → ℕ → String → Repository L → Repository L × Result (Option L.Hash) PijulError
  unfolding record_content
  record_file_truncate now path new_size message r =
      record_content now path (λ content. apply_truncate content new_size) message r

  unfoldable pub record_file_delete :
      ℤ → String → String → Repository L → Repository L × Result (Option L.Hash) PijulError
  unfolding diff_and_record
  record_file_delete now path message r = attempt r (begin_on_channel L r) λ (txn, channel).
      attempt r (get_file_position L r txn channel path) λ (file_pos, inode).
        attempt r (or_else transaction (L.remove_file path txn))
          λ txn'. diff_and_record L now txn' channel path file_pos inode [] message r

  -- The empty prefix records the whole tree, against an empty working copy.
  unfoldable pub record_file_rename :
      ℤ → String → String → String → Repository L → Repository L × Result L.Hash PijulError
  unfolding save_and_apply
  record_file_rename now old_path new_path message r =
      attempt r (begin_on_channel L r) λ (txn, channel).
        attempt r (or_else transaction (L.move_file old_path new_path txn)) λ txn'.
          attempt r
            (or_else recording (L.record_changes r.change_files channel L.memory_new "" txn'))
            λ recorded. save_and_apply L (new_header now message) recorded.0 channel recorded.1 r

  -- The backend that `OpcodeRecordingBackend` records with. `message_of` is the text that it makes
  -- of an opcode's number and operation with the derived `Debug`.
  abbrev pub recording_backend : ℤ → (Message → String) → Operations.PijulBackend
  recording_backend now message_of = record {
    State = Repository L;
    Hash = L.Hash;
    PijulError = PijulError;
    record_file_create =
        λ path mode content message. record_file_create now path mode content (message_of message);
    record_file_write =
        λ path offset bytes message. record_file_write now path offset bytes (message_of message);
    record_file_truncate =
        λ path size message. record_file_truncate now path size (message_of message);
    record_file_delete = λ path message. record_file_delete now path (message_of message);
    record_file_rename = λ p q message. record_file_rename now p q (message_of message);
  }
