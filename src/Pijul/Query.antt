-- ===== src/Pijul/Query.antt =====
-- crates/ize-lib/src/pijul/query.rs: `PijulQuery`, which reads a repository for the viewer.
pub mod Laws
use ize.Prelude.{
  ℕ, ℤ, List, [], ◌∷◌, reverse, length, Option, none, some, Result, ok, err, ◌>>=◌, String,
}
use ize.Operations.Operation.{Bytes}
use ize.Viewer.Changes.{ChangeInfo}
use ize.Pijul.Libpijul.{Libpijul, ChangeHeader}
use ize.Pijul.Backend.{
  PijulError, sanakirja, transaction, diff_error, change_store, or_else, ok_or, Repository,
  load_channel_ref,
}
use ize.Pijul.Backend.Channels.{list_changes, get_file_content}

-- `filter_map` over the authors, of those that have a name.
unfoldable pub author_names : List (Option String) → List String
author_names [] = []
author_names (none ∷ authors) = author_names authors
author_names (some name ∷ authors) = name ∷ author_names authors

-- `to_base32` and `from_base32` are of libpijul; `to_text` is `String::from_utf8`. `single` is
-- chrono's `timestamp_opt(..).single()`, which has none out of its range, and `now` is the clock.
module _ (L : Libpijul) (to_base32 : L.Hash → List ℕ) (single : ℤ → Option ℤ) (now : ℤ) where
  unfoldable pub to_date_time : ℤ → ℤ
  to_date_time seconds = elim (single seconds) [ none ↦ now | some t ↦ t ]

  unfoldable pub info_of : L.Hash → ChangeHeader → ChangeInfo
  unfolding author_names to_date_time
  info_of hash header = record {
    hash = to_base32 hash;
    message = header.message;
    description = header.description;
    timestamp = to_date_time header.timestamp;
    authors = author_names header.authors;
    files_changed = 0;
  }

  -- The entry of a change whose header cannot be read.
  unfoldable pub minimal_info : L.Hash → ChangeInfo
  minimal_info hash = record {
    hash = to_base32 hash;
    message = "(unable to read change)";
    description = none;
    timestamp = now;
    authors = [];
    files_changed = 0;
  }

  unfoldable pub entry_of : Repository L → L.Hash → ChangeInfo
  unfolding info_of minimal_info
  entry_of r hash = elim (L.get_header hash r.change_files) [
    | ok header ↦ info_of hash header
    | err e ↦ minimal_info hash
  ]

  -- The loop over the log.
  unfoldable pub detailed_entries :
      Repository L → List (Result L.Hash String) → Result (List ChangeInfo) PijulError
  unfolding entry_of
  detailed_entries r [] = ok []
  detailed_entries r (entry ∷ entries) = do
    hash ← or_else transaction entry
    rest ← detailed_entries r entries
    ok (entry_of r hash ∷ rest)

  unfoldable pub list_changes_detailed : Repository L → Result (List ChangeInfo) PijulError
  unfolding load_channel_ref detailed_entries
  list_changes_detailed r = do
    txn ← or_else sanakirja (L.txn_begin r.pristine)
    channel ← load_channel_ref L r txn
    entries ← or_else transaction (L.log channel 0 txn)
    detailed_entries r entries

  unfoldable pub list_changes_detailed_reverse : Repository L → Result (List ChangeInfo) PijulError
  unfolding list_changes_detailed
  list_changes_detailed_reverse r = do changes ← list_changes_detailed r; ok (reverse changes)

  unfoldable pub get_change_info : Repository L → L.Hash → Result ChangeInfo PijulError
  unfolding info_of
  get_change_info r hash = do
    header ← or_else change_store (L.get_header hash r.change_files)
    ok (info_of hash header)

  unfoldable pub change_count : Repository L → Result ℕ PijulError
  unfolding list_changes
  change_count r = do changes ← list_changes L r; ok (length changes)

  unfoldable pub get_file_content_string :
      (Bytes → Result String String) → String → Repository L → Result String PijulError
  unfolding get_file_content
  get_file_content_string to_text path r = do
    content ← get_file_content L path r
    or_else diff_error (to_text content)

  unfoldable pub parse_hash : (String → Option L.Hash) → String → Result L.Hash PijulError
  parse_hash from_base32 hash_str = ok_or (transaction hash_str) (from_base32 hash_str)
