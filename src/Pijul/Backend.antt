-- ===== src/Pijul/Backend.antt =====
-- crates/ize-lib/src/pijul/backend.rs: `PijulBackend` over the interface of libpijul. The value
-- holds the pristine database and the change files that the handles of the source point to; a
-- transaction is a value of its own, which is lost when it is dropped without `commit`.
pub mod Record
pub mod Channels
pub mod Atomic
pub mod Contents
pub mod Directories
pub mod Current
pub mod Toy
mod Tests
use ize.Prelude.{
  ℤ, ◌≡◌, refl, ◌==◌, [], any, is_empty, Option, none, some, Result, ok, err, ◌>>=◌, String,
  if◌then◌else◌,
}
use ize.Operations.Operation.{Bytes}
use ize.Pijul.Libpijul.{Libpijul, ChangeHeader, Encoding, utf_8}

pub data PijulError : Type 0 where
  sanakirja io not_initialized already_exists channel_not_found transaction : String → PijulError
  change_store fork_error file_not_found recording diff_error path_conversion : String → PijulError

-- `map_err(f)?`
abbrev pub or_else {ℓ κ} : {A : Type ℓ} {E F : Type κ} → (E → F) → Result A E → Result A F
or_else f (ok a) = ok a
or_else f (err e) = err (f e)

pub or_else-ok :
    {A E F : Type 0} (g : E → F) (m : Result A E) {a : A} → or_else g m ≡ ok a → m ≡ ok a
or_else-ok g (ok a) h = cc
or_else-ok g (err e) h = cc

-- `ok_or_else(|| e)`
abbrev pub ok_or {ℓ κ} : {A : Type ℓ} {E : Type κ} → E → Option A → Result A E
ok_or e none = err e
ok_or e (some a) = ok a

-- `unwrap_or(d)`
abbrev pub unwrap_or {ℓ} : {A : Type ℓ} → A → Option A → A
unwrap_or d none = d
unwrap_or d (some a) = a

-- Steps that leave `s` as it is, and what follows if they succeed.
unfoldable pub attempt {ℓ κ μ ν} :
    {S : Type ℓ} {A : Type κ} {B : Type μ} {E : Type ν}
    → S
    → Result A E
    → (A → S × Result B E)
    → S × Result B E
attempt s (ok a) f = f a
attempt s (err e) f = (s, err e)

pub attempt-ok :
    {S A B E : Type 0} (s : S) (m : Result A E) (f : A → S × Result B E) {b : B}
    → (attempt s m f).1 ≡ ok b
    → (a : A) × (m ≡ ok a) × ((f a).1 ≡ ok b) × (attempt s m f ≡ f a)
unfolding attempt
attempt-ok s (ok a) f h = (a, refl, h, refl)
attempt-ok s (err e) f h = cc

-- What holds of the error and of what follows.
pub attempt_either :
    {S A B E : Type 0} (P : S × Result B E → Type 0) (s : S) (m : Result A E)
    (f : A → S × Result B E)
    → ((e : E) → P (s, err e))
    → ((a : A) → P (f a))
    → P (attempt s m f)
unfolding attempt
attempt_either P s (ok a) f failed follows = follows a
attempt_either P s (err e) f failed follows = failed e

-- A text without NUL bytes is taken for UTF-8.
unfoldable pub detect_encoding : Bytes → Option Encoding
detect_encoding content = if any (λ b. b == 0) content then none else some utf_8

-- `now` is what the clock shows, in seconds.
unfoldable pub new_header : ℤ → String → ChangeHeader
new_header now message = record {
  message = message;
  authors = [];
  description = none;
  timestamp = now;
}

module _ (L : Libpijul) where
  pub record Repository : Type 0 where
    pub pijul_dir : String
    pub working_dir : String
    pub pristine : L.Pristine
    pub change_files : L.ChangeStore
    pub current_channel : String

  unfoldable pub load_channel_ref : Repository → L.Txn → Result L.ChannelRef PijulError
  load_channel_ref r txn = do
    channel ← or_else transaction (L.load_channel r.current_channel txn)
    ok_or (channel_not_found r.current_channel) channel

  -- The transaction and the channel with which every operation on files begins.
  unfoldable pub begin_on_channel : Repository → Result (L.Txn × L.ChannelRef) PijulError
  unfolding load_channel_ref
  begin_on_channel r = do
    txn ← or_else sanakirja (L.arc_txn_begin r.pristine)
    channel ← load_channel_ref r txn
    ok (txn, channel)

  unfoldable pub get_file_position :
      Repository → L.Txn → L.ChannelRef → String → Result (L.Position × L.Inode) PijulError
  get_file_position r txn channel path = do
    found ←
        or_else (λ e. file_not_found path) (L.follow_oldest_path r.change_files channel path txn)
    inode ← or_else transaction (L.get_revinodes found.0 txn)
    ok (found.0, unwrap_or L.root_inode inode)

  unfoldable pub get_file_content_at :
      Repository → L.Txn → L.ChannelRef → L.Position → Result Bytes PijulError
  get_file_content_at r txn channel file_pos =
      or_else diff_error (L.output_file r.change_files channel file_pos txn)

  -- From the header on: the change is made, saved, applied and committed.
  unfoldable pub save_and_apply :
      ChangeHeader
      → L.Txn
      → L.ChannelRef
      → L.Recorded
      → Repository
      → Repository × Result L.Hash PijulError
  save_and_apply header txn channel recorded r =
      attempt r (or_else recording (L.into_change channel header recorded txn)) λ change.
        let (change_files, saved) = L.save_change change r.change_files in
        let r' = record r { change_files = change_files } in
        attempt r' (or_else change_store saved) λ (change', hash).
          attempt r' (or_else transaction (L.apply_local_change channel change' hash txn)) λ txn'.
            attempt r' (or_else transaction (L.commit txn'))
              λ pristine. (record r' { pristine = pristine }, ok hash)

  -- `return Ok(None)` when nothing changed, which drops the transaction.
  unfoldable pub record_actions :
      ChangeHeader
      → L.Txn
      → L.ChannelRef
      → L.Recorded
      → Repository
      → Repository × Result (Option L.Hash) PijulError
  unfolding save_and_apply
  record_actions header txn channel recorded r =
      if is_empty (L.actions recorded)
      then (r, ok none)
      else (let (r', result) = save_and_apply header txn channel recorded r in
          attempt r' result λ hash. (r', ok (some hash)))

  unfoldable pub diff_of :
      L.Txn
      → L.ChannelRef
      → String
      → L.Position
      → L.Inode
      → Bytes
      → Repository
      → Result L.Recorded PijulError
  unfolding detect_encoding
  diff_of txn channel path file_pos inode new_content r = do
    graph ← or_else diff_error (L.alive_retrieve channel file_pos txn)
    or_else diff_error (
        L.diff r.change_files channel path inode (some file_pos) graph new_content
          (detect_encoding new_content) txn)

  unfoldable pub diff_and_record :
      ℤ
      → L.Txn
      → L.ChannelRef
      → String
      → L.Position
      → L.Inode
      → Bytes
      → String
      → Repository
      → Repository × Result (Option L.Hash) PijulError
  unfolding diff_of record_actions new_header
  diff_and_record now txn channel path file_pos inode new_content message r =
      attempt r (diff_of txn channel path file_pos inode new_content r)
        λ recorded. record_actions (new_header now message) txn channel recorded r
