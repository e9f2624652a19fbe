-- ===== src/Pijul/Libpijul.antt =====
-- What crates/ize-lib/src/pijul/backend.rs and query.rs call of libpijul, as an interface: the
-- pristine database and its transactions, the change store, and the diff. An error of libpijul is
-- its text. A method that takes `&mut` has the new value beside its result, on errors too.
use ize.Prelude.{ℕ, ℤ, Bool, List, Option, Result, String}
use ize.Operations.Operation.{Bytes}

-- `ChangeHeader`: what `get("name")` finds stands for an author.
pub record ChangeHeader : Type 0 where
  pub message : String
  pub authors : List (Option String)
  pub description : Option String
  -- `as_second` of the time stamp
  pub timestamp : ℤ

-- `Encoding::for_label("utf-8")`
pub data Encoding : Type 0 where
  utf_8 : Encoding

pub record Libpijul : Type 1 where
  pub Pristine : Type 0
  -- A transaction sees the database as it was when it began, and what itself did.
  pub Txn : Type 0
  pub ChannelRef : Type 0
  pub Position : Type 0
  pub Inode : Type 0
  pub Graph : Type 0
  pub Action : Type 0
  pub Recorded : Type 0
  pub Memory : Type 0
  pub Change : Type 0
  pub Hash : Type 0
  -- The change files of a repository.
  pub ChangeStore : Type 0
  pub txn_begin : Pristine → Result Txn String
  pub mut_txn_begin : Pristine → Result Txn String
  pub arc_txn_begin : Pristine → Result Txn String
  pub commit : Txn → Result Pristine String
  pub open_or_create_channel : String → Txn → Result Txn String
  pub set_current_channel : String → Txn → Result Txn String
  pub current_channel : Txn → Result String String
  pub load_channel : String → Txn → Result (Option ChannelRef) String
  pub channels : String → Txn → Result (List ChannelRef) String
  pub name : ChannelRef → Txn → String
  pub fork : ChannelRef → String → Txn → Result Txn String
  pub log : ChannelRef → ℕ → Txn → Result (List (Result Hash String)) String
  pub add_dir : String → Txn → Txn × Result (Unit {0}) String
  pub add_file : String → Txn → Result Txn String
  pub remove_file : String → Txn → Result Txn String
  pub move_file : String → String → Txn → Result Txn String
  pub follow_oldest_path : ChangeStore → ChannelRef → String → Txn → Result (Position × Bool) String
  pub get_revinodes : Position → Txn → Result (Option Inode) String
  pub root_inode : Inode
  pub alive_retrieve : ChannelRef → Position → Txn → Result Graph String
  -- What is written to the buffer.
  pub output_file : ChangeStore → ChannelRef → Position → Txn → Result Bytes String
  -- `diff` on `Recorded::new()`
  pub diff :
      ChangeStore
      → ChannelRef
      → String
      → Inode
      → Option Position
      → Graph
      → Bytes
      → Option Encoding
      → Txn
      → Result Recorded String
  pub memory_new : Memory
  pub memory_add_dir : String → Memory → Memory
  pub memory_add_file : String → Bytes → Memory → Memory
  -- `record` on a new builder, with a prefix, and `finish`.
  pub record_changes :
      ChangeStore → ChannelRef → Memory → String → Txn → Result (Txn × Recorded) String
  pub actions : Recorded → List Action
  pub into_change : ChannelRef → ChangeHeader → Recorded → Txn → Result Change String
  pub save_change : Change → ChangeStore → ChangeStore × Result (Change × Hash) String
  pub apply_local_change : ChannelRef → Change → Hash → Txn → Result Txn String
  pub get_header : Hash → ChangeStore → Result ChangeHeader String
