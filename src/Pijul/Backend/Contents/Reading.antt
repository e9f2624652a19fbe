-- ===== src/Pijul/Backend/Contents/Reading.antt =====
-- crates/ize-lib/src/pijul/backend.rs: the steps by which the content of a file is read.
use ize.Prelude.{sym, bind-ok, ◌≡◌, ap, ◌∙◌, Bool, Option, none, some, ok, ◌>>=◌, String}
use ize.Operations.Operation.{Bytes}
use ize.Pijul.Libpijul.{Libpijul}
use ize.Pijul.Backend
use ize.Pijul.Backend.{
  or_else-ok, PijulError, or_else, transaction, sanakirja, diff_error, Repository, diff_of,
  begin_on_channel, load_channel_ref, get_file_position, detect_encoding,
}
use ize.Pijul.Backend.Channels.{get_file_content}

module _ (L : Libpijul) where
  -- The steps of `get_file_content` up to the content, on a transaction.
  pub record Reads (r : Repository L) (path : String) (txn : L.Txn) (content : Bytes) : Type 0 where
    pub channel : L.ChannelRef
    pub pos : L.Position
    pub ambiguous : Bool
    pub loaded : L.load_channel r.current_channel txn ≡ ok (some channel)
    pub followed : L.follow_oldest_path r.change_files channel path txn ≡ ok (pos, ambiguous)
    pub output : L.output_file r.change_files channel pos txn ≡ ok content

  pub load_channel_ref-ok :
      (r : Repository L) (txn : L.Txn) (channel : L.ChannelRef)
      → load_channel_ref L r txn ≡ ok channel
      → L.load_channel r.current_channel txn ≡ ok (some channel)
  unfolding load_channel_ref
  load_channel_ref-ok r txn channel h =
      let (o, loaded, same) = bind-ok _ _ h in
      or_else-ok transaction _ loaded ∙ ap ok (is_some _ o same)
    where
      is_some :
          {A : Type 0} {a : A} (e : PijulError) (o : Option A)
          → Backend.ok_or e o ≡ ok a
          → o ≡ some a
      is_some e none h = cc
      is_some e (some b) h = cc

  pub begin_on_channel-ok :
      (r : Repository L) (txn : L.Txn) (channel : L.ChannelRef)
      → begin_on_channel L r ≡ ok (txn, channel)
      → (L.arc_txn_begin r.pristine ≡ ok txn)
        × (L.load_channel r.current_channel txn ≡ ok (some channel))
  unfolding begin_on_channel
  begin_on_channel-ok r txn channel h =
      let (t, begun, rest) = bind-ok (or_else sanakirja (L.arc_txn_begin r.pristine)) _ h in
      let (c, loaded, same) = bind-ok (load_channel_ref L r t) _ rest in
      let same_txn : t ≡ txn = cc same in
      let same_channel : c ≡ channel = cc same in
      (
        or_else-ok sanakirja _ begun ∙ ap ok same_txn,
        load_channel_ref-ok r txn channel (cc (loaded, same_txn, same_channel)),
      )

  -- The file at a path: its position, and the inode that the transaction has for that.
  pub record Found (files : L.ChangeStore) (channel : L.ChannelRef) (path : String)
      (pos : L.Position) (inode : L.Inode) (txn : L.Txn) : Type 0 where
    pub ambiguous : Bool
    pub revinode : Option L.Inode
    pub followed : L.follow_oldest_path files channel path txn ≡ ok (pos, ambiguous)
    pub named : L.get_revinodes pos txn ≡ ok revinode
    pub same_inode : inode ≡ Backend.unwrap_or L.root_inode revinode

  pub get_file_position-Found :
      (r : Repository L) (txn : L.Txn) (channel : L.ChannelRef) (path : String)
      (found : L.Position × L.Inode)
      → get_file_position L r txn channel path ≡ ok found
      → Found r.change_files channel path found.0 found.1 txn
  unfolding get_file_position
  get_file_position-Found r txn channel path found h =
      let (at, followed, rest) =
        bind-ok
          (or_else (λ e. Backend.file_not_found path)
            (L.follow_oldest_path r.change_files channel path txn))
          (λ at. or_else transaction (L.get_revinodes at.0 txn) >>= λ inode.
            ok (at.0, Backend.unwrap_or L.root_inode inode))
          h in
      let (inode, got, same) =
        bind-ok (or_else transaction (L.get_revinodes at.0 txn))
          (λ inode. ok (at.0, Backend.unwrap_or L.root_inode inode)) rest in
      let same_pos : at.0 ≡ found.0 = cc same in
      record {
        ambiguous = at.1;
        revinode = inode;
        followed = or_else-ok _ _ followed ∙ ap (λ p. ok (p, at.1)) same_pos;
        named = ap (λ p. L.get_revinodes p txn) (sym same_pos) ∙ or_else-ok transaction _ got;
        same_inode = cc same;
      }

  pub get_file_content-Reads :
      (path : String) (r : Repository L) (content : Bytes)
      → get_file_content L path r ≡ ok content
      → (txn : L.Txn) × (L.arc_txn_begin r.pristine ≡ ok txn) × Reads r path txn content
  unfolding get_file_content
  get_file_content-Reads path r content h =
      let ((txn, channel), begun, rest) = bind-ok _ _ h in
      let (found, followed, written) = bind-ok _ _ rest in
      let (at, loaded) = begin_on_channel-ok r txn channel begun in
      (
        txn,
        at,
        record {
          channel = channel;
          pos = found.0;
          ambiguous = found.1;
          loaded = loaded;
          followed = or_else-ok _ _ followed;
          output = or_else-ok diff_error _ written;
        },
      )

  pub Reads-get_file_content :
      (path : String) (r : Repository L) (txn : L.Txn) (content : Bytes)
      → L.arc_txn_begin r.pristine ≡ ok txn
      → Reads r path txn content
      → get_file_content L path r ≡ ok content
  unfolding get_file_content begin_on_channel load_channel_ref
  Reads-get_file_content path r txn content at reads =
      rw (at, reads.loaded, reads.followed, reads.output)

  pub diff_of-ok :
      (txn : L.Txn) (channel : L.ChannelRef) (path : String) (pos : L.Position) (inode : L.Inode)
      (content : Bytes) (r : Repository L) (recorded : L.Recorded)
      → diff_of L txn channel path pos inode content r ≡ ok recorded
      → (graph : L.Graph) × (L.alive_retrieve channel pos txn ≡ ok graph)
        × (L.diff r.change_files channel path inode
              (some pos)
              graph
              content
              (detect_encoding content)
              txn
            ≡ ok recorded)
  unfolding diff_of
  diff_of-ok txn channel path pos inode content r recorded h =
      let (graph, retrieved, diffed) =
        bind-ok (or_else diff_error (L.alive_retrieve channel pos txn))
          (λ graph. or_else diff_error (
            L.diff r.change_files channel path inode (some pos) graph content
              (detect_encoding content) txn))
          h in
      (graph, or_else-ok diff_error _ retrieved, or_else-ok diff_error _ diffed)
