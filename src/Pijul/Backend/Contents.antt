-- ===== src/Pijul/Backend/Contents.antt =====
-- crates/ize-lib/src/pijul/backend.rs: the content of a file that the repository has after a write
-- or a truncation was recorded, and after a deletion, from what libpijul documents.
mod Stages
mod Reading
use ize.Prelude.{
  ◌⊎◌, inl, inr, ℕ, ℤ, ◌≡◌, refl, ap, ◌∙◌, Bool, [], is_empty, Option, some, Result, ok, err,
  String,
}
use ize.Operations.Operation.{Bytes}
use ize.Pijul.Libpijul.{Libpijul, ChangeHeader}
use ize.Pijul.Content.{apply_write, apply_truncate}
use ize.Pijul.Backend
use ize.Pijul.Backend.{
  detect_encoding, or_else-ok, PijulError, attempt, transaction, diff_error, Repository,
  record_actions, diff_and_record, begin_on_channel, get_file_position, get_file_content_at,
}
use ize.Pijul.Backend.Record.{
  record_file_write, record_file_truncate, record_file_delete, record_content,
}
use ize.Pijul.Backend.Channels.{get_file_content}
use ize.Pijul.Backend.Contents.Stages.{Ends, attempt-Ends, save_and_apply-Ends, record_actions-Ends}
use ize.Pijul.Backend.Contents.Reading.{
  Reads, begin_on_channel-ok, Found, get_file_position-Found, get_file_content-Reads,
  Reads-get_file_content, diff_of-ok,
}

-- The transaction, or the one that the removal of the path from the tree makes of it.
abbrev pub Since : (L : Libpijul) → String → L.Txn → L.Txn → Type 0
Since L path txn txn' = (txn ≡ txn') ⊎ (L.remove_file path txn ≡ ok txn')

-- What libpijul documents of transactions, of changes of one file's content, and of the diff that is
-- given a file's position, inode and graph and the encoding of the new content.
pub record ContentLaws (L : Libpijul) : Type 0 where
  -- A transaction that begins after a commit sees what was committed.
  pub begin-commit :
      (txn txn' : L.Txn) (pristine : L.Pristine)
      → L.commit txn ≡ ok pristine
      → L.arc_txn_begin pristine ≡ ok txn'
      → txn' ≡ txn
  -- A change is applied to a channel, and neither makes nor removes one.
  pub load_channel-apply :
      (channel : L.ChannelRef) (change : L.Change) (hash : L.Hash) (txn txn' : L.Txn)
      (name : String)
      → L.apply_local_change channel change hash txn ≡ ok txn'
      → L.load_channel name txn' ≡ L.load_channel name txn
  -- A change that is made of a diff gives the file the content that was diffed, and moves no file.
  pub apply-diff :
      (files : L.ChangeStore) (channel : L.ChannelRef) (path : String) (inode : L.Inode)
      (pos : L.Position) (graph : L.Graph) (content : Bytes) (header : ChangeHeader)
      (recorded : L.Recorded) (change change' : L.Change) (hash : L.Hash) (txn txn' : L.Txn)
      → Found L files channel path pos inode txn
      → L.alive_retrieve channel pos txn ≡ ok graph
      → L.diff files channel path inode (some pos) graph content (detect_encoding content) txn
        ≡ ok recorded
      → L.into_change channel header recorded txn ≡ ok change
      → (L.save_change change files).1 ≡ ok (change', hash)
      → L.apply_local_change channel change' hash txn ≡ ok txn'
      → (L.output_file (L.save_change change files).0 channel pos txn' ≡ ok content)
        × ((q : String)
            → L.follow_oldest_path (L.save_change change files).0 channel q txn'
              ≡ L.follow_oldest_path files channel q txn)
  -- The diff of a content has no actions exactly if the file has that content.
  pub actions-diff :
      (files : L.ChangeStore) (channel : L.ChannelRef) (path : String) (inode : L.Inode)
      (pos : L.Position) (graph : L.Graph) (old content : Bytes) (recorded : L.Recorded)
      (before txn : L.Txn)
      → Found L files channel path pos inode before
      → Since L path before txn
      → L.alive_retrieve channel pos txn ≡ ok graph
      → L.output_file files channel pos txn ≡ ok old
      → L.diff files channel path inode (some pos) graph content (detect_encoding content) txn
        ≡ ok recorded
      → (is_empty (L.actions recorded) ≡ Bool.true → old ≡ content)
        × (old ≡ content → is_empty (L.actions recorded) ≡ Bool.true)
  -- The removal of a path from the tree leaves the content of every file.
  pub output-remove :
      (files : L.ChangeStore) (channel : L.ChannelRef) (path : String) (pos : L.Position)
      (txn txn' : L.Txn)
      → L.remove_file path txn ≡ ok txn'
      → L.output_file files channel pos txn' ≡ L.output_file files channel pos txn

module _ (L : Libpijul) where
  module _ (laws : ContentLaws L) where
    -- The file has the content, once a transaction begins.
    unfoldable Has : String → Bytes → Repository L → Type 0
    Has path content r =
        (txn : L.Txn) → L.arc_txn_begin r.pristine ≡ ok txn → get_file_content L path r ≡ ok content

    diff_and_record-refines :
        (now : ℤ) (path message : String) (txn : L.Txn) (inode : L.Inode) (old new : Bytes)
        (r : Repository L) (reads : Reads L r path txn old)
        → L.arc_txn_begin r.pristine ≡ ok txn
        → Found L r.change_files reads.channel path reads.pos inode txn
        → Ends L
            (λ o. Has path new)
            (diff_and_record L now txn reads.channel path reads.pos inode new message r)
    unfolding diff_and_record Has
    diff_and_record-refines now path message txn inode old new r reads at found =
        attempt-Ends L _ r _ _ λ recorded diffed.
          let (graph, alive, made) =
            diff_of-ok L txn reads.channel path reads.pos inode new r recorded diffed in
          record_actions-Ends L (Has path new) _ txn reads.channel recorded r
            (λ none_left begun begins.
              Reads-get_file_content L path r txn old at reads
              ∙ ap ok (
                  (laws.actions-diff r.change_files reads.channel path inode reads.pos graph old new
                      recorded txn txn found (inl refl) alive reads.output made).0
                    none_left))
            (save_and_apply-Ends L _ _ txn reads.channel recorded r
              λ change change' hash txn' pristine into saved applied ended begun begins.
                let after =
                  laws.apply-diff r.change_files reads.channel path inode reads.pos graph new _
                    recorded change change' hash txn txn' found alive made into saved applied in
                let same = laws.begin-commit txn' begun pristine ended begins in
                Reads-get_file_content L path _ txn' new (begins ∙ ap ok same) (record {
                  channel = reads.channel;
                  pos = reads.pos;
                  ambiguous = reads.ambiguous;
                  loaded =
                      laws.load_channel-apply reads.channel change' hash txn txn' r.current_channel
                        applied
                      ∙ reads.loaded;
                  followed = after.1 path ∙ reads.followed;
                  output = after.0;
                }))

    record_content-refines :
        (now : ℤ) (path : String) (update : Bytes → Bytes) (message : String) (old : Bytes)
        (r : Repository L)
        → get_file_content L path r ≡ ok old
        → Ends L (λ o. Has path (update old)) (record_content L now path update message r)
    unfolding record_content get_file_content_at
    record_content-refines now path update message old r h = attempt-Ends L _ r _ _ λ begun begins.
        attempt-Ends L _ r _ _ λ found finds. attempt-Ends L _ r _ _ λ content outputs.
          let (at, loaded) = begin_on_channel-ok L r begun.0 begun.1 begins in
          let at_path = get_file_position-Found L r begun.0 begun.1 path found finds in
          let reads : Reads L r path begun.0 content = record {
            channel = begun.1;
            pos = found.0;
            ambiguous = at_path.ambiguous;
            loaded = loaded;
            followed = at_path.followed;
            output = or_else-ok diff_error _ outputs;
          } in
          let same : old ≡ content =
            cc (Reads-get_file_content L path r begun.0 content at reads, h) in
          rw same (
            diff_and_record-refines now path message begun.0 found.1 content (update content) r
              reads at at_path)

    -- If a file can be read and a write to it is recorded without an error, with a hash or without,
    -- and a transaction can then be begun, the repository has the content that the write makes of
    -- the old one.
    pub record_file_write-refines :
        (now : ℤ) (path : String) (offset : ℕ) (bytes : Bytes) (message : String) (old : Bytes)
        (o : Option L.Hash) (r : Repository L) (txn : L.Txn)
        → get_file_content L path r ≡ ok old
        → (record_file_write L now path offset bytes message r).1 ≡ ok o
        → L.arc_txn_begin (record_file_write L now path offset bytes message r).0.pristine ≡ ok txn
        → get_file_content L path (record_file_write L now path offset bytes message r).0
          ≡ ok (apply_write old offset bytes)
    unfolding record_file_write Ends Has
    record_file_write-refines now path offset bytes message old o r txn h k begins =
        record_content-refines now path (λ content. apply_write content offset bytes) message old r
          h o k txn begins

    -- If a file can be read and its truncation is recorded without an error, and a transaction can
    -- then be begun, the repository has the old content up to the new size.
    pub record_file_truncate-refines :
        (now : ℤ) (path : String) (new_size : ℕ) (message : String) (old : Bytes)
        (o : Option L.Hash) (r : Repository L) (txn : L.Txn)
        → get_file_content L path r ≡ ok old
        → (record_file_truncate L now path new_size message r).1 ≡ ok o
        → L.arc_txn_begin (record_file_truncate L now path new_size message r).0.pristine ≡ ok txn
        → get_file_content L path (record_file_truncate L now path new_size message r).0
          ≡ ok (apply_truncate old new_size)
    unfolding record_file_truncate Ends Has
    record_file_truncate-refines now path new_size message old o r txn h k begins =
        record_content-refines now path (λ content. apply_truncate content new_size) message old r h
          o k txn begins

    output-of-Reads :
        (path : String) (r : Repository L) (begun : L.Txn × L.ChannelRef)
        (found : L.Position × L.Inode) (content : Bytes)
        → get_file_content L path r ≡ ok content
        → begin_on_channel L r ≡ ok begun
        → get_file_position L r begun.0 begun.1 path ≡ ok found
        → L.output_file r.change_files begun.1 found.0 begun.0 ≡ ok content
    output-of-Reads path r begun found content h begins finds =
        let (txn, at', reads) = get_file_content-Reads L path r content h in
        let (at, loaded) = begin_on_channel-ok L r begun.0 begun.1 begins in
        let at_path = get_file_position-Found L r begun.0 begun.1 path found finds in
        let same_txn : txn ≡ begun.0 = cc (at, at') in
        let same_channel : reads.channel ≡ begun.1 = cc (loaded, reads.loaded, same_txn) in
        let same_pos : reads.pos ≡ found.0 =
          cc (at_path.followed, reads.followed, same_txn, same_channel) in
        cc (reads.output, same_txn, same_channel, same_pos)

    attempt-same :
        {A B : Type 0} (r : Repository L) (m : Result A PijulError)
        (f : A → Repository L × Result B PijulError)
        → ((a : A) → m ≡ ok a → (f a).0 ≡ r)
        → (attempt r m f).0 ≡ r
    unfolding attempt
    attempt-same r (ok a) f h = h a refl
    attempt-same r (err e) f h = refl

    -- Recording the deletion of an empty file leaves the repository as it is, whatever the result:
    -- the diff has no actions, and the transaction that took the path off the tree is dropped.
    pub record_file_delete-keeps_empty :
        (now : ℤ) (path message : String) (r : Repository L)
        → get_file_content L path r ≡ ok []
        → (record_file_delete L now path message r).0 ≡ r
    unfolding record_file_delete diff_and_record record_actions
    record_file_delete-keeps_empty now path message r h = attempt-same r _ _ λ begun begins.
        attempt-same r _ _ λ found finds. attempt-same r _ _ λ txn' removes.
          attempt-same r _ _ λ recorded diffed.
            let (graph, alive, made) =
              diff_of-ok L txn' begun.1 path found.0 found.1 [] r recorded diffed in
            let removed = or_else-ok transaction _ removes in
            let at_path = get_file_position-Found L r begun.0 begun.1 path found finds in
            let left =
              laws.output-remove r.change_files begun.1 path found.0 begun.0 txn' removed
              ∙ output-of-Reads path r begun found [] h begins finds in
            let no_actions =
              (laws.actions-diff r.change_files begun.1 path found.1 found.0 graph [] [] recorded
                  begun.0 txn' at_path (inr removed) alive left made).1
                refl in
            rw no_actions
