-- ===== src/Pijul/Backend/Current.antt =====
-- crates/ize-lib/src/pijul/backend.rs: the current channel across a switch and a new opening of the
-- repository.
use ize.Prelude.{bind-ok, ◌≡◌, ap, sym, ◌∙◌, Bool, Result, ok, err, String, if◌then◌else◌}
use ize.Pijul.Libpijul.{Libpijul}
use ize.Pijul.Backend.{
  attempt-ok, or_else-ok, PijulError, sanakirja, transaction, channel_not_found, not_initialized,
  or_else, ok_or, attempt, Repository,
}
use ize.Pijul.Backend.Channels.{
  Disk, db_path, on_database, open_repository, named_channel, switched, switch_channel,
}

-- What libpijul documents of the current channel that a database names.
pub record CurrentLaws (L : Libpijul) : Type 0 where
  pub current-set :
      (name : String) (txn txn' : L.Txn)
      → L.set_current_channel name txn ≡ ok txn'
      → L.current_channel txn' ≡ ok name
  pub current-commit :
      (txn txn' : L.Txn) (pristine : L.Pristine)
      → L.commit txn ≡ ok pristine
      → L.txn_begin pristine ≡ ok txn'
      → L.current_channel txn' ≡ L.current_channel txn

module _ (L : Libpijul) (laws : CurrentLaws L) where
  -- Every transaction that begins on the database names the channel.
  abbrev Names : String → L.Pristine → Type 0
  Names name pristine =
      (txn : L.Txn) → L.txn_begin pristine ≡ ok txn → L.current_channel txn ≡ ok name

  set_and_commit-Names :
      (name : String) (txn txn' : L.Txn) (pristine : L.Pristine)
      → L.set_current_channel name txn ≡ ok txn'
      → L.commit txn' ≡ ok pristine
      → Names name pristine
  set_and_commit-Names name txn txn' pristine h k =
      λ begun at. laws.current-commit txn' begun pristine k at ∙ laws.current-set name txn txn' h

  switched-Names :
      (name : String) (r : Repository L) (pristine : L.Pristine)
      → switched L name r ≡ ok pristine
      → Names name pristine
  unfolding switched
  switched-Names name r pristine h =
      let (txn, begun, rest) = bind-ok (or_else sanakirja (L.mut_txn_begin r.pristine)) _ h in
      let (channel, loaded, rest) =
        bind-ok (or_else transaction (L.load_channel name txn)) _ rest in
      let (found, exists, rest) = bind-ok (ok_or (channel_not_found name) channel) _ rest in
      let (txn', set, committed) =
        bind-ok (or_else sanakirja (L.set_current_channel name txn)) _ rest in
      set_and_commit-Names name txn txn' pristine (or_else-ok sanakirja _ set)
        (or_else-ok sanakirja _ committed)

  module _ (D : Disk L.Pristine) (change_files : String → D.State → L.ChangeStore) where
    on_database-Names :
        (name pijul_dir working_dir : String) (pristine : L.Pristine) (d : D.State)
        (opened : Repository L)
        → Names name pristine
        → (on_database L D change_files pijul_dir working_dir pristine d).1 ≡ ok opened
        → opened.current_channel ≡ name
    unfolding on_database named_channel
    on_database-Names name pijul_dir working_dir pristine d opened names h =
        let (txn, begun, made, same) =
          attempt-ok d (or_else sanakirja (L.txn_begin pristine)) _ h in
        let named = names txn (or_else-ok sanakirja _ begun) in
        sym (ok-channel made) ∙ ap (named_channel L) named
      where
        ok-channel :
            {r r' : Repository L}
            → ◌≡◌ {A = Result (Repository L) PijulError} (ok r) (ok r')
            → r.current_channel ≡ r'.current_channel
        ok-channel {r = r} {r' = r'} h =
            let same : r ≡ r' = cc h in ap (λ q. q.current_channel) same

    open-Names :
        (name pijul_dir working_dir : String) (pristine : L.Pristine) (d : D.State)
        (opened : Repository L)
        → Names name pristine
        → (D.pristine_new (db_path L D change_files pijul_dir) d).1 ≡ ok pristine
        → (open_repository L D change_files pijul_dir working_dir d).1 ≡ ok opened
        → opened.current_channel ≡ name
    unfolding open_repository
    open-Names name pijul_dir working_dir pristine d opened names at h =
        by_exists (D.exists (db_path L D change_files pijul_dir) d) h
      where
        by_exists :
            (b : Bool)
            → (if b
                then attempt
                    (D.pristine_new (db_path L D change_files pijul_dir) d).0
                    (or_else sanakirja (D.pristine_new (db_path L D change_files pijul_dir) d).1)
                    (λ p.
                      on_database L D change_files pijul_dir working_dir p
                        (D.pristine_new (db_path L D change_files pijul_dir) d).0)
                else (d, err (not_initialized pijul_dir))).1
              ≡ ok opened
            → opened.current_channel ≡ name
        by_exists Bool.false k = cc k
        by_exists Bool.true k =
            let (p, got, rest, same) =
              attempt-ok _
                (or_else sanakirja (D.pristine_new (db_path L D change_files pijul_dir) d).1) _ k in
            let same_pristine : p ≡ pristine = cc (or_else-ok sanakirja _ got, at) in
            on_database-Names name pijul_dir working_dir p _ opened (rw same_pristine names) rest

    -- After a switch to a channel that succeeds, a repository that is opened on the same database
    -- has that channel as its current one, like the value that switched.
    pub switch_channel-open_repository :
        (name pijul_dir working_dir : String) (r opened : Repository L) (d : D.State)
        → (switch_channel L name r).1 ≡ ok tt
        → (D.pristine_new (db_path L D change_files pijul_dir) d).1
          ≡ ok (switch_channel L name r).0.pristine
        → (open_repository L D change_files pijul_dir working_dir d).1 ≡ ok opened
        → ((switch_channel L name r).0.current_channel ≡ name) × (opened.current_channel ≡ name)
    unfolding switch_channel
    switch_channel-open_repository name pijul_dir working_dir r opened d h at k =
        let (pristine, done_switch, last, same) = attempt-ok r (switched L name r) _ h in
        (
          cc same,
          open-Names name pijul_dir working_dir pristine d opened
              (switched-Names name r pristine done_switch) (cc (at, same)) k,
        )
