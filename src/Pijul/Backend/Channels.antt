-- ===== src/Pijul/Backend/Channels.antt =====
-- crates/ize-lib/src/pijul/backend.rs: the set-up of a repository, the operations on its channels,
-- and what only reads it.
use ize.Prelude.{
  Bool, true, false, List, [], ◌∷◌, map, Option, Result, ok, err, ◌>>=◌, String, if◌then◌else◌,
}
use ize.Operations.Operation.{Bytes}
use ize.Pijul.Libpijul.{Libpijul}
use ize.Pijul.Backend.{
  PijulError, transaction, sanakirja, io, already_exists, not_initialized, channel_not_found,
  fork_error, file_not_found, diff_error, or_else, ok_or, unwrap_or, attempt, Repository,
  load_channel_ref, begin_on_channel,
}

abbrev pub default_channel : String
default_channel = "main"

-- What the set-up calls of the disk. A path is the text that `join` makes of its parts.
pub record Disk (P : Type 0) : Type 1 where
  pub State : Type 0
  pub join : String → String → String
  pub exists : String → State → Bool
  pub create_dir_all : String → State → State × Result (Unit {0}) String
  pub write : String → String → State → State × Result (Unit {0}) String
  -- `Pristine::new`, which makes the file or opens it.
  pub pristine_new : String → State → State × Result P String

module _ (L : Libpijul) where
  -- A transaction that makes the channel and sets it as the current one.
  unfoldable pub create_default_channel : String → L.Pristine → Result L.Pristine PijulError
  create_default_channel name pristine = or_else sanakirja (do
    txn ← L.mut_txn_begin pristine
    txn ← L.open_or_create_channel name txn
    txn ← L.set_current_channel name txn
    L.commit txn)

  -- The channel that the database names, or the default one if it names none.
  unfoldable pub named_channel : Result String String → String
  named_channel (ok name) = name
  named_channel (err e) = default_channel

  module _ (D : Disk L.Pristine) (change_files : String → D.State → L.ChangeStore) where
    unfoldable pub db_path : String → String
    db_path pijul_dir = D.join (D.join pijul_dir "pristine") "db"

    unfoldable pub init :
        String → String → Option String → D.State → D.State × Result (Repository L) PijulError
    unfolding db_path create_default_channel
    init pijul_dir working_dir channel d =
        if D.exists (db_path pijul_dir) d
        then (d, err (already_exists pijul_dir))
        else (let (d, made) = D.create_dir_all (D.join pijul_dir "pristine") d in
            attempt d (or_else io made) λ _.
              let (d, made) = D.create_dir_all (D.join pijul_dir "changes") d in
              attempt d (or_else io made) λ _.
                let (d, made) = D.create_dir_all working_dir d in
                attempt d (or_else io made) λ _.
                  let (d, opened) = D.pristine_new (db_path pijul_dir) d in
                  attempt d (or_else sanakirja opened) λ pristine.
                    let name = unwrap_or default_channel channel in
                    attempt d (create_default_channel name pristine) λ pristine'.
                      let (d, written) =
                        D.write (D.join pijul_dir "config") "[hooks]\nrecord = []\n" d in
                      attempt d (or_else io written) λ _. (
                        d,
                        ok (record {
                          pijul_dir = pijul_dir;
                          working_dir = working_dir;
                          pristine = pristine';
                          change_files = change_files (D.join pijul_dir "changes") d;
                          current_channel = name;
                        }),
                      ))

    -- The repository on a database that was opened, with the current channel that it names.
    unfoldable pub on_database :
        String → String → L.Pristine → D.State → D.State × Result (Repository L) PijulError
    unfolding named_channel
    on_database pijul_dir working_dir pristine d =
        attempt d (or_else sanakirja (L.txn_begin pristine)) λ txn. (
          d,
          ok (record {
            pijul_dir = pijul_dir;
            working_dir = working_dir;
            pristine = pristine;
            change_files = change_files (D.join pijul_dir "changes") d;
            current_channel = named_channel (L.current_channel txn);
          }),
        )

    unfoldable pub open_repository :
        String → String → D.State → D.State × Result (Repository L) PijulError
    unfolding db_path on_database
    open_repository pijul_dir working_dir d =
        if D.exists (db_path pijul_dir) d
        then (let (d, opened) = D.pristine_new (db_path pijul_dir) d in
            attempt d (or_else sanakirja opened)
              λ pristine. on_database pijul_dir working_dir pristine d)
        else (d, err (not_initialized pijul_dir))

  -- A new pristine database, if all steps up to the commit succeed.
  unfoldable pub committed :
      Repository L → Result L.Pristine PijulError → Repository L × Result (Unit {0}) PijulError
  committed r result = attempt r result λ pristine. (record r { pristine = pristine }, ok tt)

  unfoldable pub create_channel :
      String → Repository L → Repository L × Result (Unit {0}) PijulError
  unfolding committed
  create_channel name r = committed r (
      or_else sanakirja (do
        txn ← L.mut_txn_begin r.pristine
        txn ← L.open_or_create_channel name txn
        L.commit txn))

  unfoldable pub switched : String → Repository L → Result L.Pristine PijulError
  switched name r = do
    txn ← or_else sanakirja (L.mut_txn_begin r.pristine)
    channel ← or_else transaction (L.load_channel name txn)
    found ← ok_or (channel_not_found name) channel
    txn ← or_else sanakirja (L.set_current_channel name txn)
    or_else sanakirja (L.commit txn)

  unfoldable pub switch_channel :
      String → Repository L → Repository L × Result (Unit {0}) PijulError
  unfolding switched
  switch_channel name r =
      attempt r (switched name r)
        λ pristine. (record r { pristine = pristine; current_channel = name }, ok tt)

  unfoldable pub fork_channel :
      String → String → Repository L → Repository L × Result (Unit {0}) PijulError
  unfolding committed
  fork_channel from to r = committed r (do
    txn ← or_else sanakirja (L.mut_txn_begin r.pristine)
    loaded ← or_else transaction (L.load_channel from txn)
    from_channel ← ok_or (channel_not_found from) loaded
    txn ← or_else fork_error (L.fork from_channel to txn)
    or_else sanakirja (L.commit txn))

  unfoldable pub list_channels : Repository L → Result (List String) PijulError
  list_channels r = do
    txn ← or_else sanakirja (L.txn_begin r.pristine)
    refs ← or_else transaction (L.channels "" txn)
    ok (map (λ c. L.name c txn) refs)

  -- A `?` on each entry.
  unfoldable pub collect {ℓ} : {A : Type ℓ} → List (Result A String) → Result (List A) PijulError
  collect [] = ok []
  collect (entry ∷ entries) = do
    a ← or_else transaction entry
    rest ← collect entries
    ok (a ∷ rest)

  unfoldable pub list_changes : Repository L → Result (List L.Hash) PijulError
  unfolding load_channel_ref collect
  list_changes r = do
    txn ← or_else sanakirja (L.txn_begin r.pristine)
    channel ← load_channel_ref L r txn
    entries ← or_else transaction (L.log channel 0 txn)
    collect entries

  unfoldable pub get_file_content : String → Repository L → Result Bytes PijulError
  unfolding begin_on_channel
  get_file_content path r = do
    (txn, channel) ← begin_on_channel L r
    found ←
        or_else (λ e. file_not_found path) (L.follow_oldest_path r.change_files channel path txn)
    or_else diff_error (L.output_file r.change_files channel found.0 txn)

  unfoldable pub file_exists : String → Repository L → Result Bool PijulError
  unfolding begin_on_channel
  file_exists path r = do
    (txn, channel) ← begin_on_channel L r
    ok (elim (L.follow_oldest_path r.change_files channel path txn) [
      | ok found ↦ true
      | err e ↦ false
    ])

  -- The walk over the tree is not written yet: the list is always empty.
  unfoldable pub list_files : Repository L → Result (List String) PijulError
  unfolding begin_on_channel
  list_files r = do (txn, channel) ← begin_on_channel L r; ok []
