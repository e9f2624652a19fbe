-- ===== src/Pijul/Backend/Contents/Stages.antt =====
-- crates/ize-lib/src/pijul/backend.rs: what holds of the repository after steps that succeed.
use ize.Prelude.{◌≡◌, refl, Bool, is_empty, none, some, Result, ok, err, if◌then◌else◌}
use ize.Pijul.Libpijul.{Libpijul, ChangeHeader}
use ize.Pijul.Backend.{
  or_else-ok, PijulError, attempt, recording, transaction, change_store, Repository, save_and_apply,
  record_actions,
}

module _ (L : Libpijul) where
  -- What holds of the repository after a step that succeeds.
  unfoldable pub Ends :
      {B : Type 0} → (B → Repository L → Type 0) → Repository L × Result B PijulError → Type 0
  Ends Q out = (b : _) → out.1 ≡ ok b → Q b out.0

  pub attempt-Ends :
      {A B : Type 0} (Q : B → Repository L → Type 0) (r : Repository L) (m : Result A PijulError)
      (f : A → Repository L × Result B PijulError)
      → ((a : A) → m ≡ ok a → Ends Q (f a))
      → Ends Q (attempt r m f)
  unfolding attempt Ends
  attempt-Ends Q r (ok a) f h = h a refl
  attempt-Ends Q r (err e) f h = λ b k. cc k

  pub ok-Ends :
      {B : Type 0} (Q : B → Repository L → Type 0) (r : Repository L) (b : B)
      → Q b r
      → Ends Q (r, ok b)
  unfolding Ends
  ok-Ends Q r b h = λ b' same. let back : b' ≡ b = cc same in rw back h

  -- `h` is used at what the four steps return.
  pub save_and_apply-Ends :
      (Q : L.Hash → Repository L → Type 0) (header : ChangeHeader) (txn : L.Txn)
      (channel : L.ChannelRef) (recorded : L.Recorded) (r : Repository L)
      → ((change change' : L.Change) (hash : L.Hash) (txn' : L.Txn) (pristine : L.Pristine)
          → L.into_change channel header recorded txn ≡ ok change
          → (L.save_change change r.change_files).1 ≡ ok (change', hash)
          → L.apply_local_change channel change' hash txn ≡ ok txn'
          → L.commit txn' ≡ ok pristine
          → Q hash (record r {
            pristine = pristine;
            change_files = (L.save_change change r.change_files).0;
          }))
      → Ends Q (save_and_apply L header txn channel recorded r)
  unfolding save_and_apply
  save_and_apply-Ends Q header txn channel recorded r h = attempt-Ends Q r _ _ λ change made.
      attempt-Ends Q _ _ _ λ saved kept. attempt-Ends Q _ _ _ λ txn' applied.
        attempt-Ends Q _ _ _ λ pristine ended. ok-Ends Q _ saved.1 (
          h change saved.0 saved.1 txn' pristine (or_else-ok recording _ made)
            (or_else-ok change_store _ kept) (or_else-ok transaction _ applied)
            (or_else-ok transaction _ ended))

  -- `Q` of the repository as it is, if there are no actions, and otherwise of the one saved.
  pub record_actions-Ends :
      (Q : Repository L → Type 0) (header : ChangeHeader) (txn : L.Txn) (channel : L.ChannelRef)
      (recorded : L.Recorded) (r : Repository L)
      → (is_empty (L.actions recorded) ≡ Bool.true → Q r)
      → Ends (λ hash. Q) (save_and_apply L header txn channel recorded r)
      → Ends (λ o. Q) (record_actions L header txn channel recorded r)
  unfolding record_actions Ends attempt
  record_actions-Ends Q header txn channel recorded r h k =
      by_actions (is_empty (L.actions recorded)) h
    where
      saved_result :
          (out : Repository L × Result L.Hash PijulError)
          → Ends (λ hash. Q) out
          → Ends (λ o. Q) (attempt out.0 out.1 λ hash. (out.0, ok (some hash)))
      saved_result (r', ok hash) h = λ o same. h hash refl
      saved_result (r', err e) h = λ o same. cc same

      by_actions :
          (b : Bool)
          → (b ≡ Bool.true → Q r)
          → Ends
              (λ o. Q)
              (if b
                then (r, ok none)
                else (let (r', result) = save_and_apply L header txn channel recorded r in
                    attempt r' result λ hash. (r', ok (some hash))))
      by_actions Bool.true h = λ o same. h refl
      by_actions Bool.false h = saved_result (save_and_apply L header txn channel recorded r) k
