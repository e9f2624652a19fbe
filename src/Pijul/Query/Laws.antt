-- ===== src/Pijul/Query/Laws.antt =====
-- crates/ize-lib/src/pijul/query.rs: what the detailed list of changes is made of.
use ize.Prelude.{
  ℕ, ℤ, ◌≡◌, refl, List, [], ◌∷◌, map, reverse, Option, Result, ok, err, ◌>>=◌, String,
}
use ize.Viewer.Changes.{ChangeInfo}
use ize.Pijul.Libpijul.{Libpijul, ChangeHeader}
use ize.Pijul.Backend.{or_else, sanakirja, transaction, change_store, Repository, load_channel_ref}
use ize.Pijul.Backend.Channels.{list_changes, collect}
use ize.Pijul.Query.{
  info_of, minimal_info, entry_of, detailed_entries, list_changes_detailed,
  list_changes_detailed_reverse, get_change_info,
}

-- `Result::map`
abbrev pub map_ok : {A B E : Type 0} → (A → B) → Result A E → Result B E
map_ok f (ok a) = ok (f a)
map_ok f (err e) = err e

-- A function on the results passes a step by.
bind-map_ok :
    {A B C E : Type 0} (f : B → C) (m : Result A E) (g : A → Result B E) (h : A → Result C E)
    → ((a : A) → h a ≡ map_ok f (g a))
    → (m >>= h) ≡ map_ok f (m >>= g)
bind-map_ok f (ok a) g h same = same a
bind-map_ok f (err e) g h same = refl

cons-map_ok :
    {A B E : Type 0} (f : A → B) (a : A) (m : Result (List A) E)
    → (map_ok (map f) m >>= λ rest. ok (f a ∷ rest)) ≡ map_ok (map f) (m >>= λ rest. ok (a ∷ rest))
cons-map_ok f a (ok rest) = refl
cons-map_ok f a (err e) = refl

map_ok-map_ok :
    {A B C E : Type 0} (f : B → C) (g : A → B) (m : Result A E)
    → (map_ok g m >>= λ b. ok (f b)) ≡ map_ok (λ a. f (g a)) m
map_ok-map_ok f g (ok a) = refl
map_ok-map_ok f g (err e) = refl

module _ (L : Libpijul) (to_base32 : L.Hash → List ℕ) (single : ℤ → Option ℤ) (now : ℤ) where
  detailed_entries-collect :
      (r : Repository L) (entries : List (Result L.Hash String))
      → detailed_entries L to_base32 single now r entries
        ≡ map_ok (map (entry_of L to_base32 single now r)) (collect L entries)
  unfolding detailed_entries collect
  detailed_entries-collect r [] = refl
  detailed_entries-collect r (err e ∷ entries) = refl
  detailed_entries-collect r (ok hash ∷ entries) =
      rw (detailed_entries-collect r entries) (cons-map_ok _ hash (collect L entries))

  list_changes_detailed-list_changes :
      (r : Repository L)
      → list_changes_detailed L to_base32 single now r
        ≡ map_ok (map (entry_of L to_base32 single now r)) (list_changes L r)
  unfolding list_changes_detailed list_changes
  list_changes_detailed-list_changes r =
      bind-map_ok _ (or_else sanakirja (L.txn_begin r.pristine)) _ _ λ txn.
        bind-map_ok _ (load_channel_ref L r txn) _ _ λ channel.
          bind-map_ok _ (or_else transaction (L.log channel 0 txn)) _ _
            λ entries. detailed_entries-collect r entries

  -- The list that the viewer shows has one entry for each change of the current channel, in the
  -- reverse of the order in which the hashes are listed, and it fails with the error with which the list of hashes fails.
  pub list_changes_detailed_reverse-list_changes :
      (r : Repository L)
      → list_changes_detailed_reverse L to_base32 single now r
        ≡ map_ok
            (λ hashes. reverse (map (entry_of L to_base32 single now r) hashes))
            (list_changes L r)
  unfolding list_changes_detailed_reverse
  list_changes_detailed_reverse-list_changes r =
      rw (list_changes_detailed-list_changes r) (map_ok-map_ok reverse _ (list_changes L r))

  -- The information on one change is the entry that the list has for it.
  get_change_info-entry_of :
      (r : Repository L) (hash : L.Hash) (info : ChangeInfo)
      → get_change_info L to_base32 single now r hash ≡ ok info
      → entry_of L to_base32 single now r hash ≡ info
  unfolding get_change_info entry_of
  get_change_info-entry_of r hash info h = by_header (L.get_header hash r.change_files) h
    where
      by_header :
          (m : Result ChangeHeader String)
          → (or_else change_store m >>= λ header. ok (info_of L to_base32 single now hash header))
            ≡ ok info
          → (elim m as (λ _. ChangeInfo) [
            | ok header ↦ info_of L to_base32 single now hash header
            | err e ↦ minimal_info L to_base32 single now hash
          ])
            ≡ info
      by_header (ok header) k = cc k
      by_header (err e) k = cc k
