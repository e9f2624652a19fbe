-- ===== src/Viewer/Changes.antt =====
-- crates/ize-lib/src/pijul/query.rs, `ChangeInfo`, and what the viewer shows of a change.
use ize.Prelude.{
  ℕ, ◌/◌, ℤ, pos, negsuc, ltb, List, [], ◌∷◌, Option, String, length, take, if◌then◌else◌,
}

-- A hash is its base-32 text.
pub record ChangeInfo : Type 0 where
  pub hash : List ℕ
  pub message : String
  pub description : Option String
  -- seconds since the epoch
  pub timestamp : ℤ
  pub authors : List String
  pub files_changed : ℕ

unfoldable pub hash_short : ChangeInfo → List ℕ
hash_short info = if ltb 7 (length info.hash) then take 7 info.hash else info.hash

-- The texts of `timestamp_relative`, without their wording.
pub data Relative : Type 0 where
  just_now : Relative
  minutes_ago hours_ago days_ago : ℕ → Relative
  on_its_date : Relative

abbrev since : ℕ → Relative
since s =
    if ltb s 60
    then just_now
    else if ltb (s / 60) 60
    then minutes_ago (s / 60)
    else if ltb (s / 3600) 24
    then hours_ago (s / 3600)
    else if ltb (s / 86400) 30
    then days_ago (s / 86400)
    else on_its_date

-- From the whole seconds that passed since the change.
unfoldable pub timestamp_relative : ℤ → Relative
timestamp_relative (pos s) = since s
timestamp_relative (negsuc s) = just_now

unfoldable pub hash_full : ChangeInfo → List ℕ
hash_full info = info.hash

-- The first author's name, if there is one.
unfoldable pub primary_author : ChangeInfo → String
primary_author info = elim info.authors [ [] ↦ "Unknown" | name ∷ names ↦ name ]
