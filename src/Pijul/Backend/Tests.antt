-- ===== src/Pijul/Backend/Tests.antt =====
-- One repository with the file `a/b`, over the small libpijul.
use ize.Prelude.{◌≡◌, refl, Bool, List, [], ◌∷◌, map, reverse, Option, none, some, ok, String, pos}
use ize.Operations.Operation.{file_write}
use ize.Operations.Opcode.{Opcode}
use ize.FilePath.{FilePath}
use ize.Pijul.Content.{apply_write}
use ize.Pijul.Operations.{Message, apply_opcode}
use ize.Pijul.Backend.{Repository}
use ize.Pijul.Backend.Toy.{Database, toy, toy-ContentLaws, toy-CurrentLaws}
use ize.Pijul.Backend.Record.{record_file_write, record_file_delete, recording_backend}
use ize.Pijul.Backend.Channels.{
  Disk, get_file_content, switch_channel, open_repository, list_changes,
}
use ize.Pijul.Backend.Atomic.{Kept, SomeApplied, apply_opcode-Kept}
use ize.Pijul.Backend.Contents.{record_file_write-refines, record_file_delete-keeps_empty}
use ize.Pijul.Backend.Current.{switch_channel-open_repository}
use ize.Pijul.Query.{list_changes_detailed_reverse, entry_of}
use ize.Pijul.Query.Laws.{map_ok, list_changes_detailed_reverse-list_changes}

abbrev stored : Database
stored = record {
  files = ("a/b", 1 ∷ 2 ∷ []) ∷ ("empty", []) ∷ [];
  tree = "a/b" ∷ "empty" ∷ [];
  channels = "main" ∷ "dev" ∷ [];
  current = "main";
}

abbrev repo : Repository toy
repo = record {
  pijul_dir = "p";
  working_dir = "w";
  pristine = stored;
  change_files = [];
  current_channel = "main";
}

abbrev first_component : FilePath → Option String
first_component [] = none
first_component (c ∷ cs) = some c

abbrev same_text : Message → String
same_text message = "m"

abbrev write_opcode : Opcode
write_opcode = record { seq = 1; timestamp = 5; op = file_write ("a/b" ∷ []) 1 (9 ∷ 9 ∷ []) }

apply_opcode-Kept_example :
    Kept toy
      (SomeApplied toy)
      repo
      (apply_opcode first_component (recording_backend toy (pos 5) same_text) write_opcode repo)
apply_opcode-Kept_example =
    apply_opcode-Kept toy (pos 5) same_text first_component write_opcode repo

record_file_write-refines_example :
    get_file_content toy "a/b" (record_file_write toy (pos 5) "a/b" 1 (9 ∷ 9 ∷ []) "m" repo).0
    ≡ ok (apply_write (1 ∷ 2 ∷ []) 1 (9 ∷ 9 ∷ []))
unfolding get_file_content record_file_write ize.Pijul.Backend.attempt
    ize.Pijul.Backend.get_file_position ize.Pijul.Backend.get_file_content_at ize.Prelude.codes_eq
    apply_write ize.Pijul.Content.copy_at ize.Pijul.Content.grow ize.Pijul.Content.resize
record_file_write-refines_example =
    record_file_write-refines toy toy-ContentLaws (pos 5) "a/b" 1 (9 ∷ 9 ∷ []) "m" (1 ∷ 2 ∷ [])
      (some 0) repo (record stored { files = ("a/b", 1 ∷ 9 ∷ 9 ∷ []) ∷ stored.files }) refl refl
      refl

record_file_delete-keeps_empty_example : (record_file_delete toy (pos 5) "empty" "m" repo).0 ≡ repo
unfolding get_file_content
record_file_delete-keeps_empty_example =
    record_file_delete-keeps_empty toy toy-ContentLaws (pos 5) "empty" "m" repo refl

abbrev components : List String
components = "a" ∷ "b" ∷ "c" ∷ []

-- A disk that holds one database.
abbrev disk : Disk Database
disk = record {
  State = Database;
  join = λ p q. q;
  exists = λ path d. Bool.true;
  create_dir_all = λ path d. (d, ok tt);
  write = λ path text d. (d, ok tt);
  pristine_new = λ path d. (d, ok d);
}

abbrev on_dev : Database
on_dev = record stored { current = "dev" }

abbrev opened : Repository toy
opened = record repo { pristine = on_dev; current_channel = "dev" }

switch_channel-open_repository_example :
    ((switch_channel toy "dev" repo).0.current_channel ≡ "dev") × (opened.current_channel ≡ "dev")
unfolding switch_channel open_repository ize.Pijul.Backend.attempt
switch_channel-open_repository_example =
    switch_channel-open_repository toy toy-CurrentLaws disk (λ path d. []) "dev" "p" "w" repo opened
      on_dev refl refl refl

list_changes_detailed_reverse-list_changes_example :
    list_changes_detailed_reverse toy (λ h. h ∷ []) (λ s. some s) (pos 3) repo
    ≡ map_ok
        (λ hashes. reverse (map (entry_of toy (λ h. h ∷ []) (λ s. some s) (pos 3) repo) hashes))
        (list_changes toy repo)
list_changes_detailed_reverse-list_changes_example =
    list_changes_detailed_reverse-list_changes toy (λ h. h ∷ []) (λ s. some s) (pos 3) repo
