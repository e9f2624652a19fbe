-- ===== src/Pijul/Backend/Toy.antt =====
-- A small libpijul for the tests: a database is the list of the files' contents and of the paths
-- in the tree, a change is the new content of one file, and the hashes are numbered.
use ize.Prelude.{
  ℕ, ◌≡◌, refl, ap, sym, ◌∙◌, Bool, true, false, List, [], ◌∷◌, any, is_empty, length, Option, none,
  some, Result, ok, err, String, str_eq, str_eq_iff, codes_eq, arith, pos, ◌==◌, if◌then◌else◌,
}
use ize.Operations.Operation.{Bytes}
use ize.Pijul.Libpijul.{Libpijul}
use ize.Pijul.Backend.Contents.{ContentLaws}
use ize.Pijul.Backend.Current.{CurrentLaws}

pub record Database : Type 0 where
  pub files : List (String × Bytes)
  pub tree : List String
  pub channels : List String
  pub current : String

abbrev pub content_of : String → List (String × Bytes) → Option Bytes
content_of path [] = none
content_of path ((p, content) ∷ files) =
    if str_eq path p then some content else content_of path files

abbrev without : String → List String → List String
without path [] = []
without path (p ∷ paths) = let rest = without path paths in if str_eq path p then rest else p ∷ rest

abbrev found_or : {A : Type 0} → String → Option A → Result A String
found_or e none = err e
found_or e (some a) = ok a

abbrev diff_with : String → Bytes → Option Bytes → Result (String × Bytes × Bool) String
diff_with path content none = err "no such file"
diff_with path content (some old) = ok (path, content, codes_eq old content)

abbrev pub toy : Libpijul
toy = record {
  Pristine = Database;
  Txn = Database;
  ChannelRef = Unit;
  Position = String;
  Inode = ℕ;
  Graph = String;
  Action = Unit;
  Recorded = String × Bytes × Bool;
  Memory = List (String × Bytes);
  Change = String × Bytes;
  Hash = ℕ;
  ChangeStore = List (String × Bytes);
  txn_begin = λ d. ok d;
  mut_txn_begin = λ d. ok d;
  arc_txn_begin = λ d. ok d;
  commit = λ txn. ok txn;
  open_or_create_channel = λ name txn. ok (record txn { channels = name ∷ txn.channels });
  set_current_channel = λ name txn. ok (record txn { current = name });
  current_channel = λ txn. ok txn.current;
  load_channel = λ name txn. ok (if any (str_eq name) txn.channels then some tt else none);
  channels = λ prefix txn. ok (tt ∷ []);
  name = λ channel txn. txn.current;
  fork = λ channel name txn. ok (record txn { channels = name ∷ txn.channels });
  log = λ channel from txn. ok (ok 0 ∷ ok 1 ∷ []);
  add_dir = λ path txn. (txn, ok tt);
  add_file = λ path txn. ok (record txn { tree = path ∷ txn.tree });
  remove_file = λ path txn. ok (record txn { tree = without path txn.tree });
  move_file = λ old new txn. ok (record txn { tree = new ∷ without old txn.tree });
  follow_oldest_path = λ store channel path txn.
      if any (str_eq path) txn.tree then ok (path, false) else err "no such path";
  get_revinodes = λ path txn. ok (some 7);
  root_inode = 1;
  alive_retrieve = λ channel path txn. ok path;
  output_file = λ store channel path txn. found_or "no such file" (content_of path txn.files);
  diff = λ store channel path inode at graph content encoding txn.
      diff_with graph content (content_of graph txn.files);
  memory_new = [];
  memory_add_dir = λ path memory. memory;
  memory_add_file = λ path content memory. (path, content) ∷ memory;
  record_changes = λ store channel memory prefix txn. elim (content_of prefix memory) [
    | none ↦ ok (txn, (prefix, [], true))
    | some content ↦ ok (txn, (prefix, content, false))
  ];
  actions = λ recorded. if recorded.2 then [] else tt ∷ [];
  into_change = λ channel header recorded txn. ok (recorded.0, recorded.1);
  save_change = λ change store. (change ∷ store, ok (change, length store));
  apply_local_change = λ channel change hash txn. ok (record txn { files = change ∷ txn.files });
  get_header = λ hash store.
      if hash == 0
      then err "no such change"
      else ok (record {
        message = "m";
        authors = some "a" ∷ [];
        description = none;
        timestamp = pos 9;
      });
}

codes_eq_iff :
    (xs ys : Bytes) → (codes_eq xs ys ≡ true → xs ≡ ys) × (xs ≡ ys → codes_eq xs ys ≡ true)
unfolding codes_eq
codes_eq_iff [] [] = (λ h. refl, λ h. refl)
codes_eq_iff [] (y ∷ ys) = (λ h. cc h, λ h. cc h)
codes_eq_iff (x ∷ xs) [] = (λ h. cc h, λ h. cc h)
codes_eq_iff (x ∷ xs) (y ∷ ys) =
    (λ h. ground (arith, h, codes_eq_iff xs ys), λ h. ground (arith, h, codes_eq_iff xs ys))

content_of_new :
    (path : String) (content : Bytes) (files : List (String × Bytes))
    → content_of path ((path, content) ∷ files) ≡ some content
content_of_new path content files = rw ((str_eq_iff path path).1 refl)

ok-inj : {A : Type 0} (a b : A) → ◌≡◌ {A = Result A String} (ok a) (ok b) → a ≡ b
ok-inj a b h = cc h

diff_with-ok :
    (path : String) (content : Bytes) (old : Option Bytes) (recorded : String × Bytes × Bool)
    → diff_with path content old ≡ ok recorded
    → (recorded.0 ≡ path) × (recorded.1 ≡ content)
diff_with-ok path content none recorded h = cc h
diff_with-ok path content (some old) recorded h =
    let same = ok-inj (path, content, codes_eq old content) recorded h in
    (ap (λ r. r.0) (sym same), ap (λ r. r.1) (sym same))

apply_diff :
    (channel : Unit {0}) (path : String) (content : Bytes) (recorded : String × Bytes × Bool)
    (change change' : String × Bytes) (hash n : ℕ) (txn txn' : Database)
    → diff_with path content (content_of path txn.files) ≡ ok recorded
    → ◌≡◌ {A = Result (String × Bytes) String} (ok (recorded.0, recorded.1)) (ok change)
    → ◌≡◌ {A = Result ((String × Bytes) × ℕ) String} (ok (change, n)) (ok (change', hash))
    → toy.apply_local_change channel change' hash txn ≡ ok txn'
    → txn' ≡ record txn { files = (path, content) ∷ txn.files }
apply_diff channel path content recorded change change' hash n txn txn' d i s a =
    let parts = diff_with-ok path content _ recorded d in
    let same_change = ok-inj (recorded.0, recorded.1) change i in
    let saved = ok-inj (change, n) (change', hash) s in
    let made : change' ≡ (path, content) = cc (parts.0, parts.1, same_change, saved) in
    sym (ok-inj (record txn { files = change' ∷ txn.files }) txn' a)
    ∙ ap (λ c. record txn { files = c ∷ txn.files }) made

actions_flag : (b : Bool) → is_empty {A = Unit {0}} (if b then [] else tt ∷ []) ≡ b
actions_flag true = refl
actions_flag false = refl

actions_diff :
    (path : String) (old content : Bytes) (o : Option Bytes) (recorded : String × Bytes × Bool)
    → found_or "no such file" o ≡ ok old
    → diff_with path content o ≡ ok recorded
    → (is_empty (toy.actions recorded) ≡ true → old ≡ content)
      × (old ≡ content → is_empty (toy.actions recorded) ≡ true)
actions_diff path old content none recorded h d = cc h
actions_diff path old content (some bytes) recorded h d =
    let same : bytes ≡ old = cc h in
    let answer : is_empty (toy.actions recorded) ≡ codes_eq old content =
      actions_flag recorded.2
      ∙ ap (λ r. r.2) (sym (ok-inj (path, content, codes_eq bytes content) recorded d))
      ∙ ap (λ b. codes_eq b content) same in
    (
      λ e. (codes_eq_iff old content).0 (sym answer ∙ e),
      λ e. answer ∙ (codes_eq_iff old content).1 e,
    )

-- The diff is of the file whose graph it is given.
graph_of_file :
    (at graph : String) (content : Bytes) (txn : Database) (recorded : String × Bytes × Bool)
    → ◌≡◌ {A = Result String String} (ok at) (ok graph)
    → diff_with graph content (content_of graph txn.files) ≡ ok recorded
    → diff_with at content (content_of at txn.files) ≡ ok recorded
graph_of_file at graph content txn recorded alive d =
    ap (λ p. diff_with p content (content_of p txn.files)) (ok-inj at graph alive) ∙ d

pub toy-ContentLaws : ContentLaws toy
toy-ContentLaws = record {
  begin-commit = λ txn txn' pristine h k. sym (ok-inj txn pristine h ∙ ok-inj pristine txn' k);
  load_channel-apply = λ channel change hash txn txn' name h.
      ap (λ t. toy.load_channel name t)
        (sym (ok-inj (record txn { files = change ∷ txn.files }) txn' h));
  apply-diff =
      λ files channel path inode at graph content header recorded change change' hash txn txn' found
          alive d i s a.
        let after =
          apply_diff channel at content recorded change change' hash (length files) txn txn'
            (graph_of_file at graph content txn recorded alive d) i s a in
        (
          ap (λ t. toy.output_file files channel at t) after
              ∙ ap (found_or "no such file") (content_of_new at content txn.files),
          λ q. ap (λ t. toy.follow_oldest_path files channel q t) after,
        );
  actions-diff =
      λ files channel path inode at graph old content recorded before txn found since alive o d.
        actions_diff at old content (content_of at txn.files) recorded o
          (graph_of_file at graph content txn recorded alive d);
  output-remove = λ files channel path at txn txn' h.
      ap (λ t. toy.output_file files channel at t)
        (sym (ok-inj (record txn { tree = without path txn.tree }) txn' h));
}

pub toy-CurrentLaws : CurrentLaws toy
toy-CurrentLaws = record {
  current-set = λ name txn txn' h.
      ap (λ t. toy.current_channel t) (sym (ok-inj (record txn { current = name }) txn' h));
  current-commit = λ txn txn' pristine h k.
      let same : txn' ≡ txn = cc (ok-inj txn pristine h, ok-inj pristine txn' k) in
      ap (λ t. toy.current_channel t) same;
}
