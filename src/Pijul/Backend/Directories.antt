-- ===== src/Pijul/Backend/Directories.antt =====
-- crates/ize-lib/src/pijul/backend.rs, `record_file_create`: the directories that are added above a
-- file, as texts.
use text.Mathlib.TextEquality.{Char-path}
use text.Mathlib.TextLemmas.{nil-append, cons-append, append_assoc, cons≢nil}
use Prim.Native.Char.{Char, code}
use ize.Prelude.{
  ℕ, zero, suc, ◌≡◌, refl, ap, sym, ◌∙◌, Bool, inl, inr, List, [], ◌∷◌, none, some, String, ◌==◌,
  if◌then◌else◌, ltb, arith, length, take, get_elem?, str_is_empty, str_eq_iff, push_str,
  push_front, split_slash, intercalate, Bool-cases, ==_iff,
}
use ize.Pijul.Backend.Record.{directories}

push_front-intercalate :
    (c : Char) (ws : List String) → intercalate (push_front c ws) ≡ String.◌∷◌ c (intercalate ws)
push_front-intercalate c [] = refl
push_front-intercalate c (w ∷ []) = refl
push_front-intercalate c (w ∷ v ∷ ws) = cons-append c w _

split_slash-nonempty : (s : String) → (w : String) × (ws : List String) × (split_slash s ≡ w ∷ ws)
unfolding split_slash
split_slash-nonempty String.[] = (String.[], [], refl)
split_slash-nonempty (String.◌∷◌ c s) = front (code c == 47) (split_slash s)
  where
    front :
        (b : Bool) (rest : List String)
        → (w : String) × (ws : List String) × ((if b then String.[] ∷ rest else push_front c rest)
            ≡ w ∷ ws)
    front Bool.true rest = (String.[], rest, refl)
    front Bool.false [] = (_, _, refl)
    front Bool.false (w ∷ ws) = (_, _, refl)

slash_front :
    (c : Char) (rest : List String) (w : String) (ws : List String)
    → (code c == 47) ≡ Bool.true
    → rest ≡ w ∷ ws
    → intercalate (String.[] ∷ rest) ≡ String.◌∷◌ c (intercalate rest)
slash_front c rest w ws slash h =
    let is_slash : c ≡ "/" = Char-path c "/" ((==_iff (code c) 47).0 slash) in
    rw (h, is_slash)
      (nil-append _
        ∙ cons-append "/" String.[] (intercalate (w ∷ ws))
        ∙ ap (λ t. String.◌∷◌ "/" t) (nil-append (intercalate (w ∷ ws))))

-- The components of a path make the path again.
pub intercalate-split_slash : (s : String) → intercalate (split_slash s) ≡ s
unfolding split_slash
intercalate-split_slash String.[] = refl
intercalate-split_slash (String.◌∷◌ c s) = elim (Bool-cases (code c == 47)) [
  | inl slash ↦
      let (w, ws, made) = split_slash-nonempty s in
      rw slash (
        slash_front c (split_slash s) w ws slash made
        ∙ ap (λ t. String.◌∷◌ c t) (intercalate-split_slash s))
  | inr other ↦ rw other (
      push_front-intercalate c (split_slash s)
      ∙ ap (λ t. String.◌∷◌ c t) (intercalate-split_slash s))
]

push_str-not_empty :
    (p q : String) → str_is_empty p ≡ Bool.false → str_is_empty (push_str p q) ≡ Bool.false
push_str-not_empty String.[] q h = cc h
push_str-not_empty (String.◌∷◌ c p) q h =
    elim (Bool-cases (str_is_empty (push_str (String.◌∷◌ c p) q))) [
      | inl empty ↦ elim (cons≢nil (sym (cons-append c p q) ∙ (str_eq_iff _ _).0 empty)) [ ]
      | inr found ↦ found
    ]

first-if : (n : ℕ) (x : String) → some x ≡ (if ltb 1 (suc (suc n)) then some x else none)
first-if n x = ground arith

next-if :
    (i n : ℕ) (x y : String)
    → x ≡ y
    → (if ltb i n then some x else none) ≡ (if ltb (suc i) (suc n) then some y else none)
next-if i n x y h = ground arith

none-if : (i : ℕ) (x : String) → none ≡ (if ltb (suc i) 1 then some x else none)
none-if i x = ground arith

-- The directories below a path that is not empty.
get_elem?-directories_below :
    (p : String) (components : List String) (i : ℕ)
    → str_is_empty p ≡ Bool.false
    → get_elem? (directories p components) i ≡ (
        if ltb (suc i) (length components)
        then some (push_str p (push_str "/" (intercalate (take (suc i) components))))
        else none)
unfolding directories
get_elem?-directories_below p [] i h = ground arith
get_elem?-directories_below p (c ∷ []) i h = none-if i _
get_elem?-directories_below p (c ∷ d ∷ cs) zero h =
    rw h (ap some (append_assoc p "/" c) ∙ first-if (length cs) _)
get_elem?-directories_below p (c ∷ d ∷ cs) (suc i) h = rw h (
    get_elem?-directories_below (push_str (push_str p "/") c) (d ∷ cs) i
      (push_str-not_empty (push_str p "/") c (push_str-not_empty p "/" h))
    ∙ next-if (suc i) (length (d ∷ cs)) _ _ (
        append_assoc (push_str p "/") c _
        ∙ append_assoc p "/" (push_str c (push_str "/" (intercalate (d ∷ take i cs))))))

-- The directories that are added above a file are all proper prefixes of its components, the
-- shortest first, each as a text with slashes, if the path does not begin with a slash.
get_elem?-directories :
    (c : String) (components : List String) (i : ℕ)
    → str_is_empty c ≡ Bool.false
    → get_elem? (directories "" (c ∷ components)) i ≡ (
        if ltb (suc i) (length (c ∷ components))
        then some (intercalate (take (suc i) (c ∷ components)))
        else none)
unfolding directories
get_elem?-directories c [] i h = none-if i _
get_elem?-directories c (d ∷ cs) zero h = ap some (nil-append c) ∙ first-if (length cs) _
get_elem?-directories c (d ∷ cs) (suc i) h =
    rw (nil-append c)
      (get_elem?-directories_below c (d ∷ cs) i h ∙ next-if (suc i) (length (d ∷ cs)) _ _ refl)
