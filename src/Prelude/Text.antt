-- ===== src/Prelude/Text.antt =====
-- Texts: the test of two of them with its law, and their code points.
use Prim.Native.Nat.{ℕ}
use Prim.Native.Char.{Char, code}
use Prim.Native.String.{String, ◌++◌ as text_append}
use text.Mathlib.Text
use text.Mathlib.TextEquality.{eq_iff}
use mathlib.Core.Path.{◌≡◌}
use mathlib.Core.Logic.{◌↔◌}
use mathlib.Core.Bool.{Bool, true, false, ◌&&◌}
use mathlib.Core.List.{List, [], ◌∷◌}
use ize.Prelude.Tests.{◌==◌, if◌then◌else◌}

abbrev pub str_eq : String → String → Bool
str_eq s t = Text.◌==◌ s t

pub str_eq_iff : (s t : String) → (str_eq s t ≡ true) ↔ (s ≡ t)
str_eq_iff s t = eq_iff s t

-- The code points of a text.
abbrev pub codes : String → List ℕ
codes String.[] = []
codes (String.◌∷◌ c s) = code c ∷ codes s

unfoldable pub codes_eq : List ℕ → List ℕ → Bool
codes_eq [] [] = true
codes_eq [] (d ∷ ds) = false
codes_eq (c ∷ cs) [] = false
codes_eq (c ∷ cs) (d ∷ ds) = c == d && codes_eq cs ds

-- `str::is_empty`
abbrev pub str_is_empty : String → Bool
str_is_empty s = Text.◌==◌ s String.[]

-- `String::push_str`
abbrev pub push_str : String → String → String
push_str s t = text_append s t

abbrev pub push_front : Char → List String → List String
push_front c [] = String.◌∷◌ c String.[] ∷ []
push_front c (w ∷ ws) = String.◌∷◌ c w ∷ ws

-- `str::split('/')`: n slashes make n + 1 components, empty ones included.
unfoldable pub split_slash : String → List String
split_slash String.[] = String.[] ∷ []
split_slash (String.◌∷◌ c s) =
    let rest = split_slash s in if code c == 47 then String.[] ∷ rest else push_front c rest

-- The components with a slash between each two.
abbrev pub intercalate : List String → String
intercalate [] = String.[]
intercalate (c ∷ []) = c
intercalate (c ∷ d ∷ cs) = push_str c (push_str "/" (intercalate (d ∷ cs)))
