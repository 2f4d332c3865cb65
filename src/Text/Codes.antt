-- ===== src/Text/Codes.antt =====
-- Texts as lists of code points, for the code that walks and rewrites characters: `lower`, the
-- words of a text, `in`, `replace`, `split`.
use Prim.Native.String.{[], ◌∷◌}
use mathlib.Core.List.{[], ◌∷◌}
use ssh_reports_hub_fast_api.Prelude.{
  ℕ, ◌+◌, Bool, true, false, ◌&&◌, ◌||◌, code, String, List, ◌++◌, filter, leb, ◌==◌, if◌then◌else◌,
}
use ssh_reports_hub_fast_api.Text.{space_code}

abbrev pub Codes : Type 0
Codes = List ℕ

abbrev pub codes : String → Codes
codes [] = []
codes (c ∷ s) = code c ∷ codes s

-- Equality of two texts.
abbrev pub codes_eq : Codes → Codes → Bool
codes_eq [] [] = true
codes_eq [] (d ∷ t) = false
codes_eq (c ∷ s) [] = false
codes_eq (c ∷ s) (d ∷ t) = c == d && codes_eq s t

-- `str.lower`. Only the letters whose lower case has an ASCII letter are rewritten: those of ASCII,
-- the Kelvin sign and the dotted capital I. Every other character is left: the program tests the
-- result for ASCII letters, digits and Hangul alone, which no other character lowers to.
unfoldable pub lower_code : ℕ → Codes
lower_code c =
    if leb b'A' c && leb c b'Z'
    then (c + 32) ∷ []
    else (if c == 8490 then b'k' ∷ [] else (if c == 304 then b'i' ∷ 775 ∷ [] else c ∷ []))

unfoldable pub lower : Codes → Codes
unfolding lower_code
lower [] = []
lower (c ∷ s) = lower_code c ++ lower s

unfoldable pub is_prefix : Codes → Codes → Bool
is_prefix [] s = true
is_prefix (c ∷ p) [] = false
is_prefix (c ∷ p) (d ∷ s) = c == d && is_prefix p s

-- `p in s`
unfoldable pub is_infix : Codes → Codes → Bool
unfolding is_prefix
is_infix p [] = is_prefix p []
is_infix p (c ∷ s) = is_prefix p (c ∷ s) || is_infix p s

abbrev push_head : ℕ → List Codes → List Codes
push_head c [] = (c ∷ []) ∷ []
push_head c (w ∷ ws) = (c ∷ w) ∷ ws

-- `s.split(sep)` for a class of separators of one character each.
unfoldable pub split_on : (ℕ → Bool) → Codes → List Codes
split_on sep [] = [] ∷ []
split_on sep (c ∷ s) = let rest = split_on sep s in if sep c then [] ∷ rest else push_head c rest

abbrev pub non_empty : Codes → Bool
non_empty [] = false
non_empty (c ∷ s) = true

-- `s.split()`
unfoldable pub words : Codes → List Codes
unfolding split_on space_code
words s = filter non_empty (split_on space_code s)

-- `" ".join(ws)`
unfoldable pub unwords : List Codes → Codes
unwords [] = []
unwords (w ∷ []) = w
unwords (w ∷ v ∷ ws) = w ++ (b' ' ∷ unwords (v ∷ ws))
