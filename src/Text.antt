-- ===== src/Text.antt =====
-- Python's `str` methods that the program uses, on native texts: `strip`, `in`, `endswith`,
-- `split` on one character. (The language's own library, as the program relies on it.)
pub mod Number
pub mod Codes
pub mod Pieces
use Prim.Native.String.{[], ◌∷◌, ◌++◌}
use mathlib.Core.List.{[], ◌∷◌}
use ssh_reports_hub_fast_api.Prelude.{
  ℕ, ◌+◌, Bool, true, false, ◌&&◌, ◌||◌, Char, code, String, List, str_eq, ◌==◌, leb, if◌then◌else◌,
}

-- The code points that `str.isspace` accepts.
unfoldable pub space_code : ℕ → Bool
space_code c =
    (leb 9 c && leb c 13)
    || (leb 28 c && leb c 32)
    || c == 133
    || c == 160
    || c == 5760
    || (leb 8192 c && leb c 8202)
    || c == 8232
    || c == 8233
    || c == 8239
    || c == 8287
    || c == 12288

unfoldable pub is_space : Char → Bool
unfolding space_code
is_space ch = space_code (code ch)

-- A text without the leading characters that satisfy the test.
unfoldable pub lstrip : (Char → Bool) → String → String
lstrip p [] = []
lstrip p (c ∷ s) = let rest = lstrip p s in if p c then rest else c ∷ s

-- A text without the trailing ones.
unfoldable pub rstrip : (Char → Bool) → String → String
rstrip p [] = []
rstrip p (c ∷ s) = let rest = rstrip p s in if p c && str_eq rest "" then "" else c ∷ rest

unfoldable pub strip : (Char → Bool) → String → String
unfolding lstrip rstrip
strip p s = lstrip p (rstrip p s)

-- `str.startswith`, along the characters.
unfoldable pub has_prefix : String → String → Bool
has_prefix [] s = true
has_prefix (c ∷ p) [] = false
has_prefix (c ∷ p) (d ∷ s) = code c == code d && has_prefix p s

-- `sub in s`
unfoldable pub contains : String → String → Bool
unfolding has_prefix
contains sub [] = has_prefix sub []
contains sub (c ∷ s) = has_prefix sub (c ∷ s) || contains sub s

-- `s.endswith(suffix)`
unfoldable pub has_suffix : String → String → Bool
has_suffix suffix [] = str_eq "" suffix
has_suffix suffix (c ∷ s) = str_eq (c ∷ s) suffix || has_suffix suffix s

abbrev push_head : Char → List String → List String
push_head c [] = (c ∷ "") ∷ []
push_head c (w ∷ ws) = (c ∷ w) ∷ ws

-- `s.split(sep)` at a separator of one character: always at least one piece.
unfoldable pub split : ℕ → String → List String
split sep [] = "" ∷ []
split sep (c ∷ s) = let rest = split sep s in if code c == sep then "" ∷ rest else push_head c rest

-- `len(s)`, in characters.
unfoldable pub len : String → ℕ
len [] = 0
len (c ∷ s) = len s + 1

-- `s.lower() == "dev"`: no letters but D, E and V lower to these.
unfoldable pub is_dev : String → Bool
is_dev (d ∷ (e ∷ (v ∷ []))) =
    (code d == b'd' || code d == b'D')
    && (code e == b'e' || code e == b'E')
    && (code v == b'v' || code v == b'V')
is_dev s = false

-- `sep.join(parts)`
unfoldable pub join : String → List String → String
join sep [] = ""
join sep (s ∷ []) = s
join sep (s ∷ t ∷ rest) = s ++ sep ++ join sep (t ∷ rest)
