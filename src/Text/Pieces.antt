-- ===== src/Text/Pieces.antt =====
-- The pieces of a path text between its slashes, and that joining them with slashes is undone.
use Prim.Native.String.{[], ◌∷◌, ◌++◌}
use mathlib.Core.List.{[], ◌∷◌}
use text.Mathlib.TextLemmas.{nil-append, cons-append}
use ssh_reports_hub_fast_api.Prelude.{
  ◌≡◌, refl, ap, ◌∙◌, arith, Bool, true, false, not, ◌&&◌, ◌||◌, code, Char, String, List, all,
  str_eq, eq_iff, Bool-cases, inl, inr, ◌==◌, if◌then◌else◌,
}
use ssh_reports_hub_fast_api.Text.{join}

unfoldable pub has_slash : String → Bool
has_slash [] = false
has_slash (c ∷ s) = code c == b'/' || has_slash s

-- A name of a file or a folder in its folder.
unfoldable pub is_name : String → Bool
is_name s = not (str_eq s "") && not (has_slash s) && not (str_eq s ".") && not (str_eq s "..")

abbrev pub push : Char → List String → List String
push c [] = (c ∷ []) ∷ []
push c (p ∷ ps) = (c ∷ p) ∷ ps

unfoldable pub pieces : String → List String
pieces [] = "" ∷ []
pieces (c ∷ s) = let rest = pieces s in if code c == b'/' then "" ∷ rest else push c rest

pieces_plain : (p : String) → has_slash p ≡ false → pieces p ≡ p ∷ []
unfolding pieces has_slash
pieces_plain [] h = refl
pieces_plain (c ∷ p) h =
    let ih = pieces_plain p (ground (arith, h)) in
    let other : (code c == b'/') ≡ false = ground (arith, h) in rw other (rw ih refl)

pieces-slash : (p t : String) → has_slash p ≡ false → pieces (p ++ ("/" ++ t)) ≡ p ∷ pieces t
unfolding pieces has_slash
pieces-slash [] t h = rw nil-append (rw cons-append (rw nil-append refl))
pieces-slash (c ∷ p) t h =
    let ih = pieces-slash p t (ground (arith, h)) in
    let other : (code c == b'/') ≡ false = ground (arith, h) in
    rw cons-append (rw other (rw ih refl))

pub pieces-join :
    (p : String) (ps : List String)
    → all is_name (p ∷ ps) ≡ true
    → pieces (join "/" (p ∷ ps)) ≡ p ∷ ps
unfolding join is_name
pieces-join p [] h = pieces_plain p (ground (arith, h))
pieces-join p (q ∷ ps) h =
    pieces-slash p (join "/" (q ∷ ps)) (ground (arith, h))
    ∙ ap (λ l. p ∷ l) (pieces-join q ps (ground (arith, h)))

abbrev is_blank : String → Bool
is_blank [] = true
is_blank (c ∷ s) = false

str_eq-blank : (s : String) → is_blank s ≡ false → str_eq s "" ≡ false
str_eq-blank s h = elim (Bool-cases (str_eq s "")) [
  | inr e ↦ e
  | inl e ↦ let same : s ≡ "" = (eq_iff s "").0 e in absurd (ground (arith, ap is_blank same, h))
]

-- A joined path is not empty.
pub join-given :
    (p : String) (ps : List String) → is_name p ≡ true → str_eq (join "/" (p ∷ ps)) "" ≡ false
unfolding join is_name
join-given p [] h = ground (arith, h)
join-given [] (q ∷ ps) h = absurd (ground (arith, h))
join-given (c ∷ p) (q ∷ ps) h = str_eq-blank _ (rw cons-append refl)
