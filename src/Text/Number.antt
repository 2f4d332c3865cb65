-- ===== src/Text/Number.antt =====
-- Python's `str(n)` and `int(s)` in base ten, and that `int` reads back what `str` writes. `int`
-- takes surrounding space, a sign, and single underscores between digits; of the decimal digits
-- only those of ASCII are read.
use Prim.Native.String.{[], ◌∷◌}
use ssh_reports_hub_fast_api.Prelude.{
  ℕ, zero, suc, ◌+◌, ◌-◌, ◌*◌, ◌/◌, ◌%◌, ◌<◌, ◌≡◌, refl, ◌∙◌, ap, Bool, true, false, ◌&&◌, Char,
  code, String, Option, none, some, arith, ltb, leb, ◌==◌, if◌then◌else◌, Bool-cases, inl, inr,
}
use ssh_reports_hub_fast_api.Prelude.Int.{ℤ, pos, negate}
use ssh_reports_hub_fast_api.Text.{is_space, lstrip, rstrip, strip}

abbrev digit : ℕ → Char
digit zero = "0"
digit (suc zero) = "1"
digit (suc (suc zero)) = "2"
digit (suc (suc (suc zero))) = "3"
digit (suc (suc (suc (suc zero)))) = "4"
digit (suc (suc (suc (suc (suc zero))))) = "5"
digit (suc (suc (suc (suc (suc (suc zero)))))) = "6"
digit (suc (suc (suc (suc (suc (suc (suc zero))))))) = "7"
digit (suc (suc (suc (suc (suc (suc (suc (suc zero)))))))) = "8"
digit _ = "9"

-- The digits of `n` in front of a text; fuel above `n` is enough.
unfoldable pub print_onto : ℕ → ℕ → String → String
print_onto zero n s = s
print_onto (suc fuel) n s =
    let more = print_onto fuel (n / 10) (digit (n % 10) ∷ s) in
    if ltb n 10 then digit n ∷ s else more

-- `str(n)`
unfoldable pub str_of : ℕ → String
unfolding print_onto
str_of n = print_onto (n + 1) n ""

-- The digits that follow, after the value `m`; the flag says that a digit came just before.
unfoldable pub digits_from : Bool → ℕ → String → Option ℕ
digits_from true m [] = some m
digits_from false m [] = none
digits_from after m (c ∷ s) =
    let digits = digits_from true (m * 10 + (code c - 48)) s in
    let gap = digits_from false m s in
    if leb 48 (code c) && leb (code c) 57
    then digits
    else (if code c == 95 && after then gap else none)

signed : String → Option ℤ
signed [] = none
signed (c ∷ s) =
    if code c == 45
    then elim (digits_from false 0 s) [ none ↦ none | some n ↦ some (negate n) ]
    else (if code c == 43
        then elim (digits_from false 0 s) [ none ↦ none | some n ↦ some (pos n) ]
        else elim (digits_from false 0 (c ∷ s)) [ none ↦ none | some n ↦ some (pos n) ])

-- `int(s)`, with `none` for `ValueError`.
unfoldable pub int_of : String → Option ℤ
unfolding signed digits_from strip is_space
int_of s = signed (strip is_space s)

str_test : str_of 20260 ≡ "20260"
unfolding str_of
str_test = refl

int_test : int_of " -1_000 " ≡ some (negate 1000)
unfolding int_of
int_test = refl

code-digit : (d : ℕ) → d < 10 → code (digit d) ≡ d + 48
code-digit zero h = refl
code-digit (suc zero) h = refl
code-digit (suc (suc zero)) h = refl
code-digit (suc (suc (suc zero))) h = refl
code-digit (suc (suc (suc (suc zero)))) h = refl
code-digit (suc (suc (suc (suc (suc zero))))) h = refl
code-digit (suc (suc (suc (suc (suc (suc zero)))))) h = refl
code-digit (suc (suc (suc (suc (suc (suc (suc zero))))))) h = refl
code-digit (suc (suc (suc (suc (suc (suc (suc (suc zero)))))))) h = refl
code-digit (suc (suc (suc (suc (suc (suc (suc (suc (suc zero))))))))) h = refl
code-digit (suc (suc (suc (suc (suc (suc (suc (suc (suc (suc d)))))))))) h = absurd (omega arith)

digits_from-digit :
    (after : Bool) (m d : ℕ) (s : String)
    → d < 10
    → digits_from after m (digit d ∷ s) ≡ digits_from true (m * 10 + d) s
unfolding digits_from
digits_from-digit after m d s h =
    let same : d + 48 - 48 ≡ d = omega arith in
    let test : (leb 48 (d + 48) && leb (d + 48) 57) ≡ true = ground arith in
    elim (Bool-cases after) [
      | inl e ↦ rw (e, code-digit d h, test, same)
      | inr e ↦ rw (e, code-digit d h, test, same)
    ]

digits_from-print_onto :
    (fuel n : ℕ) (s : String)
    → n < fuel
    → digits_from false 0 (print_onto fuel n s) ≡ digits_from true n s
unfolding print_onto
digits_from-print_onto zero n s h = elim h [ ]
digits_from-print_onto (suc fuel) n s h = elim (Bool-cases (ltb n 10)) [
  | inl e ↦
      rw e (
        digits_from-digit false 0 n s (ground arith) ∙ ap (λ k. digits_from true k s) (omega arith))
  | inr e ↦ rw e (
      digits_from-print_onto fuel (n / 10) (digit (n % 10) ∷ s) (ground arith)
      ∙ digits_from-digit true (n / 10) (n % 10) s (omega arith)
      ∙ ap (λ k. digits_from true k s) (omega arith))
]

-- Texts whose characters are all digits.
abbrev is_digits : String → Bool
is_digits [] = true
is_digits (c ∷ s) = leb 48 (code c) && leb (code c) 57 && is_digits s

is_space-digit : (c : Char) → (leb 48 (code c) && leb (code c) 57) ≡ true → is_space c ≡ false
unfolding is_space
is_space-digit c h = ground arith

is_digits-digit : (d : ℕ) (s : String) → d < 10 → is_digits (digit d ∷ s) ≡ is_digits s
is_digits-digit d s h = rw (code-digit d h) (ground arith)

is_digits-print_onto :
    (fuel n : ℕ) (s : String)
    → n < fuel
    → is_digits s ≡ true
    → is_digits (print_onto fuel n s) ≡ true
unfolding print_onto
is_digits-print_onto zero n s h k = elim h [ ]
is_digits-print_onto (suc fuel) n s h k = elim (Bool-cases (ltb n 10)) [
  | inl e ↦ rw e (is_digits-digit n s (ground arith) ∙ k)
  | inr e ↦ rw e (
      is_digits-print_onto fuel (n / 10) (digit (n % 10) ∷ s) (ground arith)
        (is_digits-digit (n % 10) s (omega arith) ∙ k))
]

rstrip-digits : (s : String) → is_digits s ≡ true → rstrip is_space s ≡ s
unfolding rstrip
rstrip-digits [] h = refl
rstrip-digits (c ∷ s) h =
    ground (arith, rstrip-digits s (ground arith), is_space-digit c (ground arith))

lstrip-digits : (s : String) → is_digits s ≡ true → lstrip is_space s ≡ s
unfolding lstrip
lstrip-digits [] h = refl
lstrip-digits (c ∷ s) h = ground (arith, is_space-digit c (ground arith))

strip-digits : (s : String) → is_digits s ≡ true → strip is_space s ≡ s
unfolding strip
strip-digits s h = rw (rstrip-digits s h) (lstrip-digits s h)

signed_digits :
    (s : String) (n : ℕ)
    → is_digits s ≡ true
    → digits_from false 0 s ≡ some n
    → signed s ≡ some (pos n)
unfolding signed
signed_digits [] n h e = (unfold digits_from in cc)
signed_digits (c ∷ s) n h e = ground arith

-- `int(str(n))` is `n`.
pub int_of-str_of : (n : ℕ) → int_of (str_of n) ≡ some (pos n)
unfolding int_of str_of
int_of-str_of n =
    let digits : is_digits (str_of n) ≡ true =
      is_digits-print_onto (n + 1) n "" (omega arith) refl in
    ap signed (strip-digits (str_of n) digits)
    ∙ signed_digits (str_of n) n digits (digits_from-print_onto (n + 1) n "" (omega arith))
