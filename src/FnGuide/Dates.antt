-- ===== src/FnGuide/Dates.antt =====
-- `parse_date` of app/services/fnguide_matcher.py with the formats of `strptime` that it uses. A date
-- is the number of its day, as `date.toordinal` counts. A year too large for the C library gives no date
-- here, where Python raises `OverflowError`.
use ssh_reports_hub_fast_api.Prelude.{
  ℕ, zero, suc, ◌+◌, ◌-◌, ◌*◌, ◌/◌, ◌%◌, ◌≡◌, refl, Bool, true, false, not, ◌&&◌, ◌||◌, Option,
  none, some, List, [], ◌∷◌, filter, any, all, length, take, drop, leb, ◌==◌, if◌then◌else◌,
}
use ssh_reports_hub_fast_api.Text.Codes.{Codes, codes, split_on}
use ssh_reports_hub_fast_api.FnGuide.{strip_codes}

unfoldable pub is_leap : ℕ → Bool
is_leap y = y % 4 == 0 && (not (y % 100 == 0) || y % 400 == 0)

unfoldable pub days_in_month : ℕ → ℕ → ℕ
unfolding is_leap
days_in_month y m =
    if m == 2
    then (if is_leap y then 29 else 28)
    else (if m == 4 || m == 6 || m == 9 || m == 11 then 30 else 31)

-- The days of the first `n` months of a year.
unfoldable pub days_of_months : ℕ → ℕ → ℕ
unfolding days_in_month
days_of_months y zero = 0
days_of_months y (suc n) = days_of_months y n + days_in_month y (n + 1)

-- `date(y, m, d)`, with `none` for `ValueError`.
unfoldable pub make_date : ℕ → ℕ → ℕ → Option ℕ
unfolding days_of_months
make_date y m d =
    if leb 1 y && leb y 9999 && leb 1 m && leb m 12 && leb 1 d && leb d (days_in_month y m)
    then some
        ((y - 1) * 365 + (y - 1) / 4 - (y - 1) / 100 + (y - 1) / 400 + days_of_months y (m - 1) + d)
    else none

abbrev pub digit_code : ℕ → Bool
digit_code c = leb b'0' c && leb c b'9'

unfoldable pub value_from : ℕ → Codes → ℕ
value_from n [] = n
value_from n (c ∷ s) = value_from (n * 10 + (c - b'0')) s

-- `s.isdigit()`
abbrev pub is_digits : Codes → Bool
is_digits [] = false
is_digits (c ∷ s) = digit_code c && all digit_code s

abbrev pub short_number : Codes → Bool
short_number s = is_digits s && leb (length s) 2

-- `strptime(s, "%Y-%m-%d")` and `strptime(s, "%Y.%m.%d")`: four digits, then one or two each.
unfoldable pub strptime_parts : List Codes → Option ℕ
unfolding value_from make_date
strptime_parts (y ∷ m ∷ d ∷ []) =
    if is_digits y && length y == 4 && short_number m && short_number d
    then make_date (value_from 0 y) (value_from 0 m) (value_from 0 d)
    else none
strptime_parts _ = none

abbrev pub first_piece : List Codes → Codes
first_piece [] = []
first_piece (w ∷ ws) = w

abbrev pub split_code : ℕ → Codes → List Codes
split_code sep = split_on (λ c. c == sep)

-- `strptime(s, "%Y%m%d")` on eight digits.
unfoldable pub strptime_compact : Codes → Option ℕ
unfolding value_from make_date
strptime_compact s =
    make_date (value_from 0 (take 4 s)) (value_from 0 (take 2 (drop 4 s))) (value_from 0 (drop 6 s))

-- The numbers between the dots, and the date of the first three.
unfoldable pub dotted_date : List Codes → Option ℕ
unfolding value_from make_date
dotted_date (y ∷ m ∷ d ∷ rest) = make_date (value_from 0 y) (value_from 0 m) (value_from 0 d)
dotted_date _ = none

-- The first of two attempts that gives a date.
abbrev pub or_else : Option ℕ → Option ℕ → Option ℕ
or_else (some d) next = some d
or_else none next = next

abbrev pub when : Bool → Option ℕ → Option ℕ
when true d = d
when false d = none

unfoldable pub parse_date : Codes → Option ℕ
unfolding strip_codes split_on strptime_parts strptime_compact dotted_date
parse_date date_str =
    let s = strip_codes date_str in
    let head = first_piece (split_code b' ' s) in
    or_else (when (length s == 8 && is_digits s) (strptime_compact s)) (
      or_else (when (any (λ c. c == b'-') s) (strptime_parts (split_code b'-' head))) (
        when (any (λ c. c == b'.') s) (
          or_else (strptime_parts (split_code b'.' head))
            (dotted_date (filter is_digits (split_code b'.' s))))))

ordinal_test : parse_date (codes "2026-06-05") ≡ some 739772
unfolding parse_date
ordinal_test = refl

dot_test : parse_date (codes " 2026.6.5 09:00") ≡ parse_date (codes "20260605")
unfolding parse_date
dot_test = refl
