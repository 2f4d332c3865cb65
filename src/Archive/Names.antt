-- ===== src/Archive/Names.antt =====
-- The names in the ZIP file of app/routers/external_api.py: the loop over the counter ends with a
-- name that is not used.
use Prim.Native.String.{[], ◌∷◌}
use mathlib.Core.List.{[], ◌∷◌, append_cancel_left, append_cancel_right}
use text.Mathlib.TextEquality.{Char-path}
use ssh_reports_hub_fast_api.Prelude.{
  ℕ, zero, suc, ◌+◌, ◌≤◌, ◌≡◌, ◌≢◌, refl, sym, ap, ◌∙◌, arith, true, false, not, String, code, some,
  List, ◌++◌, filter, length, ==_iff, Bool-cases, inl, inr,
}
use ssh_reports_hub_fast_api.Prelude.Int.{pos}
use ssh_reports_hub_fast_api.Text.Codes.{Codes, codes, codes_eq}
use ssh_reports_hub_fast_api.Text.Number.{str_of, int_of, int_of-str_of}
use ssh_reports_hub_fast_api.Archive.{numbered, is_used, next_name, free_name, stem_suffix}

pub codes_eq_refl : (s : Codes) → codes_eq s s ≡ true
codes_eq_refl [] = refl
codes_eq_refl (c ∷ s) = ground (arith, codes_eq_refl s)

pub codes_eq_sound : (s t : Codes) → codes_eq s t ≡ true → s ≡ t
codes_eq_sound [] [] h = refl
codes_eq_sound [] (d ∷ t) h = absurd (ground arith)
codes_eq_sound (c ∷ s) [] h = absurd (ground arith)
codes_eq_sound (c ∷ s) (d ∷ t) h = ground (arith, codes_eq_sound s t, ==_iff c d)

cons_tail : (c d : ℕ) (s t : Codes) → ◌≡◌ {A = Codes} (c ∷ s) (d ∷ t) → s ≡ t
cons_tail c d s t h = cc

cons_head : (c d : ℕ) (s t : Codes) → ◌≡◌ {A = Codes} (c ∷ s) (d ∷ t) → c ≡ d
cons_head c d s t h = cc

codes_same : (s t : String) → codes s ≡ codes t → s ≡ t
codes_same [] [] h = refl
codes_same [] (d ∷ t) h = absurd cc
codes_same (c ∷ s) [] h = absurd cc
codes_same (c ∷ s) (d ∷ t) h =
    let e = codes_same s t (cons_tail (code c) (code d) (codes s) (codes t) h) in
    let f = Char-path c d (cons_head (code c) (code d) (codes s) (codes t) h) in cc

str_of_same : (m n : ℕ) → str_of m ≡ str_of n → m ≡ n
str_of_same m n h =
    let e : some (pos m) ≡ some (pos n) = sym (int_of-str_of m) ∙ ap int_of h ∙ int_of-str_of n in
    cc

numbered_same :
    (stem suffix : Codes) (m n : ℕ) → numbered stem suffix m ≡ numbered stem suffix n → m ≡ n
unfolding numbered
numbered_same stem suffix m n h =
    let tails =
      append_cancel_left stem (b'-' ∷ codes (str_of m) ++ suffix)
        (b'-' ∷ codes (str_of n) ++ suffix) h in
    let digits =
      cons_tail b'-' b'-' (codes (str_of m) ++ suffix) (codes (str_of n) ++ suffix) tails in
    str_of_same m n (
      codes_same (str_of m) (str_of n)
        (append_cancel_right (codes (str_of m)) (codes (str_of n)) suffix digits))

abbrev without : Codes → List Codes → List Codes
without name = filter (λ other. not (codes_eq other name))

length-without : (name : Codes) (names : List Codes) → length (without name names) ≤ length names
length-without name [] = omega arith
length-without name (other ∷ names) = ground (arith, length-without name names)

length-without_used :
    (name : Codes) (names : List Codes)
    → is_used name names ≡ true
    → length (without name names) + 1 ≤ length names
length-without_used name [] h = absurd (ground arith)
length-without_used name (other ∷ names) h = elim (Bool-cases (codes_eq other name)) [
  | inl e ↦ rw e (omega (arith, length-without name names))
  | inr e ↦ rw e (
      omega (
        arith,
        length-without_used name names
            (ground (arith, h, e, codes_eq_sound name other, codes_eq_refl other)),
      ))
]

is_used-without :
    (name other : Codes) (names : List Codes)
    → other ≢ name
    → is_used other (without name names) ≡ is_used other names
is_used-without name other [] h = refl
is_used-without name other (x ∷ names) h = elim (Bool-cases (codes_eq x name)) [
  | inl e ↦ rw e (
      ground (
        arith,
        is_used-without name other names h,
        codes_eq_sound x name e,
        codes_eq_sound other x,
        h,
      ))
  | inr e ↦ rw e (ground (arith, is_used-without name other names h))
]

-- With as much fuel as there are relevant names left the loop ends with a name that is not used.
next_name_free :
    (fuel : ℕ) (stem suffix : Codes) (counter : ℕ) (used_names left : List Codes)
    → length left ≤ fuel
    → ((j : ℕ)
        → counter ≤ j
        → is_used (numbered stem suffix j) used_names ≡ is_used (numbered stem suffix j) left)
    → is_used (next_name fuel stem suffix counter used_names) used_names ≡ false
unfolding next_name
next_name_free zero stem suffix counter used_names [] few same = same counter (omega arith)
next_name_free zero stem suffix counter used_names (x ∷ left) few same = absurd (omega (arith, few))
next_name_free (suc fuel) stem suffix counter used_names left few same =
    let name = numbered stem suffix counter in
    elim (Bool-cases (is_used name used_names)) [
      | inr e ↦ rw (e) e
      | inl e ↦ rw e (
          next_name_free fuel stem suffix (counter + 1) used_names (without name left)
            (omega
              (arith, few, length-without_used name left (sym (same counter (omega arith)) ∙ e)))
            (λ j h.
              same j (omega (arith, h))
              ∙ sym (
                  is_used-without name (numbered stem suffix j) left
                    (λ q. omega (arith, h, numbered_same stem suffix j counter q)))))
    ]

-- The loop over the counter ends with a name that no file in the ZIP file has.
pub free_name-is_used :
    (name : Codes) (used_names : List Codes)
    → is_used (free_name name used_names) used_names ≡ false
unfolding free_name
free_name-is_used name used_names = elim (Bool-cases (is_used name used_names)) [
  | inl e ↦ rw e (
      next_name_free (length used_names) (stem_suffix name).0 (stem_suffix name).1 2 used_names
        used_names (omega arith) (λ j h. refl))
  | inr e ↦ rw e e
]
