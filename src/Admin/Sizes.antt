-- ===== src/Admin/Sizes.antt =====
-- How close the sizes of `format_size` in app/services/admin_log_utils.py are.
use Prim.Native.String.{◌++◌ as append}
use ssh_reports_hub_fast_api.Prelude.{
  ℕ, ◌+◌, ◌*◌, ◌/◌, ◌%◌, ◌≤◌, ◌<◌, ◌≡◌, refl, arith, String, ltb, Bool-cases, inl, inr,
}
use ssh_reports_hub_fast_api.Text.Number.{str_of}
use ssh_reports_hub_fast_api.Admin.{round_half_even, one_decimal, two_decimals, format_size}

-- `t` is a nearest whole number to `a / d`.
abbrev pub Nearest : ℕ → ℕ → ℕ → Type 0
Nearest a d t = (2 * (t * d) ≤ 2 * a + d) × (2 * a ≤ 2 * (t * d) + d)

round_kb : (a : ℕ) → Nearest a 1024 (round_half_even a 1024)
unfolding round_half_even
round_kb a = ground arith

round_mb : (a : ℕ) → Nearest a 1048576 (round_half_even a 1048576)
unfolding round_half_even
round_mb a = ground arith

round_gb : (a : ℕ) → Nearest a 1073741824 (round_half_even a 1073741824)
unfolding round_half_even
round_gb a = ground arith

-- The number `t / 10` and the number `t / 100`, as they are written.
abbrev pub tenths : ℕ → String
tenths t = append (str_of (t / 10)) (append "." (str_of (t % 10)))

abbrev pub hundredths : ℕ → String
hundredths t =
    append (str_of (t / 100)) (append "." (append (str_of (t / 10 % 10)) (str_of (t % 10))))

-- What the text of a size may be.
pub data Shows (n : ℕ) (s : String) : Type 0 where
  bytes : n < 1024 → s ≡ append (str_of n) " B" → Shows n s
  kilobytes :
      (t : ℕ)
      → 1024 ≤ n
      → n < 1048576
      → Nearest (10 * n) 1024 t
      → s ≡ append (tenths t) " KB"
      → Shows n s
  megabytes :
      (t : ℕ)
      → 1048576 ≤ n
      → n < 1073741824
      → Nearest (10 * n) 1048576 t
      → s ≡ append (tenths t) " MB"
      → Shows n s
  gigabytes :
      (t : ℕ)
      → 1073741824 ≤ n
      → Nearest (100 * n) 1073741824 t
      → s ≡ append (hundredths t) " GB"
      → Shows n s

-- Every size is shown in its unit, below 1024 bytes exactly, else with a number that is off by at most
-- half a unit of its last digit: one digit after the point, and two for gigabytes.
pub format_size-Shows : (n : ℕ) → Shows n (format_size n)
unfolding format_size one_decimal two_decimals
format_size-Shows n = elim (Bool-cases (ltb n 1024)) [
  | inl e ↦ rw e (bytes (ground arith) refl)
  | inr e ↦ rw e (elim (Bool-cases (ltb n 1048576)) [
    | inl f ↦ rw f (
        kilobytes (round_half_even (10 * n) 1024) (ground arith) (ground arith) (round_kb (10 * n))
          refl)
    | inr f ↦ rw f (elim (Bool-cases (ltb n 1073741824)) [
      | inl g ↦ rw g (
          megabytes (round_half_even (10 * n) 1048576) (ground arith) (ground arith)
            (round_mb (10 * n)) refl)
      | inr g ↦ rw g (
          gigabytes (round_half_even (100 * n) 1073741824) (ground arith) (round_gb (100 * n)) refl)
    ])
  ])
]
