-- ===== src/Screening/Tests.antt =====
-- The theorems about the cash-flow screening at concrete arguments, with natural numbers for floats.
use Prim.Native.Nat.{min}
use ssh_reports_hub_fast_api.Prelude.{
  ℕ, ◌-◌, ◌≡◌, refl, Bool, true, none, some, List, [], ◌∷◌, ◌++◌, map, length, take, drop, any,
  any-append, str_eq, ap, ◌∙◌, arith, if◌then◌else◌, String, ◌==◌,
}
use ssh_reports_hub_fast_api.Text.Codes.{Codes}
use ssh_reports_hub_fast_api.Binds.{binds, has_bind, names_of}
use ssh_reports_hub_fast_api.Screening.{
  ScreeningRow, Database, Value, text, int, FcfArgs, build_fcf_query, count_sql, data_sql,
  sort_columns, fcf_screening_item, float_or_none, list_fcf_screening, where_sql, order_sql, get,
  fcf_filter, given_text, given_real, get_fcf_detail, not_found,
}
use ssh_reports_hub_fast_api.Screening.Names.{among, values, build_fcf_query_bound}
use ssh_reports_hub_fast_api.Screening.Conditions.{conditions, all_of, param_of}
use ssh_reports_hub_fast_api.Screening.Pages.{IsSql, selecting, list_fcf_screening-page}

abbrev args : FcfArgs ℕ
args = record {
  stock_code = none;
  sector = some "IT";
  market = some "";
  min_fcf_yield = none;
  max_p_fcf = some 9;
}

build_fcf_query_run : build_fcf_query args "name; DROP TABLE users" ≡ (
  "sector = :sector AND p_fcf <= :max_p_fcf AND p_fcf IS NOT NULL",
  "fcf_yield DESC NULLS LAST",
  ("sector", text "IT") ∷ ("max_p_fcf", Value.real 9) ∷ [],
)
unfolding build_fcf_query fcf_filter where_sql order_sql sort_columns get given_text given_real
build_fcf_query_run = refl

build_fcf_query_bound_example :
    ((c : Codes)
      → has_bind c (binds (data_sql (build_fcf_query args "fcf").0 (build_fcf_query args "fcf").1))
        ≡ has_bind c (
            names_of
              ((build_fcf_query args "fcf").2 ++ ("limit", int 50) ∷ ("offset", int 0) ∷ [])))
    × ((c : Codes)
        → has_bind c (binds (count_sql (build_fcf_query args "fcf").0))
          ≡ has_bind c (names_of (build_fcf_query args "fcf").2))
    × (among (build_fcf_query args "fcf").1 (values sort_columns) ≡ true)
build_fcf_query_bound_example = build_fcf_query_bound args "fcf" 50 0

abbrev row : ℕ → ScreeningRow ℕ
row n = record {
  stock_code = "005930";
  stock_name = "A";
  market = none;
  sector = some "IT";
  mktcap_date = none;
  market_cap = some n;
  current_price = none;
  corp_name = none;
  report_year = some 2025;
  report_code = none;
  report_type = none;
  operating_cash_flow = none;
  capex_tangible = none;
  capex_intangible = none;
  capex = none;
  fcf = some n;
  p_fcf = none;
  fcf_yield = none;
  total_debt = some 0;
  cash_equivalents = none;
  ev = none;
  ev_fcf = none;
}

abbrev rows : List (ScreeningRow ℕ)
rows = row 1 ∷ row 2 ∷ row 3 ∷ []

-- Two of the rows are in the sector, and a request without a sector gets all of them.
abbrev matching : String → List (String × Value ℕ) → List (ScreeningRow ℕ)
matching condition params = if any (λ p. str_eq p.0 "sector") params then take 2 rows else rows

abbrev as_stored : String → List (ScreeningRow ℕ) → List (ScreeningRow ℕ)
as_stored order selected = selected

abbrev number : Value ℕ → ℕ
number (int n) = n
number _ = 0

-- The values of the last two parameters.
abbrev window : List (String × Value ℕ) → ℕ × ℕ
window [] = (0, 0)
window (x ∷ []) = (0, 0)
window (x ∷ (y ∷ [])) = (number x.1, number y.1)
window (x ∷ (y ∷ (z ∷ rest))) = window (y ∷ (z ∷ rest))

window-append :
    (params : List (String × Value ℕ)) (limit offset : ℕ)
    → window (params ++ ("limit", int limit) ∷ ("offset", int offset) ∷ []) ≡ (limit, offset)
window-append [] limit offset = refl
window-append (x ∷ []) limit offset = refl
window-append (x ∷ (y ∷ [])) limit offset = refl
window-append (x ∷ (y ∷ (z ∷ params))) limit offset = window-append (y ∷ (z ∷ params)) limit offset

abbrev database : Database ℕ ℕ
database = record {
  scalar = λ sql params. length (matching sql params);
  fetch = λ sql params. take (window params).0 (drop (window params).1 (matching sql params));
}

matching-append :
    (sql condition : String) (params : List (String × Value ℕ)) (limit offset : ℕ)
    → matching sql (params ++ ("limit", int limit) ∷ ("offset", int offset) ∷ [])
      ≡ matching condition params
matching-append sql condition params limit offset =
    ap (λ asked. if asked then take 2 rows else rows)
      (any-append (λ (p : String × Value ℕ). str_eq p.0 "sector") params
          (("limit", int limit) ∷ ("offset", int offset) ∷ [])
        ∙ ground arith)

database-IsSql : IsSql database matching as_stored
database-IsSql = record {
  counts = λ condition params. refl;
  selects = λ condition order params limit offset. rw (window-append params limit offset) (
      ap (λ selected. take limit (drop offset selected))
        (matching-append (selecting condition order) condition params limit offset));
  keeps = λ order selected. refl;
}

abbrev is_zero : ℕ → Bool
is_zero n = n == 0

abbrev float : ℕ → ℕ
float n = n

list_fcf_screening-page_example :
    let answer = list_fcf_screening is_zero float database args "fcf" 2 1 in
    let selected = matching (all_of (conditions args)) (map param_of (conditions args)) in
    (answer.items
      ≡ map
          (fcf_screening_item is_zero float)
          (take 2 (drop 1 (as_stored (order_sql "fcf") selected))))
    × (answer.total ≡ length selected)
    × (length answer.items ≡ min 2 (answer.total - 1))
list_fcf_screening-page_example =
    list_fcf_screening-page is_zero float database matching as_stored args "fcf" 2 1 database-IsSql

-- A company without debt is listed as if its debt were unknown.
fcf_screening_item_zero : (fcf_screening_item is_zero float (row 1)).total_debt ≡ none
unfolding fcf_screening_item float_or_none
fcf_screening_item_zero = refl

get_fcf_detail_absent :
    get_fcf_detail is_zero float
      (record { scalar = λ sql params. 0; fetch = λ sql params. [] })
      "000000"
    ≡ not_found
unfolding get_fcf_detail
get_fcf_detail_absent = refl
