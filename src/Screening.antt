-- ===== src/Screening.antt =====
-- The cash-flow screening of app/routers/fcf_screening.py: the SQL texts with their named parameters,
-- and the rows as items. Floats are of any type.
pub mod Names
pub mod Conditions
pub mod Pages
mod Tests
use Prim.Native.String.{◌++◌ as append}
use ssh_reports_hub_fast_api.Prelude.{
  ℕ, String, Bool, Option, none, some, List, [], ◌∷◌, ◌++◌, map, str_eq, if◌then◌else◌,
}
use ssh_reports_hub_fast_api.Text.{join}
use ssh_reports_hub_fast_api.Binds.{NamedFilter, no_filter, clause, ◌<+>◌}

-- A named parameter.
pub data Value (Float : Type 0) : Type 0 where
  text : String → Value Float
  real : Float → Value Float
  int : ℕ → Value Float

-- `SORT_COLUMNS`
unfoldable pub sort_columns : List (String × String)
sort_columns =
    ("fcf_yield", "fcf_yield DESC NULLS LAST")
    ∷ ("p_fcf", "p_fcf ASC NULLS LAST")
    ∷ ("market_cap", "market_cap DESC NULLS LAST")
    ∷ ("fcf", "fcf DESC NULLS LAST")
    ∷ ("stock_code", "stock_code ASC")
    ∷ []

-- `columns.get(key, default)`
unfoldable pub get : String → String → List (String × String) → String
get key default [] = default
get key default ((other, value) ∷ rest) = if str_eq other key then value else get key default rest

unfoldable pub order_sql : String → String
unfolding get sort_columns
order_sql sort_by = get sort_by "fcf_yield DESC NULLS LAST" sort_columns

-- `" AND ".join(where_clauses) if where_clauses else "1=1"`
unfoldable pub where_sql : List String → String
unfolding join
where_sql [] = "1=1"
where_sql (first ∷ rest) = join " AND " (first ∷ rest)

-- The columns of `mv_fcf_screening`, with the number columns of type `Number`. `NULL` is `none`.
pub record ScreeningRow (Number : Type 0) : Type 0 where
  pub stock_code : String
  pub stock_name : String
  pub market : Option String
  pub sector : Option String
  pub mktcap_date : Option String
  pub market_cap : Option Number
  pub current_price : Option Number
  pub corp_name : Option String
  pub report_year : Option ℕ
  pub report_code : Option String
  pub report_type : Option String
  pub operating_cash_flow : Option Number
  pub capex_tangible : Option Number
  pub capex_intangible : Option Number
  pub capex : Option Number
  pub fcf : Option Number
  pub p_fcf : Option Number
  pub fcf_yield : Option Number
  pub total_debt : Option Number
  pub cash_equivalents : Option Number
  pub ev : Option Number
  pub ev_fcf : Option Number

module _ {Float : Type 0} where
  -- `if value:` of an optional text.
  unfoldable pub given_text : String → String → Option String → NamedFilter (Value Float)
  given_text condition name none = no_filter
  given_text condition name (some value) =
      if str_eq value "" then no_filter else clause condition name (text value)

  -- `if value is not None:` of an optional number.
  unfoldable pub given_real : String → String → Option Float → NamedFilter (Value Float)
  given_real condition name none = no_filter
  given_real condition name (some value) = clause condition name (real value)

-- The arguments of `_build_fcf_query` that filter.
pub record FcfArgs (Float : Type 0) : Type 0 where
  pub stock_code : Option String
  pub sector : Option String
  pub market : Option String
  pub min_fcf_yield : Option Float
  pub max_p_fcf : Option Float

module _ {Float : Type 0} where
  unfoldable pub fcf_filter : FcfArgs Float → NamedFilter (Value Float)
  unfolding given_text given_real
  fcf_filter a =
      given_text "stock_code = :stock_code" "stock_code" a.stock_code
      <+> given_text "sector = :sector" "sector" a.sector
      <+> given_text "market = :market" "market" a.market
      <+> given_real "fcf_yield >= :min_fcf_yield" "min_fcf_yield" a.min_fcf_yield
      <+> given_real "p_fcf <= :max_p_fcf AND p_fcf IS NOT NULL" "max_p_fcf" a.max_p_fcf

  unfoldable pub build_fcf_query :
      FcfArgs Float → String → String × String × List (String × Value Float)
  build_fcf_query a sort_by =
      (where_sql (fcf_filter a).where_clauses, order_sql sort_by, (fcf_filter a).params)

-- The SQL texts of the two endpoints, with one space for each line break.
abbrev pub fcf_columns : String
fcf_columns =
    "SELECT stock_code, stock_name, market, sector, mktcap_date, market_cap, current_price, corp_name, report_year, report_code, report_type, operating_cash_flow, capex_tangible, capex_intangible, capex, fcf, p_fcf, fcf_yield, total_debt, cash_equivalents, ev, ev_fcf FROM mv_fcf_screening WHERE "

unfoldable pub count_sql : String → String
count_sql condition = append "SELECT COUNT(*) FROM mv_fcf_screening WHERE " condition

unfoldable pub data_sql : String → String → String
data_sql condition order =
    append fcf_columns
      (append condition (append " ORDER BY " (append order " LIMIT :limit OFFSET :offset")))

unfoldable pub detail_sql : String
detail_sql =
    append fcf_columns "stock_code = :stock_code ORDER BY report_year DESC, report_code DESC"

-- The database behind a session: the number that a statement counts, and the rows that one selects.
pub record Database (Number Float : Type 0) : Type 0 where
  pub scalar : String → List (String × Value Float) → ℕ
  pub fetch : String → List (String × Value Float) → List (ScreeningRow Number)

pub record ListResponse (Float : Type 0) : Type 0 where
  pub items : List (ScreeningRow Float)
  pub total : ℕ
  pub limit : ℕ
  pub offset : ℕ

pub data Detail (Float : Type 0) : Type 0 where
  found : List (ScreeningRow Float) → Detail Float
  not_found : Detail Float

module _ {Number Float : Type 0} (is_zero : Number → Bool) (float : Number → Float) where
  -- `float(r) if r else None`
  unfoldable pub float_or_none : Option Number → Option Float
  float_or_none none = none
  float_or_none (some n) = if is_zero n then none else some (float n)

  -- `FcfScreeningItem(...)` of a row: it has the fields of the row, with floats.
  unfoldable pub fcf_screening_item : ScreeningRow Number → ScreeningRow Float
  fcf_screening_item r = record {
    stock_code = r.stock_code;
    stock_name = r.stock_name;
    market = r.market;
    sector = r.sector;
    mktcap_date = r.mktcap_date;
    market_cap = float_or_none r.market_cap;
    current_price = float_or_none r.current_price;
    corp_name = r.corp_name;
    report_year = r.report_year;
    report_code = r.report_code;
    report_type = r.report_type;
    operating_cash_flow = float_or_none r.operating_cash_flow;
    capex_tangible = float_or_none r.capex_tangible;
    capex_intangible = float_or_none r.capex_intangible;
    capex = float_or_none r.capex;
    fcf = float_or_none r.fcf;
    p_fcf = float_or_none r.p_fcf;
    fcf_yield = float_or_none r.fcf_yield;
    total_debt = float_or_none r.total_debt;
    cash_equivalents = float_or_none r.cash_equivalents;
    ev = float_or_none r.ev;
    ev_fcf = float_or_none r.ev_fcf;
  }

  -- A count always has a row.
  unfoldable pub list_fcf_screening :
      Database Number Float → FcfArgs Float → String → ℕ → ℕ → ListResponse Float
  list_fcf_screening db a sort_by limit offset =
      let (condition, order, params) = build_fcf_query a sort_by in
      record {
        items = map fcf_screening_item (
            db.fetch (data_sql condition order)
              (params ++ ("limit", int limit) ∷ ("offset", int offset) ∷ []));
        total = db.scalar (count_sql condition) params;
        limit = limit;
        offset = offset;
      }

  abbrev pub detail_of : List (ScreeningRow Number) → Detail Float
  detail_of [] = not_found
  detail_of (r ∷ rows) = found (map fcf_screening_item (r ∷ rows))

  unfoldable pub get_fcf_detail : Database Number Float → String → Detail Float
  get_fcf_detail db stock_code =
      detail_of (db.fetch detail_sql (("stock_code", text stock_code) ∷ []))
