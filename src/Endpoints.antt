-- ===== src/Endpoints.antt =====
-- The list endpoints of app/routers/external_api.py: from the query parameters to the SQL text with
-- its parameters, and from the rows to the page.
pub mod Industry
pub mod Public
pub mod Statements
pub mod Balance
pub mod Firms
pub mod Laws
mod Tests
use Prim.Native.String.{[], ◌∷◌}
use mathlib.Core.List.{[], ◌∷◌, ◌++◌}
use Prim.Native.String.{◌++◌ as append}
use ssh_reports_hub_fast_api.Prelude.{
  ℕ, ◌+◌, ◌≤◌, String, Bool, ◌&&◌, code, List, length, take, ltb, ◌==◌, if◌then◌else◌,
}
use ssh_reports_hub_fast_api.ReportQuery.{Param, int, Filter, where_text, base_select_sql}

-- `sql_str.replace("%s", "?")` of app/services/raw_query.py.
unfoldable pub replace_marks : String → String
replace_marks [] = []
replace_marks (c ∷ []) = c ∷ []
replace_marks (c ∷ (d ∷ s)) =
    let rest = replace_marks s in
    let shifted = replace_marks (d ∷ s) in
    if code c == b'%' && code d == b's' then "?" ∷ rest else c ∷ shifted

-- `f"{_base_select_sql(db)} {where_str} {order_by}"`
unfoldable pub sql_base : Bool → Filter → String → String
sql_base is_postgres f order_by =
    append (base_select_sql is_postgres)
      (append " " (append (where_text f.clauses) (append " " order_by)))

-- What `execute_raw_query` hands to the driver.
unfoldable pub statement : Bool → String → String
statement is_postgres sql = if is_postgres then sql else replace_marks sql

-- The database behind a session: its dialect, and the rows that a statement selects.
pub record Database (Row : Type 0) : Type 0 where
  pub is_postgres : Bool
  pub fetch : String → List Param → List Row

module _ {Row : Type 0} (db : Database Row) where
  -- `execute_raw_query`; the connection is closed on every path.
  unfoldable pub execute_raw_query : String → List Param → List Row
  execute_raw_query sql params = db.fetch (statement db.is_postgres sql) params

  -- `paginate_query` on an SQL text.
  unfoldable pub paginate_query : String → List Param → ℕ → ℕ → List Row × Bool
  paginate_query sql params limit offset =
      let results =
        execute_raw_query (append sql " LIMIT %s OFFSET %s")
          (params ++ (int (limit + 1) ∷ (int offset ∷ []))) in
      (take limit results, ltb limit (length results))
