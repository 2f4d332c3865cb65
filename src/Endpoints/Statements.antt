-- ===== src/Endpoints/Statements.antt =====
-- The five list endpoints of app/routers/external_api.py together: the query that a request
-- chooses, and the statement and the parameters that reach the driver.
use Prim.Native.String.{◌++◌ as append}
use ssh_reports_hub_fast_api.Prelude.{ℕ, ◌+◌, String, Bool, Option, List, [], ◌∷◌, ◌++◌}
use ssh_reports_hub_fast_api.ReportQuery.{Param, int, Filter, WhereArgs}
use ssh_reports_hub_fast_api.Endpoints.{sql_base}
use ssh_reports_hub_fast_api.Endpoints.Industry.{industry_filter, industry_order}
use ssh_reports_hub_fast_api.Endpoints.Public.{
  global_filter, outlook_filter, search_filter, recent_filter, date_order, order_by, recent_order,
}

-- The endpoint with the arguments that filter.
pub data Request : Type 0 where
  industry : Option ℕ → WhereArgs → Request
  global : Option ℕ → WhereArgs → Request
  outlook : Option ℕ → WhereArgs → Request
  search : Option ℕ → WhereArgs → Option Bool → Option Bool → Option ℕ → Request
  recent : Option ℕ → Option ℕ → Option String → Option String → Request

unfoldable pub request_filter : Bool → Request → Filter
request_filter pg (Request.industry last_report_id a) = industry_filter pg last_report_id a
request_filter pg (Request.global report_id a) = global_filter pg report_id a
request_filter pg (Request.outlook outlook_year a) = outlook_filter pg outlook_year a
request_filter pg (Request.search report_id a has_summary wants_outlook outlook_year) =
    search_filter pg report_id a has_summary wants_outlook outlook_year
request_filter pg (Request.recent company board writer title) =
    recent_filter company board writer title

unfoldable pub request_order : Bool → Request → String
request_order pg (Request.industry last_report_id a) = industry_order
request_order pg (Request.global report_id a) = order_by pg report_id
request_order pg (Request.outlook outlook_year a) = date_order pg
request_order pg (Request.search report_id a has_summary wants_outlook outlook_year) =
    order_by pg report_id
request_order pg (Request.recent company board writer title) = recent_order pg

abbrev pub page_mark : String
page_mark = " LIMIT %s OFFSET %s"

-- The text that `paginate_query` completes.
unfoldable pub page_sql : Bool → Request → String
page_sql pg request =
    append (sql_base pg (request_filter pg request) (request_order pg request)) page_mark

-- The parameters that `paginate_query` completes.
unfoldable pub page_params : Bool → Request → ℕ → ℕ → List Param
page_params pg request limit offset =
    (request_filter pg request).params ++ (int (limit + 1) ∷ (int offset ∷ []))
