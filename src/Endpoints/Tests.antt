-- ===== src/Endpoints/Tests.antt =====
-- The theorems about the queries and the pages at concrete requests.
use ssh_reports_hub_fast_api.Prelude.{
  ℕ, ◌+◌, ◌≡◌, refl, true, String, none, some, List, [], ◌∷◌, length, take, drop, ltb,
}
use ssh_reports_hub_fast_api.ReportQuery.{Param, int, WhereArgs}
use ssh_reports_hub_fast_api.ReportQuery.Marks.{IsMarked, marks_from, percents, open_after}
use ssh_reports_hub_fast_api.Endpoints.{Database, execute_raw_query, paginate_query}
use ssh_reports_hub_fast_api.Endpoints.Statements.{Request, page_sql, page_params}
use ssh_reports_hub_fast_api.Endpoints.Firms.{companies_sql, boards_sql}
use ssh_reports_hub_fast_api.Endpoints.Laws.{page_sql-IsMarked, paginate_query_lem}

abbrev args : WhereArgs
args = record {
  writer = some "kim";
  title = some "해외주식 탑픽";
  mkt_tp = none;
  company = some 3;
  board = none;
  tag = some "AI";
  sector = none;
  stock = none;
}

page_sql-IsMarked_example :
    IsMarked
      (page_sql true (Request.industry (some 900) args))
      (length (page_params true (Request.industry (some 900) args) 20 40))
page_sql-IsMarked_example = page_sql-IsMarked true (Request.industry (some 900) args) 20 40

abbrev numbers : List ℕ
numbers = 1 ∷ 2 ∷ 3 ∷ 4 ∷ 5 ∷ []

abbrev fetch_numbers : String → List Param → List ℕ
fetch_numbers sql (int limit ∷ int offset ∷ []) = take limit (drop offset numbers)
fetch_numbers sql _ = numbers

abbrev db : Database ℕ
db = record { is_postgres = true; fetch = fetch_numbers }

paginate_query_example : paginate_query db "SELECT n FROM numbers" [] 2 1 ≡ (
  take 2 (drop 1 (execute_raw_query db "SELECT n FROM numbers" [])),
  ltb (1 + 2) (length (execute_raw_query db "SELECT n FROM numbers" [])),
)
paginate_query_example = paginate_query_lem db "SELECT n FROM numbers" [] (λ limit offset. refl) 2 1

companies_sql-IsMarked : IsMarked companies_sql 0
unfolding marks_from percents open_after
companies_sql-IsMarked = record { marks = refl; percent = refl; closed = refl }

boards_sql-IsMarked : IsMarked boards_sql 1
unfolding marks_from percents open_after
boards_sql-IsMarked = record { marks = refl; percent = refl; closed = refl }
