-- ===== src/Endpoints/Balance.antt =====
-- The queries of app/routers/external_api.py have one placeholder for each parameter.
use ssh_reports_hub_fast_api.Prelude.{ℕ, refl, Bool, true, false, Option, none, some, String}
use ssh_reports_hub_fast_api.Text.{join}
use ssh_reports_hub_fast_api.ReportQuery.{WhereArgs, is_true}
use ssh_reports_hub_fast_api.ReportQuery.Marks.{IsTemplate, templates}
use ssh_reports_hub_fast_api.ReportQuery.Balance.{
  IsBalanced, IsBalanced-none, IsBalanced-extend, IsBalanced-like, IsBalanced-id, IsBalanced-flag,
  one_clause, template, literals,
}
use ssh_reports_hub_fast_api.ReportQuery.Queries.{
  build_where_clauses-IsBalanced, build_outlook_clauses-IsBalanced, postgres_part, plain_text,
}
use ssh_reports_hub_fast_api.Endpoints.Industry.{
  industry_report_board_filters, board_clause, board_params, board_filter, industry_filter,
}
use ssh_reports_hub_fast_api.Endpoints.Public.{
  global_filter, outlook_filter, outlook_part, search_filter, recent_filter,
}
use ssh_reports_hub_fast_api.Endpoints.Statements.{Request, request_filter}

abbrev pub MarkedRequest : Bool → Request → Type 0
MarkedRequest pg request = IsBalanced (IsTemplate pg) (request_filter pg request)

board_filter-IsBalanced : (pg : Bool) → IsBalanced (IsTemplate pg) (board_filter pg)
unfolding board_filter board_clause board_params industry_report_board_filters join literals
board_filter-IsBalanced true = one_clause _ _ _ (template true _ 41 (refl, refl, refl) refl)
board_filter-IsBalanced false = one_clause _ _ _ (template false _ 41 (refl, refl, refl) refl)

industry_filter-IsBalanced :
    (pg : Bool) (last_report_id : Option ℕ) (a : WhereArgs)
    → IsBalanced (IsTemplate pg) (industry_filter pg last_report_id a)
unfolding industry_filter literals
industry_filter-IsBalanced pg last_report_id a =
    let laws = templates pg in
    IsBalanced-extend laws _ _ (board_filter-IsBalanced pg) (
      IsBalanced-extend laws _ _ (one_clause _ _ _ (template pg _ 0 (refl, refl, refl) refl)) (
        IsBalanced-extend laws _ _
          (postgres_part pg _ (
            0,
            0,
            plain_text _ refl refl refl,
            (
              0,
              0,
              plain_text _ refl refl refl,
              (
                0,
                0,
                plain_text _ refl refl refl,
                (
                  0,
                  0,
                  plain_text _ refl refl refl,
                  (
                    0,
                    0,
                    plain_text _ refl refl refl,
                    (
                      0,
                      0,
                      plain_text _ refl refl refl,
                      (0, 0, plain_text _ refl refl refl, refl, refl),
                      refl,
                    ),
                    refl,
                  ),
                  refl,
                ),
                refl,
              ),
              refl,
            ),
            refl,
          ))
          (IsBalanced-extend laws _ _
            (IsBalanced-id laws _ last_report_id (template pg _ 1 (refl, refl, refl) refl))
            (build_where_clauses-IsBalanced a pg))))

global_filter-IsBalanced :
    (pg : Bool) (report_id : Option ℕ) (a : WhereArgs)
    → IsBalanced (IsTemplate pg) (global_filter pg report_id a)
unfolding global_filter literals
global_filter-IsBalanced pg report_id a =
    let laws = templates pg in
    IsBalanced-extend laws _ _ (one_clause _ _ _ (template pg _ 0 (refl, refl, refl) refl)) (
      IsBalanced-extend laws _ _ (one_clause _ _ _ (template pg _ 0 (refl, refl, refl) refl)) (
        IsBalanced-extend laws _ _
          (postgres_part pg _ (
            0,
            0,
            plain_text _ refl refl refl,
            (
              0,
              0,
              plain_text _ refl refl refl,
              (
                0,
                0,
                plain_text _ refl refl refl,
                (0, 0, plain_text _ refl refl refl, refl, refl),
                refl,
              ),
              refl,
            ),
            refl,
          ))
          (IsBalanced-extend laws _ _
            (IsBalanced-id laws _ report_id (template pg _ 1 (refl, refl, refl) refl))
            (build_where_clauses-IsBalanced (record a { mkt_tp = some "global" }) pg))))

outlook_filter-IsBalanced :
    (pg : Bool) (outlook_year : Option ℕ) (a : WhereArgs)
    → IsBalanced (IsTemplate pg) (outlook_filter pg outlook_year a)
unfolding outlook_filter
outlook_filter-IsBalanced pg outlook_year a =
    IsBalanced-extend (templates pg) _ _ (build_outlook_clauses-IsBalanced outlook_year pg)
      (build_where_clauses-IsBalanced a pg)

outlook_part-IsBalanced :
    (pg : Bool) (wants_outlook : Option Bool) (outlook_year : Option ℕ)
    → IsBalanced (IsTemplate pg) (outlook_part pg wants_outlook outlook_year)
outlook_part-IsBalanced pg none outlook_year = IsBalanced-none (templates pg)
outlook_part-IsBalanced pg (some true) outlook_year =
    build_outlook_clauses-IsBalanced outlook_year pg
outlook_part-IsBalanced pg (some false) outlook_year = IsBalanced-none (templates pg)

search_filter-IsBalanced :
    (pg : Bool) (report_id : Option ℕ) (a : WhereArgs) (has_summary wants_outlook : Option Bool)
    (outlook_year : Option ℕ)
    → IsBalanced
        (IsTemplate pg)
        (search_filter pg report_id a has_summary wants_outlook outlook_year)
unfolding search_filter literals
search_filter-IsBalanced pg report_id a has_summary wants_outlook outlook_year =
    let laws = templates pg in
    IsBalanced-extend laws _ _
      (IsBalanced-id laws _ report_id (template pg _ 1 (refl, refl, refl) refl))
      (IsBalanced-extend laws _ _ (build_where_clauses-IsBalanced a pg) (
        IsBalanced-extend laws _ _
          (IsBalanced-flag laws (is_true has_summary) _ (template pg _ 0 (refl, refl, refl) refl))
          (outlook_part-IsBalanced pg wants_outlook outlook_year)))

recent_filter-IsBalanced :
    (pg : Bool) (company board : Option ℕ) (writer title : Option String)
    → IsBalanced (IsTemplate pg) (recent_filter company board writer title)
unfolding recent_filter literals
recent_filter-IsBalanced pg company board writer title =
    let laws = templates pg in
    IsBalanced-extend laws _ _ (one_clause _ _ _ (template pg _ 0 (refl, refl, refl) refl)) (
      IsBalanced-extend laws _ _
        (IsBalanced-id laws _ company (template pg _ 1 (refl, refl, refl) refl))
        (IsBalanced-extend laws _ _
          (IsBalanced-id laws _ board (template pg _ 1 (refl, refl, refl) refl))
          (IsBalanced-extend laws _ _
            (IsBalanced-like laws _ _ _ writer (template pg _ 1 (refl, refl, refl) refl))
            (IsBalanced-like laws _ _ _ title (template pg _ 1 (refl, refl, refl) refl)))))

pub request_filter-IsBalanced : (pg : Bool) (request : Request) → MarkedRequest pg request
unfolding request_filter
request_filter-IsBalanced pg (Request.industry last_report_id a) =
    industry_filter-IsBalanced pg last_report_id a
request_filter-IsBalanced pg (Request.global report_id a) = global_filter-IsBalanced pg report_id a
request_filter-IsBalanced pg (Request.outlook outlook_year a) =
    outlook_filter-IsBalanced pg outlook_year a
request_filter-IsBalanced pg (Request.search report_id a has_summary wants_outlook outlook_year) =
    search_filter-IsBalanced pg report_id a has_summary wants_outlook outlook_year
request_filter-IsBalanced pg (Request.recent company board writer title) =
    recent_filter-IsBalanced pg company board writer title
