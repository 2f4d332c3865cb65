-- ===== src/Endpoints/Industry.antt =====
-- `INDUSTRY_REPORT_BOARD_FILTERS` and the query of `get_industry_reports`
-- (app/routers/external_api.py).
use Prim.Native.String.{◌++◌ as append}
use ssh_reports_hub_fast_api.Prelude.{
  ℕ, ◌&&◌, String, Bool, Option, List, [], ◌∷◌, ◌++◌, map, ◌==◌, if◌then◌else◌,
}
use ssh_reports_hub_fast_api.Text.{join}
use ssh_reports_hub_fast_api.ReportQuery.{
  Param, int, Filter, ◌<+>◌, clause, id_filter, WhereArgs, build_where_clauses, postgres_clauses,
}

unfoldable pub industry_report_board_filters : List (ℕ × List ℕ)
industry_report_board_filters =
    (0, 2 ∷ [])
    ∷ (1, 0 ∷ [])
    ∷ (3, 6 ∷ 15 ∷ [])
    ∷ (5, 1 ∷ [])
    ∷ (6, 1 ∷ [])
    ∷ (10, 1 ∷ [])
    ∷ (14, 8 ∷ 9 ∷ 10 ∷ 11 ∷ 12 ∷ 13 ∷ [])
    ∷ (18, 1 ∷ [])
    ∷ (19, 0 ∷ [])
    ∷ (20, 1 ∷ [])
    ∷ (22, 1 ∷ [])
    ∷ (23, 1 ∷ [])
    ∷ (24, 1 ∷ [])
    ∷ (25, 2 ∷ [])
    ∷ (26, 6 ∷ 8 ∷ [])
    ∷ (27, 1 ∷ [])
    ∷ (28, 0 ∷ [])
    ∷ []

abbrev pub mark : ℕ → String
mark n = "%s"

-- One clause of the loop over the filters.
unfoldable pub board_clause : Bool → ℕ × List ℕ → String
unfolding join
board_clause pg (firm_order, board_orders) =
    let placeholders = join ", " (map mark board_orders) in
    let head = append "(r.firm_id = %s AND r.board_id IN (" placeholders in
    if firm_order == 19 && pg
    then append head ") AND r.article_title !~ '\\([0-9]{5,6}\\)')"
    else append head "))"

-- `params.append(firm_order); params.extend(board_orders)`
unfoldable pub board_params : List (ℕ × List ℕ) → List Param
board_params [] = []
board_params ((firm_order, board_orders) ∷ rest) =
    (int firm_order ∷ map int board_orders) ++ board_params rest

unfoldable pub board_filter : Bool → Filter
unfolding board_clause board_params industry_report_board_filters join
board_filter pg =
    clause
      (append "("
        (append (join ") OR (" (map (board_clause pg) industry_report_board_filters)) ")"))
      (board_params industry_report_board_filters)

unfoldable pub industry_filter : Bool → Option ℕ → WhereArgs → Filter
industry_filter pg last_report_id a =
    board_filter pg
    <+> clause "r.telegram_sent = TRUE" []
    <+> postgres_clauses pg (
        "r.article_title !~* '\\(\\d{5,6}'" ∷ "r.article_title !~* '\\[\\d{5,6}/'"
        ∷ "r.article_title !~* '\\([A-Z]{1,5}\\.[A-Z]{2}\\)'"
        ∷ "r.article_title !~* '\\(\\d+\\.K[QS]\\)'"
        ∷ "r.article_title !~* '\\[[^\\]]+/(매수|매도|중립|시장수익률|Buy|Hold|Sell|Neutral|Outperform|Underperform|Not\\s*Rated|Trading\\s*Buy)'"
        ∷ "r.article_title !~* '목표주가'"
        ∷ "(r.pdf_report_id IS NULL OR r.pdf_page_count IS NULL OR r.pdf_page_count >= 10)" ∷ [])
    <+> id_filter "r.report_id < %s" last_report_id
    <+> build_where_clauses a pg

abbrev pub industry_order : String
industry_order = "ORDER BY r.report_id DESC"
