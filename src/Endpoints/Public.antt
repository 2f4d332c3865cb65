-- ===== src/Endpoints/Public.antt =====
-- The queries of `get_global_reports`, `get_outlook_reports`, `search_reports` and
-- `get_recent_reports` (app/routers/external_api.py).
use ssh_reports_hub_fast_api.Prelude.{ℕ, String, Bool, true, false, Option, none, some, [], ◌∷◌}
use ssh_reports_hub_fast_api.ReportQuery.{
  Filter, no_filter, ◌<+>◌, clause, id_filter, like_filter, flag_filter, is_true, WhereArgs,
  build_where_clauses, postgres_clauses, build_outlook_clauses,
}

-- `_build_where_clauses(writer, title, "global", company, board)`
unfoldable pub global_filter : Bool → Option ℕ → WhereArgs → Filter
global_filter pg report_id a =
    clause "r.telegram_sent = TRUE" []
    <+> clause "r.mkt_tp != 'KR'" []
    <+> postgres_clauses pg (
        "r.article_title !~* '\\(\\d{5,6}\\.K[QS]\\)'"
        ∷ "r.article_title !~* '\\([^)]+\\.K[QS][^)]*\\)'" ∷ "r.article_title !~* '\\b\\d{5,6}\\b'"
        ∷ "r.article_title !~* '코스피|코스닥|KOSPI|KOSDAQ|퀀트|Quant|MP'" ∷ [])
    <+> id_filter "r.report_id = %s" report_id
    <+> build_where_clauses (record a { mkt_tp = some "global" }) pg

unfoldable pub outlook_filter : Bool → Option ℕ → WhereArgs → Filter
outlook_filter pg outlook_year a =
    build_outlook_clauses outlook_year pg <+> build_where_clauses a pg

abbrev pub outlook_part : Bool → Option Bool → Option ℕ → Filter
outlook_part pg (some true) outlook_year = build_outlook_clauses outlook_year pg
outlook_part pg _ outlook_year = no_filter

unfoldable pub search_filter :
    Bool → Option ℕ → WhereArgs → Option Bool → Option Bool → Option ℕ → Filter
search_filter pg report_id a has_summary outlook outlook_year =
    id_filter "r.report_id = %s" report_id
    <+> build_where_clauses a pg
    <+> flag_filter (is_true has_summary)
        "(r.gemini_summary IS NOT NULL AND r.gemini_summary != '' AND r.gemini_summary != ' ')"
    <+> outlook_part pg outlook outlook_year

-- The arguments of `get_recent_reports` that filter. The operator is `ILIKE` on every dialect.
unfoldable pub recent_filter : Option ℕ → Option ℕ → Option String → Option String → Filter
recent_filter company board writer title =
    clause "r.telegram_sent = TRUE" []
    <+> id_filter "r.firm_id = %s" company
    <+> id_filter "r.board_id = %s" board
    <+> like_filter "r.writer ILIKE %s" "%" "%" writer
    <+> like_filter "r.article_title ILIKE %s" "%" "%" title

-- The order of the outlook list, and of the global and the search list when no report is named.
unfoldable pub date_order : Bool → String
date_order true =
    "ORDER BY r.report_date DESC, r.save_at DESC NULLS LAST, r.report_id DESC, r.firm_id, r.board_id"
date_order false =
    "ORDER BY r.report_date DESC, CASE WHEN r.save_at IS NULL THEN 1 ELSE 0 END, r.save_at DESC, r.report_id DESC, r.firm_id, r.board_id"

unfoldable pub order_by : Bool → Option ℕ → String
order_by pg none = date_order pg
order_by pg (some report_id) = "ORDER BY r.report_id DESC"

unfoldable pub recent_order : Bool → String
recent_order true = "ORDER BY r.report_date DESC, r.save_at DESC NULLS LAST, r.report_id DESC"
recent_order false =
    "ORDER BY r.report_date DESC, CASE WHEN r.save_at IS NULL THEN 1 ELSE 0 END, r.save_at DESC, r.report_id DESC"
