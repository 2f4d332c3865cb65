-- ===== src/Summaries.antt =====
-- The summary list of app/routers/fnguide_reports.py: the SQL texts with their named parameters, and
-- the reports of each summary. `str.lower` is an argument: it follows the table of Unicode.
pub mod Names
pub mod Grouping
mod Tests
use Prim.Native.String.{◌++◌ as append}
use ssh_reports_hub_fast_api.Prelude.{
  ℕ, ◌+◌, String, Bool, Option, none, some, List, [], ◌∷◌, ◌++◌, map, filter, str_eq, ◌==◌,
  if◌then◌else◌,
}
use ssh_reports_hub_fast_api.Text.{join}
use ssh_reports_hub_fast_api.Binds.{NamedFilter, no_filter, clause, ◌<+>◌}

-- A named parameter; `ids` is expanded to a list.
pub data Value : Type 0 where
  text : String → Value
  int : ℕ → Value
  ids : List ℕ → Value

-- `f"%{value}%"`
abbrev pub contains_pattern : String → String
contains_pattern value = append "%" (append value "%")

unfoldable pub given : String → String → (String → String) → Option String → NamedFilter Value
given condition name change none = no_filter
given condition name change (some value) =
    if str_eq value "" then no_filter else clause condition name (text (change value))

abbrev pub q_clause : String
q_clause =
    "( lower(coalesce(company_name, '')) LIKE :q OR lower(coalesce(report_title, '')) LIKE :q OR lower(coalesce(summary_text, '')) LIKE :q OR lower(coalesce(provider, '')) LIKE :q OR lower(coalesce(author, '')) LIKE :q )"

-- The arguments of `_build_report_filter_sql`.
pub record SummaryArgs : Type 0 where
  pub q : Option String
  pub provider : Option String
  pub author : Option String
  pub report_date : Option String

-- `f"WHERE {' AND '.join(where_clauses)}" if where_clauses else ""`
unfoldable pub where_sql : List String → String
unfolding join
where_sql [] = ""
where_sql (first ∷ rest) = append "WHERE " (join " AND " (first ∷ rest))

module _ (lower : String → String) where
  unfoldable pub report_filter : SummaryArgs → NamedFilter Value
  unfolding given
  report_filter a =
      given q_clause "q" (λ v. contains_pattern (lower v)) a.q
      <+> given "lower(coalesce(provider, '')) LIKE :provider" "provider"
          (λ v. contains_pattern (lower v)) a.provider
      <+> given "lower(coalesce(author, '')) LIKE :author" "author"
          (λ v. contains_pattern (lower v)) a.author
      <+> given "report_date = :report_date" "report_date" (λ v. v) a.report_date

  unfoldable pub build_report_filter_sql : SummaryArgs → String × List (String × Value)
  build_report_filter_sql a = (where_sql (report_filter a).where_clauses, (report_filter a).params)

-- The SQL texts of the endpoints, with one space for each line break.
unfoldable pub summaries_sql : String → String
summaries_sql condition =
    append
      "SELECT summary_id, source_page_url, report_date, company_name, company_code, report_title, summary_text, opinion, target_price, prev_close, provider, author, article_url, pdf_url, report_key, item_rank, sync_status, created_at, updated_at FROM tbl_fnguide_report_summaries "
      (append condition " ORDER BY report_date DESC, summary_id DESC LIMIT :limit OFFSET :offset")

abbrev pub sec_reports_sql : String
sec_reports_sql =
    "SELECT report_id, coalesce(firm_nm, '') AS firm_nm, coalesce(article_title, '') AS article_title, pdf_url AS pdf_file_url, telegram_url, fnguide_summary_id FROM tbl_sec_reports WHERE fnguide_summary_id IN :summary_ids ORDER BY report_id DESC"

-- `f"{where_sql} AND report_date != ''" if where_sql else "WHERE report_date != ''"`
unfoldable pub date_filter_sql : String → String
date_filter_sql condition =
    if str_eq condition ""
    then "WHERE report_date != ''"
    else append condition " AND report_date != ''"

unfoldable pub dates_sql : String → String
dates_sql condition =
    append
      "SELECT report_date, COUNT(summary_id) AS report_count FROM tbl_fnguide_report_summaries "
      (append (date_filter_sql condition) " GROUP BY report_date ORDER BY report_date DESC")

-- A row of a report without its `fnguide_summary_id`, which `pop` takes out.
pub record SecReportRow : Type 0 where
  pub report_id : ℕ
  pub firm_nm : String
  pub article_title : String
  pub pdf_file_url : Option String
  pub telegram_url : Option String

-- The dictionary `reports_by_summary_id`.
abbrev pub Groups : Type 0
Groups = List (ℕ × List SecReportRow)

-- `{summary_id: [] for summary_id in summary_ids}`: a number that comes twice has one entry.
unfoldable pub has_group : ℕ → Groups → Bool
has_group id [] = Bool.false
has_group id ((other, rows) ∷ rest) = if other == id then Bool.true else has_group id rest

unfoldable pub empty_groups : List ℕ → Groups → Groups
unfolding has_group
empty_groups [] groups = groups
empty_groups (id ∷ rest) groups =
    empty_groups rest (if has_group id groups then groups else groups ++ (id, []) ∷ [])

-- `setdefault(summary_id, []).append(report)`
unfoldable pub append_report : ℕ → SecReportRow → Groups → Groups
append_report id row [] = (id, row ∷ []) ∷ []
append_report id row ((other, rows) ∷ rest) =
    let after = append_report id row rest in
    if other == id then (other, rows ++ row ∷ []) ∷ rest else (other, rows) ∷ after

unfoldable pub group_loop : List (ℕ × SecReportRow) → Groups → Groups
group_loop [] groups = groups
group_loop ((id, row) ∷ rest) groups = group_loop rest (append_report id row groups)

-- `get(summary_id, [])`
unfoldable pub get : ℕ → Groups → List SecReportRow
get id [] = []
get id ((other, rows) ∷ rest) = if other == id then rows else get id rest

-- The database behind a session. The columns of a summary but its number are of any type.
pub record Database (Summary : Type 0) : Type 0 where
  pub summaries : String → List (String × Value) → List (ℕ × Summary)
  pub sec_reports : String → List (String × Value) → List (ℕ × SecReportRow)

module _ {Summary : Type 0} (lower : String → String) (db : Database Summary) where
  abbrev pub attach : Groups → ℕ × Summary → (ℕ × Summary) × List SecReportRow
  attach groups summary = (summary, get summary.0 groups)

  abbrev pub with_reports : List (ℕ × Summary) → List ((ℕ × Summary) × List SecReportRow)
  with_reports [] = []
  with_reports (first ∷ rest) =
      let summary_ids = map (λ (s : ℕ × Summary). s.0) (first ∷ rest) in
      let rows = db.sec_reports sec_reports_sql (("summary_ids", ids summary_ids) ∷ []) in
      map (attach (group_loop rows (empty_groups summary_ids []))) (first ∷ rest)

  -- The handler below the cache. No summary, no second query.
  unfoldable pub get_report_summaries :
      SummaryArgs → ℕ → ℕ → List ((ℕ × Summary) × List SecReportRow)
  get_report_summaries a limit offset =
      let (condition, params) = build_report_filter_sql lower a in
      with_reports (
        db.summaries (summaries_sql condition)
          (params ++ ("limit", int limit) ∷ ("offset", int offset) ∷ []))
