-- ===== src/Summaries/Tests.antt =====
-- The theorems about the summary list at concrete arguments. The texts are in lower case already.
use ssh_reports_hub_fast_api.Prelude.{ℕ, ◌≡◌, refl, String, none, some, [], ◌∷◌, map}
use ssh_reports_hub_fast_api.Summaries.{
  SummaryArgs, SecReportRow, Database, get_report_summaries, group_loop, empty_groups,
  append_report, get,
}
use ssh_reports_hub_fast_api.Summaries.Grouping.{
  reports_of, page, linked, get_report_summaries-join,
}

abbrev same : String → String
same s = s

abbrev args : SummaryArgs
args = record { q = some "chip"; provider = none; author = some ""; report_date = some "20260102" }

abbrev report : ℕ → SecReportRow
report n = record {
  report_id = n;
  firm_nm = "firm";
  article_title = "title";
  pdf_file_url = none;
  telegram_url = none;
}

-- Two summaries, and three reports: of the second, of the first and of the second.
abbrev database : Database String
database = record {
  summaries = λ sql params. (4, "a") ∷ (7, "b") ∷ [];
  sec_reports = λ sql params. (7, report 30) ∷ (4, report 20) ∷ (7, report 10) ∷ [];
}

get_report_summaries-join_example :
    get_report_summaries same database args 100 0
    ≡ map
        (λ s. (s, reports_of s.0 (linked same database (page same database args 100 0))))
        (page same database args 100 0)
get_report_summaries-join_example = get_report_summaries-join same database args 100 0

get_report_summaries_run :
    get_report_summaries same database args 100 0
    ≡ ((4, "a"), report 20 ∷ []) ∷ ((7, "b"), report 30 ∷ report 10 ∷ []) ∷ []
unfolding get_report_summaries group_loop empty_groups append_report get
get_report_summaries_run = refl
