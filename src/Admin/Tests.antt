-- ===== src/Admin/Tests.antt =====
-- The theorems about the administration at concrete files, firms and reports.
use Prim.Native.Nat.{min}
use ssh_reports_hub_fast_api.Prelude.{
  ℕ, ◌+◌, ◌≡◌, refl, arith, String, Bool, true, Option, none, some, List, [], ◌∷◌, ◌++◌, str_eq,
  if◌then◌else◌, map, length,
}
use ssh_reports_hub_fast_api.Text.{join}
use ssh_reports_hub_fast_api.Text.Number.{str_of}
use ssh_reports_hub_fast_api.Exceptions.{Result, ok, throw, permission_denied}
use ssh_reports_hub_fast_api.Admin.{
  Parts, Entry, missing, directory, file, FileSystem, LogView, view_log_file, resolve_log_path,
  content_lines, format_size, one_decimal, round_half_even, parts_eq,
}
use ssh_reports_hub_fast_api.Admin.Sizes.{Shows, format_size-Shows}
use ssh_reports_hub_fast_api.Admin.Paths.{ShowsFile, view_log_file-ShowsFile}
use ssh_reports_hub_fast_api.Admin.Firms.{
  FirmRow, DateValue, date, null, future, fine, warn, stale, is_future, status_of, with_status,
  get_firm_health, expected, get_firm_health_lem, firm_of,
}
use ssh_reports_hub_fast_api.Admin.Summarize.{
  Report, SummaryDb, EngineResult, WorkerResult, worker_error,
}
use ssh_reports_hub_fast_api.Admin.Statistics

format_size-Shows_example : Shows 1536 (format_size 1536)
format_size-Shows_example = format_size-Shows 1536

-- The largest size below one megabyte is shown as 1024 kilobytes.
format_size_edge : format_size 1048575 ≡ "1024.0 KB"
unfolding format_size one_decimal round_half_even str_of
format_size_edge = refl

-- One log file of three lines in the folder /logs.
abbrev entries : Parts → Entry
entries path =
    if parts_eq path ("logs" ∷ [])
    then directory
    else (if parts_eq path ("logs" ∷ "a.log" ∷ [])
        then file 30 (some ("one\n" ∷ "two\n" ∷ "three\n" ∷ []))
        else missing)

-- `..` leads out of the folder; any other name is a child.
abbrev join_path : Parts → String → Parts
join_path path name = if str_eq name ".." then [] else path ++ name ∷ []

abbrev same : Parts → Parts
same path = path

abbrev disk : FileSystem
disk = record { resolve = same; join_path = join_path; entry_at = entries }

abbrev shown : LogView
shown = record { file = "a.log"; content = "two\nthree\n"; lines_returned = 2; tail = true }

view_log_file_run : view_log_file disk ("logs" ∷ []) "a.log" 2 true ≡ ok shown
unfolding view_log_file resolve_log_path content_lines join
view_log_file_run = refl

view_log_file-ShowsFile_example : ShowsFile disk ("logs" ∷ []) "a.log" 2 true shown
view_log_file-ShowsFile_example =
    view_log_file-ShowsFile disk ("logs" ∷ []) "a.log" 2 true shown refl view_log_file_run

view_log_file_traversal :
    view_log_file disk ("logs" ∷ []) ".." 2 true
    ≡ throw permission_denied "Access denied: path traversal detected"
unfolding view_log_file resolve_log_path
view_log_file_traversal = refl

abbrev no_iso : String → Option ℕ
no_iso s = none

abbrev iso : ℕ → String
iso n = str_of n

abbrev firm : ℕ → DateValue → FirmRow
firm n d = record {
  firm_id = n;
  firm_nm = "firm";
  total = 9;
  last_report_date = d;
  last_save = none;
}

abbrev four_firms : List FirmRow
four_firms = firm 1 (date 100) ∷ firm 2 (date 93) ∷ firm 3 (date 70) ∷ firm 4 null ∷ []

get_firm_health_example :
    (map status_of (get_firm_health no_iso iso 100 four_firms).firms
      ≡ map (expected no_iso iso 100) four_firms)
    × (length (get_firm_health no_iso iso 100 four_firms).alerts
        ≡ (get_firm_health no_iso iso 100 four_firms).stale_count
          + (get_firm_health no_iso iso 100 four_firms).warn_count)
    × ((get_firm_health no_iso iso 100 four_firms).stale_count
          + (get_firm_health no_iso iso 100 four_firms).warn_count
          + (get_firm_health no_iso iso 100 four_firms).ok_count
          + length (with_status is_future (get_firm_health no_iso iso 100 four_firms).firms)
        ≡ (get_firm_health no_iso iso 100 four_firms).total_firms)
    × ((get_firm_health no_iso iso 100 four_firms).total_firms ≡ length four_firms)
get_firm_health_example = get_firm_health_lem no_iso iso 100 four_firms

get_firm_health_run :
    map status_of (get_firm_health no_iso iso 100 four_firms).firms
    ≡ fine ∷ warn ∷ stale ∷ future ∷ []
unfolding get_firm_health firm_of
get_firm_health_run = refl

abbrev report : Report
report = record {
  report_id = 5;
  article_title = some "title";
  firm_nm = none;
  pdf_file_url = none;
  telegram_url = some "https://t";
  gemini_summary = none;
  summary_time = none;
  summary_model = none;
}

abbrev database : SummaryDb
database = record { reports = report ∷ []; notifications = [] }

-- A worker that saves a summary and then fails.
abbrev writes : ℕ → Bool → SummaryDb → WorkerResult × SummaryDb
writes id force db = (
  worker_error "down",
  record db { reports = record report { gemini_summary = some "Hold." } ∷ [] },
)

abbrev deepseek : String → String → ℕ → Result EngineResult
deepseek url title id =
    ok (record { status = "success"; summary = some "Buy."; model = "m"; error = none })

abbrev dated : ℕ → String → Statistics.Report
dated day firm = record { firm_nm = firm; report_date = day }

abbrev reports : List Statistics.Report
reports = dated 20 "A" ∷ dated 20 "B" ∷ dated 18 "A" ∷ dated 3 "A" ∷ []

abbrev unsorted : List (String × ℕ) → List (String × ℕ)
unsorted groups = groups

report_statistics_example :
    ((Statistics.report_statistics unsorted 20 reports).archive_history
      ≡ Statistics.history_of 20 reports)
    × (Statistics.sum_counts (Statistics.report_statistics unsorted 20 reports).archive_history
        ≡ Statistics.reports_within 20 reports)
    × ((Statistics.report_statistics unsorted 20 reports).active_firms_today
        ≡ min 10 (length (Statistics.firm_rows 20 reports)))
report_statistics_example =
    Statistics.report_statistics_lem unsorted 20 reports (λ groups. refl) (omega arith)
