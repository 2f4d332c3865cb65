-- ===== src/Admin/Summarize.antt =====
-- `trigger_summarize` of app/routers/admin.py. The summary worker and DeepSeek are arguments. The worker is
-- run with `--write-db`, so that it gives the tables as it leaves them; both may raise. Saving a
-- notification may fail; a commit of a summary is taken not to fail.
pub mod Writes
pub mod Skips
use Prim.Native.String.{[], ◌∷◌, ◌++◌ as append}
use mathlib.Core.List.{[], ◌∷◌}
use ssh_reports_hub_fast_api.Prelude.{
  ℕ, zero, suc, ◌≡◌, refl, ap, ◌∙◌, arith, String, Bool, true, false, not, ◌&&◌, ◌||◌, Option, none,
  some, List, ◌++◌, map, filter, str_eq, ◌==◌, if◌then◌else◌, Bool-cases, Option-cases, inl, inr,
}
use ssh_reports_hub_fast_api.Text.{strip, is_space}
use ssh_reports_hub_fast_api.Exceptions.{
  Result, ok, raise, throw, other, not_found, validation, permission_denied,
}

-- The columns of `SecReport` that the handler reads or writes.
pub record Report : Type 0 where
  pub report_id : ℕ
  pub article_title : Option String
  pub firm_nm : Option String
  pub pdf_file_url : Option String
  pub telegram_url : Option String
  pub gemini_summary : Option String
  pub summary_time : Option String
  pub summary_model : Option String

pub record ReportNotification : Type 0 where
  pub report_id : ℕ
  pub article_title : String
  pub firm_nm : String
  pub summary_model : String
  pub message : String

pub record SummaryDb : Type 0 where
  pub reports : List Report
  pub notifications : List ReportNotification

-- `value or default`
unfoldable pub or_text : Option String → String → String
or_text none default = default
or_text (some s) default = if str_eq s "" then default else s

-- What `manager.summarize` returns.
pub record EngineResult : Type 0 where
  pub status : String
  pub summary : Option String
  pub model : String
  pub error : Option String

-- What `run_summary_worker` returns, the text of its SummaryWorkerError, or another exception.
pub data WorkerResult : Type 0 where
  item : Option String → Option String → Option String → WorkerResult
  worker_error : String → WorkerResult
  worker_exception : String → WorkerResult

pub data SummaryResponse : Type 0 where
  skipped : ℕ → String → SummaryResponse
  worker_item : ℕ → Option String → Option String → Option String → SummaryResponse
  success : ℕ → String → String → SummaryResponse
  error : ℕ → String → SummaryResponse

-- `s[:n]`
unfoldable pub first_chars : ℕ → String → String
first_chars zero s = []
first_chars (suc n) [] = []
first_chars (suc n) (c ∷ s) = c ∷ first_chars n s

unfoldable pub find_report : ℕ → List Report → Option Report
find_report id [] = none
find_report id (r ∷ rest) = if r.report_id == id then some r else find_report id rest

-- The summary that is there already: not blank.
unfoldable pub existing_summary : Report → Option String
unfolding strip is_space
existing_summary r = elim r.gemini_summary [
  | none ↦ none
  | some s ↦ if str_eq s "" || str_eq (strip is_space s) "" then none else some s
]

unfoldable pub pdf_url : Report → String
unfolding or_text
pdf_url r = or_text r.pdf_file_url (or_text r.telegram_url "")

-- Only SummaryWorkerError is caught.
unfoldable pub worker_response : ℕ → WorkerResult → Result SummaryResponse
worker_response id (worker_exception text) = raise (other text)
worker_response id (worker_error text) = ok (error id text)
worker_response id (item none summary model) = ok (worker_item id none summary model)
worker_response id (item (some status) summary model) =
    ok (worker_item id (some (if str_eq status "saved" then "success" else status)) summary model)

-- The UPDATE statement.
unfoldable pub write_summary : String → ℕ → String → String → List Report → List Report
write_summary now id summary model = map (λ r.
    if r.report_id == id
    then record r {
      gemini_summary = some summary;
      summary_time = some now;
      summary_model = some model;
    }
    else r)

unfoldable pub notification_of : String → Report → ℕ → ReportNotification
unfolding or_text
notification_of engine r id = record {
  report_id = id;
  article_title = or_text r.article_title "";
  firm_nm = or_text r.firm_nm "";
  summary_model = if str_eq engine "ag" then "gemini" else "deepseek";
  message = append "[" (
      append (or_text r.firm_nm "증권사") (
        append "] " (
          append (or_text r.article_title "리포트") (
            append "의 AI 요약("
              (append (if str_eq engine "ag" then "Gemini" else "DeepSeek") ")이 완료되었습니다!")))));
}

-- `result.get("error", "Unknown error")`
abbrev pub error_text : Option String → String
error_text none = "Unknown error"
error_text (some text) = text

-- After the engine: `result["status"] == "success" and result.get("summary")`.
unfoldable pub save_result :
    String → Bool → String → Report → ℕ → EngineResult → SummaryDb → SummaryResponse × SummaryDb
unfolding or_text write_summary notification_of
save_result now notified engine r id result db =
    let summary = or_text result.summary "" in
    if str_eq result.status "success" && not (str_eq summary "")
    then (
      success id summary result.model,
      record {
        reports = write_summary now id summary result.model db.reports;
        notifications =
            if notified
            then db.notifications ++ notification_of engine r id ∷ []
            else db.notifications;
      },
    )
    else (error id (error_text result.error), db)

abbrev pub returned : SummaryResponse × SummaryDb → Result SummaryResponse × SummaryDb
returned (response, db) = (ok response, db)

-- The second engine raises, or its result is saved.
unfoldable pub engine_answer :
    String
    → Bool
    → String
    → Report
    → ℕ
    → Result EngineResult
    → SummaryDb
    → Result SummaryResponse × SummaryDb
unfolding save_result
engine_answer now notified engine r id (raise exc) db = (raise exc, db)
engine_answer now notified engine r id (ok result) db =
    returned (save_result now notified engine r id result db)

module _ (worker : ℕ → Bool → SummaryDb → WorkerResult × SummaryDb)
    (deepseek : String → String → ℕ → Result EngineResult) where
  -- The rest of the handler after the test for a summary that is there. The second test of the engine in
  -- the code comes after a return for "ag", so it leaves DeepSeek.
  unfoldable pub summarize_unless :
      Option String
      → String
      → Bool
      → String
      → Bool
      → Report
      → ℕ
      → SummaryDb
      → Result SummaryResponse × SummaryDb
  unfolding pdf_url worker_response or_text engine_answer
  summarize_unless (some summary) now notified engine force r id db =
      (ok (skipped id (append (first_chars 100 summary) "...")), db)
  summarize_unless none now notified engine force r id db =
      if str_eq (pdf_url r) ""
      then (throw validation "No PDF URL available for this report", db)
      else (if str_eq engine "ag"
          then (worker_response id (worker id force db).0, (worker id force db).1)
          else engine_answer now notified engine r id
              (deepseek (pdf_url r) (or_text r.article_title "") id) db)

  unfoldable pub summarize_found :
      Option Report
      → String
      → Bool
      → String
      → Bool
      → ℕ
      → SummaryDb
      → Result SummaryResponse × SummaryDb
  unfolding existing_summary summarize_unless
  summarize_found none now notified engine force id db = (throw not_found "Report not found", db)
  summarize_found (some r) now notified engine force id db =
      summarize_unless (if force then none else existing_summary r) now notified engine force r id
        db

  unfoldable pub trigger_summarize :
      String → Bool → String → Bool → ℕ → SummaryDb → Result SummaryResponse × SummaryDb
  unfolding summarize_found find_report
  trigger_summarize now notified engine force id db =
      summarize_found (find_report id db.reports) now notified engine force id db
