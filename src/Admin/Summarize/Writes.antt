-- ===== src/Admin/Summarize/Writes.antt =====
-- What `trigger_summarize` of app/routers/admin.py writes.
use Prim.Native.String.{◌++◌ as append}
use ssh_reports_hub_fast_api.Prelude.{
  ℕ, ◌+◌, ◌≡◌, refl, sym, ap, arith, String, Bool, true, false, not, ◌&&◌, ◌||◌, Option, none, some,
  is_some, List, [], ◌∷◌, ◌++◌, length, length-append, str_eq, if◌then◌else◌, Bool-cases, inl, inr,
}
use ssh_reports_hub_fast_api.Exceptions.{Result, ok, raise, throw, validation, not_found}
use ssh_reports_hub_fast_api.Admin.Summarize.{
  Report, ReportNotification, error_text, SummaryDb, EngineResult, WorkerResult, item, worker_error,
  worker_exception, SummaryResponse, skipped, worker_item, success, error, first_chars,
  existing_summary, pdf_url, or_text, write_summary, notification_of, worker_response, save_result,
  returned, engine_answer, summarize_unless, summarize_found,
}

-- The summary that an answer says was saved.
abbrev pub saved : SummaryResponse → Option (String × String)
saved (success id summary model) = some (summary, model)
saved (skipped id text) = none
saved (worker_item id status summary model) = none
saved (error id text) = none

abbrev pub saved_of : Result SummaryResponse → Option (String × String)
saved_of (ok response) = saved response
saved_of (raise exc) = none

-- The reports after a summary was saved, or none was.
abbrev pub after_save : String → ℕ → Option (String × String) → List Report → List Report
after_save now id none reports = reports
after_save now id (some (summary, model)) reports = write_summary now id summary model reports

-- The number of notifications that are added.
abbrev pub added : Bool → Option (String × String) → ℕ
added notified none = 0
added notified (some s) = if notified then 1 else 0

-- The answer and the tables agree.
pub record IsWritten (now : String) (notified : Bool) (id : ℕ) (db : SummaryDb)
    (out : Result SummaryResponse × SummaryDb) : Type 0 where
  pub reports : out.1.reports ≡ after_save now id (saved_of out.0) db.reports
  pub notifications :
      length out.1.notifications ≡ length db.notifications + added notified (saved_of out.0)

pub worker-saved : (id : ℕ) (w : WorkerResult) → saved_of (worker_response id w) ≡ none
unfolding worker_response
worker-saved id (worker_exception text) = refl
worker-saved id (worker_error text) = refl
worker-saved id (item none summary model) = refl
worker-saved id (item (some status) summary model) = refl

-- Whether the summary worker is run for a report: it is asked for, the report is there and has an address,
-- and the summary is forced or there is none.
abbrev pub runs_worker : String → Bool → Option Report → Bool
runs_worker engine force none = false
runs_worker engine force (some r) =
    str_eq engine "ag"
    && not (str_eq (pdf_url r) "")
    && (force || not (is_some (existing_summary r)))

module _ (now : String) (notified : Bool) (id : ℕ) (db : SummaryDb) where
  IsWritten-none :
      (answer : Result SummaryResponse)
      → saved_of answer ≡ none
      → IsWritten now notified id db (answer, db)
  IsWritten-none answer h = record {
    reports = ap (λ (s : Option (String × String)). after_save now id s db.reports) (sym h);
    notifications = omega (arith, ap (added notified) h);
  }

  added-length :
      (n : ReportNotification)
      → length (if notified then db.notifications ++ n ∷ [] else db.notifications)
        ≡ length db.notifications + (if notified then 1 else 0)
  added-length n = elim (Bool-cases notified) [
    | inl e ↦ rw e (length-append db.notifications (n ∷ []))
    | inr e ↦ rw e (omega arith)
  ]

  save_result-IsWritten :
      (engine : String) (r : Report) (result : EngineResult)
      → IsWritten now notified id db (returned (save_result now notified engine r id result db))
  unfolding save_result
  save_result-IsWritten engine r result =
      elim (Bool-cases
        (str_eq result.status "success" && not (str_eq (or_text result.summary "") ""))) [
          | inl e ↦ rw e (record {
            reports = refl;
            notifications = added-length (notification_of engine r id);
          })
          | inr e ↦ rw e (IsWritten-none (ok (error id (error_text result.error))) refl)
        ]

  engine_answer-IsWritten :
      (engine : String) (r : Report) (result : Result EngineResult)
      → IsWritten now notified id db (engine_answer now notified engine r id result db)
  unfolding engine_answer
  engine_answer-IsWritten engine r (raise exc) = IsWritten-none (raise exc) refl
  engine_answer-IsWritten engine r (ok result) = save_result-IsWritten engine r result

-- The tables that the handler starts from when it writes.
abbrev pub tables_before :
    (ℕ → Bool → SummaryDb → WorkerResult × SummaryDb) → ℕ → Bool → SummaryDb → Bool → SummaryDb
tables_before worker id force db run = if run then (worker id force db).1 else db

module _ (worker : ℕ → Bool → SummaryDb → WorkerResult × SummaryDb)
    (deepseek : String → String → ℕ → Result EngineResult) (now : String) (notified : Bool) (id : ℕ)
    (db : SummaryDb) (engine : String) (force : Bool) where
  unless-IsWritten :
      (existing : Option String) (r : Report)
      → IsWritten now notified id
          (tables_before worker id force db
            (str_eq engine "ag" && not (str_eq (pdf_url r) "") && not (is_some existing)))
          (summarize_unless worker deepseek existing now notified engine force r id db)
  unfolding summarize_unless
  unless-IsWritten (some summary) r =
      let idle : (str_eq engine "ag" && not (str_eq (pdf_url r) "") && false) ≡ false =
        ground arith in
      rw idle (
        IsWritten-none now notified id db (ok (skipped id (append (first_chars 100 summary) "...")))
          refl)
  unless-IsWritten none r = elim (Bool-cases (str_eq (pdf_url r) "")) [
    | inl f ↦
        let idle : (str_eq engine "ag" && not (str_eq (pdf_url r) "") && true) ≡ false =
          ground (arith, f) in
        rw idle (
          rw f (
            IsWritten-none now notified id db
              (throw validation "No PDF URL available for this report") refl))
    | inr f ↦ rw f (elim (Bool-cases (str_eq engine "ag")) [
      | inl g ↦ rw g (
          IsWritten-none now notified id (worker id force db).1
            (worker_response id (worker id force db).0) (worker-saved id (worker id force db).0))
      | inr g ↦ rw g (
          engine_answer-IsWritten now notified id db engine r
            (deepseek (pdf_url r) (or_text r.article_title "") id))
    ])
  ]

  pub found-IsWritten :
      (report : Option Report)
      → IsWritten now notified id
          (tables_before worker id force db (runs_worker engine force report))
          (summarize_found worker deepseek report now notified engine force id db)
  unfolding summarize_found
  found-IsWritten none = IsWritten-none now notified id db (throw not_found "Report not found") refl
  found-IsWritten (some r) = elim (Bool-cases force) [
    | inl f ↦ rw f (rw f at (unless-IsWritten none r))
    | inr f ↦ rw f (rw f at (unless-IsWritten (existing_summary r) r))
  ]
