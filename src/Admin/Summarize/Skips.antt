-- ===== src/Admin/Summarize/Skips.antt =====
-- When a second request to `trigger_summarize` of app/routers/admin.py is skipped.
use Prim.Native.String.{◌++◌ as append}
use ssh_reports_hub_fast_api.Prelude.{
  ℕ, ◌≡◌, refl, ap, ◌∙◌, arith, String, Bool, true, false, not, ◌||◌, Option, none, some, is_some,
  List, [], ◌∷◌, str_eq, ◌==◌, Bool-cases, inl, inr,
}
use ssh_reports_hub_fast_api.Text.{strip, is_space}
use ssh_reports_hub_fast_api.Exceptions.{Result, ok}
use ssh_reports_hub_fast_api.Admin.Summarize.{
  Report, SummaryDb, EngineResult, WorkerResult, skipped, first_chars, find_report,
  existing_summary, write_summary, summarize_unless, summarize_found, trigger_summarize,
}
use ssh_reports_hub_fast_api.Admin.Summarize.Writes.{
  saved_of, after_save, tables_before, runs_worker, worker-saved, found-IsWritten,
}

-- The row of a report with a new summary.
abbrev with_summary : String → String → String → Report → Report
with_summary now summary model r = record r {
  gemini_summary = some summary;
  summary_time = some now;
  summary_model = some model;
}

abbrev mapped : (Report → Report) → Option Report → Option Report
mapped f none = none
mapped f (some r) = some (f r)

find-write_summary :
    (now : String) (id : ℕ) (summary model : String) (reports : List Report)
    → find_report id (write_summary now id summary model reports)
      ≡ mapped (with_summary now summary model) (find_report id reports)
unfolding find_report write_summary
find-write_summary now id summary model [] = refl
find-write_summary now id summary model (r ∷ rest) = elim (Bool-cases (r.report_id == id)) [
  | inl e ↦ rw e (rw e refl)
  | inr e ↦ rw e (rw e (find-write_summary now id summary model rest))
]

-- A text that is not blank.
abbrev pub has_text : String → Bool
has_text s = not (str_eq s "" || str_eq (strip is_space s) "")

module _ (worker : ℕ → Bool → SummaryDb → WorkerResult × SummaryDb)
    (deepseek : String → String → ℕ → Result EngineResult) where
  skips :
      (now engine : String) (notified : Bool) (id : ℕ) (report : Option Report)
      (summary model time : String) (db : SummaryDb)
      → has_text summary ≡ true
      → is_some report ≡ true
      → summarize_found worker deepseek
          (mapped (with_summary time summary model) report)
          now
          notified
          engine
          false
          id
          db
        ≡ (ok (skipped id (append (first_chars 100 summary) "...")), db)
  unfolding summarize_found summarize_unless existing_summary
  skips now engine notified id none summary model time db h k = cc
  skips now engine notified id (some r) summary model time db h k =
      let blank : (str_eq summary "" || str_eq (strip is_space summary) "") ≡ false =
        ground arith in
      rw blank refl

  found_if_saved :
      (now engine : String) (notified force : Bool) (id : ℕ) (report : Option Report)
      (s : String × String) (db : SummaryDb)
      → saved_of (summarize_found worker deepseek report now notified engine force id db).0 ≡ some s
      → is_some report ≡ true
  unfolding summarize_found
  found_if_saved now engine notified force id none s db h = cc
  found_if_saved now engine notified force id (some r) s db h = refl

  -- A summary that the handler saved is not one of the worker.
  idle_if_saved :
      (now engine : String) (notified force : Bool) (id : ℕ) (report : Option Report)
      (s : String × String) (db : SummaryDb)
      → saved_of (summarize_found worker deepseek report now notified engine force id db).0 ≡ some s
      → runs_worker engine force report ≡ false
  unfolding summarize_found summarize_unless
  idle_if_saved now engine notified force id none s db h = refl
  idle_if_saved now engine notified force id (some r) s db h =
      elim (Bool-cases (runs_worker engine force (some r))) [
        | inr e ↦ e
        | inl e ↦ absurd (ground (arith, h, e, worker-saved id (worker id force db).0))
      ]

  -- After a summary with text was saved for a report, a second request that does not force it, whatever
  -- its engine is, is skipped with the beginning of that summary, and writes nothing.
  pub trigger_summarize-twice :
      (now later engine other summary model : String) (notified again force : Bool) (id : ℕ)
      (db : SummaryDb)
      → saved_of (trigger_summarize worker deepseek now notified engine force id db).0
        ≡ some (summary, model)
      → has_text summary ≡ true
      → let out = (trigger_summarize worker deepseek now notified engine force id db).1 in
        trigger_summarize worker deepseek later again other false id out
        ≡ (ok (skipped id (append (first_chars 100 summary) "...")), out)
  unfolding trigger_summarize
  trigger_summarize-twice now later engine other summary model notified again force id db h k =
      let out =
        (summarize_found worker deepseek (find_report id db.reports) now notified engine force id
          db).1 in
      let written =
        found-IsWritten worker deepseek now notified id db engine force
          (find_report id db.reports) in
      let idle =
        idle_if_saved now engine notified force id (find_report id db.reports) (summary, model) db
          h in
      let reports =
        written.reports
        ∙ ap
            (λ run.
              after_save now id
                (saved_of
                  (summarize_found worker deepseek (find_report id db.reports) now notified engine
                    force id db).0)
                (tables_before worker id force db run).reports)
            idle
        ∙ ap (λ s. after_save now id s db.reports) h in
      let found =
        ap (find_report id) reports ∙ find-write_summary now id summary model db.reports in
      ap (λ r. summarize_found worker deepseek r later again other false id out) found
      ∙ skips later other again id (find_report id db.reports) summary model now out k (
          found_if_saved now engine notified force id (find_report id db.reports) (summary, model)
            db h)
