-- ===== src/FnGuide/Batch.antt =====
-- What a batch of the matcher of app/services/fnguide_matcher.py leaves alone.
use mathlib.Core.List.{Memᴰ}
use ssh_reports_hub_fast_api.Prelude.{
  ℕ, zero, suc, ◌≡◌, refl, ap, ◌∙◌, inl, inr, arith, Bool, true, false, ◌||◌, Option, some, List,
  [], ◌∷◌, filter, any, take, ◌==◌, ==_iff, Bool-cases,
}
use ssh_reports_hub_fast_api.FnGuide.Matcher.{
  SecReport, FnGuideReportSummary, Python, insert_report, newest_first, is_pending, pending_reports,
  in_batch, save, match_pending_reports, count_matched,
}

any-insert_report :
    (p : SecReport → Bool) (report : SecReport) (reports : List SecReport)
    → any p (insert_report report reports) ≡ (p report || any p reports)
unfolding insert_report
any-insert_report p report [] = refl
any-insert_report p report (other ∷ others) = ground (arith, any-insert_report p report others)

any-newest_first :
    (p : SecReport → Bool) (reports : List SecReport) → any p (newest_first reports) ≡ any p reports
unfolding newest_first
any-newest_first p [] = refl
any-newest_first p (report ∷ reports) =
    any-insert_report p report (newest_first reports)
    ∙ ap (λ b. p report || b) (any-newest_first p reports)

any-take {ℓ} :
    {A : Type ℓ} (p : A → Bool) (n : ℕ) (xs : List A) → any p xs ≡ false → any p (take n xs) ≡ false
any-take p zero xs h = refl
any-take p (suc n) [] h = refl
any-take p (suc n) (x ∷ xs) h = ground (arith, any-take p n xs)

-- No two rows have one key.
abbrev pub IsKeyed : List SecReport → Type 0
IsKeyed [] = Unit
IsKeyed (report ∷ reports) = (in_batch report.report_id reports ≡ false) × IsKeyed reports

in_batch-Mem :
    (reports : List SecReport) (row : SecReport)
    → Memᴰ row reports
    → in_batch row.report_id reports ≡ true
in_batch-Mem [] row m = elim m [ ]
in_batch-Mem (report ∷ reports) row (Memᴰ.head e) = ground (arith, e)
in_batch-Mem (report ∷ reports) row (Memᴰ.tail m) = ground (arith, in_batch-Mem reports row m)

in_batch-filter :
    (q : SecReport → Bool) (id : ℕ) (reports : List SecReport)
    → in_batch id reports ≡ false
    → in_batch id (filter q reports) ≡ false
in_batch-filter q id [] h = refl
in_batch-filter q id (report ∷ reports) h = ground (arith, in_batch-filter q id reports)

in_batch-linked :
    (max_report_id : Option ℕ) (reports : List SecReport) (row : SecReport) (summary : ℕ)
    → IsKeyed reports
    → Memᴰ row reports
    → row.fnguide_summary_id ≡ some summary
    → in_batch row.report_id (filter (is_pending max_report_id) reports) ≡ false
in_batch-linked max_report_id [] row summary keyed m linked = elim m [ ]
in_batch-linked max_report_id (report ∷ reports) row summary keyed (Memᴰ.head e) linked =
    let same = ap (λ (r : SecReport). r.report_id) e in
    let status = ap (λ (r : SecReport). r.fnguide_summary_id) e in
    ground (
      arith,
      same,
      status,
      linked,
      in_batch-filter (is_pending max_report_id) row.report_id reports,
      keyed.0,
    )
in_batch-linked max_report_id (report ∷ reports) row summary keyed (Memᴰ.tail m) linked = ground (
  arith,
  in_batch-linked max_report_id reports row summary keyed.1 m linked,
  in_batch-Mem reports row m,
  keyed.0,
  ==_iff report.report_id row.report_id,
)

save-Mem :
    (py : Python) (batch : List SecReport) (all_candidates : List FnGuideReportSummary)
    (reports : List SecReport) (row : SecReport)
    → in_batch row.report_id batch ≡ false
    → Memᴰ row reports
    → Memᴰ row (save py batch all_candidates reports)
unfolding save
save-Mem py batch all_candidates [] row h m = elim m [ ]
save-Mem py batch all_candidates (report ∷ reports) row h (Memᴰ.head e) =
    Memᴰ.head (ground (arith, h, e, ap (λ (r : SecReport). in_batch r.report_id batch) e))
save-Mem py batch all_candidates (report ∷ reports) row h (Memᴰ.tail m) =
    Memᴰ.tail (save-Mem py batch all_candidates reports row h m)

-- Where no two rows have one key, a report that is linked to a summary stays in the table as it was,
-- whatever the batch, the mode and the outcome of the commit are.
pub match_pending_reports-linked :
    (py : Python) (limit : ℕ) (max_report_id : Option ℕ) (dry_run commit_fails : Bool)
    (all_candidates : List FnGuideReportSummary) (table : List SecReport) (row : SecReport)
    (summary : ℕ)
    → IsKeyed table
    → Memᴰ row table
    → row.fnguide_summary_id ≡ some summary
    → Memᴰ row
        (match_pending_reports py limit max_report_id dry_run commit_fails all_candidates table).1
unfolding match_pending_reports pending_reports
match_pending_reports-linked py limit max_report_id dry_run commit_fails all_candidates table row
      summary keyed m linked =
    let pending = filter (is_pending max_report_id) table in
    let batch = take limit (newest_first pending) in
    let outside : in_batch row.report_id batch ≡ false =
      any-take (λ r. r.report_id == row.report_id) limit (newest_first pending)
        (any-newest_first (λ r. r.report_id == row.report_id) pending
          ∙ in_batch-linked max_report_id table row summary keyed m linked) in
    elim (Bool-cases (dry_run || count_matched py batch all_candidates == 0)) [
      | inl e ↦ rw e m
      | inr e ↦ elim (Bool-cases commit_fails) [
        | inl f ↦ rw (e, f) m
        | inr f ↦ rw (e, f) (save-Mem py batch all_candidates table row outside m)
      ]
    ]
