-- ===== src/Summaries/Grouping.antt =====
-- The reports of each summary in `get_report_summaries` of app/routers/fnguide_reports.py.
use mathlib.Core.List.{append-nil, append_assoc}
use ssh_reports_hub_fast_api.Prelude.{
  ℕ, ◌≡◌, refl, sym, ap, ◌∙◌, arith, fun_ext, String, List, [], ◌∷◌, ◌++◌, map, filter, ◌==◌,
  if◌then◌else◌, Bool-cases, inl, inr,
}
use ssh_reports_hub_fast_api.Summaries.{
  int, ids, SummaryArgs, build_report_filter_sql, summaries_sql, sec_reports_sql, SecReportRow,
  Groups, has_group, empty_groups, append_report, group_loop, get, Database, with_reports,
  get_report_summaries,
}

-- The rows with this number of a summary, in their order.
abbrev pub reports_of : ℕ → List (ℕ × SecReportRow) → List SecReportRow
reports_of id rows = map (λ (r : ℕ × SecReportRow). r.1) (filter (λ r. r.0 == id) rows)

get-append_report :
    (k id : ℕ) (row : SecReportRow) (groups : Groups)
    → get k (append_report id row groups)
      ≡ (if id == k then get k groups ++ row ∷ [] else get k groups)
unfolding get append_report
get-append_report k id row [] = refl
get-append_report k id row ((other, rows) ∷ rest) = ground (arith, get-append_report k id row rest)

get-group_loop :
    (k : ℕ) (rows : List (ℕ × SecReportRow)) (groups : Groups)
    → get k (group_loop rows groups) ≡ get k groups ++ reports_of k rows
unfolding group_loop
get-group_loop k [] groups = sym (append-nil (get k groups))
get-group_loop k ((id, row) ∷ rest) groups =
    get-group_loop k rest (append_report id row groups) ∙ elim (Bool-cases (id == k)) [
      | inl e ↦ rw e (
          ap (λ l. l ++ reports_of k rest) (get-append_report k id row groups ∙ rw e refl)
          ∙ append_assoc (get k groups) (row ∷ []) (reports_of k rest))
      | inr e ↦
          rw e (ap (λ l. l ++ reports_of k rest) (get-append_report k id row groups ∙ rw e refl))
    ]

get-append_empty :
    (k id : ℕ) (groups : Groups) → get k groups ≡ [] → get k (groups ++ (id, []) ∷ []) ≡ []
unfolding get
get-append_empty k id [] h = ground arith
get-append_empty k id ((other, rows) ∷ rest) h = ground (arith, get-append_empty k id rest)

get-empty_groups :
    (k : ℕ) (ids : List ℕ) (groups : Groups)
    → get k groups ≡ []
    → get k (empty_groups ids groups) ≡ []
unfolding empty_groups
get-empty_groups k [] groups h = h
get-empty_groups k (id ∷ rest) groups h =
    get-empty_groups k rest (if has_group id groups then groups else groups ++ (id, []) ∷ [])
      (ground (arith, get-append_empty k id groups))

map-cong {ℓ κ} :
    {A : Type ℓ} {B : Type κ} (f g : A → B) (xs : List A)
    → ((a : A) → f a ≡ g a)
    → map f xs ≡ map g xs
map-cong f g xs h = rw (fun_ext h) refl

module _ {Summary : Type 0} (lower : String → String) (db : Database Summary) where
  -- The summaries of the page that the handler asks for, and the reports that it then asks for.
  abbrev pub page : SummaryArgs → ℕ → ℕ → List (ℕ × Summary)
  page a limit offset =
      let (condition, params) = build_report_filter_sql lower a in
      db.summaries (summaries_sql condition)
        (params ++ ("limit", int limit) ∷ ("offset", int offset) ∷ [])

  abbrev pub linked : List (ℕ × Summary) → List (ℕ × SecReportRow)
  linked summaries =
      db.sec_reports sec_reports_sql
        (("summary_ids", ids (map (λ (s : ℕ × Summary). s.0) summaries)) ∷ [])

  with_reports_join :
      (summaries : List (ℕ × Summary))
      → with_reports lower db summaries
        ≡ map (λ s. (s, reports_of s.0 (linked summaries))) summaries
  unfolding get
  with_reports_join [] = refl
  with_reports_join (first ∷ rest) =
      let summary_ids = map (λ (s : ℕ × Summary). s.0) (first ∷ rest) in
      let rows = linked (first ∷ rest) in
      map-cong _ _ (first ∷ rest) λ s.
        ap (λ l. (s, l))
          (get-group_loop s.0 rows (empty_groups summary_ids [])
            ∙ ap (λ l. l ++ reports_of s.0 rows) (get-empty_groups s.0 summary_ids [] refl))

  -- The answer is the join of the two queries: the summaries of the page in their order, each with
  -- exactly the selected reports that name it, in the order in which they were selected.
  pub get_report_summaries-join :
      (a : SummaryArgs) (limit offset : ℕ)
      → get_report_summaries lower db a limit offset
        ≡ map (λ s. (s, reports_of s.0 (linked (page a limit offset)))) (page a limit offset)
  unfolding get_report_summaries
  get_report_summaries-join a limit offset = with_reports_join (page a limit offset)
