-- ===== src/Summaries/Names.antt =====
-- The SQL texts of app/routers/fnguide_reports.py bind the names of their parameters.
use mathlib.Core.List.{append-nil}
use Prim.Native.String.{◌++◌ as append}
use ssh_reports_hub_fast_api.Prelude.{
  ℕ, ◌≡◌, refl, sym, ap, ◌∙◌, arith, String, Option, none, some, List, [], ◌∷◌, ◌++◌, any-append,
  str_eq, eq_iff, Bool-cases, inl, inr,
}
use ssh_reports_hub_fast_api.Text.{join}
use ssh_reports_hub_fast_api.Text.Codes.{Codes, codes, codes_eq}
use ssh_reports_hub_fast_api.Binds.{
  binds, has_bind, binds_all, binds-append, binds-join, names_of, names_of-append, IsBound,
  IsBound-none, IsBound-clause, IsBound-extend,
}
use ssh_reports_hub_fast_api.Summaries.{
  Value, text, int, SummaryArgs, given, q_clause, where_sql, report_filter, build_report_filter_sql,
  summaries_sql, date_filter_sql, dates_sql,
}

given-IsBound :
    (condition name : String) (change : String → String) (value : Option String)
    → ((c : Codes) → has_bind c (binds condition) ≡ codes_eq (codes name) c)
    → IsBound (given condition name change value)
unfolding given
given-IsBound condition name change none h = IsBound-none
given-IsBound condition name change (some value) h = elim (Bool-cases (str_eq value "")) [
  | inl e ↦ rw e IsBound-none
  | inr e ↦ rw e (IsBound-clause condition name (text (change value)) h)
]

report_filter-IsBound :
    (lower : String → String) (a : SummaryArgs) → IsBound (report_filter lower a)
unfolding report_filter binds
report_filter-IsBound lower a =
    IsBound-extend _ _ (given-IsBound q_clause "q" _ a.q (λ c. ground arith)) (
      IsBound-extend _ _
        (given-IsBound "lower(coalesce(provider, '')) LIKE :provider" "provider" _ a.provider
          (λ c. ground arith))
        (IsBound-extend _ _
          (given-IsBound "lower(coalesce(author, '')) LIKE :author" "author" _ a.author
            (λ c. ground arith))
          (given-IsBound "report_date = :report_date" "report_date" _ a.report_date
            (λ c. ground arith))))

where_sql-binds : (clauses : List String) → binds (where_sql clauses) ≡ binds_all clauses
unfolding where_sql binds
where_sql-binds [] = refl
where_sql-binds (clause ∷ rest) =
    binds-append "WHERE " (join " AND " (clause ∷ rest)) refl
    ∙ binds-join " AND " (clause ∷ rest) refl refl refl

summaries_sql-binds :
    (condition : String)
    → binds (summaries_sql condition) ≡ binds condition ++ (codes "limit" ∷ codes "offset" ∷ [])
unfolding summaries_sql binds
summaries_sql-binds condition =
    binds-append _
      (append condition " ORDER BY report_date DESC, summary_id DESC LIMIT :limit OFFSET :offset")
      refl
    ∙ binds-append condition
        " ORDER BY report_date DESC, summary_id DESC LIMIT :limit OFFSET :offset" (ground arith)

date_filter_sql-binds : (condition : String) → binds (date_filter_sql condition) ≡ binds condition
unfolding date_filter_sql binds
date_filter_sql-binds condition = elim (Bool-cases (str_eq condition "")) [
  | inl e ↦ rw e (ap binds (sym ((eq_iff condition "").0 e)))
  | inr e ↦ rw e (
      binds-append condition " AND report_date != ''" (ground arith) ∙ append-nil (binds condition))
]

dates_sql-binds : (condition : String) → binds (dates_sql condition) ≡ binds condition
unfolding dates_sql binds
dates_sql-binds condition =
    binds-append _
      (append (date_filter_sql condition) " GROUP BY report_date ORDER BY report_date DESC") refl
    ∙ (binds-append (date_filter_sql condition) " GROUP BY report_date ORDER BY report_date DESC"
          (ground arith)
        ∙ (append-nil (binds (date_filter_sql condition)) ∙ date_filter_sql-binds condition))

-- Whatever the arguments, a name stands in the text of the summary query, or of the query of the dates,
-- exactly if it has a parameter.
pub build_report_filter_sql_bound :
    (lower : String → String) (a : SummaryArgs) (limit offset : ℕ)
    → let (condition, params) = build_report_filter_sql lower a in
      ((c : Codes)
        → has_bind c (binds (summaries_sql condition))
          ≡ has_bind c (names_of (params ++ ("limit", int limit) ∷ ("offset", int offset) ∷ [])))
      × ((c : Codes) → has_bind c (binds (dates_sql condition)) ≡ has_bind c (names_of params))
unfolding build_report_filter_sql
build_report_filter_sql_bound lower a limit offset =
    let f = report_filter lower a in
    let filtered = where_sql-binds f.where_clauses in
    let more : List (String × Value) = ("limit", int limit) ∷ ("offset", int offset) ∷ [] in
    (
      λ c.
          ap (has_bind c) (summaries_sql-binds (where_sql f.where_clauses))
          ∙ ground (
            arith,
            ap (has_bind c) filtered,
            ap (has_bind c) (names_of-append f.params more),
            any-append (λ other. codes_eq other c) (binds (where_sql f.where_clauses))
                (names_of more),
            any-append (λ other. codes_eq other c) (names_of f.params) (names_of more),
            (report_filter-IsBound lower a).bound c,
          ),
      λ c.
          ap (has_bind c) (dates_sql-binds (where_sql f.where_clauses) ∙ filtered)
          ∙ (report_filter-IsBound lower a).bound c,
    )
