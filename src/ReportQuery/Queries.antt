-- ===== src/ReportQuery/Queries.antt =====
-- Every query of app/services/report_query.py has as many placeholders as parameters, whatever the
-- arguments are.
use ssh_reports_hub_fast_api.Prelude.{
  ℕ, ◌≡◌, refl, Bool, true, false, String, Option, none, some, List,
}
use ssh_reports_hub_fast_api.ReportQuery.{
  WhereArgs, build_where_clauses, postgres_clauses, year_filter, build_outlook_clauses,
}
use ssh_reports_hub_fast_api.ReportQuery.Marks.{
  marks_from, percents, open_after, AllMarked, IsTemplate, templates,
}
use ssh_reports_hub_fast_api.ReportQuery.Balance.{
  IsBalanced, IsBalanced-none, IsBalanced-extend, IsBalanced-like, IsBalanced-id, one_clause,
  template, postgres-IsTemplate, literals, title_filter-IsBalanced, market_filter-IsBalanced,
  like_mark-IsTemplate,
}

-- The clauses of `build_where_clauses` have one placeholder for each parameter, in whatever
-- combination the arguments are given.
pub build_where_clauses-IsBalanced :
    (a : WhereArgs) (pg : Bool) → IsBalanced (IsTemplate pg) (build_where_clauses a pg)
unfolding build_where_clauses literals
build_where_clauses-IsBalanced a pg =
    let laws = templates pg in
    let (writer, tags, sector, stock, _) = like_mark-IsTemplate pg in
    IsBalanced-extend laws _ _ (IsBalanced-like laws _ _ _ a.writer writer) (
      IsBalanced-extend laws _ _ (title_filter-IsBalanced pg a.title) (
        IsBalanced-extend laws _ _ (market_filter-IsBalanced pg a.mkt_tp) (
          IsBalanced-extend laws _ _
            (IsBalanced-id laws _ a.company (template pg _ 1 (refl, refl, refl) refl))
            (IsBalanced-extend laws _ _
              (IsBalanced-id laws _ a.board (template pg _ 1 (refl, refl, refl) refl))
              (IsBalanced-extend laws _ _ (IsBalanced-like laws _ _ _ a.tag tags) (
                IsBalanced-extend laws _ _ (IsBalanced-like laws _ _ _ a.sector sector)
                  (IsBalanced-like laws _ _ _ a.stock stock)))))))

year_filter-IsBalanced :
    (pg : Bool) (year : Option ℕ) → IsBalanced (IsTemplate pg) (year_filter pg year)
unfolding year_filter
year_filter-IsBalanced pg none = IsBalanced-none (templates pg)
year_filter-IsBalanced pg (some ℕ.zero) = IsBalanced-none (templates pg)
year_filter-IsBalanced pg (some (ℕ.suc n)) = one_clause _ _ _ (like_mark-IsTemplate pg).4

pub postgres_part :
    (pg : Bool) (cs : List String)
    → AllMarked (IsTemplate true) cs 0
    → IsBalanced (IsTemplate pg) (postgres_clauses pg cs)
unfolding postgres_clauses
postgres_part true cs h = record { balance = h }
postgres_part false cs h = IsBalanced-none (templates false)

pub plain_text :
    (s : String)
    → marks_from false s ≡ 0
    → percents s ≡ 0
    → open_after false s ≡ false
    → IsTemplate true s 0
plain_text s a b c = postgres-IsTemplate s 0 (a, b, c)

-- So do those of `build_outlook_clauses`.
pub build_outlook_clauses-IsBalanced :
    (year : Option ℕ) (pg : Bool) → IsBalanced (IsTemplate pg) (build_outlook_clauses year pg)
unfolding build_outlook_clauses literals
build_outlook_clauses-IsBalanced year pg =
    let laws = templates pg in
    IsBalanced-extend laws _ _ (one_clause _ _ _ (like_mark-IsTemplate pg).4) (
      IsBalanced-extend laws _ _
        (postgres_part pg _ (
          0,
          0,
          plain_text _ refl refl refl,
          (
            0,
            0,
            plain_text _ refl refl refl,
            (
              0,
              0,
              plain_text _ refl refl refl,
              (
                0,
                0,
                plain_text _ refl refl refl,
                (0, 0, plain_text _ refl refl refl, refl, refl),
                refl,
              ),
              refl,
            ),
            refl,
          ),
          refl,
        ))
        (year_filter-IsBalanced pg year))
