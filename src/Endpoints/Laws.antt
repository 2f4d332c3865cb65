-- ===== src/Endpoints/Laws.antt =====
-- The list endpoints of app/routers/external_api.py: their statements fit their parameters, and
-- their pages are windows of one list.
use Prim.Native.String.{[], ◌∷◌, ◌++◌ as append}
use mathlib.Core.List.{[], ◌∷◌, ◌++◌}
use ssh_reports_hub_fast_api.Prelude.{
  ℕ, ◌+◌, ◌≡◌, refl, Bool, true, false, String, none, some, List, length, length-append, arith,
}
use ssh_reports_hub_fast_api.ReportQuery.Marks.{marks_from, questions}
use mathlib.Core.Path.{subst}
use ssh_reports_hub_fast_api.Prelude.{take, drop, ltb, ◌≤◌, length-take, length-drop}
use ssh_reports_hub_fast_api.ReportQuery.{Param, int, base_select_sql}
use ssh_reports_hub_fast_api.ReportQuery.Marks.{IsMarked, IsTemplate, templates, where_text_marked}
use ssh_reports_hub_fast_api.ReportQuery.Balance.{template, literals}
use ssh_reports_hub_fast_api.Endpoints.{
  replace_marks, statement, Database, sql_base, paginate_query, execute_raw_query,
}
use ssh_reports_hub_fast_api.Endpoints.Public.{order_by, date_order, recent_order}
use ssh_reports_hub_fast_api.Endpoints.Statements.{
  Request, request_filter, request_order, page_sql, page_params, page_mark,
}
use ssh_reports_hub_fast_api.Endpoints.Balance.{request_filter-IsBalanced}

questions-replace_marks :
    (s : String) → questions (replace_marks s) ≡ questions s + marks_from false s
unfolding questions replace_marks marks_from
questions-replace_marks [] = refl
questions-replace_marks (c ∷ []) = ground arith
questions-replace_marks (c ∷ (d ∷ s)) =
    ground (arith, questions-replace_marks s, questions-replace_marks (d ∷ s))

date_order-IsTemplate : (pg : Bool) → IsTemplate pg (date_order pg) 0
unfolding date_order literals
date_order-IsTemplate true = template _ _ _ (refl, refl, refl) refl
date_order-IsTemplate false = template _ _ _ (refl, refl, refl) refl

request_order-IsTemplate :
    (pg : Bool) (request : Request) → IsTemplate pg (request_order pg request) 0
unfolding request_order order_by recent_order literals
request_order-IsTemplate pg (Request.industry _ _) = template _ _ _ (refl, refl, refl) refl
request_order-IsTemplate pg (Request.global none a) = date_order-IsTemplate pg
request_order-IsTemplate pg (Request.global (some _) a) = template _ _ _ (refl, refl, refl) refl
request_order-IsTemplate pg (Request.outlook _ _) = date_order-IsTemplate pg
request_order-IsTemplate pg (Request.search none _ _ _ _) = date_order-IsTemplate pg
request_order-IsTemplate pg (Request.search (some _) _ _ _ _) =
    template _ _ _ (refl, refl, refl) refl
request_order-IsTemplate true (Request.recent _ _ _ _) = template _ _ _ (refl, refl, refl) refl
request_order-IsTemplate false (Request.recent _ _ _ _) = template _ _ _ (refl, refl, refl) refl

base_select_sql-IsTemplate : (pg : Bool) → IsTemplate pg (base_select_sql pg) 0
unfolding base_select_sql literals
base_select_sql-IsTemplate true = template _ _ _ (refl, refl, refl) refl
base_select_sql-IsTemplate false = template _ _ _ (refl, refl, refl) refl

space-IsTemplate : (pg : Bool) → IsTemplate pg " " 0
unfolding literals
space-IsTemplate pg = template pg _ _ (refl, refl, refl) refl

page_mark-IsTemplate : (pg : Bool) → IsTemplate pg page_mark 2
unfolding literals
page_mark-IsTemplate pg = template pg _ _ (refl, refl, refl) refl

page_sql-IsTemplate :
    (pg : Bool) (request : Request) (limit offset : ℕ)
    → IsTemplate pg (page_sql pg request) (length (page_params pg request limit offset))
unfolding page_sql page_params sql_base
page_sql-IsTemplate pg request limit offset =
    let laws = templates pg in
    let f = request_filter pg request in
    subst (IsTemplate pg (page_sql pg request))
      (omega (arith, length-append f.params (int (limit + 1) ∷ (int offset ∷ []))))
      (laws.append_rule _ _ _ 2
        (laws.append_rule _ _ 0 _ (base_select_sql-IsTemplate pg) (
          laws.append_rule _ _ 0 _ (space-IsTemplate pg) (
            laws.append_rule _ _ (length f.params) _
              (where_text_marked laws f.clauses (length f.params)
                (request_filter-IsBalanced pg request).balance)
              (laws.append_rule _ _ 0 0 (space-IsTemplate pg)
                (request_order-IsTemplate pg request)))))
        (page_mark-IsTemplate pg))

-- Whatever the arguments of the five list endpoints are, the text of the page query has exactly as
-- many placeholders `%s` as there are parameters, and no other percent sign.
pub page_sql-IsMarked :
    (pg : Bool) (request : Request) (limit offset : ℕ)
    → IsMarked (page_sql pg request) (length (page_params pg request limit offset))
page_sql-IsMarked pg request limit offset = (page_sql-IsTemplate pg request limit offset).marked

-- On SQLite the statement that is run has exactly as many `?` as there are parameters, whatever the
-- arguments of the five list endpoints are.
pub statement-page_sql :
    (request : Request) (limit offset : ℕ)
    → questions (statement false (page_sql false request))
      ≡ length (page_params false request limit offset)
unfolding statement
statement-page_sql request limit offset =
    let t = page_sql-IsTemplate false request limit offset in
    omega (
      arith,
      questions-replace_marks (page_sql false request),
      t.marked.marks,
      (t.plain refl).asked,
    )

take-take {ℓ} : {A : Type ℓ} (n m : ℕ) (xs : List A) → n ≤ m → take n (take m xs) ≡ take n xs
take-take ℕ.zero m xs h = refl
take-take (ℕ.suc n) ℕ.zero xs h = ground arith
take-take (ℕ.suc n) (ℕ.suc m) [] h = refl
take-take (ℕ.suc n) (ℕ.suc m) (x ∷ xs) h = ground (arith, take-take n m xs (omega (arith, h)))

-- The database answers a query that ends in `LIMIT n OFFSET m` with the rows of the query from the
-- m-th on, at most n of them.
abbrev pub IsWindowed : {Row : Type 0} → Database Row → String → List Param → Type 0
IsWindowed db sql params =
    (limit offset : ℕ)
    → db.fetch (statement db.is_postgres (append sql page_mark))
        (params ++ (int limit ∷ (int offset ∷ [])))
      ≡ take limit (drop offset (db.fetch (statement db.is_postgres sql) params))

-- Where the database answers `LIMIT n OFFSET m` with the rows of the query from the m-th on, at most
-- n of them, a page is the window of the unlimited result, and it is marked to have more exactly when
-- the result is longer than the end of the window.
pub paginate_query_lem :
    {Row : Type 0} (db : Database Row) (sql : String) (params : List Param)
    → IsWindowed db sql params
    → (limit offset : ℕ)
    → paginate_query db sql params limit offset ≡ (
        let rows = execute_raw_query db sql params in
        (take limit (drop offset rows), ltb (offset + limit) (length rows)))
unfolding paginate_query execute_raw_query
paginate_query_lem db sql params windows limit offset =
    let rows = db.fetch (statement db.is_postgres sql) params in
    ground (
      arith,
      windows (limit + 1) offset,
      take-take limit (limit + 1) (drop offset rows) (omega arith),
      length-take (limit + 1) (drop offset rows),
      length-drop offset rows,
    )
