-- ===== src/Screening/Pages.antt =====
-- The pages of `list_fcf_screening` in app/routers/fcf_screening.py.
use Prim.Native.Nat.{min}
use Prim.Native.String.{◌++◌ as append}
use ssh_reports_hub_fast_api.Prelude.{
  ℕ, ◌-◌, ◌≡◌, ap, ◌∙◌, arith, Bool, String, List, [], ◌∷◌, ◌++◌, map, length, length-map, take,
  drop, length-take, length-drop,
}
use ssh_reports_hub_fast_api.Screening.{
  ScreeningRow, Database, Value, int, FcfArgs, order_sql, count_sql, data_sql, fcf_screening_item,
  list_fcf_screening,
}
use ssh_reports_hub_fast_api.Screening.Conditions.{
  conditions, all_of, param_of, build_fcf_query-conditions,
}

-- The texts of the two statements.
abbrev pub counting : String → String
counting condition = append "SELECT COUNT(*) FROM mv_fcf_screening WHERE " condition

abbrev pub selecting : String → String → String
selecting condition order =
    append
      "SELECT stock_code, stock_name, market, sector, mktcap_date, market_cap, current_price, corp_name, report_year, report_code, report_type, operating_cash_flow, capex_tangible, capex_intangible, capex, fcf, p_fcf, fcf_yield, total_debt, cash_equivalents, ev, ev_fcf FROM mv_fcf_screening WHERE "
      (append condition (append " ORDER BY " (append order " LIMIT :limit OFFSET :offset")))

-- What SQL does with such statements, for any condition, order and parameters: `matching` gives the rows
-- of the view that meet a condition, and `ordered` puts rows into an order.
pub record IsSql {Number Float : Type 0} (db : Database Number Float)
    (matching : String → List (String × Value Float) → List (ScreeningRow Number))
    (ordered : String → List (ScreeningRow Number) → List (ScreeningRow Number)) : Type 0 where
  pub counts :
      (condition : String) (params : List (String × Value Float))
      → db.scalar (counting condition) params ≡ length (matching condition params)
  pub selects :
      (condition order : String) (params : List (String × Value Float)) (limit offset : ℕ)
      → db.fetch
          (selecting condition order)
          (params ++ ("limit", int limit) ∷ ("offset", int offset) ∷ [])
        ≡ take limit (drop offset (ordered order (matching condition params)))
  pub keeps :
      (order : String) (rows : List (ScreeningRow Number))
      → length (ordered order rows) ≡ length rows

module _ {Number Float : Type 0} (is_zero : Number → Bool) (float : Number → Float)
    (db : Database Number Float)
    (matching : String → List (String × Value Float) → List (ScreeningRow Number))
    (ordered : String → List (ScreeningRow Number) → List (ScreeningRow Number)) where
  -- On a database that counts, selects and orders as SQL does, the answer is about the rows of the view
  -- that meet all the conditions that the request asks for, and no others: its items are the window of
  -- them that the limit and the offset name, in the order that was asked for, its total counts all of
  -- them, and it has as many items as the limit allows and the total leaves after the offset.
  pub list_fcf_screening-page :
      (a : FcfArgs Float) (sort_by : String) (limit offset : ℕ)
      → IsSql db matching ordered
      → let answer = list_fcf_screening is_zero float db a sort_by limit offset in
        let rows = matching (all_of (conditions a)) (map param_of (conditions a)) in
        (answer.items
          ≡ map
              (fcf_screening_item is_zero float)
              (take limit (drop offset (ordered (order_sql sort_by) rows))))
        × (answer.total ≡ length rows)
        × (length answer.items ≡ min limit (answer.total - offset))
  unfolding list_fcf_screening count_sql data_sql
  list_fcf_screening-page a sort_by limit offset sql =
      let item = fcf_screening_item is_zero float in
      let cs = conditions a in
      let condition = all_of cs in
      let params = map param_of cs in
      let order = order_sql sort_by in
      let rows = ordered order (matching condition params) in
      let selected = sql.selects condition order params limit offset in
      let counted = sql.counts condition params in
      rw (build_fcf_query-conditions a sort_by) (
        ap (map item) selected,
        counted,
        ap (λ l. length (map item l)) selected
            ∙ omega (
              arith,
              counted,
              sql.keeps order (matching condition params),
              length-map item (take limit (drop offset rows)),
              length-take limit (drop offset rows),
              length-drop offset rows,
            ),
      )
