-- ===== src/Screening/Conditions.antt =====
-- The conditions that a request to app/routers/fcf_screening.py asks for, as a list.
use mathlib.Core.List.{map-append}
use ssh_reports_hub_fast_api.Prelude.{
  ◌≡◌, refl, sym, String, Option, none, some, List, [], ◌∷◌, ◌++◌, map, str_eq, if◌then◌else◌,
  Bool-cases, inl, inr,
}
use ssh_reports_hub_fast_api.Text.{join}
use ssh_reports_hub_fast_api.Binds.{NamedFilter, ◌<+>◌}
use ssh_reports_hub_fast_api.Screening.{
  Value, text, real, FcfArgs, given_text, given_real, fcf_filter, where_sql, order_sql,
  build_fcf_query,
}

-- A condition with the name and the value of its parameter.
abbrev pub Condition : Type 0 → Type 0
Condition Float = String × String × Value Float

module _ {Float : Type 0} where
  abbrev pub text_condition : String → String → Option String → List (Condition Float)
  text_condition condition name none = []
  text_condition condition name (some value) =
      if str_eq value "" then [] else (condition, name, text value) ∷ []

  abbrev pub real_condition : String → String → Option Float → List (Condition Float)
  real_condition condition name none = []
  real_condition condition name (some value) = (condition, name, real value) ∷ []

  -- What a request asks for: the code, the sector and the market where they are given and not empty, and
  -- the two bounds where they are given.
  abbrev pub conditions : FcfArgs Float → List (Condition Float)
  conditions a =
      text_condition "stock_code = :stock_code" "stock_code" a.stock_code
      ++ (text_condition "sector = :sector" "sector" a.sector
          ++ (text_condition "market = :market" "market" a.market
              ++ (real_condition "fcf_yield >= :min_fcf_yield" "min_fcf_yield" a.min_fcf_yield
                  ++ real_condition "p_fcf <= :max_p_fcf AND p_fcf IS NOT NULL" "max_p_fcf"
                      a.max_p_fcf)))

  abbrev pub text_of : Condition Float → String
  text_of c = c.0

  abbrev pub param_of : Condition Float → String × Value Float
  param_of c = (c.1, c.2)

  -- All of the conditions; every row meets "1=1".
  abbrev pub all_of : List (Condition Float) → String
  all_of [] = "1=1"
  all_of (c ∷ cs) = join " AND " (map text_of (c ∷ cs))

  -- A filter that asks for a list of conditions.
  record Asks (f : NamedFilter (Value Float)) (cs : List (Condition Float)) : Type 0 where
    texts : f.where_clauses ≡ map text_of cs
    values : f.params ≡ map param_of cs

  Asks-text :
      (condition name : String) (o : Option String)
      → Asks (given_text condition name o) (text_condition condition name o)
  unfolding given_text
  Asks-text condition name none = record { texts = refl; values = refl }
  Asks-text condition name (some value) = elim (Bool-cases (str_eq value "")) [
    | inl e ↦ rw e (record { texts = refl; values = refl })
    | inr e ↦ rw e (record { texts = refl; values = refl })
  ]

  Asks-real :
      (condition name : String) (o : Option Float)
      → Asks (given_real condition name o) (real_condition condition name o)
  unfolding given_real
  Asks-real condition name none = record { texts = refl; values = refl }
  Asks-real condition name (some value) = record { texts = refl; values = refl }

  Asks-append :
      (f g : NamedFilter (Value Float)) (cs ds : List (Condition Float))
      → Asks f cs
      → Asks g ds
      → Asks (f <+> g) (cs ++ ds)
  Asks-append f g cs ds h k = record {
    texts = rw (h.texts, k.texts) (sym (map-append text_of cs ds));
    values = rw (h.values, k.values) (sym (map-append param_of cs ds));
  }

  fcf_filter-Asks : (a : FcfArgs Float) → Asks (fcf_filter a) (conditions a)
  unfolding fcf_filter
  fcf_filter-Asks a =
      let code = Asks-text "stock_code = :stock_code" "stock_code" a.stock_code in
      let sector = Asks-text "sector = :sector" "sector" a.sector in
      let market = Asks-text "market = :market" "market" a.market in
      let bounds =
        Asks-append _ _ _ _
          (Asks-real "fcf_yield >= :min_fcf_yield" "min_fcf_yield" a.min_fcf_yield)
          (Asks-real "p_fcf <= :max_p_fcf AND p_fcf IS NOT NULL" "max_p_fcf" a.max_p_fcf) in
      Asks-append _ _ _ _ code (Asks-append _ _ _ _ sector (Asks-append _ _ _ _ market bounds))

  where_sql-all_of :
      (cs : List (Condition Float)) (f : NamedFilter (Value Float))
      → Asks f cs
      → where_sql f.where_clauses ≡ all_of cs
  unfolding where_sql
  where_sql-all_of [] f h = rw h.texts refl
  where_sql-all_of (c ∷ cs) f h = rw h.texts refl

  -- The text and the parameters that the handler builds.
  pub build_fcf_query-conditions :
      (a : FcfArgs Float) (sort_by : String)
      → build_fcf_query a sort_by
        ≡ (all_of (conditions a), order_sql sort_by, map param_of (conditions a))
  unfolding build_fcf_query
  build_fcf_query-conditions a sort_by =
      let asks = fcf_filter-Asks a in
      rw (where_sql-all_of (conditions a) (fcf_filter a) asks, asks.values) refl
