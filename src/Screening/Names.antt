-- ===== src/Screening/Names.antt =====
-- The SQL texts of app/routers/fcf_screening.py bind the names of their parameters.
use Prim.Native.String.{◌++◌ as append}
use ssh_reports_hub_fast_api.Prelude.{
  ℕ, ◌≡◌, refl, ap, ◌∙◌, arith, Bool, true, String, Option, none, some, List, [], ◌∷◌, ◌++◌, map,
  any, any-append, str_eq, Bool-cases, inl, inr, All,
}
use ssh_reports_hub_fast_api.Text.Codes.{Codes, codes, codes_eq}
use ssh_reports_hub_fast_api.Binds.{
  binds, has_bind, binds_all, codes-append, binds-append, binds-join, names_of, names_of-append,
  IsBound, IsBound-none, IsBound-clause, IsBound-extend,
}
use ssh_reports_hub_fast_api.Screening.{
  Value, int, sort_columns, get, order_sql, where_sql, given_text, given_real, FcfArgs, fcf_filter,
  build_fcf_query, fcf_columns, count_sql, data_sql,
}

-- The second parts of the entries of a table.
abbrev pub values : List (String × String) → List String
values = map (λ (entry : String × String). entry.1)

abbrev pub among : String → List String → Bool
among s = any (str_eq s)

get-All :
    (P : String → Type 0) (key default : String) (table : List (String × String))
    → P default
    → All P (values table)
    → P (get key default table)
unfolding get
get-All P key default [] h k = h
get-All P key default ((other, value) ∷ rest) h k = elim (Bool-cases (str_eq other key)) [
  | inl e ↦ rw e k.0
  | inr e ↦ rw e (get-All P key default rest h k.1)
]

order_sql-among : (sort_by : String) → among (order_sql sort_by) (values sort_columns) ≡ true
unfolding order_sql sort_columns
order_sql-among sort_by =
    get-All (λ s. among s (values sort_columns) ≡ true) sort_by "fcf_yield DESC NULLS LAST"
      sort_columns refl (refl, (refl, (refl, (refl, (refl, tt)))))

order_sql-binds : (sort_by : String) → binds (order_sql sort_by) ≡ []
unfolding order_sql sort_columns binds
order_sql-binds sort_by =
    get-All (λ s. binds s ≡ []) sort_by "fcf_yield DESC NULLS LAST" sort_columns refl
      (refl, (refl, (refl, (refl, (refl, tt)))))

where_sql-binds : (clauses : List String) → binds (where_sql clauses) ≡ binds_all clauses
unfolding where_sql binds
where_sql-binds [] = refl
where_sql-binds (clause ∷ rest) = binds-join " AND " (clause ∷ rest) refl refl refl

abbrev page_end : String
page_end = " LIMIT :limit OFFSET :offset"

page_end-binds : binds page_end ≡ codes "limit" ∷ codes "offset" ∷ []
unfolding binds
page_end-binds = refl

order_end-binds :
    (order : String)
    → binds order ≡ []
    → binds (append " ORDER BY " (append order page_end)) ≡ codes "limit" ∷ codes "offset" ∷ []
unfolding binds
order_end-binds order h =
    binds-append " ORDER BY " (append order page_end) refl
    ∙ (binds-append order page_end (ground arith)
        ∙ (ap (λ l. l ++ binds page_end) h ∙ page_end-binds))

data_sql-binds :
    (condition order : String)
    → binds order ≡ []
    → binds (data_sql condition order) ≡ binds condition ++ (codes "limit" ∷ codes "offset" ∷ [])
unfolding data_sql binds
data_sql-binds condition order h =
    binds-append fcf_columns (append condition (append " ORDER BY " (append order page_end))) refl
    ∙ (binds-append condition (append " ORDER BY " (append order page_end))
          (ground (arith, codes-append " ORDER BY " (append order page_end)))
        ∙ ap (λ l. binds condition ++ l) (order_end-binds order h))

count_sql-binds : (condition : String) → binds (count_sql condition) ≡ binds condition
unfolding count_sql binds
count_sql-binds condition =
    binds-append "SELECT COUNT(*) FROM mv_fcf_screening WHERE " condition refl

module _ {Float : Type 0} where
  given_text-IsBound :
      (condition name : String) (value : Option String)
      → ((c : Codes) → has_bind c (binds condition) ≡ codes_eq (codes name) c)
      → IsBound (given_text {Float = Float} condition name value)
  unfolding given_text
  given_text-IsBound condition name none h = IsBound-none
  given_text-IsBound condition name (some value) h = elim (Bool-cases (str_eq value "")) [
    | inl e ↦ rw e IsBound-none
    | inr e ↦ rw e (IsBound-clause condition name (Value.text value) h)
  ]

  given_real-IsBound :
      (condition name : String) (value : Option Float)
      → ((c : Codes) → has_bind c (binds condition) ≡ codes_eq (codes name) c)
      → IsBound (given_real condition name value)
  unfolding given_real
  given_real-IsBound condition name none h = IsBound-none
  given_real-IsBound condition name (some value) h =
      IsBound-clause condition name (Value.real value) h

  fcf_filter-IsBound : (a : FcfArgs Float) → IsBound (fcf_filter a)
  unfolding fcf_filter binds
  fcf_filter-IsBound a =
      IsBound-extend _ _
        (given_text-IsBound "stock_code = :stock_code" "stock_code" a.stock_code
          (λ c. ground arith))
        (IsBound-extend _ _
          (given_text-IsBound "sector = :sector" "sector" a.sector (λ c. ground arith))
          (IsBound-extend _ _
            (given_text-IsBound "market = :market" "market" a.market (λ c. ground arith))
            (IsBound-extend _ _
              (given_real-IsBound "fcf_yield >= :min_fcf_yield" "min_fcf_yield" a.min_fcf_yield
                (λ c. ground arith))
              (given_real-IsBound "p_fcf <= :max_p_fcf AND p_fcf IS NOT NULL" "max_p_fcf"
                a.max_p_fcf (λ c. ground arith)))))

  -- Whatever the arguments, a name stands in the text of the page query exactly if it has a parameter,
  -- a name stands in the text of the count exactly if it has one, and the order is one of the listed
  -- ones.
  pub build_fcf_query_bound :
      (a : FcfArgs Float) (sort_by : String) (limit offset : ℕ)
      → let (condition, order, params) = build_fcf_query a sort_by in
        ((c : Codes)
          → has_bind c (binds (data_sql condition order))
            ≡ has_bind c (names_of (params ++ ("limit", int limit) ∷ ("offset", int offset) ∷ [])))
        × ((c : Codes) → has_bind c (binds (count_sql condition)) ≡ has_bind c (names_of params))
        × (among order (values sort_columns) ≡ true)
  unfolding build_fcf_query
  build_fcf_query_bound a sort_by limit offset =
      let f = fcf_filter a in
      let filtered = where_sql-binds f.where_clauses in
      let more : List (String × Value Float) = ("limit", int limit) ∷ ("offset", int offset) ∷ [] in
      (
        λ c.
            ap (has_bind c) (
              data_sql-binds (where_sql f.where_clauses) (order_sql sort_by)
                (order_sql-binds sort_by))
            ∙ ground (
              arith,
              ap (has_bind c) filtered,
              ap (has_bind c) (names_of-append f.params more),
              any-append (λ other. codes_eq other c) (binds (where_sql f.where_clauses))
                  (names_of more),
              any-append (λ other. codes_eq other c) (names_of f.params) (names_of more),
              (fcf_filter-IsBound a).bound c,
            ),
        λ c.
            ap (has_bind c) (count_sql-binds (where_sql f.where_clauses) ∙ filtered)
            ∙ (fcf_filter-IsBound a).bound c,
        order_sql-among sort_by,
      )
