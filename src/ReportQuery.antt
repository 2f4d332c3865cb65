-- ===== src/ReportQuery.antt =====
-- The SQL text that app/services/report_query.py builds, with its parameters. The lists that the
-- code appends to are built here from one part for each `if`.
pub mod Marks
pub mod Balance
pub mod Queries
use Prim.Native.String.{◌++◌ as append}
use ssh_reports_hub_fast_api.Prelude.{
  ℕ, ◌+◌, String, Bool, true, false, not, ◌&&◌, ◌||◌, Option, none, some, List, [], ◌∷◌, ◌++◌,
  str_eq, if◌then◌else◌,
}
use ssh_reports_hub_fast_api.Text.{join}
use ssh_reports_hub_fast_api.Text.Codes.{codes, lower, is_infix, words, unwords}
use ssh_reports_hub_fast_api.Text.Number.{str_of}

-- A value that is bound to a placeholder.
pub data Param : Type 0 where
  str : String → Param
  int : ℕ → Param

-- The two lists `clauses` and `params`.
pub record Filter : Type 0 where
  pub clauses : List String
  pub params : List Param

abbrev pub no_filter : Filter
no_filter = record { clauses = []; params = [] }

-- `extend` of both lists.
infixr 60 ◌<+>◌
unfoldable pub ◌<+>◌ : Filter → Filter → Filter
f <+> g = record { clauses = f.clauses ++ g.clauses; params = f.params ++ g.params }

-- One clause with its parameters.
abbrev pub clause : String → List Param → Filter
clause text ps = record { clauses = text ∷ []; params = ps }

-- `if value:` of an optional text: `None` and the empty text are false.
unfoldable pub like_filter : String → String → String → Option String → Filter
like_filter text before after none = no_filter
like_filter text before after (some value) =
    if str_eq value ""
    then no_filter
    else clause text (str (append before (append value after)) ∷ [])

-- `if value is not None:` of an optional number.
unfoldable pub id_filter : String → Option ℕ → Filter
id_filter text none = no_filter
id_filter text (some n) = clause text (int n ∷ [])

unfoldable pub flag_filter : Bool → String → Filter
flag_filter true text = clause text []
flag_filter false text = no_filter

-- `"WHERE " + " AND ".join(clauses) if clauses else ""`
unfoldable pub where_text : List String → String
unfolding join
where_text [] = ""
where_text (c ∷ cs) = append "WHERE " (join " AND " (c ∷ cs))

abbrev pub is_true : Option Bool → Bool
is_true (some true) = true
is_true _ = false

abbrev pub like_op : Bool → String
like_op true = "ILIKE"
like_op false = "LIKE"

abbrev pub placeholder : Bool → String
placeholder true = "%s"
placeholder false = "?"

-- The arguments of `build_report_list_query` that filter.
pub record ListArgs : Type 0 where
  pub q : Option String
  pub writer : Option String
  pub company : Option ℕ
  pub board : Option ℕ
  pub has_summary : Option Bool
  pub tag : Option String
  pub sector : Option String
  pub stock : Option String

-- `f"r.{column} {like_op} {placeholder}"`
abbrev pub like_text : String → Bool → String
like_text column is_postgres = append "r." (
    append column
      (append " " (append (like_op is_postgres) (append " " (placeholder is_postgres)))))

abbrev pub eq_text : String → Bool → String
eq_text column is_postgres = append "r." (append column (append " = " (placeholder is_postgres)))

unfoldable pub list_filter : ListArgs → Bool → Filter
list_filter a pg =
    like_filter (like_text "article_title" pg) "%" "%" a.q
    <+> like_filter (like_text "writer" pg) "%" "%" a.writer
    <+> id_filter (eq_text "firm_id" pg) a.company
    <+> id_filter (eq_text "board_id" pg) a.board
    <+> flag_filter (is_true a.has_summary)
        "r.gemini_summary IS NOT NULL AND r.gemini_summary NOT IN ('',' ')"
    <+> like_filter (like_text "tags" pg) "%\"" "\"%" a.tag
    <+> like_filter (like_text "sector" pg) "%" "%" a.sector
    <+> like_filter (like_text "stock_names" pg) "%\"" "\"%" a.stock

unfoldable pub build_report_list_query : ListArgs → ℕ → ℕ → Bool → String × List Param
build_report_list_query a limit offset pg =
    let f = list_filter a pg in
    (
      append "SELECT * FROM " (
          append (if pg then "v_reports_api" else "tbl_sec_reports") (
            append " r " (
              append (where_text f.clauses) (
                append " ORDER BY r.report_date DESC, r.report_id DESC LIMIT "
                  (append (placeholder pg) (append " OFFSET " (placeholder pg))))))),
      f.params ++ int limit ∷ int offset ∷ [],
    )

unfoldable pub base_select_sql : Bool → String
base_select_sql true = "\n    SELECT * FROM v_reports_api r\n"
base_select_sql false = "SELECT * FROM tbl_sec_reports r"

-- The arguments of `build_where_clauses`.
pub record WhereArgs : Type 0 where
  pub writer : Option String
  pub title : Option String
  pub mkt_tp : Option String
  pub company : Option ℕ
  pub board : Option ℕ
  pub tag : Option String
  pub sector : Option String
  pub stock : Option String

-- The test for a search for top picks among foreign stocks.
unfoldable pub is_top_pick : String → Bool
is_top_pick title =
    let normalized_title = unwords (words (lower (codes title))) in
    is_infix (codes "해외주식") normalized_title
    && (is_infix (codes "탑픽") normalized_title || is_infix (codes "top pick") normalized_title)

unfoldable pub title_filter : Bool → Option String → Filter
title_filter pg none = no_filter
title_filter pg (some title) =
    if str_eq title ""
    then no_filter
    else (if is_top_pick title
        then clause
            (append "(r.article_title "
              (append (like_op pg) (append " %s OR r.article_title " (append (like_op pg) " %s)"))))
            (str "%해외주식%탑픽%" ∷ str "%해외주식%Top Pick%" ∷ [])
        else clause (append "r.article_title " (append (like_op pg) " %s"))
            (str (append "%" (append title "%")) ∷ []))

unfoldable pub market_filter : Option String → Filter
market_filter none = no_filter
market_filter (some mkt_tp) =
    if str_eq mkt_tp "global"
    then clause "r.mkt_tp != 'KR'" []
    else (if str_eq mkt_tp "domestic" then clause "r.mkt_tp = 'KR'" [] else no_filter)

-- `f"r.{column} {like_op} %s"`
abbrev pub like_mark : String → Bool → String
like_mark column pg = append "r." (append column (append " " (append (like_op pg) " %s")))

unfoldable pub build_where_clauses : WhereArgs → Bool → Filter
build_where_clauses a pg =
    like_filter (like_mark "writer" pg) "%" "%" a.writer
    <+> title_filter pg a.title
    <+> market_filter a.mkt_tp
    <+> id_filter "r.firm_id = %s" a.company
    <+> id_filter "r.board_id = %s" a.board
    <+> like_filter (like_mark "tags" pg) "%\"" "\"%" a.tag
    <+> like_filter (like_mark "sector" pg) "%" "%" a.sector
    <+> like_filter (like_mark "stock_names" pg) "%\"" "\"%" a.stock

unfoldable pub postgres_clauses : Bool → List String → Filter
postgres_clauses true cs = record { clauses = cs; params = [] }
postgres_clauses false cs = no_filter

-- `if outlook_year:` — zero is false too.
unfoldable pub year_filter : Bool → Option ℕ → Filter
year_filter pg none = no_filter
year_filter pg (some ℕ.zero) = no_filter
year_filter pg (some (ℕ.suc n)) =
    clause (like_mark "article_title" pg) (str (append "%" (append (str_of (ℕ.suc n)) "년%")) ∷ [])

unfoldable pub build_outlook_clauses : Option ℕ → Bool → Filter
build_outlook_clauses outlook_year pg =
    clause (like_mark "article_title" pg) (str "%전망%" ∷ [])
    <+> postgres_clauses pg (
        "r.article_title ~* '하반기|상반기|연간|[0-9]{4}년|[0-9]H[0-9]{2}|전망포럼|(경제|금융시장|주식시장|시장)[[:space:]]*전망|(업종|산업)[[:space:]]*전망'"
        ∷ "r.article_title !~* '\\([0-9]{5,6}'" ∷ "r.article_title !~* '\\[[0-9]{5,6}/'"
        ∷ "r.article_title !~* '\\[[^\\]]+/(매수|매도|중립|시장수익률|Buy|Hold|Sell|Neutral|Outperform|Underperform|Not[[:space:]]*Rated|Trading[[:space:]]*Buy)'"
        ∷ "r.article_title !~* '목표주가'" ∷ [])
    <+> year_filter pg outlook_year
