-- ===== src/ReportQuery/Balance.antt =====
-- The parts of the queries of app/services/report_query.py have as many placeholders as parameters.
use mathlib.Core.Path.{subst}
use Prim.Native.String.{◌++◌ as append}
use ssh_reports_hub_fast_api.Prelude.{
  ℕ, ◌≡◌, refl, sym, Bool, true, false, String, Option, none, some, List, [], ◌∷◌, ◌++◌, length,
  length-append, arith, str_eq, Bool-cases, inl, inr,
}
use ssh_reports_hub_fast_api.ReportQuery.{
  Param, str, int, Filter, no_filter, ◌<+>◌, clause, like_filter, id_filter, flag_filter,
  title_filter, market_filter, like_mark, is_top_pick,
}
use ssh_reports_hub_fast_api.ReportQuery.Marks.{
  marks_from, percents, open_after, questions, Marking, AllMarked, IsTemplate, templates,
  AllMarked-append,
}

-- The clauses have one placeholder for each parameter.
pub record IsBalanced (P : String → ℕ → Type 0) (f : Filter) : Type 0 where
  pub balance : AllMarked P f.clauses (length f.params)

pub one_clause :
    (P : String → ℕ → Type 0) (text : String) (ps : List Param)
    → P text (length ps)
    → IsBalanced P (clause text ps)
one_clause P text ps h = record { balance = (length ps, 0, h, refl, omega arith) }

module _ {P : String → ℕ → Type 0} (laws : Marking P) where
  pub IsBalanced-none : IsBalanced P no_filter
  IsBalanced-none = record { balance = refl }

  pub IsBalanced-extend : (f g : Filter) → IsBalanced P f → IsBalanced P g → IsBalanced P (f <+> g)
  unfolding ◌<+>◌
  IsBalanced-extend f g h k = record {
    balance = subst (AllMarked P (f.clauses ++ g.clauses)) (sym (length-append f.params g.params)) (
        AllMarked-append laws f.clauses g.clauses (length f.params) (length g.params) h.balance
          k.balance);
  }

  pub IsBalanced-like :
      (text before after : String) (value : Option String)
      → P text 1
      → IsBalanced P (like_filter text before after value)
  unfolding like_filter
  IsBalanced-like text before after none h = IsBalanced-none
  IsBalanced-like text before after (some value) h = elim (Bool-cases (str_eq value "")) [
    | inl e ↦ rw e IsBalanced-none
    | inr e ↦ rw e (one_clause P text (str (append before (append value after)) ∷ []) h)
  ]

  pub IsBalanced-id :
      (text : String) (value : Option ℕ) → P text 1 → IsBalanced P (id_filter text value)
  unfolding id_filter
  IsBalanced-id text none h = IsBalanced-none
  IsBalanced-id text (some n) h = one_clause P text (int n ∷ []) h

  pub IsBalanced-flag : (b : Bool) (text : String) → P text 0 → IsBalanced P (flag_filter b text)
  unfolding flag_filter
  IsBalanced-flag true text h = one_clause P text [] h
  IsBalanced-flag false text h = IsBalanced-none

-- A literal text, by evaluation: on PostgreSQL, and on both.
abbrev pub PostgresText : String → ℕ → Type 0
PostgresText s n = (marks_from false s ≡ n) × (percents s ≡ n) × (open_after false s ≡ false)

pub postgres-IsTemplate : (s : String) (n : ℕ) → PostgresText s n → IsTemplate true s n
postgres-IsTemplate s n h = record {
  marked = record { marks = h.0; percent = h.1; closed = h.2 };
  plain = λ e. cc;
}

pub template :
    (pg : Bool) (s : String) (n : ℕ) → PostgresText s n → questions s ≡ 0 → IsTemplate pg s n
template pg s n h q = record {
  marked = record { marks = h.0; percent = h.1; closed = h.2 };
  plain = λ e. record { asked = q };
}

unfoldable pub literals : Unit {0}
unfolding marks_from percents open_after questions
literals = tt

pub title_filter-IsBalanced :
    (pg : Bool) (title : Option String) → IsBalanced (IsTemplate pg) (title_filter pg title)
unfolding title_filter literals
title_filter-IsBalanced pg none = IsBalanced-none (templates pg)
title_filter-IsBalanced true (some title) = elim (Bool-cases (str_eq title "")) [
  | inl e ↦ rw e (IsBalanced-none (templates true))
  | inr e ↦ elim (Bool-cases (is_top_pick title)) [
    | inl t ↦ rw (e, t) (one_clause _ _ _ (template true _ 2 (refl, refl, refl) refl))
    | inr t ↦ rw (e, t) (one_clause _ _ _ (template true _ 1 (refl, refl, refl) refl))
  ]
]
title_filter-IsBalanced false (some title) = elim (Bool-cases (str_eq title "")) [
  | inl e ↦ rw e (IsBalanced-none (templates false))
  | inr e ↦ elim (Bool-cases (is_top_pick title)) [
    | inl t ↦ rw (e, t) (one_clause _ _ _ (template false _ 2 (refl, refl, refl) refl))
    | inr t ↦ rw (e, t) (one_clause _ _ _ (template false _ 1 (refl, refl, refl) refl))
  ]
]

pub market_filter-IsBalanced :
    (pg : Bool) (mkt_tp : Option String) → IsBalanced (IsTemplate pg) (market_filter mkt_tp)
unfolding market_filter literals
market_filter-IsBalanced pg none = IsBalanced-none (templates pg)
market_filter-IsBalanced pg (some mkt_tp) = elim (Bool-cases (str_eq mkt_tp "global")) [
  | inl e ↦ rw e (one_clause _ _ [] (template pg _ 0 (refl, refl, refl) refl))
  | inr e ↦ elim (Bool-cases (str_eq mkt_tp "domestic")) [
    | inl t ↦ rw (e, t) (one_clause _ _ [] (template pg _ 0 (refl, refl, refl) refl))
    | inr t ↦ rw (e, t) (IsBalanced-none (templates pg))
  ]
]

pub like_mark-IsTemplate :
    (pg : Bool)
    → IsTemplate pg (like_mark "writer" pg) 1
      × IsTemplate pg (like_mark "tags" pg) 1
      × IsTemplate pg (like_mark "sector" pg) 1
      × IsTemplate pg (like_mark "stock_names" pg) 1
      × IsTemplate pg (like_mark "article_title" pg) 1
unfolding literals
like_mark-IsTemplate true = (
  template _ _ _ (refl, refl, refl) refl,
  template _ _ _ (refl, refl, refl) refl,
  template _ _ _ (refl, refl, refl) refl,
  template _ _ _ (refl, refl, refl) refl,
  template _ _ _ (refl, refl, refl) refl,
)
like_mark-IsTemplate false = (
  template _ _ _ (refl, refl, refl) refl,
  template _ _ _ (refl, refl, refl) refl,
  template _ _ _ (refl, refl, refl) refl,
  template _ _ _ (refl, refl, refl) refl,
  template _ _ _ (refl, refl, refl) refl,
)
