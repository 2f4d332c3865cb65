-- ===== src/ReportQuery/Marks.antt =====
-- Counting the placeholders of an SQL text: `%s`, as psycopg2 reads it, where every percent sign
-- must begin one, and `?`, as SQLite reads it.
use Prim.Native.String.{[], ◌∷◌, ◌++◌}
use mathlib.Core.List.{[], ◌∷◌, ◌++◌ as append_list}
use mathlib.Core.Path.{subst}
use text.Mathlib.TextLemmas.{nil-append, cons-append}
use ssh_reports_hub_fast_api.Prelude.{
  ℕ, ◌+◌, ◌≡◌, refl, Bool, false, ◌&&◌, code, String, List, arith, ◌==◌, if◌then◌else◌, sym,
}
use ssh_reports_hub_fast_api.Text.{join}
use ssh_reports_hub_fast_api.ReportQuery.{where_text}

-- `%s`, after a character that is or is not a percent sign.
unfoldable pub marks_from : Bool → String → ℕ
marks_from after [] = 0
marks_from after (c ∷ s) =
    (if after && code c == b's' then 1 else 0) + marks_from (code c == b'%') s

unfoldable pub percents : String → ℕ
percents [] = 0
percents (c ∷ s) = (if code c == b'%' then 1 else 0) + percents s

unfoldable pub open_after : Bool → String → Bool
open_after after [] = after
open_after after (c ∷ s) = open_after (code c == b'%') s

unfoldable pub questions : String → ℕ
questions [] = 0
questions (c ∷ s) = (if code c == b'?' then 1 else 0) + questions s

-- A text with `n` placeholders `%s` and no other percent sign.
pub record IsMarked (s : String) (n : ℕ) : Type 0 where
  pub marks : marks_from false s ≡ n
  pub percent : percents s ≡ n
  pub closed : open_after false s ≡ false

-- A text with `n` placeholders `?`.
pub record IsAsked (s : String) (n : ℕ) : Type 0 where
  pub asked : questions s ≡ n

marks_from-append :
    (after : Bool) (s t : String)
    → marks_from after (s ++ t) ≡ marks_from after s + marks_from (open_after after s) t
unfolding marks_from open_after
marks_from-append after [] t = rw nil-append (omega arith)
marks_from-append after (c ∷ s) t =
    rw cons-append (omega (arith, marks_from-append (code c == b'%') s t))

percents-append : (s t : String) → percents (s ++ t) ≡ percents s + percents t
unfolding percents
percents-append [] t = rw nil-append (omega arith)
percents-append (c ∷ s) t = rw cons-append (omega (arith, percents-append s t))

open_after-append :
    (after : Bool) (s t : String) → open_after after (s ++ t) ≡ open_after (open_after after s) t
unfolding open_after
open_after-append after [] t = rw nil-append
open_after-append after (c ∷ s) t = rw cons-append (open_after-append (code c == b'%') s t)

questions-append : (s t : String) → questions (s ++ t) ≡ questions s + questions t
unfolding questions
questions-append [] t = rw nil-append (omega arith)
questions-append (c ∷ s) t = rw cons-append (omega (arith, questions-append s t))

pub append-IsMarked :
    (s t : String) {m n : ℕ} → IsMarked s m → IsMarked t n → IsMarked (s ++ t) (m + n)
append-IsMarked s t h k = record {
  marks = ground (arith, marks_from-append false s t, h.marks, k.marks, h.closed);
  percent = ground (arith, percents-append s t, h.percent, k.percent);
  closed = ground (arith, open_after-append false s t, h.closed, k.closed);
}

pub append-IsAsked : (s t : String) {m n : ℕ} → IsAsked s m → IsAsked t n → IsAsked (s ++ t) (m + n)
append-IsAsked s t h k = record { asked = ground (arith, questions-append s t, h.asked, k.asked) }

-- What the two have in common: a count that adds up along a text.
pub record Marking (P : String → ℕ → Type 0) : Type 0 where
  pub append_rule : (s t : String) (m n : ℕ) → P s m → P t n → P (s ++ t) (m + n)
  pub empty_rule : P "" 0
  pub and_rule : P " AND " 0
  pub where_rule : P "WHERE " 0

pub IsMarked-texts : Marking IsMarked
unfolding marks_from percents open_after
IsMarked-texts = record {
  append_rule = λ s t m n h k. append-IsMarked s t h k;
  empty_rule = record { marks = refl; percent = refl; closed = refl };
  and_rule = record { marks = refl; percent = refl; closed = refl };
  where_rule = record { marks = refl; percent = refl; closed = refl };
}

pub IsAsked-texts : Marking IsAsked
unfolding questions
IsAsked-texts = record {
  append_rule = λ s t m n h k. append-IsAsked s t h k;
  empty_rule = record { asked = refl };
  and_rule = record { asked = refl };
  where_rule = record { asked = refl };
}

module _ (P : String → ℕ → Type 0) where
  -- The clauses of a list have `k` placeholders together.
  abbrev pub AllMarked : List String → ℕ → Type 0
  AllMarked [] k = k ≡ 0
  AllMarked (s ∷ ss) k = (m : ℕ) × (n : ℕ) × P s m × AllMarked ss n × (k ≡ m + n)

module _ {P : String → ℕ → Type 0} (laws : Marking P) where
  pub AllMarked-append :
      (ss ts : List String) (m n : ℕ)
      → AllMarked P ss m
      → AllMarked P ts n
      → AllMarked P (append_list ss ts) (m + n)
  AllMarked-append [] ts m n h k = subst (AllMarked P ts) (omega arith) k
  AllMarked-append (s ∷ ss) ts m n (a, b, p, rest, e) k =
      (a, b + n, p, AllMarked-append ss ts b n rest k, omega arith)

  join_marked : (ss : List String) (k : ℕ) → AllMarked P ss k → P (join " AND " ss) k
  unfolding join
  join_marked [] k h = subst (P "") (sym h) laws.empty_rule
  join_marked (s ∷ []) k (m, n, p, h, e) = subst (P s) (omega arith) p
  join_marked (s ∷ t ∷ rest) k (m, n, p, h, e) =
      subst (P (s ++ (" AND " ++ join " AND " (t ∷ rest)))) (omega arith) (
        laws.append_rule s (" AND " ++ join " AND " (t ∷ rest)) m (0 + n) p (
          laws.append_rule " AND " (join " AND " (t ∷ rest)) 0 n laws.and_rule
            (join_marked (t ∷ rest) n h)))

  -- The whole `WHERE` text has as many placeholders as its clauses.
  pub where_text_marked : (ss : List String) (k : ℕ) → AllMarked P ss k → P (where_text ss) k
  unfolding where_text
  where_text_marked [] k h = subst (P "") (sym h) laws.empty_rule
  where_text_marked (s ∷ ss) k h = subst (P ("WHERE " ++ join " AND " (s ∷ ss))) (omega arith) (
      laws.append_rule "WHERE " (join " AND " (s ∷ ss)) 0 k laws.where_rule
        (join_marked (s ∷ ss) k h))

-- A text for `execute_raw_query`: placeholders `%s` only, and where they are to be replaced for
-- SQLite, no question mark.
pub record IsTemplate (is_postgres : Bool) (s : String) (n : ℕ) : Type 0 where
  pub marked : IsMarked s n
  pub plain : is_postgres ≡ false → IsAsked s 0

pub templates : (is_postgres : Bool) → Marking (IsTemplate is_postgres)
templates is_postgres = record {
  append_rule = λ s t m n h k. record {
    marked = IsMarked-texts.append_rule s t m n h.marked k.marked;
    plain = λ e. IsAsked-texts.append_rule s t 0 0 (h.plain e) (k.plain e);
  };
  empty_rule = record { marked = IsMarked-texts.empty_rule; plain = λ e. IsAsked-texts.empty_rule };
  and_rule = record { marked = IsMarked-texts.and_rule; plain = λ e. IsAsked-texts.and_rule };
  where_rule = record { marked = IsMarked-texts.where_rule; plain = λ e. IsAsked-texts.where_rule };
}
