-- ===== src/FnGuide/Tests.antt =====
-- The theorems about the FnGuide matcher at a concrete report, with scores in thousandths.
use mathlib.Core.List.{Memᴰ}
use ssh_reports_hub_fast_api.Prelude.{
  ℕ, ◌+◌, ◌*◌, ◌/◌, ◌≡◌, refl, ◌↔◌, arith, true, false, none, some, [], ◌∷◌, All, ltb, leb,
}
use ssh_reports_hub_fast_api.Text.Codes.{codes}
use ssh_reports_hub_fast_api.FnGuide.{
  normalize_firm_name, match_authors, parse_authors, get_keywords,
}
use ssh_reports_hub_fast_api.FnGuide.Dates.{parse_date}
use ssh_reports_hub_fast_api.FnGuide.Matcher.{
  SecReport, FnGuideReportSummary, Python, array, score, best_match, near_candidates,
  match_pending_reports, search_best, consider, is_eligible, stock_matched, sec_stock_tags,
  calculate_title_similarity_pretokenized,
}
use ssh_reports_hub_fast_api.FnGuide.Best.{
  qualifies, IsMaximal, best_match-some, best_match-none_iff,
}
use ssh_reports_hub_fast_api.FnGuide.Batch.{match_pending_reports-linked}

pub irrefl : (x : ℕ) → ltb x x ≡ false
irrefl x = ground arith

pub trans : (x y z : ℕ) → ltb y x ≡ true → ltb z y ≡ true → ltb z x ≡ true
trans x y z h k = ground arith

pub above : (x : ℕ) → leb 1250 x ≡ true → ltb 0 x ≡ true
above x h = ground arith

abbrev thousandths : Python
thousandths = record {
  Float = ℕ;
  json_loads = λ s. array (codes "삼성전자" ∷ []);
  minus_one = 0;
  zero_score = 1000;
  divide = λ m n. 1000 + m * 1000 / n;
  add_bonus = λ x. x + 200;
  greater = λ x y. ltb y x;
  reaches = λ x. leb 1250 x;
  greater_irrefl = irrefl;
  greater_trans = trans;
  reaches_above = above;
}

abbrev report : SecReport
report = record {
  report_id = 9;
  firm_nm = codes "신한투자증권";
  writer = codes "홍길동";
  article_title = codes "삼성전자 HBM 수요 회복";
  stock_names = codes "[]";
  report_date = some 739772;
  fnguide_summary_id = none;
}

abbrev summary : FnGuideReportSummary
summary = record {
  summary_id = 41;
  report_title = codes "HBM 수요 강세";
  company_name = codes "삼성전자";
  provider = codes "신한증권";
  author = codes "홍길동";
  report_date = codes "2026-06-04";
}

abbrev stranger : FnGuideReportSummary
stranger = record summary { summary_id = 42; provider = codes "KB증권" }

found : best_match thousandths report (stranger ∷ summary ∷ []) ≡ some summary
unfolding best_match search_best consider is_eligible stock_matched sec_stock_tags score
    near_candidates parse_date normalize_firm_name match_authors parse_authors get_keywords
    calculate_title_similarity_pretokenized
found = refl

best_match-some_example :
    Memᴰ summary (near_candidates thousandths 739772 (stranger ∷ summary ∷ []))
    × (qualifies thousandths report summary ≡ true)
    × IsMaximal thousandths report
        (near_candidates thousandths 739772 (stranger ∷ summary ∷ []))
        (score thousandths report summary)
best_match-some_example =
    best_match-some thousandths report (stranger ∷ summary ∷ []) 739772 summary refl found

best_match-none_iff_example :
    (best_match thousandths report (stranger ∷ []) ≡ none)
    ↔ All
        (λ c. qualifies thousandths report c ≡ false)
        (near_candidates thousandths 739772 (stranger ∷ []))
best_match-none_iff_example = best_match-none_iff thousandths report (stranger ∷ []) 739772 refl

abbrev linked : SecReport
linked = record report { report_id = 8; fnguide_summary_id = some 40 }

match_pending_reports-linked_example :
    Memᴰ linked
      (match_pending_reports thousandths 200 none false false
        (stranger ∷ summary ∷ [])
        (report ∷ linked ∷ [])).1
match_pending_reports-linked_example =
    match_pending_reports-linked thousandths 200 none false false (stranger ∷ summary ∷ [])
      (report ∷ linked ∷ []) linked 40 (refl, (refl, tt)) (Memᴰ.tail (Memᴰ.head refl)) refl
