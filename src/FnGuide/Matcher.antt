-- ===== src/FnGuide/Matcher.antt =====
-- `FnGuideMatcher.match_pending_reports` of app/services/fnguide_matcher.py. The rows that the two
-- queries read are given: the pending reports come from the table by the filter, the order and the
-- limit of the query, and the candidates are an argument.
use ssh_reports_hub_fast_api.Prelude.{
  ℕ, ◌+◌, ◌-◌, ◌≡◌, Bool, true, false, not, ◌&&◌, ◌||◌, Option, none, some, List, [], ◌∷◌, filter,
  any, take, leb, ltb, ◌==◌, if◌then◌else◌, is_some,
}
use ssh_reports_hub_fast_api.Text.Codes.{Codes, codes_eq, is_infix}
use ssh_reports_hub_fast_api.FnGuide.{
  normalize_firm_name, match_authors, get_keywords, minus, count_common, count_union, mem_codes,
  none_of,
}
use ssh_reports_hub_fast_api.FnGuide.Dates.{parse_date}

-- The columns that the matcher reads; a missing text is the empty one.
pub record SecReport : Type 0 where
  pub report_id : ℕ
  pub firm_nm : Codes
  pub writer : Codes
  pub article_title : Codes
  pub stock_names : Codes
  pub report_date : Option ℕ
  pub fnguide_summary_id : Option ℕ

pub record FnGuideReportSummary : Type 0 where
  pub summary_id : ℕ
  pub report_title : Codes
  pub company_name : Codes
  pub provider : Codes
  pub author : Codes
  pub report_date : Codes

-- What `json.loads` gives: a list, of which the texts matter, another value, or an exception.
pub data Loaded : Type 0 where
  array : List Codes → Loaded
  value : Loaded
  invalid : Loaded

-- The arithmetic of floats, with the comparisons that the code makes, and `json.loads`.
pub record Python : Type 1 where
  pub Float : Type 0
  pub json_loads : Codes → Loaded
  -- `-1.0` and `0.0`
  pub minus_one : Float
  pub zero_score : Float
  -- `m / n` of two lengths
  pub divide : ℕ → ℕ → Float
  -- `score + 0.2`
  pub add_bonus : Float → Float
  -- `score > best` and `score >= 0.25`
  pub greater : Float → Float → Bool
  pub reaches : Float → Bool
  pub greater_irrefl : (x : Float) → greater x x ≡ false
  pub greater_trans : (x y z : Float) → greater x y ≡ true → greater y z ≡ true → greater x z ≡ true
  pub reaches_above : (x : Float) → reaches x ≡ true → greater x minus_one ≡ true

abbrev pub is_near : ℕ → Option ℕ → Bool
is_near sec_date none = false
is_near sec_date (some cand_date) = leb (sec_date - 1) cand_date && leb cand_date (sec_date + 1)

module _ (py : Python) where
  open py use {Float, greater, reaches}

  -- `json.loads(report.stock_names)` under its `try`.
  unfoldable pub sec_stock_tags : SecReport → List Codes
  sec_stock_tags report =
      if codes_eq report.stock_names []
      then []
      else elim (py.json_loads report.stock_names) [ array tags ↦ tags | value ↦ [] | invalid ↦ [] ]

  unfoldable pub stock_matched : SecReport → FnGuideReportSummary → Bool
  stock_matched report candidate =
      not (codes_eq candidate.company_name [])
      && (mem_codes candidate.company_name (sec_stock_tags report)
          || is_infix candidate.company_name report.article_title)

  -- The three `continue` tests of the inner loop.
  unfoldable pub is_eligible : SecReport → FnGuideReportSummary → Bool
  is_eligible report candidate =
      codes_eq (normalize_firm_name report.firm_nm) (normalize_firm_name candidate.provider)
      && match_authors report.writer candidate.author
      && (codes_eq candidate.company_name [] || stock_matched report candidate)

  unfoldable pub calculate_title_similarity_pretokenized : List Codes → List Codes → Float
  calculate_title_similarity_pretokenized sec_tokens fn_tokens =
      if none_of sec_tokens || none_of fn_tokens
      then py.zero_score
      else py.divide (count_common sec_tokens fn_tokens) (count_union sec_tokens fn_tokens)

  unfoldable pub score : SecReport → FnGuideReportSummary → Float
  score report candidate =
      let comp_tokens = get_keywords candidate.company_name in
      let sec_tokens = minus (get_keywords report.article_title) comp_tokens in
      let fn_tokens = minus (get_keywords candidate.report_title) comp_tokens in
      let similarity = calculate_title_similarity_pretokenized sec_tokens fn_tokens in
      if stock_matched report candidate then py.add_bonus similarity else similarity

  -- One turn of the inner loop over `best_match` and `best_score`.
  unfoldable pub consider :
      SecReport
      → FnGuideReportSummary
      → Option FnGuideReportSummary × Float
      → Option FnGuideReportSummary × Float
  consider report candidate (best_match, best_score) =
      if is_eligible report candidate
        && greater (score report candidate) best_score
        && reaches (score report candidate)
      then (some candidate, score report candidate)
      else (best_match, best_score)

  unfoldable pub search_best :
      SecReport
      → List FnGuideReportSummary
      → Option FnGuideReportSummary × Float
      → Option FnGuideReportSummary × Float
  search_best report [] best = best
  search_best report (candidate ∷ candidates) best =
      search_best report candidates (consider report candidate best)

  -- The candidates of a report: dated within one day.
  unfoldable pub near_candidates : ℕ → List FnGuideReportSummary → List FnGuideReportSummary
  near_candidates sec_date =
      filter (λ candidate. is_near sec_date (parse_date candidate.report_date))

  unfoldable pub best_match : SecReport → List FnGuideReportSummary → Option FnGuideReportSummary
  best_match report all_candidates = elim report.report_date [
    | none ↦ none
    | some sec_date ↦
        (search_best report (near_candidates sec_date all_candidates) (none, py.minus_one)).0
  ]

  -- `report.fnguide_summary_id = best_match.summary_id`
  abbrev pub assign : SecReport → Option FnGuideReportSummary → SecReport
  assign report none = report
  assign report (some candidate) = record report { fnguide_summary_id = some candidate.summary_id }

  unfoldable pub count_matched : List SecReport → List FnGuideReportSummary → ℕ
  count_matched [] all_candidates = 0
  count_matched (report ∷ reports) all_candidates =
      (if is_some (best_match report all_candidates) then 1 else 0)
      + count_matched reports all_candidates

-- `order_by(SecReport.report_id.desc())`
unfoldable pub insert_report : SecReport → List SecReport → List SecReport
insert_report report [] = report ∷ []
insert_report report (other ∷ others) =
    let rest = insert_report report others in
    if leb other.report_id report.report_id then report ∷ other ∷ others else other ∷ rest

unfoldable pub newest_first : List SecReport → List SecReport
newest_first [] = []
newest_first (report ∷ reports) = insert_report report (newest_first reports)

abbrev pub below : Option ℕ → ℕ → Bool
below none report_id = true
below (some max_report_id) report_id = ltb report_id max_report_id

abbrev pub is_pending : Option ℕ → SecReport → Bool
is_pending max_report_id report =
    not (is_some report.fnguide_summary_id) && below max_report_id report.report_id

unfoldable pub pending_reports : ℕ → Option ℕ → List SecReport → List SecReport
pending_reports limit max_report_id table =
    take limit (newest_first (filter (is_pending max_report_id) table))

pub data Status : Type 0 where
  success : ℕ → Status
  failed : Status

-- The rows after the commit: those of the batch with what the loop assigned, found by their key.
abbrev pub in_batch : ℕ → List SecReport → Bool
in_batch report_id = any (λ report. report.report_id == report_id)

module _ (py : Python) where
  unfoldable pub save : List SecReport → List FnGuideReportSummary → List SecReport → List SecReport
  save batch all_candidates [] = []
  save batch all_candidates (report ∷ reports) =
      (if in_batch report.report_id batch
        then assign py report (best_match py report all_candidates)
        else report)
      ∷ save batch all_candidates reports

  -- The answer with the rows of the table. A dry run leaves the session without a commit, and a
  -- commit that fails is rolled back.
  unfoldable pub match_pending_reports :
      ℕ
      → Option ℕ
      → Bool
      → Bool
      → List FnGuideReportSummary
      → List SecReport
      → Status × List SecReport
  match_pending_reports limit max_report_id dry_run commit_fails all_candidates table =
      let batch = pending_reports limit max_report_id table in
      let matched_count = count_matched py batch all_candidates in
      if dry_run || matched_count == 0
      then (success matched_count, table)
      else (if commit_fails
          then (failed, table)
          else (success matched_count, save batch all_candidates table))
