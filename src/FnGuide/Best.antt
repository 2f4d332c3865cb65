-- ===== src/FnGuide/Best.antt =====
-- Which candidate the matcher of app/services/fnguide_matcher.py takes.
use mathlib.Core.Path.{subst}
use mathlib.Core.List.{Memᴰ}
use ssh_reports_hub_fast_api.Prelude.{
  ℕ, ◌≡◌, refl, ap, ◌∙◌, ◌⊎◌, inl, inr, ◌↔◌, arith, Bool, true, false, ◌&&◌, Option, none, some,
  List, [], ◌∷◌, All, Bool-cases,
}
use ssh_reports_hub_fast_api.FnGuide.Matcher.{
  SecReport, FnGuideReportSummary, Python, is_eligible, score, consider, search_best,
  near_candidates, best_match,
}

module _ (py : Python) where
  open py use {Float, greater, reaches}

  -- The candidates that a report may be linked to.
  abbrev pub qualifies : SecReport → FnGuideReportSummary → Bool
  qualifies report candidate =
      is_eligible py report candidate && reaches (score py report candidate)

  consider-greater :
      (report : SecReport) (candidate : FnGuideReportSummary) (x : Float)
      (best : Option FnGuideReportSummary × Float)
      → greater x best.1 ≡ false
      → greater x (consider py report candidate best).1 ≡ false
  unfolding consider
  consider-greater report candidate x best h =
      ground (arith, py.greater_trans x (score py report candidate) best.1)

  search-greater :
      (report : SecReport) (candidates : List FnGuideReportSummary) (x : Float)
      (best : Option FnGuideReportSummary × Float)
      → greater x best.1 ≡ false
      → greater x (search_best py report candidates best).1 ≡ false
  unfolding search_best
  search-greater report [] x best h = h
  search-greater report (c ∷ cs) x best h =
      search-greater report cs x (consider py report c best) (consider-greater report c x best h)

  consider-beats :
      (report : SecReport) (c : FnGuideReportSummary) (best : Option FnGuideReportSummary × Float)
      → qualifies report c ≡ true
      → greater (score py report c) (consider py report c best).1 ≡ false
  unfolding consider
  consider-beats report c best h = ground (arith, py.greater_irrefl (score py report c))

  -- No candidate that qualifies is better than a given score.
  abbrev pub IsMaximal : SecReport → List FnGuideReportSummary → Float → Type 0
  IsMaximal report candidates best =
      All (λ c. (qualifies report c && greater (score py report c) best) ≡ false) candidates

  search-IsMaximal :
      (report : SecReport) (candidates : List FnGuideReportSummary)
      (best : Option FnGuideReportSummary × Float)
      → IsMaximal report candidates (search_best py report candidates best).1
  unfolding search_best
  search-IsMaximal report [] best = tt
  search-IsMaximal report (c ∷ cs) best = (
    elim (Bool-cases (qualifies report c)) [
      | inl e ↦
          rw
            (
              e,
              search-greater report cs (score py report c) (consider py report c best)
                  (consider-beats report c best e),
            )
            refl
      | inr e ↦ rw e refl
    ],
    search-IsMaximal report cs (consider py report c best),
  )

  -- The search ends with what it began with, or with a candidate that qualifies and its score.
  search-origin :
      (report : SecReport) (candidates : List FnGuideReportSummary)
      (best : Option FnGuideReportSummary × Float)
      → (search_best py report candidates best ≡ best)
        ⊎ ((c : FnGuideReportSummary) × Memᴰ c candidates
            × (qualifies report c ≡ true)
            × (search_best py report candidates best ≡ (some c, score py report c)))
  unfolding search_best consider
  search-origin report [] best = inl refl
  search-origin report (c ∷ cs) best = elim (search-origin report cs (consider py report c best)) [
    | inr (d, m, q, e) ↦ inr (d, Memᴰ.tail m, q, e)
    | inl e ↦
        elim (Bool-cases (
          is_eligible py report c
          && greater (score py report c) best.1
          && reaches (score py report c))) [
            | inl t ↦ inr (c, Memᴰ.head refl, ground arith, e ∙ ground arith)
            | inr t ↦ inl (e ∙ ground arith)
          ]
  ]

  best_match_dated :
      (report : SecReport) (all_candidates : List FnGuideReportSummary) (sec_date : ℕ)
      → report.report_date ≡ some sec_date
      → best_match py report all_candidates
        ≡ (search_best py report
            (near_candidates py sec_date all_candidates)
            (none, py.minus_one)).0
  unfolding best_match
  best_match_dated report all_candidates sec_date dated = ground (arith, dated)

  -- The candidate that a dated report is linked to is dated within a day of it, passes the tests on
  -- the firm, the authors and the stock, reaches the threshold, and no other candidate that does
  -- has a greater score.
  pub best_match-some :
      (report : SecReport) (all_candidates : List FnGuideReportSummary) (sec_date : ℕ)
      (candidate : FnGuideReportSummary)
      → report.report_date ≡ some sec_date
      → best_match py report all_candidates ≡ some candidate
      → Memᴰ candidate (near_candidates py sec_date all_candidates)
        × (qualifies report candidate ≡ true)
        × IsMaximal report (near_candidates py sec_date all_candidates) (score py report candidate)
  unfolding best_match
  best_match-some report all_candidates sec_date candidate dated found =
      let cs = near_candidates py sec_date all_candidates in
      elim (search-origin report cs (none, py.minus_one)) [
        | inl e ↦ absurd (ground (arith, dated))
        | inr (c, m, q, e) ↦
            let same : c ≡ candidate = ground (arith, dated) in
            (
              subst (λ d. Memᴰ d cs) same m,
              subst (λ d. qualifies report d ≡ true) same q,
              subst (IsMaximal report cs) (ap (λ x. x.1) e ∙ ap (score py report) same)
                  (search-IsMaximal report cs (none, py.minus_one)),
            )
      ]

  unqualified :
      (report : SecReport) (candidates : List FnGuideReportSummary)
      → IsMaximal report candidates py.minus_one
      → All (λ c. qualifies report c ≡ false) candidates
  unqualified report [] h = tt
  unqualified report (c ∷ cs) h =
      (ground (arith, h.0, py.reaches_above (score py report c)), unqualified report cs h.1)

  All-Mem :
      (report : SecReport) (candidates : List FnGuideReportSummary) (c : FnGuideReportSummary)
      → All (λ c. qualifies report c ≡ false) candidates
      → Memᴰ c candidates
      → qualifies report c ≡ false
  All-Mem report [] c h m = elim m [ ]
  All-Mem report (d ∷ ds) c h (Memᴰ.head e) = ap (qualifies report) e ∙ h.0
  All-Mem report (d ∷ ds) c h (Memᴰ.tail m) = All-Mem report ds c h.1 m

  -- A dated report stays without a candidate exactly if no candidate within a day of it passes the
  -- tests and reaches the threshold.
  pub best_match-none_iff :
      (report : SecReport) (all_candidates : List FnGuideReportSummary) (sec_date : ℕ)
      → report.report_date ≡ some sec_date
      → (best_match py report all_candidates ≡ none)
        ↔ All (λ c. qualifies report c ≡ false) (near_candidates py sec_date all_candidates)
  unfolding best_match
  best_match-none_iff report all_candidates sec_date dated =
      let cs = near_candidates py sec_date all_candidates in
      let start : Option FnGuideReportSummary × Float = (none, py.minus_one) in
      elim (search-origin report cs start) [
        | inl e ↦ (
          λ found.
              unqualified report cs
                (subst (IsMaximal report cs) (ap (λ x. x.1) e) (search-IsMaximal report cs start)),
          λ h. best_match_dated report all_candidates sec_date dated ∙ ap (λ x. x.0) e,
        )
        | inr (c, m, q, e) ↦ (
          λ found. absurd (ground (arith, dated)),
          λ h. absurd (ground (arith, All-Mem report cs c h m)),
        )
      ]
