-- ===== src/SummaryWorker/Outcomes.antt =====
-- When a run of the summary worker gives an item.
use ssh_reports_hub_fast_api.Prelude.{
  ℕ, ◌≡◌, refl, ap, sym, ◌∙◌, arith, String, Bool, true, false, not, ◌||◌, ◌⊎◌, ◌↔◌, inl, inr,
  Option, none, some, Bool-cases,
}
use ssh_reports_hub_fast_api.ReportItems.{
  Value, null, bool, int, real, str, datetime, arr, obj, Items, nil, cons, Fields, get, is_truthy,
}
use ssh_reports_hub_fast_api.SummaryWorker.{
  item, error, Completed, Command, worker_command, is_done, item_of_value, first_item, outcome_of,
  completed_outcome, run_worker,
}

module _ {R : Type 0} (is_zero : R → Bool) (loads : String → Option (Value R))
    (dumps : Value R → String) where
  -- What the answer of a worker holds that gives an item.
  pub record IsSaved (fields : Fields R) (stdout : String) : Type 0 where
    pub result : Fields R
    pub rest : Items R
    pub read : loads stdout ≡ some (obj result)
    pub not_failed : is_truthy is_zero loads (λ v. none) (get "failed" result) ≡ false
    pub first : get "items" result ≡ arr (cons (obj fields) rest)
    pub done : is_done (get "status" fields) ≡ true

  abbrev FirstOf : Fields R → Value R → Type 0
  FirstOf fields v =
      (rest : Items R) × (v ≡ arr (cons (obj fields) rest)) × (is_done (get "status" fields) ≡ true)

  first_item-item :
      (v : Value R) (fields : Fields R)
      → first_item is_zero loads dumps v ≡ item fields
      → FirstOf fields v
  unfolding first_item item_of_value
  first_item-item (arr (cons (obj found) rest)) fields h =
      elim (Bool-cases (is_done (get "status" found))) [
        | inl e ↦
            let same : found ≡ fields = grind (arith, h, e) in
            (
              rest,
              ap (λ f. arr (cons (obj f) rest)) same,
              ap (λ f. is_done (get "status" f)) (sym same) ∙ e,
            )
        | inr e ↦ absurd (grind (arith, h, e))
      ]
  first_item-item (arr (cons null rest)) fields h = absurd (ground (arith, h))
  first_item-item (arr (cons (bool b) rest)) fields h = absurd (ground (arith, h))
  first_item-item (arr (cons (int n) rest)) fields h = absurd (ground (arith, h))
  first_item-item (arr (cons (real r) rest)) fields h = absurd (ground (arith, h))
  first_item-item (arr (cons (str s) rest)) fields h = absurd (ground (arith, h))
  first_item-item (arr (cons (datetime s) rest)) fields h = absurd (ground (arith, h))
  first_item-item (arr (cons (arr xs) rest)) fields h = absurd (ground (arith, h))
  first_item-item (arr nil) fields h = absurd (ground (arith, h))
  first_item-item null fields h = absurd (ground (arith, h))
  first_item-item (bool b) fields h = absurd (ground (arith, h))
  first_item-item (int n) fields h = absurd (ground (arith, h))
  first_item-item (real r) fields h = absurd (ground (arith, h))
  first_item-item (str s) fields h = absurd (ground (arith, h))
  first_item-item (datetime s) fields h = absurd (ground (arith, h))
  first_item-item (obj f) fields h = absurd (ground (arith, h))

  outcome_of-item :
      (stdout : String) (read : Option (Value R)) (fields : Fields R)
      → loads stdout ≡ read
      → outcome_of is_zero loads dumps read ≡ item fields
      → IsSaved fields stdout
  unfolding outcome_of
  outcome_of-item stdout none fields e h = absurd (ground (arith, h))
  outcome_of-item stdout (some (obj result)) fields e h =
      let bad =
        is_truthy is_zero loads (λ v. none) (get "failed" result)
        || not (is_truthy is_zero loads (λ v. none) (get "items" result)) in
      elim (Bool-cases bad) [
        | inl k ↦ absurd (grind (arith, h, k))
        | inr k ↦
            let (rest, first, done) = first_item-item (get "items" result) fields (rw k at h) in
            record {
              result = result;
              rest = rest;
              read = e;
              not_failed = ground (arith, k);
              first = first;
              done = done;
            }
      ]
  outcome_of-item stdout (some null) fields e h = absurd (ground (arith, h))
  outcome_of-item stdout (some (bool b)) fields e h = absurd (ground (arith, h))
  outcome_of-item stdout (some (int n)) fields e h = absurd (ground (arith, h))
  outcome_of-item stdout (some (real r)) fields e h = absurd (ground (arith, h))
  outcome_of-item stdout (some (str s)) fields e h = absurd (ground (arith, h))
  outcome_of-item stdout (some (datetime s)) fields e h = absurd (ground (arith, h))
  outcome_of-item stdout (some (arr xs)) fields e h = absurd (ground (arith, h))

  outcome-item :
      (answer : String ⊎ Completed) (fields : Fields R)
      → (elim answer [
        | inl exception ↦ error exception
        | inr completed ↦ completed_outcome is_zero loads dumps completed
      ])
        ≡ item fields
      → (completed : Completed) × (answer ≡ inr completed)
        × (completed.succeeded ≡ true)
        × IsSaved fields completed.stdout
  unfolding completed_outcome
  outcome-item (inl exception) fields h = absurd (ground (arith, h))
  outcome-item (inr completed) fields h = elim (Bool-cases completed.succeeded) [
    | inl e ↦ (
      completed,
      refl,
      e,
      outcome_of-item completed.stdout (loads completed.stdout) fields refl (rw e at h),
    )
    | inr e ↦ absurd (grind (arith, h, e))
  ]

  IsSaved-outcome :
      (completed : Completed) (fields : Fields R)
      → completed.succeeded ≡ true
      → IsSaved fields completed.stdout
      → completed_outcome is_zero loads dumps completed ≡ item fields
  unfolding completed_outcome outcome_of first_item item_of_value is_truthy
  IsSaved-outcome completed fields well saved =
      rw well (rw saved.read (rw saved.not_failed (rw saved.first (rw saved.done refl))))

  outcome-answer :
      (answer : String ⊎ Completed) (completed : Completed) (fields : Fields R)
      → answer ≡ inr completed
      → completed.succeeded ≡ true
      → IsSaved fields completed.stdout
      → (elim answer [
        | inl exception ↦ error exception
        | inr found ↦ completed_outcome is_zero loads dumps found
      ])
        ≡ item fields
  outcome-answer answer completed fields answered well saved =
      rw answered (IsSaved-outcome completed fields well saved)

  -- A run gives an item exactly if the command ended well, and its output is a result that did not fail and
  -- whose first item is that item, saved or a dry run.
  pub run_worker-IsSaved :
      (run : Command → String ⊎ Completed) (getenv : String → Option String) (report_id : ℕ)
      (force : Bool) (fields : Fields R)
      → (run_worker is_zero loads dumps run getenv report_id force ≡ item fields) ↔ (
          (completed : Completed) × (run (worker_command getenv report_id force) ≡ inr completed)
          × (completed.succeeded ≡ true)
          × IsSaved fields completed.stdout)
  unfolding run_worker
  run_worker-IsSaved run getenv report_id force fields = (
    (λ h. outcome-item (run (worker_command getenv report_id force)) fields h),
    (λ (completed, answered, well, saved).
        outcome-answer (run (worker_command getenv report_id force)) completed fields answered well
          saved),
  )
