-- ===== src/SummaryWorker/Tests.antt =====
-- Runs of the summary worker with answers that end well and badly. Floats are natural numbers.
use ssh_reports_hub_fast_api.Prelude.{
  ℕ, ◌≡◌, refl, String, Bool, true, false, ◌⊎◌, ◌↔◌, inr, Option, none, some, str_eq, ◌==◌,
  if◌then◌else◌,
}
use ssh_reports_hub_fast_api.ReportItems.{
  Value, int, str, arr, obj, nil, cons, Fields, end, field, get, is_truthy, drop_chars,
}
use ssh_reports_hub_fast_api.SummaryWorker.Outcomes.{IsSaved, run_worker-IsSaved}
use ssh_reports_hub_fast_api.SummaryWorker.{
  worker_command, item, worker_error, Completed, Command, is_done, item_of_value, first_item,
  outcome_of, completed_outcome, run_worker, last_chars, first_text,
}

abbrev is_zero : ℕ → Bool
is_zero n = n == 0

abbrev saved : Fields ℕ
saved = field "status" (str "saved") end

abbrev loads : String → Option (Value ℕ)
loads s =
    if str_eq s "saved"
    then some (obj (field "failed" (int 0) (field "items" (arr (cons (obj saved) nil)) end)))
    else (if str_eq s "failed" then some (obj (field "failed" (int 1) end)) else none)

abbrev dumps : Value ℕ → String
dumps v = "{...}"

abbrev answers : Bool → String → Command → String ⊎ Completed
answers succeeded stdout command =
    inr (record { succeeded = succeeded; stdout = stdout; stderr = "" })

abbrev no_variable : String → Option String
no_variable name = none

run_saved : run_worker is_zero loads dumps (answers true "saved") no_variable 5 false ≡ item saved
unfolding run_worker completed_outcome outcome_of first_item item_of_value is_done get is_truthy
run_saved = refl

run_failed :
    run_worker is_zero loads dumps (answers true "failed") no_variable 5 false
    ≡ worker_error "{...}"
unfolding run_worker completed_outcome outcome_of get is_truthy
run_failed = refl

run_silent :
    run_worker is_zero loads dumps (answers false "") no_variable 5 true
    ≡ worker_error "worker failed"
unfolding run_worker completed_outcome first_text last_chars drop_chars
run_silent = refl

run_worker-IsSaved_example :
    (run_worker is_zero loads dumps (answers true "saved") no_variable 5 false ≡ item saved) ↔ (
      (completed : Completed) × (answers true "saved" (worker_command no_variable 5 false)
        ≡ inr completed)
      × (completed.succeeded ≡ true)
      × IsSaved is_zero loads dumps saved completed.stdout)
run_worker-IsSaved_example =
    run_worker-IsSaved is_zero loads dumps (answers true "saved") no_variable 5 false saved
