-- ===== src/SummaryWorker.antt =====
-- app/services/summary_worker.py: the command for the summary worker and what its answer means. Running a
-- command, `os.getenv`, `json.loads`, `json.dumps` and the test of a float are arguments.
pub mod Outcomes
mod Tests
use Prim.Native.String.{◌++◌ as append}
use ssh_reports_hub_fast_api.Prelude.{
  ℕ, ◌-◌, ◌≡◌, refl, arith, String, Bool, true, false, not, ◌&&◌, ◌||◌, ◌⊎◌, inl, inr, Option, none,
  some, List, [], ◌∷◌, ◌++◌, length, str_eq, ◌==◌, if◌then◌else◌, Bool-cases,
}
use ssh_reports_hub_fast_api.Text.{join}
use ssh_reports_hub_fast_api.Text.Codes.{codes}
use ssh_reports_hub_fast_api.Text.Number.{str_of}
use ssh_reports_hub_fast_api.ReportItems.{
  Value, null, bool, int, real, str, datetime, arr, obj, Items, nil, cons, Fields, get, is_truthy,
  drop_chars,
}

-- What `_run_worker` gives: the item, SummaryWorkerError with its text, or another exception by its class.
pub data RunOutcome (R : Type 0) : Type 0 where
  item : Fields R → RunOutcome R
  worker_error : String → RunOutcome R
  error : String → RunOutcome R

pub record Completed : Type 0 where
  pub succeeded : Bool
  pub stdout : String
  pub stderr : String

-- The arguments of `subprocess.run` that depend on the call; a timeout that is no number raises.
pub record Command : Type 0 where
  pub arguments : List String
  pub cwd : String
  pub python_path : String
  pub secret_file : String
  pub timeout : String

-- `os.getenv(name, default)`
unfoldable pub getenv_or : Option String → String → String
getenv_or none default = default
getenv_or (some value) default = value

unfoldable pub first_text : String → String → String
first_text s default = if str_eq s "" then default else s

-- `s[-n:]`
unfoldable pub last_chars : ℕ → String → String
unfolding drop_chars
last_chars n s = drop_chars (length (codes s) - n) s

unfoldable pub worker_arguments : String → ℕ → Bool → List String
worker_arguments python report_id force =
    (python
      ∷ "-m"
      ∷ "ssh_report_summary_worker.cli"
      ∷ "--report-id"
      ∷ str_of report_id
      ∷ "--write-db"
      ∷ [])
    ++ (if force then "--force" ∷ [] else [])

unfoldable pub python_path_of : String → Option String → String
python_path_of root none =
    join ":" (append root "/src" ∷ "/home/ubuntu/workspace/lib/ssh_library" ∷ [])
python_path_of root (some old) = join ":" (
    (append root "/src" ∷ "/home/ubuntu/workspace/lib/ssh_library" ∷ [])
    ++ (if str_eq old "" then [] else old ∷ []))

unfoldable pub worker_command : (String → Option String) → ℕ → Bool → Command
unfolding getenv_or
worker_command getenv report_id force =
    let root =
      getenv_or (getenv "SUMMARY_WORKER_ROOT")
        "/home/ubuntu/workspace/external.reports-hub/apps/scrapers/ssh-report-summary-worker" in
    record {
      arguments =
          worker_arguments (getenv_or (getenv "SUMMARY_WORKER_PYTHON") "python3") report_id force;
      cwd = root;
      python_path = python_path_of root (getenv "PYTHONPATH");
      secret_file =
          getenv_or (getenv "SUMMARY_SECRET_FILE")
            "/home/ubuntu/secrets/workspace/external.reports-hub/apps/scrapers/ssh-report-summary-worker/secrets.json";
      timeout = getenv_or (getenv "SUMMARY_WORKER_TIMEOUT_SECONDS") "360";
    }

-- `item.get("status") in ("saved", "dry_run")`
unfoldable pub is_done : {R : Type 0} → Value R → Bool
is_done (str status) = str_eq status "saved" || str_eq status "dry_run"
is_done _ = false

module _ {R : Type 0} (is_zero : R → Bool) (loads : String → Option (Value R))
    (dumps : Value R → String) where
  unfoldable pub item_of_value : Value R → RunOutcome R
  unfolding is_done get
  item_of_value (obj fields) =
      if is_done (get "status" fields) then item fields else worker_error (dumps (obj fields))
  item_of_value _ = error "AttributeError"

  -- `result["items"][0]` of a value that counts as true, and the tests of it. A text has a first character.
  unfoldable pub first_item : Value R → RunOutcome R
  unfolding item_of_value
  first_item (arr (cons value rest)) = item_of_value value
  first_item (str s) = error "AttributeError"
  first_item (obj fields) = error "KeyError"
  first_item _ = error "TypeError"

  unfoldable pub outcome_of : Option (Value R) → RunOutcome R
  unfolding first_item get
  outcome_of none = worker_error "worker returned invalid JSON"
  outcome_of (some (obj fields)) =
      if is_truthy is_zero loads (λ v. none) (get "failed" fields)
        || not (is_truthy is_zero loads (λ v. none) (get "items" fields))
      then worker_error (dumps (obj fields))
      else first_item (get "items" fields)
  outcome_of (some _) = error "AttributeError"

  unfoldable pub completed_outcome : Completed → RunOutcome R
  unfolding outcome_of
  completed_outcome c =
      if c.succeeded
      then outcome_of (loads c.stdout)
      else worker_error
          (last_chars 2000 (first_text c.stderr (first_text c.stdout "worker failed")))

  -- `run` gives the class of the exception where it raises one, a timeout for example.
  unfoldable pub run_worker :
      (Command → String ⊎ Completed) → (String → Option String) → ℕ → Bool → RunOutcome R
  unfolding completed_outcome
  run_worker run getenv report_id force = elim (run (worker_command getenv report_id force)) [
    | inl exception ↦ error exception
    | inr completed ↦ completed_outcome completed
  ]
