-- ===== src/Admin/Statistics.antt =====
-- The report statistics of `get_system_metrics` in app/routers/admin.py, and the FnGuide matching endpoints.
-- A date is its number of days; all of a request happens on one day. CPU, memory, disk and the health of the
-- database are read from the operating system and are left out.
use Prim.Native.Nat.{min}
use ssh_reports_hub_fast_api.Prelude.{
  ℕ, ◌+◌, ◌-◌, ◌≤◌, ◌≡◌, refl, ap, ◌∙◌, arith, String, Bool, not, ◌&&◌, ◌||◌, Option, none, some,
  List, [], ◌∷◌, map, filter, length, length-take, take, str_eq, leb, ◌==◌, if◌then◌else◌,
}
use ssh_reports_hub_fast_api.Exceptions.{Result, ok, throw, permission_denied}

pub record Report : Type 0 where
  pub firm_nm : String
  pub report_date : ℕ

-- `GROUP BY report_date` with its counts. The order of the groups does not matter for the dictionary.
unfoldable pub bump_date : ℕ → List (ℕ × ℕ) → List (ℕ × ℕ)
bump_date d [] = (d, 1) ∷ []
bump_date d ((other, n) ∷ rest) =
    let after = bump_date d rest in if other == d then (other, n + 1) ∷ rest else (other, n) ∷ after

unfoldable pub daily_rows : ℕ → List Report → List (ℕ × ℕ)
unfolding bump_date
daily_rows since [] = []
daily_rows since (r ∷ rest) =
    let groups = daily_rows since rest in
    if leb since r.report_date then bump_date r.report_date groups else groups

-- `daily_map.get(d, 0)`
unfoldable pub get : ℕ → List (ℕ × ℕ) → ℕ
get d [] = 0
get d ((other, n) ∷ rest) = if other == d then n else get d rest

-- `GROUP BY firm_nm` with its counts.
unfoldable pub bump_firm : String → List (String × ℕ) → List (String × ℕ)
bump_firm firm [] = (firm, 1) ∷ []
bump_firm firm ((other, n) ∷ rest) =
    let after = bump_firm firm rest in
    if str_eq other firm then (other, n + 1) ∷ rest else (other, n) ∷ after

unfoldable pub firm_rows : ℕ → List Report → List (String × ℕ)
unfolding bump_firm
firm_rows today [] = []
firm_rows today (r ∷ rest) =
    let groups = firm_rows today rest in
    if r.report_date == today then bump_firm r.firm_nm groups else groups

pub record Statistics : Type 0 where
  pub total : ℕ
  pub today_inserts : ℕ
  pub by_firm_today : List (String × ℕ)
  pub active_firms_today : ℕ
  pub archive_history : List (ℕ × ℕ)

abbrev pub reports_on : ℕ → List Report → ℕ
reports_on d rows = length (filter (λ (r : Report). r.report_date == d) rows)

-- The days `today - (6 - i)` for `i` from 0 on.
abbrev pub days : ℕ → List ℕ
days today =
    (today - 6) ∷ (today - 5) ∷ (today - 4) ∷ (today - 3) ∷ (today - 2) ∷ (today - 1) ∷ today ∷ []

-- `order` is ORDER BY COUNT DESC, which leaves the order of equal counts open.
unfoldable pub report_statistics :
    (List (String × ℕ) → List (String × ℕ)) → ℕ → List Report → Statistics
report_statistics order today rows =
    let by_firm = take 10 (order (firm_rows today rows)) in
    let daily_map = daily_rows (today - 6) rows in
    record {
      total = length rows;
      today_inserts = reports_on today rows;
      by_firm_today = by_firm;
      active_firms_today = length by_firm;
      archive_history = map (λ d. (d, get d daily_map)) (days today);
    }

get-bump_date :
    (k d : ℕ) (groups : List (ℕ × ℕ))
    → get k (bump_date d groups) ≡ (if d == k then get k groups + 1 else get k groups)
unfolding get bump_date
get-bump_date k d [] = ground arith
get-bump_date k d ((other, n) ∷ rest) = ground (arith, get-bump_date k d rest)

get-daily_rows :
    (since k : ℕ) (rows : List Report)
    → since ≤ k
    → get k (daily_rows since rows) ≡ reports_on k rows
unfolding daily_rows get
get-daily_rows since k [] h = refl
get-daily_rows since k (r ∷ rest) h =
    ground
      (arith, get-daily_rows since k rest, get-bump_date k r.report_date (daily_rows since rest))

-- The number of reports of a week, the day and the six before it.
abbrev pub reports_within : ℕ → List Report → ℕ
reports_within today rows =
    length (filter (λ (r : Report). leb (today - 6) r.report_date && leb r.report_date today) rows)

abbrev pub sum_counts : List (ℕ × ℕ) → ℕ
sum_counts [] = 0
sum_counts ((d, n) ∷ rest) = n + sum_counts rest

-- Each of the last seven days, from the oldest on, stands with the number of its reports.
abbrev pub history_of : ℕ → List Report → List (ℕ × ℕ)
history_of today rows = map (λ d. (d, reports_on d rows)) (days today)

sum-history_of :
    (today : ℕ) (rows : List Report)
    → 6 ≤ today
    → sum_counts (history_of today rows) ≡ reports_within today rows
sum-history_of today [] h = omega arith
sum-history_of today (r ∷ rest) h = ground (arith, sum-history_of today rest h)

history_entries :
    (today : ℕ) (rows : List Report)
    → map (λ d. (d, get d (daily_rows (today - 6) rows))) (days today) ≡ history_of today rows
history_entries today rows = ground (
  arith,
  get-daily_rows (today - 6) (today - 6) rows,
  get-daily_rows (today - 6) (today - 5) rows,
  get-daily_rows (today - 6) (today - 4) rows,
  get-daily_rows (today - 6) (today - 3) rows,
  get-daily_rows (today - 6) (today - 2) rows,
  get-daily_rows (today - 6) (today - 1) rows,
  get-daily_rows (today - 6) today rows,
)

-- The history has an entry for each of the last seven days, from the oldest on, with the number of its
-- reports, and these numbers add up to the reports of the week. Where ORDER BY keeps the number of groups,
-- the number of active firms is that of the firms with a report today, but never more than ten.
pub report_statistics_lem :
    (order : List (String × ℕ) → List (String × ℕ)) (today : ℕ) (rows : List Report)
    → ((groups : List (String × ℕ)) → length (order groups) ≡ length groups)
    → 6 ≤ today
    → ((report_statistics order today rows).archive_history ≡ history_of today rows)
      × (sum_counts (report_statistics order today rows).archive_history
          ≡ reports_within today rows)
      × ((report_statistics order today rows).active_firms_today
          ≡ min 10 (length (firm_rows today rows)))
unfolding report_statistics
report_statistics_lem order today rows kept h = (
  history_entries today rows,
  ap sum_counts (history_entries today rows) ∙ sum-history_of today rows h,
  length-take 10 (order (firm_rows today rows)) ∙ ap (min 10) (kept (firm_rows today rows)),
)

-- What a matching endpoint answers: the result, or the text of the exception.
pub data Matched {ℓ} (A : Type ℓ) : Type ℓ where
  result : A → Matched A
  error_message : String → Matched A

-- `match_pending_reports` is an argument; `trigger_fnguide_match` has no other test than that of the
-- administrator.
unfoldable pub trigger_fnguide_match {ℓ} :
    {A : Type ℓ} → (ℕ → Bool → Matched A) → ℕ → Bool → Matched A
trigger_fnguide_match match_pending_reports limit dry_run = match_pending_reports limit dry_run

unfoldable pub trigger_fnguide_match_internal {ℓ} :
    {A : Type ℓ} → String → Option String → (ℕ → Bool → Matched A) → ℕ → Bool → Result (Matched A)
trigger_fnguide_match_internal jwt_secret_key none match_pending_reports limit dry_run =
    throw permission_denied "Invalid internal token"
trigger_fnguide_match_internal jwt_secret_key (some token) match_pending_reports limit dry_run =
    if str_eq token "" || not (str_eq token jwt_secret_key)
    then throw permission_denied "Invalid internal token"
    else ok (match_pending_reports limit dry_run)
