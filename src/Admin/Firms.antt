-- ===== src/Admin/Firms.antt =====
-- `get_firm_health` of app/routers/admin.py. A date is its number of days; `date.fromisoformat` on the first
-- ten characters of a text, and `isoformat`, are arguments. The grouped rows are the database's.
use ssh_reports_hub_fast_api.Prelude.{
  ℕ, ◌+◌, ◌-◌, ◌≡◌, refl, arith, String, Bool, true, false, ◌||◌, Option, none, some, List, [], ◌∷◌,
  map, filter, length, length-map, leb, ltb, if◌then◌else◌,
}
use ssh_reports_hub_fast_api.Prelude.Int.{ℤ, pos, negsuc}

-- The value of `last_report_date`.
pub data DateValue : Type 0 where
  date : ℕ → DateValue
  null : DateValue
  text : String → DateValue

pub record FirmRow : Type 0 where
  pub firm_id : ℕ
  pub firm_nm : String
  pub total : ℕ
  pub last_report_date : DateValue
  pub last_save : Option String

pub data Status : Type 0 where
  stale warn future fine : Status

pub record Firm : Type 0 where
  pub firm_id : ℕ
  pub firm_nm : String
  pub total : ℕ
  pub last_report_date : String
  pub last_save : Option String
  pub days_ago : ℤ
  pub status : Status

pub record FirmHealth : Type 0 where
  pub firms : List Firm
  pub alerts : List Firm
  pub total_firms : ℕ
  pub stale_count : ℕ
  pub warn_count : ℕ
  pub ok_count : ℕ

-- `(today - last_date).days`
unfoldable pub days_between : ℕ → ℕ → ℤ
days_between today last = if leb last today then pos (today - last) else negsuc (last - today - 1)

unfoldable pub days_ago : ℕ → Option ℕ → ℤ
unfolding days_between
days_ago today none = negsuc 0
days_ago today (some last) = days_between today last

-- `days >= n`
abbrev pub at_least : ℕ → ℤ → Bool
at_least n (pos days) = leb n days
at_least n (negsuc days) = false

abbrev pub is_negative : ℤ → Bool
is_negative (pos days) = false
is_negative (negsuc days) = true

unfoldable pub firm_status : ℤ → Status
firm_status days =
    if at_least 30 days
    then stale
    else (if at_least 7 days then warn else (if is_negative days then future else fine))

abbrev pub is_stale : Status → Bool
is_stale stale = true
is_stale _ = false

abbrev pub is_warn : Status → Bool
is_warn warn = true
is_warn _ = false

abbrev pub is_future : Status → Bool
is_future future = true
is_future _ = false

abbrev pub is_fine : Status → Bool
is_fine fine = true
is_fine _ = false

-- The firms with a status.
abbrev pub with_status : (Status → Bool) → List Firm → List Firm
with_status p = filter (λ (f : Firm). p f.status)

module _ (fromisoformat : String → Option ℕ) (isoformat : ℕ → String) where
  unfoldable pub parse_report_date : DateValue → Option ℕ
  parse_report_date (date d) = some d
  parse_report_date null = none
  parse_report_date (text s) = fromisoformat s

  abbrev pub iso_or_empty : Option ℕ → String
  iso_or_empty none = ""
  iso_or_empty (some d) = isoformat d

  unfoldable pub firm_of : ℕ → FirmRow → Firm
  unfolding parse_report_date days_ago firm_status
  firm_of today row =
      let last = parse_report_date row.last_report_date in
      record {
        firm_id = row.firm_id;
        firm_nm = row.firm_nm;
        total = row.total;
        last_report_date = iso_or_empty last;
        last_save = row.last_save;
        days_ago = days_ago today last;
        status = firm_status (days_ago today last);
      }

  -- The alerts are appended with their firms, and the statuses counted after the loop.
  unfoldable pub get_firm_health : ℕ → List FirmRow → FirmHealth
  get_firm_health today rows =
      let firms = map (firm_of today) rows in
      record {
        firms = firms;
        alerts = with_status (λ s. is_stale s || is_warn s) firms;
        total_firms = length firms;
        stale_count = length (with_status is_stale firms);
        warn_count = length (with_status is_warn firms);
        ok_count = length (with_status is_fine firms);
      }

-- The status of a firm, read from the days on which it changes.
abbrev pub status_on : ℕ → Option ℕ → Status
status_on today none = future
status_on today (some last) =
    if ltb today last
    then future
    else (if ltb today (last + 7) then fine else (if ltb today (last + 30) then warn else stale))

firm_status-days_ago :
    (today : ℕ) (last : Option ℕ) → firm_status (days_ago today last) ≡ status_on today last
unfolding firm_status days_ago
firm_status-days_ago today none = refl
firm_status-days_ago today (some last) = ground arith

length-alerts :
    (firms : List Firm)
    → length (with_status (λ s. is_stale s || is_warn s) firms)
      ≡ length (with_status is_stale firms) + length (with_status is_warn firms)
length-alerts [] = omega arith
length-alerts (f ∷ rest) = ground (arith, length-alerts rest)

length-statuses :
    (firms : List Firm)
    → length (with_status is_stale firms)
        + length (with_status is_warn firms)
        + length (with_status is_fine firms)
        + length (with_status is_future firms)
      ≡ length firms
length-statuses [] = omega arith
length-statuses (f ∷ rest) = ground (arith, length-statuses rest)

abbrev pub status_of : Firm → Status
status_of f = f.status

module _ (fromisoformat : String → Option ℕ) (isoformat : ℕ → String) (today : ℕ) where
  abbrev pub expected : FirmRow → Status
  expected row = status_on today (parse_report_date fromisoformat isoformat row.last_report_date)

  statuses :
      (rows : List FirmRow)
      → map status_of (map (firm_of fromisoformat isoformat today) rows) ≡ map expected rows
  unfolding firm_of
  statuses [] = refl
  statuses (row ∷ rows) =
      cons_same
        (firm_status-days_ago today
          (parse_report_date fromisoformat isoformat row.last_report_date))
        (statuses rows)
    where
      cons_same :
          {a b : Status} {l m : List Status} → a ≡ b → l ≡ m → ◌≡◌ {A = List Status} (a ∷ l) (b ∷ m)
      cons_same p q = cc

  -- The answer has one firm for each row, in their order: STALE from the thirtieth day after its last
  -- report on, WARN from the seventh on, OK before that, and FUTURE before the day of the report or if no
  -- date can be read. There are as many alerts as stale and warned firms, and the firms that no count
  -- names are those marked FUTURE.
  pub get_firm_health_lem :
      (rows : List FirmRow)
      → let health = get_firm_health fromisoformat isoformat today rows in
        (map status_of health.firms ≡ map expected rows)
        × (length health.alerts ≡ health.stale_count + health.warn_count)
        × (health.stale_count
              + health.warn_count
              + health.ok_count
              + length (with_status is_future health.firms)
            ≡ health.total_firms)
        × (health.total_firms ≡ length rows)
  unfolding get_firm_health
  get_firm_health_lem rows =
      let firms = map (firm_of fromisoformat isoformat today) rows in
      (
        statuses rows,
        length-alerts firms,
        length-statuses firms,
        length-map (firm_of fromisoformat isoformat today) rows,
      )
