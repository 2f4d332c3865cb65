-- ===== src/Keywords/Tests.antt =====
-- The theorems about the keyword endpoints at a concrete table.
use ssh_reports_hub_fast_api.Prelude.{
  ◌≡◌, refl, Bool, true, false, String, List, [], ◌∷◌, ◌==◌, if◌then◌else◌,
}
use ssh_reports_hub_fast_api.Exceptions.{ok}
use ssh_reports_hub_fast_api.Keywords.{
  ReportKeyword, KeywordCreate, Table, Timestamp, datetime, unix, sync_keywords, update_keyword,
  edit_first, edit,
}
use ssh_reports_hub_fast_api.Keywords.Loop.{wanted, mem, occurrences, count}
use ssh_reports_hub_fast_api.Keywords.Sync.{
  is_active_for, sync_keywords-active, sync_keywords-count,
}

abbrev row : ReportKeyword
row = record {
  id = 1;
  user_id = 7;
  keyword = "semis";
  is_active = true;
  created_at = datetime 10;
  updated_at = datetime 10;
}

abbrev table : Table
table = record { rows = row ∷ []; next_id = 2 }

abbrev twice : List String
twice = " bonds" ∷ "bonds " ∷ "" ∷ []

sync_keywords-active_example :
    is_active_for 7 "bonds" (sync_keywords 20 7 twice table).0.rows ≡ mem "bonds" (wanted twice)
sync_keywords-active_example = sync_keywords-active 20 7 "bonds" twice table

sync_keywords-count_example : count 7 "bonds" (sync_keywords 20 7 twice table).0.rows ≡ (
    if count 7 "bonds" table.rows == 0
    then occurrences "bonds" (wanted twice)
    else count 7 "bonds" table.rows)
sync_keywords-count_example = sync_keywords-count 20 7 "bonds" twice table

abbrev silent : KeywordCreate
silent = record { keyword = "semis"; is_active = false }

abbrev accepts_all : Timestamp → Bool
accepts_all t = true

abbrev accepts_datetime : Timestamp → Bool
accepts_datetime (datetime n) = true
accepts_datetime (unix n) = false

updated :
    update_keyword accepts_all 20 7 1 silent table
    ≡ ok (record table { rows = edit 20 silent row ∷ [] })
unfolding update_keyword edit_first
updated = refl
