-- ===== src/Keywords.antt =====
-- The keyword endpoints of app/main.py over the table of `ReportKeyword` (app/models.py).
-- The session of app/database.py is built with `autoflush=False`: until the commit a query sees
-- the rows of the table and not the objects that the request has added.
mod Loop
pub mod Sync
pub mod Update
mod Tests
use ssh_reports_hub_fast_api.Prelude.{
  ℕ, ◌+◌, String, Bool, true, false, not, ◌&&◌, ◌≡◌, Option, none, some, List, [], ◌∷◌, ◌++◌, map,
  filter, any, str_eq, ◌==◌, if◌then◌else◌,
}
use ssh_reports_hub_fast_api.Text.{strip, is_space}
use ssh_reports_hub_fast_api.Exceptions.{Result, ok, raise, other, throw, not_found}

-- A value in a timestamp column: a point in time, or the plain integer that `time.time()` gives.
pub data Timestamp : Type 0 where
  datetime : ℕ → Timestamp
  unix : ℕ → Timestamp

pub record ReportKeyword : Type 0 where
  pub id : ℕ
  pub user_id : ℕ
  pub keyword : String
  pub is_active : Bool
  pub created_at : Timestamp
  pub updated_at : Timestamp

-- The table and its sequence of identifiers.
pub record Table : Type 0 where
  pub rows : List ReportKeyword
  pub next_id : ℕ

-- An object that is added to the session and has no identifier yet.
pub record NewKeyword : Type 0 where
  pub user_id : ℕ
  pub keyword : String
  pub is_active : Bool

-- `filter(ReportKeyword.user_id == user, ReportKeyword.keyword == text)`
abbrev pub matches : ℕ → String → ReportKeyword → Bool
matches user kw row = row.user_id == user && str_eq row.keyword kw

abbrev pub present : ℕ → String → List ReportKeyword → Bool
present user kw = any (matches user kw)

-- `user_id == user, is_active == True`
abbrev pub active_of : ℕ → ReportKeyword → Bool
active_of user row = row.user_id == user && row.is_active

unfoldable pub get_my_keywords : ℕ → Table → List ReportKeyword
get_my_keywords user t = filter (active_of user) t.rows

-- `update({"is_active": False})` on the rows of the user; `onupdate` sets `updated_at`.
abbrev pub deactivate : ℕ → ℕ → ReportKeyword → ReportKeyword
deactivate now user row =
    if row.user_id == user then record row { is_active = false; updated_at = datetime now } else row

-- `db_kw.is_active = True`: a change only if it was false, and then `updated_at` is set too.
abbrev pub activate : ℕ → ReportKeyword → ReportKeyword
activate now row =
    if row.is_active then row else record row { is_active = true; updated_at = datetime now }

-- The same on the row that `.first()` returns.
unfoldable pub activate_first : ℕ → ℕ → String → List ReportKeyword → List ReportKeyword
activate_first now user kw [] = []
activate_first now user kw (row ∷ rows) =
    let rest = activate_first now user kw rows in
    if matches user kw row then activate now row ∷ rows else row ∷ rest

-- The inserts of a commit: identifiers from the sequence, both times by the server's clock.
unfoldable pub insert_rows : ℕ → ℕ → List NewKeyword → List ReportKeyword
insert_rows now next [] = []
insert_rows now next (new ∷ rest) =
    record {
      id = next;
      user_id = new.user_id;
      keyword = new.keyword;
      is_active = new.is_active;
      created_at = datetime now;
      updated_at = datetime now;
    }
    ∷ insert_rows now (next + 1) rest

abbrev pub count_new : List NewKeyword → ℕ
count_new [] = 0
count_new (new ∷ rest) = count_new rest + 1

unfoldable pub commit_new : ℕ → List NewKeyword → Table → Table
unfolding insert_rows
commit_new now pending t = record {
  rows = t.rows ++ insert_rows now t.next_id pending;
  next_id = t.next_id + count_new pending;
}

-- The loop of `sync_keywords` over the rows (changed in place) and the objects added so far.
unfoldable pub sync_loop :
    ℕ
    → ℕ
    → List String
    → List ReportKeyword × List NewKeyword
    → List ReportKeyword × List NewKeyword
unfolding activate_first
sync_loop now user [] s = s
sync_loop now user (text ∷ texts) (rows, pending) =
    let kw = strip is_space text in
    sync_loop now user texts (
      if str_eq kw ""
      then (rows, pending)
      else (if present user kw rows
          then (activate_first now user kw rows, pending)
          else (rows, pending ++ record { user_id = user; keyword = kw; is_active = true } ∷ [])))

unfoldable pub sync_keywords : ℕ → ℕ → List String → Table → Table × List ReportKeyword
unfolding sync_loop commit_new get_my_keywords
sync_keywords now user texts t =
    let s = sync_loop now user texts (map (deactivate now user) t.rows, []) in
    let t' = commit_new now s.1 (record t { rows = s.0 }) in (t', get_my_keywords user t')

pub record KeywordCreate : Type 0 where
  pub keyword : String
  pub is_active : Bool

unfoldable pub add_keyword : ℕ → ℕ → KeywordCreate → Table → Table
unfolding activate_first commit_new
add_keyword now user new t =
    if present user new.keyword t.rows
    then record t { rows = activate_first now user new.keyword t.rows }
    else commit_new now
        (record { user_id = user; keyword = new.keyword; is_active = new.is_active } ∷ []) t

-- `filter(ReportKeyword.id == keyword_id, ReportKeyword.user_id == user)`
abbrev pub owns : ℕ → ℕ → ReportKeyword → Bool
owns user keyword_id row = row.id == keyword_id && row.user_id == user

abbrev pub edit : ℕ → KeywordCreate → ReportKeyword → ReportKeyword
edit seconds new row = record row {
  keyword = new.keyword;
  is_active = new.is_active;
  updated_at = unix seconds;
}

unfoldable pub edit_first : ℕ → ℕ → ℕ → KeywordCreate → List ReportKeyword → List ReportKeyword
edit_first seconds user keyword_id new [] = []
edit_first seconds user keyword_id new (row ∷ rows) =
    let rest = edit_first seconds user keyword_id new rows in
    if owns user keyword_id row then edit seconds new row ∷ rows else row ∷ rest

-- `update_keyword`; `accepts` says whether the column type takes a value at the commit.
unfoldable pub update_keyword :
    (Timestamp → Bool) → ℕ → ℕ → ℕ → KeywordCreate → Table → Result Table
unfolding edit_first
update_keyword accepts seconds user keyword_id new t =
    if not (any (owns user keyword_id) t.rows)
    then throw not_found "Keyword Not Found"
    else (if accepts (unix seconds)
        then ok (record t { rows = edit_first seconds user keyword_id new t.rows })
        else raise (other "StatementError"))
