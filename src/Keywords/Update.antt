-- ===== src/Keywords/Update.antt =====
-- What `add_keyword` and `update_keyword` of app/main.py change.
use ssh_reports_hub_fast_api.Prelude.{
  ℕ, String, Bool, false, true, ◌||◌, ◌&&◌, ◌≡◌, refl, ◌≢◌, List, [], ◌∷◌, any, any-append, arith,
  eq_iff, inl, inr, Bool-cases,
}
use ssh_reports_hub_fast_api.Exceptions.{ok}
use ssh_reports_hub_fast_api.Keywords.{
  ReportKeyword, KeywordCreate, Table, Timestamp, unix, present, add_keyword, owns, edit_first,
  update_keyword, insert_rows, matches,
}
use ssh_reports_hub_fast_api.Keywords.Sync.{is_active_for, active-activate_first, others}

active_absent :
    (user : ℕ) (kw : String) (rows : List ReportKeyword)
    → present user kw rows ≡ false
    → is_active_for user kw rows ≡ false
active_absent user kw [] h = refl
active_absent user kw (row ∷ rows) h = ground (arith, active_absent user kw rows)

-- After `add_keyword` the keyword is active, unless it is new to the user and the request asks for
-- an inactive one: for a keyword that the user has, the flag of the request is not read.
pub add_keyword-active :
    (now user : ℕ) (new : KeywordCreate) (t : Table)
    → is_active_for user new.keyword (add_keyword now user new t).rows
      ≡ (present user new.keyword t.rows || new.is_active)
unfolding add_keyword insert_rows
add_keyword-active now user new t = elim (Bool-cases (present user new.keyword t.rows)) [
  | inl e ↦ rw e (
      ground (
        arith,
        active-activate_first now user new.keyword new.keyword t.rows,
        eq_iff new.keyword new.keyword,
      ))
  | inr e ↦ rw e (
      ground (
        arith,
        any-append (λ row. matches user new.keyword row && row.is_active) t.rows
            (insert_rows now t.next_id
              (record { user_id = user; keyword = new.keyword; is_active = new.is_active } ∷ [])),
        active_absent user new.keyword t.rows e,
        eq_iff new.keyword new.keyword,
      ))
]

edit_first-others :
    (seconds user keyword_id : ℕ) (new : KeywordCreate) (rows : List ReportKeyword)
    → others user (edit_first seconds user keyword_id new rows) ≡ others user rows
unfolding edit_first
edit_first-others seconds user keyword_id new [] = refl
edit_first-others seconds user keyword_id new (row ∷ rows) =
    ground (arith, edit_first-others seconds user keyword_id new rows)

-- If `update_keyword` succeeds, the identifier named a row of the user, and the rows of all other
-- users are as they were.
pub update_keyword-others :
    (accepts : Timestamp → Bool) (seconds user keyword_id : ℕ) (new : KeywordCreate) (t : Table)
    {t' : Table}
    → update_keyword accepts seconds user keyword_id new t ≡ ok t'
    → (any (owns user keyword_id) t.rows ≡ true) × (others user t'.rows ≡ others user t.rows)
unfolding update_keyword
update_keyword-others accepts seconds user keyword_id new t h =
    ground (arith, edit_first-others seconds user keyword_id new t.rows)

-- If the timestamp column refuses plain integers, `update_keyword` never succeeds: it assigns
-- `int(time.time())` to `updated_at`.
pub update_keyword_never_saves :
    (accepts : Timestamp → Bool)
    → ((seconds : ℕ) → accepts (unix seconds) ≡ false)
    → (seconds user keyword_id : ℕ) (new : KeywordCreate) (t t' : Table)
    → update_keyword accepts seconds user keyword_id new t ≢ ok t'
unfolding update_keyword
update_keyword_never_saves accepts refuses seconds user keyword_id new t t' h =
    ground (arith, refuses seconds)
