-- ===== src/Reports/Laws.antt =====
-- The summary setting and the lists of app/routers/reports.py.
use ssh_reports_hub_fast_api.Prelude.{
  ℕ, ◌≡◌, refl, arith, String, inl, inr, Option, Option-cases, none, some, List, [], ◌∷◌, ◌++◌,
  length,
}
use ssh_reports_hub_fast_api.ReportQuery.{int}
use ssh_reports_hub_fast_api.ReportItems.{Value, Fields, str, get, has_key}
use ssh_reports_hub_fast_api.Reports.{
  visibility_of, load_llm_visibility, setting, update_llm_setting_admin, RawDatabase,
  send_history_sql, responses, get_send_history,
}

-- Where what `json.dump` writes of a setting is read back by `json.load`, a setting that was saved is the one
-- that is loaded.
pub load-update_llm_setting :
    {R : Type 0} (loads : String → Option (Value R)) (dumps : Value R → String)
    (partial : Option String) (visibility : String)
    → loads (dumps (setting visibility)) ≡ some (setting visibility)
    → load_llm_visibility loads (update_llm_setting_admin dumps none partial visibility).1
      ≡ str visibility
unfolding load_llm_visibility visibility_of update_llm_setting_admin get has_key
load-update_llm_setting loads dumps partial visibility h = rw h refl

module _ {R : Type 0} (validate : Fields R → Option (Fields R)) where
  length-responses :
      (rows responded : List (Fields R))
      → responses validate rows ≡ some responded
      → length responded ≡ length rows
  unfolding responses
  length-responses [] responded h = grind arith
  length-responses (row ∷ rows) responded h = elim (Option-cases (validate row)) [
    | inl refused ↦ grind arith
    | inr (response, accepted) ↦ elim (Option-cases (responses validate rows)) [
      | inl refused ↦ grind arith
      | inr (rest, answer) ↦ let bound = length-responses rows rest answer in grind arith
    ]
  ]

  responses_refused :
      (before : List (Fields R)) (row : Fields R) (after : List (Fields R))
      → validate row ≡ none
      → responses validate (before ++ row ∷ after) ≡ none
  unfolding responses
  responses_refused [] row after h = rw h refl
  responses_refused (first ∷ before) row after h =
      let refused = responses_refused before row after h in
      elim (Option-cases (validate first)) [
        | inl e ↦ rw e refl
        | inr (response, e) ↦ rw e (rw refused refl)
      ]

  -- Where the statement succeeds and every row is a response, the history has one item for each row.
  pub length-get_send_history :
      (db : RawDatabase R) (user limit : ℕ) (rows responded : List (Fields R))
      → db.execute (send_history_sql db.is_postgres) (int user ∷ int limit ∷ []) ≡ some rows
      → responses validate rows ≡ some responded
      → length (get_send_history validate db user limit) ≡ length rows
  unfolding get_send_history
  length-get_send_history db user limit rows responded h k =
      rw h (rw k (length-responses rows responded k))

  -- One row that is refused as a response empties the whole history, whatever rows stand around it.
  pub get_send_history_refused :
      (db : RawDatabase R) (user limit : ℕ) (before : List (Fields R)) (row : Fields R)
      (after : List (Fields R))
      → db.execute (send_history_sql db.is_postgres) (int user ∷ int limit ∷ [])
        ≡ some (before ++ row ∷ after)
      → validate row ≡ none
      → get_send_history validate db user limit ≡ []
  unfolding get_send_history
  get_send_history_refused db user limit before row after h k =
      rw h (rw (responses_refused before row after k) refl)
