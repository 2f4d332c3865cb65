-- ===== src/Reports.antt =====
-- The lists and the summary setting of app/routers/reports.py. The file of the setting is its text, if there
-- is one; `json.loads`, `json.dumps` and the validation of a response are arguments.
pub mod Laws
mod Tests
use Prim.Native.String.{◌++◌ as append}
use ssh_reports_hub_fast_api.Prelude.{
  ℕ, String, Bool, true, false, ◌&&◌, ◌||◌, Option, none, some, List, [], ◌∷◌, map, str_eq,
  if◌then◌else◌,
}
use ssh_reports_hub_fast_api.ReportQuery.{
  Param, int, ListArgs, build_report_list_query, placeholder,
}
use ssh_reports_hub_fast_api.Endpoints.{Database}
use ssh_reports_hub_fast_api.Exceptions.{Result, ok, raise, throw, service_unavailable}
use ssh_reports_hub_fast_api.ReportItems.{
  Value, Fields, str, obj, end, field, dict, get, has_key, pick, view_row_to_api_item,
}

module _ {R : Type 0} (is_zero : R → Bool) (loads : String → Option (Value R))
    (float : Value R → Option R) where
  -- `get_reports`; the connection is closed on every path.
  unfoldable pub get_reports : Database (Fields R) → ListArgs → ℕ → ℕ → List (Fields R)
  get_reports db a limit offset =
      let (sql, params) = build_report_list_query a limit offset db.is_postgres in
      map (λ row. view_row_to_api_item is_zero loads float (dict row)) (db.fetch sql params)

-- `data.get("visibility", "admin")`; a value that is no dictionary raises, which gives "admin" too.
unfoldable pub visibility_of : {R : Type 0} → Option (Value R) → Value R
unfolding get has_key
visibility_of (some (obj fields)) =
    if has_key "visibility" fields then get "visibility" fields else str "admin"
visibility_of _ = str "admin"

-- `none` for a file that is not there or cannot be read.
unfoldable pub load_llm_visibility :
    {R : Type 0} → (String → Option (Value R)) → Option String → Value R
unfolding visibility_of
load_llm_visibility loads none = str "admin"
load_llm_visibility loads (some content) = visibility_of (loads content)

-- The pattern of `LLMSettingUpdate`.
unfoldable pub is_visibility : String → Bool
is_visibility s = str_eq s "admin" || str_eq s "telegram"

abbrev pub setting : {R : Type 0} → String → Value R
setting visibility = obj (field "visibility" (str visibility) end)

-- The answer and the file, for a payload of the pattern and with the text of the exception where the write
-- fails; the file is then left as the argument `partial` says.
unfoldable pub update_llm_setting_admin :
    {R : Type 0}
    → (Value R → String)
    → Option String
    → Option String
    → String
    → Result String × Option String
update_llm_setting_admin dumps none partial visibility =
    (ok visibility, some (dumps (setting visibility)))
update_llm_setting_admin dumps (some e) partial visibility =
    (throw service_unavailable (append "Failed to save setting: " e), partial)

unfoldable pub notification_columns : List String
notification_columns =
    "id" ∷ "report_id" ∷ "article_title" ∷ "firm_nm" ∷ "firm_id" ∷ "summary_model" ∷ "message"
    ∷ "pdf_file_url" ∷ "telegram_url" ∷ "source_url" ∷ "created_at" ∷ []

unfoldable pub notifications_sql : Bool → String
notifications_sql is_postgres =
    append
      "SELECT n.id, n.report_id, n.article_title, n.firm_nm, n.summary_model, n.message, n.created_at, r.pdf_url AS pdf_file_url, r.telegram_url, NULL AS source_url, r.firm_id FROM tbl_sec_reports_notifications n LEFT JOIN tbl_sec_reports r ON n.report_id = r.report_id ORDER BY n.created_at DESC LIMIT "
      (placeholder is_postgres)

unfoldable pub send_history_sql : Bool → String
send_history_sql is_postgres =
    append
      "SELECT h.id, h.report_id, h.user_id, h.keyword, h.sent_at, r.article_title, r.firm_nm FROM tbl_report_send_history h LEFT JOIN tbl_sec_reports r ON h.report_id = r.report_id WHERE h.user_id = "
      (append (placeholder is_postgres)
        (append " ORDER BY h.sent_at DESC LIMIT " (placeholder is_postgres)))

-- A statement on a raw connection: the rows, or `none` where connecting or executing raises.
pub record RawDatabase (R : Type 0) : Type 0 where
  pub is_postgres : Bool
  pub execute : String → List Param → Option (List (Fields R))

module _ {R : Type 0} (validate : Fields R → Option (Fields R)) where
  -- The responses of the rows; one that is refused raises, and then there is none.
  unfoldable pub responses : List (Fields R) → Option (List (Fields R))
  responses [] = some []
  responses (row ∷ rows) = elim (validate row) [
    | none ↦ none
    | some response ↦ elim (responses rows) [ none ↦ none | some rest ↦ some (response ∷ rest) ]
  ]

  -- `except Exception: return []`
  abbrev pub or_empty_list : Option (List (Fields R)) → List (Fields R)
  or_empty_list none = []
  or_empty_list (some rows) = rows

  abbrev pub answered : Option (List (Fields R)) → List (Fields R)
  answered none = []
  answered (some rows) = or_empty_list (responses rows)

  unfoldable pub get_summary_notifications : RawDatabase R → ℕ → List (Fields R)
  get_summary_notifications db limit =
      elim (db.execute (notifications_sql db.is_postgres) (int limit ∷ [])) [
        | none ↦ []
        | some rows ↦ answered (some (map (pick 0 notification_columns) rows))
      ]

  unfoldable pub get_send_history : RawDatabase R → ℕ → ℕ → List (Fields R)
  get_send_history db user limit =
      answered (db.execute (send_history_sql db.is_postgres) (int user ∷ int limit ∷ []))
