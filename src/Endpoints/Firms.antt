-- ===== src/Endpoints/Firms.antt =====
-- `get_companies` and `get_boards` (app/routers/external_api.py), as the handlers below the decorator of
-- the cache.
use ssh_reports_hub_fast_api.Prelude.{
  ℕ, String, Bool, false, Option, none, some, List, [], ◌∷◌, map, str_eq,
}
use ssh_reports_hub_fast_api.ReportQuery.{int}
use ssh_reports_hub_fast_api.Endpoints.{Database, execute_raw_query}

abbrev pub companies_sql : String
companies_sql =
    "SELECT f.firm_id AS firm_id, f.firm_nm, f.telegram_update_yn AS is_direct_link, f.comment_pdf_url AS description, COUNT(r.report_id) AS report_count FROM tbm_sec_firm_info f JOIN tbl_sec_reports r ON f.firm_id = r.firm_id WHERE r.telegram_sent = TRUE GROUP BY f.firm_id, f.firm_nm, f.telegram_update_yn, f.comment_pdf_url ORDER BY f.firm_id ASC"

abbrev pub boards_sql : String
boards_sql =
    "SELECT b.firm_id AS firm_id, b.board_id AS board_id, b.board_nm, b.label_nm, COUNT(r.report_id) AS report_count FROM tbm_sec_firm_board_info b LEFT OUTER JOIN tbl_sec_reports r ON b.firm_id = r.firm_id AND b.board_id = r.board_id AND r.telegram_sent = TRUE WHERE b.firm_id = %s GROUP BY b.firm_id, b.board_id, b.board_nm, b.label_nm ORDER BY b.board_id ASC"

pub record CompanyRow : Type 0 where
  pub firm_id : ℕ
  pub firm_nm : String
  pub is_direct_link : Option String
  pub description : Option String
  pub report_count : ℕ

pub record CompanyResponse : Type 0 where
  pub firm_id : ℕ
  pub name : String
  pub is_direct : Bool
  pub note : Option String
  pub report_count : ℕ

-- `row["is_direct_link"] == 'Y'`
unfoldable pub is_yes : Option String → Bool
is_yes none = false
is_yes (some text) = str_eq text "Y"

unfoldable pub company_response : CompanyRow → CompanyResponse
unfolding is_yes
company_response row = record {
  firm_id = row.firm_id;
  name = row.firm_nm;
  is_direct = is_yes row.is_direct_link;
  note = row.description;
  report_count = row.report_count;
}

unfoldable pub get_companies : Database CompanyRow → List CompanyResponse
get_companies db = map company_response (execute_raw_query db companies_sql [])

pub record BoardResponse : Type 0 where
  pub firm_id : ℕ
  pub board_id : ℕ
  pub board_nm : String
  pub label_nm : Option String
  pub report_count : ℕ

-- A row has the fields of the response.
unfoldable pub get_boards : Database BoardResponse → ℕ → List BoardResponse
get_boards db company = execute_raw_query db boards_sql (int company ∷ [])
