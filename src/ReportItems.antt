-- ===== src/ReportItems.antt =====
-- app/services/report_response.py: from a row of the view to an item of an answer. Floats and decimals are
-- of any type; `json.loads` and `float` are arguments, `none` where they raise.
pub mod Shape
pub mod Validation
mod Tests
use Prim.Native.String.{[], ◌∷◌}
use mathlib.Core.List.{[], ◌∷◌}
use ssh_reports_hub_fast_api.Prelude.{
  ℕ, zero, suc, String, Bool, true, false, not, ◌&&◌, ◌||◌, code, Option, none, some, List, map,
  length, str_eq, ◌==◌, if◌then◌else◌,
}

-- The values of a row and of an item. A datetime stands for its text by `isoformat`.
mutual
  pub data Value (R : Type 0) : Type 0 where
    null : Value R
    bool : Bool → Value R
    int : ℕ → Value R
    real : R → Value R
    str : String → Value R
    datetime : String → Value R
    arr : Items R → Value R
    obj : Fields R → Value R

  pub data Items (R : Type 0) : Type 0 where
    nil : Items R
    cons : Value R → Items R → Items R

  -- A dictionary in the order of its keys.
  pub data Fields (R : Type 0) : Type 0 where
    end : Fields R
    field : String → Value R → Fields R → Fields R

-- What `view_row_to_api_item` is given: a dictionary, or a row of SQLAlchemy with its mapping.
pub data ViewRow (R : Type 0) : Type 0 where
  dict : Fields R → ViewRow R
  sqlalchemy_row : Fields R → ViewRow R

-- `VIEW_TO_API_KEY_MAP`: each column keeps its name.
unfoldable pub view_keys : List String
view_keys =
    "firm_id" ∷ "board_id" ∷ "firm_nm" ∷ "mkt_tp" ∷ "report_date" ∷ "article_title" ∷ "telegram_url"
    ∷ "pdf_file_url" ∷ "writer" ∷ "gemini_summary" ∷ "tags" ∷ "stock_names" ∷ "sector"
    ∷ "target_price" ∷ "rating" ∷ "revision_type" ∷ "report_type" ∷ "stock_tickers" ∷ "save_at"
    ∷ "report_unique_key" ∷ "source_url" ∷ "summary_time" ∷ "summary_model" ∷ "telegram_sent"
    ∷ "report_id" ∷ []

unfoldable pub pdf_keys : List String
pdf_keys =
    "pdf_report_id" ∷ "pdf_file_path" ∷ "pdf_file_size" ∷ "pdf_page_count" ∷ "pdf_archive_status"
    ∷ "pdf_file_name" ∷ "pdf_has_text" ∷ "pdf_is_encrypted" ∷ "pdf_storage_backend"
    ∷ "pdf_storage_key" ∷ "pdf_author" ∷ "pdf_created_at" ∷ "pdf_updated_at"
    ∷ "pdf_last_accessed_at" ∷ []

unfoldable pub fs_keys : List String
fs_keys =
    "fs_summary_id" ∷ "fs_source_page_url" ∷ "fs_report_date" ∷ "fs_company_name"
    ∷ "fs_company_code" ∷ "fs_report_title" ∷ "fs_summary_text" ∷ "fs_opinion" ∷ "fs_target_price"
    ∷ "fs_prev_close" ∷ "fs_provider" ∷ "fs_author" ∷ "fs_article_url" ∷ "fs_pdf_url"
    ∷ "fs_report_key" ∷ "fs_item_rank" ∷ "fs_sync_status" ∷ "fs_created_at" ∷ "fs_updated_at" ∷ []

-- `key[n:]`
unfoldable pub drop_chars : ℕ → String → String
drop_chars zero s = s
drop_chars (suc n) [] = []
drop_chars (suc n) (c ∷ s) = drop_chars n s

-- `s.replace(" ", "T", 1)`
unfoldable pub replace_space : String → String
replace_space [] = []
replace_space (c ∷ s) = let rest = replace_space s in if code c == b' ' then "T" ∷ s else c ∷ rest

module _ {R : Type 0} where
  -- `mapping.get(key)`
  unfoldable pub get : String → Fields R → Value R
  get key end = null
  get key (field other value rest) = if str_eq other key then value else get key rest

  -- `key in mapping`
  unfoldable pub has_key : String → Fields R → Bool
  has_key key end = false
  has_key key (field other value rest) = str_eq other key || has_key key rest

  -- `item[key] = value`
  unfoldable pub set : String → Value R → Fields R → Fields R
  set key value end = field key value end
  set key value (field other old rest) =
      let after = set key value rest in
      if str_eq other key then field other value rest else field other old after

  abbrev pub is_null : Value R → Bool
  is_null null = true
  is_null _ = false

  -- `{key[n:]: mapping.get(key) for key in keys}`
  unfoldable pub pick : ℕ → List String → Fields R → Fields R
  unfolding get drop_chars
  pick n [] mapping = end
  pick n (key ∷ keys) mapping = field (drop_chars n key) (get key mapping) (pick n keys mapping)

  -- A nested dictionary, if its identifier is set.
  unfoldable pub nested : ℕ → String → List String → Fields R → Value R
  unfolding pick
  nested n id keys mapping = if is_null (get id mapping) then null else obj (pick n keys mapping)

module _ {R : Type 0} (is_zero : R → Bool) (loads : String → Option (Value R))
    (float : Value R → Option R) where
  abbrev pub list_or_empty : Option (Value R) → Items R
  list_or_empty (some (arr items)) = items
  list_or_empty _ = nil

  unfoldable pub parse_json_field : Value R → Items R
  parse_json_field (arr items) = items
  parse_json_field (str s) = list_or_empty (loads s)
  parse_json_field _ = nil

  -- Python's truth value.
  unfoldable pub is_truthy : Value R → Bool
  is_truthy null = false
  is_truthy (bool b) = b
  is_truthy (int n) = not (n == 0)
  is_truthy (real r) = not (is_zero r)
  is_truthy (str s) = not (str_eq s "")
  is_truthy (datetime s) = true
  is_truthy (arr nil) = false
  is_truthy (arr (cons v vs)) = true
  is_truthy (obj end) = false
  is_truthy (obj (field k v fs)) = true

  -- `str(value) == 'Y'`: only the text itself has this text.
  unfoldable pub is_y : Value R → Bool
  is_y (str s) = str_eq s "Y"
  is_y _ = false

  unfoldable pub scraped_text : Value R → Value R
  unfolding replace_space
  scraped_text (datetime iso) = str iso
  scraped_text (str s) = str (replace_space s)
  scraped_text v = v

  abbrev pub or_same : Value R → Option R → Value R
  or_same v (some r) = real r
  or_same v none = v

  -- `float(value)`; a value that it refuses stays.
  unfoldable pub price : Value R → Value R
  price null = null
  price v = or_same v (float v)

  -- The assignments to the item, in their order.
  unfoldable pub item_of : Fields R → Fields R
  unfolding pick set nested parse_json_field price
  item_of mapping =
      let picked = pick 0 view_keys mapping in
      let direct =
        set "is_direct" (if is_y (get "is_direct" mapping) then bool true else null) picked in
      let sent = set "send_user" null direct in
      let scraped =
        if is_truthy (get "scraped_at" mapping)
        then get "scraped_at" mapping
        else get "save_at" mapping in
      let dated = set "scraped_at" (scraped_text scraped) sent in
      let tagged = set "tags" (arr (parse_json_field (get "tags" dated))) dated in
      let named = set "stock_names" (arr (parse_json_field (get "stock_names" tagged))) tagged in
      let listed = set "stock_tickers" (arr (parse_json_field (get "stock_tickers" named))) named in
      let archived = set "pdf_archive" (nested 4 "pdf_report_id" pdf_keys mapping) listed in
      let summed = set "fnguide_summary" (nested 3 "fs_summary_id" fs_keys mapping) archived in
      set "target_price" (price (get "target_price" summed)) summed

  -- A dictionary that is an item already is given back.
  unfoldable pub view_row_to_api_item : ViewRow R → Fields R
  unfolding item_of
  view_row_to_api_item (dict d) =
      if has_key "report_id" d && has_key "pdf_archive" d then d else item_of d
  view_row_to_api_item (sqlalchemy_row m) = item_of m

  -- The items of `collection_response` with its numbers; the links are the URL of the request.
  pub record Collection : Type 0 where
    pub items : List (Fields R)
    pub has_more : Bool
    pub limit : ℕ
    pub offset : ℕ
    pub count : ℕ

  unfoldable pub collection_response : List (ViewRow R) → ℕ → ℕ → Bool → Collection
  collection_response rows limit offset has_more = record {
    items = map view_row_to_api_item rows;
    has_more = has_more;
    limit = limit;
    offset = offset;
    count = length rows;
  }
