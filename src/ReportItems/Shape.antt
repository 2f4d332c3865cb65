-- ===== src/ReportItems/Shape.antt =====
-- The shape of an item of app/services/report_response.py.
use mathlib.Core.Path.{subst}
use ssh_reports_hub_fast_api.Prelude.{
  ℕ, ◌≡◌, refl, arith, String, Bool, true, false, ◌&&◌, Option, List, [], ◌∷◌, str_eq, All, any,
  eq_iff, Bool-cases, inl, inr,
}
use ssh_reports_hub_fast_api.ReportItems.{
  Value, Fields, ViewRow, dict, sqlalchemy_row, arr, end, field, view_keys, pdf_keys, fs_keys, get,
  has_key, is_null, nested, parse_json_field, item_of, view_row_to_api_item,
}

abbrev pub keys : {R : Type 0} → Fields R → List String
keys end = []
keys (field key value rest) = key ∷ keys rest

-- The keys of every item, in their order.
abbrev pub item_keys : List String
item_keys =
    "firm_id" ∷ "board_id" ∷ "firm_nm" ∷ "mkt_tp" ∷ "report_date" ∷ "article_title" ∷ "telegram_url"
    ∷ "pdf_file_url" ∷ "writer" ∷ "gemini_summary" ∷ "tags" ∷ "stock_names" ∷ "sector"
    ∷ "target_price" ∷ "rating" ∷ "revision_type" ∷ "report_type" ∷ "stock_tickers" ∷ "save_at"
    ∷ "report_unique_key" ∷ "source_url" ∷ "summary_time" ∷ "summary_model" ∷ "telegram_sent"
    ∷ "report_id" ∷ "is_direct" ∷ "send_user" ∷ "scraped_at" ∷ "pdf_archive" ∷ "fnguide_summary"
    ∷ []

-- The columns that an item carries as the row has them.
abbrev pub kept_keys : List String
kept_keys =
    "firm_id" ∷ "board_id" ∷ "firm_nm" ∷ "mkt_tp" ∷ "report_date" ∷ "article_title" ∷ "telegram_url"
    ∷ "pdf_file_url" ∷ "writer" ∷ "gemini_summary" ∷ "sector" ∷ "rating" ∷ "revision_type"
    ∷ "report_type" ∷ "save_at" ∷ "report_unique_key" ∷ "source_url" ∷ "summary_time"
    ∷ "summary_model" ∷ "telegram_sent" ∷ "report_id" ∷ []

abbrev pub mapping_of : {R : Type 0} → ViewRow R → Fields R
mapping_of (dict d) = d
mapping_of (sqlalchemy_row m) = m

abbrev pub among : String → List String → Bool
among k = any (λ other. str_eq other k)

All-among :
    (P : String → Type 0) (ks : List String) → All P ks → (k : String) → among k ks ≡ true → P k
All-among P [] h k e = absurd (ground (arith, e))
All-among P (other ∷ ks) h k e = elim (Bool-cases (str_eq other k)) [
  | inl same ↦ subst P ((eq_iff other k).0 same) h.0
  | inr differs ↦ All-among P ks h.1 k (ground (arith, e))
]

-- `isinstance(row, dict) and 'report_id' in row and 'pdf_archive' in row`
abbrev pub is_item : {R : Type 0} → ViewRow R → Bool
is_item (dict d) = has_key "report_id" d && has_key "pdf_archive" d
is_item (sqlalchemy_row m) = false

-- The shape of the item of a mapping.
pub record HasShape {R : Type 0} (parsed : Value R → Value R) (mapping item : Fields R)
    : Type 0 where
  pub keys_fixed : keys item ≡ item_keys
  pub kept : (k : String) → among k kept_keys ≡ true → get k item ≡ get k mapping
  pub tags : get "tags" item ≡ parsed (get "tags" mapping)
  pub stock_names : get "stock_names" item ≡ parsed (get "stock_names" mapping)
  pub stock_tickers : get "stock_tickers" item ≡ parsed (get "stock_tickers" mapping)
  pub pdf_archive : is_null (get "pdf_archive" item) ≡ is_null (get "pdf_report_id" mapping)
  pub fnguide_summary : is_null (get "fnguide_summary" item) ≡ is_null (get "fs_summary_id" mapping)

module _ {R : Type 0} (is_zero : R → Bool) (loads : String → Option (Value R))
    (float : Value R → Option R) where
  abbrev pub item : Fields R → Fields R
  item = item_of is_zero loads float

  item_of-keys : (m : Fields R) → keys (item m) ≡ item_keys
  unfolding item_of view_keys
  item_of-keys m = refl

  item_of-kept : (m : Fields R) → All (λ k. get k (item m) ≡ get k m) kept_keys
  unfolding item_of view_keys
  item_of-kept m = (
    refl,
    (
      refl,
      (
        refl,
        (
          refl,
          (
            refl,
            (
              refl,
              (
                refl,
                (
                  refl,
                  (
                    refl,
                    (
                      refl,
                      (
                        refl,
                        (
                          refl,
                          (
                            refl,
                            (refl, (refl, (refl, (refl, (refl, (refl, (refl, (refl, tt)))))))),
                          ),
                        ),
                      ),
                    ),
                  ),
                ),
              ),
            ),
          ),
        ),
      ),
    ),
  )

  nested-is_null :
      (n : ℕ) (id : String) (ks : List String) (m : Fields R)
      → is_null (nested n id ks m) ≡ is_null (get id m)
  unfolding nested
  nested-is_null n id ks m = ground arith

  abbrev pub view : ViewRow R → Fields R
  view = view_row_to_api_item is_zero loads float

  abbrev pub parsed : Value R → Value R
  parsed v = arr (parse_json_field is_zero loads float v)

  item_of_shape : (m : Fields R) → HasShape parsed m (item m)
  unfolding item_of view_keys
  item_of_shape m = record {
    keys_fixed = item_of-keys m;
    kept = All-among (λ k. get k (item m) ≡ get k m) kept_keys (item_of-kept m);
    tags = refl;
    stock_names = refl;
    stock_tickers = refl;
    pdf_archive = nested-is_null 4 "pdf_report_id" pdf_keys m;
    fnguide_summary = nested-is_null 3 "fs_summary_id" fs_keys m;
  }

  -- A row that is no item yet becomes an item with the one list of keys, whatever columns it has: the
  -- listed columns are carried over as they are, each of the three list fields is the parsed list of its
  -- column, and each of the two nested dictionaries is there exactly if its identifier is set.
  pub view_row_to_api_item-HasShape :
      (row : ViewRow R) → is_item row ≡ false → HasShape parsed (mapping_of row) (view row)
  unfolding view_row_to_api_item
  view_row_to_api_item-HasShape (dict d) h = rw h (item_of_shape d)
  view_row_to_api_item-HasShape (sqlalchemy_row m) h = item_of_shape m

  item_of-is_item : (m : Fields R) → view (dict (item m)) ≡ item m
  unfolding view_row_to_api_item item_of view_keys has_key
  item_of-is_item m = refl

  -- An item that is mapped again stays as it is.
  pub view_row_to_api_item-twice : (row : ViewRow R) → view (dict (view row)) ≡ view row
  unfolding view_row_to_api_item
  view_row_to_api_item-twice (dict d) =
      elim (Bool-cases (has_key "report_id" d && has_key "pdf_archive" d)) [
        | inl e ↦ rw e (rw e refl)
        | inr e ↦ rw e (item_of-is_item d)
      ]
  view_row_to_api_item-twice (sqlalchemy_row m) = item_of-is_item m
