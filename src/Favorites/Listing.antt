-- ===== src/Favorites/Listing.antt =====
-- `get_favorites` of app/routers/favorites.py: from the rows of the join, which the database selects, to
-- the items of the answer.
use ssh_reports_hub_fast_api.Prelude.{
  ℕ, ◌≡◌, String, List, [], ◌∷◌, map, length, length-map, if◌then◌else◌,
}
use ssh_reports_hub_fast_api.ReportItems.{
  Value, Fields, null, str, datetime, obj, end, field, get, is_null, replace_space,
}

pub record FavoriteList (R : Type 0) : Type 0 where
  pub items : List (Fields R)
  pub count : ℕ
  pub total_favorites : ℕ

module _ {R : Type 0} where
  -- `_format_datetime_value`. The columns that it is given hold dates, texts or nothing; another value
  -- would be written by `str`, and is left as it is here.
  unfoldable pub format_datetime_value : Value R → Value R
  unfolding replace_space
  format_datetime_value (datetime iso) = str iso
  format_datetime_value (str s) = str (replace_space s)
  format_datetime_value v = v

  unfoldable pub favorite_archive : Fields R → Value R
  unfolding get
  favorite_archive r =
      if is_null (get "pdf_page_count" r)
      then null
      else obj (
          field "page_count" (get "pdf_page_count" r) (
            field "file_name" (get "pdf_file_name" r) (
              field "has_text" (get "pdf_has_text" r) (
                field "is_encrypted" (get "pdf_is_encrypted" r)
                  (field "author" (get "pdf_author" r) end)))))

  -- The columns that an item carries as the row has them, in front of the others.
  unfoldable pub carry : List String → Fields R → Fields R → Fields R
  unfolding get
  carry [] r rest = rest
  carry (key ∷ keys) r rest = field key (get key r) (carry keys r rest)

  unfoldable pub favorite_item : Fields R → Fields R
  unfolding carry format_datetime_value favorite_archive get
  favorite_item r =
      carry
        ("report_id" ∷ "firm_id" ∷ "board_id" ∷ "firm_nm" ∷ "article_title" ∷ "source_url"
          ∷ "telegram_sent" ∷ "pdf_file_url" ∷ "telegram_url" ∷ "writer" ∷ "report_date" ∷ [])
        r
        (field "scraped_at" (format_datetime_value (get "scraped_at" r)) (
          carry
            ("report_unique_key" ∷ "mkt_tp" ∷ "gemini_summary" ∷ "summary_time" ∷ "summary_model"
              ∷ [])
            r
            (field "favorite_created_at" (format_datetime_value (get "favorite_created_at" r))
              (field "pdf_archive" (favorite_archive r) end))))

  unfoldable pub get_favorites : List (Fields R) → FavoriteList R
  get_favorites rows =
      let items = map favorite_item rows in
      record { items = items; count = length items; total_favorites = length rows }

  -- The two numbers of the answer agree.
  pub count-total_favorites :
      (rows : List (Fields R)) → (get_favorites rows).count ≡ (get_favorites rows).total_favorites
  unfolding get_favorites
  count-total_favorites rows = length-map favorite_item rows
