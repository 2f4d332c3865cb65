-- ===== src/ReportItems/Tests.antt =====
-- The theorems about report items at concrete rows. Floats are natural numbers, `json.loads` knows one
-- text, and `float` takes whole numbers.
use ssh_reports_hub_fast_api.Prelude.{
  ℕ, ◌≡◌, refl, String, Bool, Option, none, some, str_eq, ◌==◌, if◌then◌else◌,
}
use ssh_reports_hub_fast_api.ReportItems.{
  scraped_text, Value, ViewRow, sqlalchemy_row, int, real, str, arr, nil, cons, end, field, get,
  view_row_to_api_item, view_keys, is_truthy,
}
use ssh_reports_hub_fast_api.ReportItems.Shape.{
  HasShape, parsed, mapping_of, view, view_row_to_api_item-HasShape,
}

abbrev is_zero : ℕ → Bool
is_zero n = n == 0

abbrev loads : String → Option (Value ℕ)
loads s = if str_eq s "[1]" then some (arr (cons (int 1) nil)) else none

abbrev float : Value ℕ → Option ℕ
float (int n) = some n
float _ = none

abbrev row : ViewRow ℕ
row = sqlalchemy_row (
    field "report_id" (int 5) (
      field "tags" (str "[1]") (
        field "stock_names" (str "not json") (
          field "target_price" (int 70) (
            field "save_at" (str "2026-01-02 10:00:00")
              (field "pdf_report_id" (int 5) (field "pdf_file_size" (int 900) end)))))))

view_row_to_api_item-HasShape_example :
    HasShape (parsed is_zero loads float) (mapping_of row) (view is_zero loads float row)
view_row_to_api_item-HasShape_example = view_row_to_api_item-HasShape is_zero loads float row refl

row_scraped_at : get "scraped_at" (view is_zero loads float row) ≡ str "2026-01-02T10:00:00"
unfolding view_row_to_api_item view_keys is_truthy scraped_text
row_scraped_at = refl

row_tags : get "tags" (view is_zero loads float row) ≡ arr (cons (int 1) nil)
unfolding view_row_to_api_item view_keys
row_tags = refl

row_names : get "stock_names" (view is_zero loads float row) ≡ arr nil
unfolding view_row_to_api_item view_keys
row_names = refl

row_price : get "target_price" (view is_zero loads float row) ≡ real 70
unfolding view_row_to_api_item view_keys
row_price = refl
