-- ===== src/ReportItems/Validation.antt =====
-- The validator of the lists of `SecReportResponse` (app/schemas.py); `json.loads` is an argument, `none`
-- where it raises.
use ssh_reports_hub_fast_api.Prelude.{◌≡◌, ◌≢◌, refl, String, Bool, Option, none, some}
use ssh_reports_hub_fast_api.ReportItems.{
  Value, null, bool, int, real, str, datetime, arr, obj, nil, list_or_empty, parse_json_field,
}

module _ {R : Type 0} (loads : String → Option (Value R)) where
  -- `parsed if isinstance(parsed, list) else []`, and `[]` where it raises.
  unfoldable pub parsed_list : Option (Value R) → Value R
  parsed_list (some (arr items)) = arr items
  parsed_list _ = arr nil

  unfoldable pub parse_json_array : Value R → Value R
  unfolding parsed_list
  parse_json_array null = null
  parse_json_array (arr items) = arr items
  parse_json_array (str s) = parsed_list (loads s)
  parse_json_array _ = arr nil

module _ {R : Type 0} (is_zero : R → Bool) (loads : String → Option (Value R))
    (float : Value R → Option R) where
  parsed_list-agrees :
      (o : Option (Value R)) → parsed_list loads o ≡ arr (list_or_empty is_zero loads float o)
  unfolding parsed_list
  parsed_list-agrees none = refl
  parsed_list-agrees (some null) = refl
  parsed_list-agrees (some (bool b)) = refl
  parsed_list-agrees (some (int n)) = refl
  parsed_list-agrees (some (real r)) = refl
  parsed_list-agrees (some (str s)) = refl
  parsed_list-agrees (some (datetime s)) = refl
  parsed_list-agrees (some (arr items)) = refl
  parsed_list-agrees (some (obj fields)) = refl

  -- Where a column is not null, the validator reads of it the list that the mapping of the row reads.
  pub parse_json_array-parse_json_field :
      (v : Value R)
      → v ≢ null
      → parse_json_array loads v ≡ arr (parse_json_field is_zero loads float v)
  unfolding parse_json_array parse_json_field
  parse_json_array-parse_json_field null h = absurd (h refl)
  parse_json_array-parse_json_field (bool b) h = refl
  parse_json_array-parse_json_field (int n) h = refl
  parse_json_array-parse_json_field (real r) h = refl
  parse_json_array-parse_json_field (str s) h = parsed_list-agrees (loads s)
  parse_json_array-parse_json_field (datetime s) h = refl
  parse_json_array-parse_json_field (arr items) h = refl
  parse_json_array-parse_json_field (obj fields) h = refl
