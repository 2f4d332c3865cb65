-- ===== src/Reports/Tests.antt =====
-- The theorems about the summary setting and the history at concrete files and rows. `json.loads` knows one
-- text, and a row is a response when it has an identifier.
use ssh_reports_hub_fast_api.Prelude.{
  ℕ, ◌≡◌, refl, String, true, false, Option, none, some, [], ◌∷◌, str_eq, if◌then◌else◌,
}
use ssh_reports_hub_fast_api.ReportItems.{Value, Fields, int, str, end, field, get, has_key}
use ssh_reports_hub_fast_api.Reports.{
  visibility_of, load_llm_visibility, is_visibility, setting, update_llm_setting_admin, RawDatabase,
  get_send_history, responses,
}

abbrev saved : String
saved = "saved"

abbrev loads : String → Option (Value ℕ)
loads s = if str_eq s saved then some (setting "telegram") else none

abbrev dumps : Value ℕ → String
dumps value = saved

load_saved_file :
    load_llm_visibility loads (update_llm_setting_admin dumps none (some "") "telegram").1
    ≡ str "telegram"
unfolding load_llm_visibility update_llm_setting_admin visibility_of get has_key
load_saved_file = refl

load_broken_file : load_llm_visibility loads (some "{") ≡ str "admin"
unfolding load_llm_visibility visibility_of
load_broken_file = refl

visibility_other : is_visibility "public" ≡ false
unfolding is_visibility
visibility_other = refl

abbrev validate : Fields ℕ → Option (Fields ℕ)
unfolding has_key
validate row = if has_key "id" row then some row else none

abbrev sent : ℕ → Fields ℕ
sent id = field "id" (int id) end

abbrev history : RawDatabase ℕ
history = record {
  is_postgres = true;
  execute = λ sql params. some (sent 1 ∷ (field "keyword" (str "chip") end ∷ (sent 2 ∷ [])));
}

history_with_refused_row : get_send_history validate history 7 30 ≡ []
unfolding get_send_history responses validate has_key
history_with_refused_row = refl
