-- ===== src/Favorites/Tests.antt =====
-- The theorems about favorites at a concrete table.
use ssh_reports_hub_fast_api.Prelude.{refl, ◌≡◌, arith, List, [], ◌∷◌}
use ssh_reports_hub_fast_api.Favorites.{
  Table, already_exists, added, not_found, removed, add_favorite, remove_favorite,
}
use ssh_reports_hub_fast_api.Favorites.Laws.{IsUnique}
use ssh_reports_hub_fast_api.Favorites.Runs.{
  FavoriteRequest, add, remove, serve_all, answer_all, pairs_of, serve_all-answer_all,
}

abbrev table : Table
table = record {
  rows = record { id = 1; user_id = 7; report_id = 3; created_at = 10 } ∷ [];
  next_id = 2;
}

abbrev requests : List FavoriteRequest
requests = add 20 7 4 ∷ add 21 7 4 ∷ remove 7 3 ∷ remove 7 3 ∷ []

serve_all-answer_all_example :
    ((serve_all requests table).0 ≡ (answer_all requests (pairs_of table)).0)
    × (pairs_of (serve_all requests table).1 ≡ (answer_all requests (pairs_of table)).1)
serve_all-answer_all_example = serve_all-answer_all requests table

serve_all_run : (serve_all requests table).0 ≡ added ∷ already_exists ∷ removed ∷ not_found ∷ []
unfolding serve_all add_favorite remove_favorite
serve_all_run = refl

table-IsUnique : IsUnique table
table-IsUnique = record { once = λ u r. ground arith }
