-- ===== src/Favorites.antt =====
-- The endpoints of app/routers/favorites.py over the table of `ReportFavorite` (app/models.py).
pub mod Laws
pub mod Runs
pub mod Listing
mod Tests
use ssh_reports_hub_fast_api.Prelude.{
  ℕ, ◌+◌, Bool, not, ◌&&◌, List, [], ◌∷◌, ◌++◌, filter, any, length, ◌==◌, if◌then◌else◌,
}

pub record ReportFavorite : Type 0 where
  pub id : ℕ
  pub user_id : ℕ
  pub report_id : ℕ
  pub created_at : ℕ

pub record Table : Type 0 where
  pub rows : List ReportFavorite
  pub next_id : ℕ

pub data Status : Type 0 where
  already_exists added not_found removed : Status

-- `ReportFavorite.user_id == user, ReportFavorite.report_id == report_id`
abbrev pub matches : ℕ → ℕ → ReportFavorite → Bool
matches user report_id row = row.user_id == user && row.report_id == report_id

abbrev pub is_favorite : ℕ → ℕ → Table → Bool
is_favorite user report_id t = any (matches user report_id) t.rows

unfoldable pub add_favorite : ℕ → ℕ → ℕ → Table → Status × Table
add_favorite now user report_id t = if is_favorite user report_id t then (already_exists, t) else (
  added,
  record {
    rows =
        t.rows
        ++ record { id = t.next_id; user_id = user; report_id = report_id; created_at = now } ∷ [];
    next_id = t.next_id + 1;
  },
)

-- `deleted` is the number of rows that the DELETE statement matched.
unfoldable pub remove_favorite : ℕ → ℕ → Table → Status × Table
remove_favorite user report_id t =
    let deleted = length (filter (matches user report_id) t.rows) in
    let t' = record t { rows = filter (λ row. not (matches user report_id row)) t.rows } in
    if deleted == 0 then (not_found, t') else (removed, t')
