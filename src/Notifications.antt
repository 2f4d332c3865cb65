-- ===== src/Notifications.antt =====
-- The read marks of notifications in app/routers/reports.py over the table of `NotificationRead`
-- (app/models.py). The session does not flush before a query (app/database.py), so the rows that a
-- request adds are not seen until its commit.
pub mod Reads
mod Tests
use ssh_reports_hub_fast_api.Prelude.{
  ℕ, ◌&&◌, String, Bool, List, [], ◌∷◌, ◌++◌, map, filter, any, length, str_eq, ◌==◌, if◌then◌else◌,
}

pub record NotificationRead : Type 0 where
  pub user_id : ℕ
  pub notification_key : String

abbrev pub is_row : ℕ → String → NotificationRead → Bool
is_row user key row = row.user_id == user && str_eq row.notification_key key

abbrev pub is_read : ℕ → String → List NotificationRead → Bool
is_read user key = any (is_row user key)

unfoldable pub get_notification_reads : ℕ → List NotificationRead → List String
get_notification_reads user table =
    map (λ (row : NotificationRead). row.notification_key)
      (filter (λ row. row.user_id == user) table)

unfoldable pub mark_notification_read : ℕ → String → List NotificationRead → List NotificationRead
mark_notification_read user key table =
    if is_read user key table
    then table
    else table ++ record { user_id = user; notification_key = key } ∷ []

-- The rows that the loop adds, each after a query of the table as it was.
unfoldable pub added_rows : ℕ → List String → List NotificationRead → List NotificationRead
added_rows user [] table = []
added_rows user (key ∷ keys) table =
    let rest = added_rows user keys table in
    if is_read user key table
    then rest
    else record { user_id = user; notification_key = key } ∷ rest

-- The keys as `str` gives them; the answer is their number.
unfoldable pub mark_all_notifications_read :
    ℕ → List String → List NotificationRead → List NotificationRead × ℕ
mark_all_notifications_read user keys table = (table ++ added_rows user keys table, length keys)
