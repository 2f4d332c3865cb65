-- ===== src/Notifications/Tests.antt =====
-- The endpoints of the read marks at a concrete table.
use ssh_reports_hub_fast_api.Prelude.{◌≡◌, refl, List, [], ◌∷◌}
use ssh_reports_hub_fast_api.Notifications.{
  NotificationRead, added_rows, get_notification_reads, mark_notification_read,
  mark_all_notifications_read,
}

abbrev marks : List NotificationRead
marks = record { user_id = 7; notification_key = "n-1" } ∷ []

mark_read_run : mark_notification_read 7 "n-1" marks ≡ marks
unfolding mark_notification_read
mark_read_run = refl

-- A notification that is named twice gets two rows.
mark_all_run :
    get_notification_reads 7 (mark_all_notifications_read 7 ("n-2" ∷ "n-1" ∷ "n-2" ∷ []) marks).0
    ≡ "n-1" ∷ "n-2" ∷ "n-2" ∷ []
unfolding mark_all_notifications_read added_rows get_notification_reads
mark_all_run = refl
