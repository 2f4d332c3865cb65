-- ===== src/Startup/Repeat.antt =====
-- What a second startup does (app/main.py).
use ssh_reports_hub_fast_api.Prelude.{Bool, ◌&&◌, String, List, [], ◌++◌, if◌then◌else◌}
use ssh_reports_hub_fast_api.Startup.{
  Schema, has_table, tag_indexes, tags_table, send_history_trigger,
}

-- The statements of a startup that finds every column: those that make the indexes, and those that replace
-- the function of the send history and try to make its trigger.
abbrev pub repeated : Bool → Schema → List String
repeated is_postgres schema =
    (if has_table (tags_table is_postgres) schema then tag_indexes is_postgres else [])
    ++ (if has_table "tbl_report_send_history" schema
          && has_table "tbl_sec_reports_notifications" schema
        then send_history_trigger is_postgres
        else [])
