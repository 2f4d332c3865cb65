-- ===== src/Startup/Tests.antt =====
-- The theorems about the startup and the migrations at concrete schemas.
use ssh_reports_hub_fast_api.Prelude.{
  ◌≡◌, refl, true, ◌||◌, String, Option, none, some, List, [], ◌∷◌, ◌++◌, if◌then◌else◌, str_eq,
}
use ssh_reports_hub_fast_api.Startup.{
  Schema, has_table, has_name, columns_of, tags_table, tag_indexes, lifespan, ensure_tags_columns,
  ensure_column, migrate_telegram_sent, ensure_article_text_column, add_missing, tag_migrations,
  alter_sql, add_column,
}
use ssh_reports_hub_fast_api.Startup.Columns.{required, lifespan-columns}
use ssh_reports_hub_fast_api.Startup.Versions.{
  File, MigrationDb, applied, raised, apply_pending_migrations, sorted_files, before, apply_loop,
  insert_version,
}
use ssh_reports_hub_fast_api.Startup.Versions.Pending.{
  pending, applies, run_all, apply_pending_migrations_lem,
}

-- `create_all` on a database that has the table of the reports, and no tags yet.
abbrev keep : Schema → Schema
keep schema = schema

abbrev old : Schema
old =
    ("tbl_sec_reports", "report_id" ∷ "sector" ∷ [])
    ∷ ("tbl_report_send_history", "id" ∷ [])
    ∷ ("tbl_sec_reports_notifications", "id" ∷ [])
    ∷ []

lifespan-columns_example :
    has_name "tags" (columns_of "tbl_sec_reports" (lifespan keep true old).0) ≡ (
      has_name "tags" (columns_of "tbl_sec_reports" (keep old))
      || required true "tbl_sec_reports" (keep old) "tags")
lifespan-columns_example = lifespan-columns keep true old "tbl_sec_reports" "tags"

lifespan_columns_added :
    columns_of "tbl_sec_reports" (lifespan keep true old).0
    ≡ "report_id" ∷ "sector" ∷ "tags" ∷ "stock_names" ∷ "fnguide_summary_id" ∷ "telegram_sent"
      ∷ "article_text" ∷ []
unfolding lifespan ensure_tags_columns migrate_telegram_sent ensure_article_text_column
    ensure_column add_missing tag_migrations tags_table has_table columns_of add_column alter_sql
    tag_indexes
lifespan_columns_added = refl

abbrev files : List File
files = ("0002_b.sql", "b") ∷ ("0001_a.sql", "a") ∷ ("0003_c.sql", "c") ∷ []

-- A script appends itself; the script "bad" fails.
abbrev run : String → List String → Option (List String)
run script tables = if str_eq script "bad" then none else some (tables ++ script ∷ [])

abbrev first : MigrationDb (List String)
first = record { versions = "0001_a.sql" ∷ []; tables = "a" ∷ [] }

abbrev second : MigrationDb (List String)
second = record {
  versions = "0001_a.sql" ∷ "0002_b.sql" ∷ "0003_c.sql" ∷ [];
  tables = "a" ∷ "b" ∷ "c" ∷ [];
}

apply_pending_migrations_example :
    apply_pending_migrations run true files first
    ≡ applies
        (pending first.versions (sorted_files files))
        first
        (run_all run (pending first.versions (sorted_files files)) first.tables)
apply_pending_migrations_example = apply_pending_migrations_lem run files first refl

apply_pending_migrations-run :
    apply_pending_migrations run true files first
    ≡ (applied ("0002_b.sql" ∷ "0003_c.sql" ∷ []), second)
unfolding apply_pending_migrations sorted_files before apply_loop insert_version
apply_pending_migrations-run = refl

apply_pending_migrations_atomic :
    apply_pending_migrations run true (files ++ ("0004_d.sql", "bad") ∷ []) first ≡ (raised, first)
unfolding apply_pending_migrations sorted_files before apply_loop insert_version
apply_pending_migrations_atomic = refl
