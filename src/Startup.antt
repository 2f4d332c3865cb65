-- ===== src/Startup.antt =====
-- The schema changes at startup (`lifespan` of app/main.py) and scripts/apply_migrations.py. A schema
-- is the list of the tables with their columns. The statements that a function runs are returned with
-- the schema; they are taken to succeed, as the code lets an exception stop the startup.
pub mod Columns
pub mod Repeat
pub mod Versions
mod Tests
use Prim.Native.String.{◌++◌ as append}
use ssh_reports_hub_fast_api.Prelude.{
  Bool, true, false, not, String, Option, none, some, List, [], ◌∷◌, ◌++◌, map, any, filter, str_eq,
  if◌then◌else◌,
}

abbrev pub Schema : Type 0
Schema = List (String × List String)

-- `table_name in inspector.get_table_names()`
unfoldable pub has_table : String → Schema → Bool
has_table table schema = any (λ (entry : String × List String). str_eq entry.0 table) schema

abbrev pub has_name : String → List String → Bool
has_name name = any (λ other. str_eq other name)

-- The columns of the first table of that name; none where there is no such table.
unfoldable pub columns_of : String → Schema → List String
columns_of table [] = []
columns_of table ((name, columns) ∷ rest) =
    let other = columns_of table rest in if str_eq name table then columns else other

-- `ALTER TABLE ... ADD COLUMN ...`
unfoldable pub add_column : String → String → Schema → Schema
add_column table column [] = []
add_column table column ((name, columns) ∷ rest) =
    let other = add_column table column rest in
    if str_eq name table then (name, columns ++ column ∷ []) ∷ rest else (name, columns) ∷ other

unfoldable pub alter_sql : String → String → String
alter_sql table column_sql = append "ALTER TABLE " (append table (append " ADD COLUMN " column_sql))

-- The loop over `migrations.items()`: the existing columns were read before it.
unfoldable pub add_missing :
    String → List (String × String) → List String → Schema → Schema × List String
add_missing table [] existing schema = (schema, [])
add_missing table ((column, column_sql) ∷ rest) existing schema =
    let present = has_name column existing in
    let (after, run) =
      add_missing table rest existing
        (if present then schema else add_column table column schema) in
    (after, if present then run else alter_sql table column_sql ∷ run)

-- `migrations` and `indexes` of `_ensure_tags_columns`, for `DB_BACKEND=postgres` and otherwise.
unfoldable pub tag_migrations : Bool → List (String × String)
tag_migrations true =
    ("tags", "tags JSONB DEFAULT '[]'::jsonb")
    ∷ ("stock_names", "stock_names JSONB DEFAULT '[]'::jsonb")
    ∷ ("sector", "sector TEXT DEFAULT ''")
    ∷ ("fnguide_summary_id", "fnguide_summary_id BIGINT DEFAULT NULL")
    ∷ []
tag_migrations false =
    ("tags", "tags TEXT DEFAULT '[]'")
    ∷ ("stock_names", "stock_names TEXT DEFAULT '[]'")
    ∷ ("sector", "sector TEXT DEFAULT ''")
    ∷ ("fnguide_summary_id", "fnguide_summary_id INTEGER DEFAULT NULL")
    ∷ []

unfoldable pub tag_indexes : Bool → List String
tag_indexes true =
    "CREATE INDEX IF NOT EXISTS idx_tb_sec_reports_tags ON tbl_sec_reports USING gin (tags)"
    ∷ "CREATE INDEX IF NOT EXISTS idx_tb_sec_reports_stock_names ON tbl_sec_reports USING gin (stock_names)"
    ∷ "CREATE INDEX IF NOT EXISTS idx_tb_sec_reports_sector ON tbl_sec_reports USING btree (sector)"
    ∷ "CREATE INDEX IF NOT EXISTS idx_tb_sec_reports_fnguide_summary_id ON tbl_sec_reports (fnguide_summary_id)"
    ∷ []
tag_indexes false = []

abbrev pub reports_table : String
reports_table = "tbl_sec_reports"

-- The table that `_ensure_tags_columns` changes.
unfoldable pub tags_table : Bool → String
tags_table true = reports_table
tags_table false = "data_main_daily_send"

-- An index that fails is passed over, and no index changes a column.
unfoldable pub ensure_tags_columns : Bool → Schema → Schema × List String
ensure_tags_columns is_postgres schema =
    let table = tags_table is_postgres in
    if not (has_table table schema)
    then (schema, [])
    else (let (after, run) =
          add_missing table (tag_migrations is_postgres) (columns_of table schema) schema in
        (after, run ++ tag_indexes is_postgres))

-- `_migrate_telegram_sent` and `_ensure_article_text_column` for their one table.
unfoldable pub ensure_column : String → String → Schema → Schema × List String
ensure_column column column_sql schema =
    if not (has_table reports_table schema)
    then (schema, [])
    else (if has_name column (columns_of reports_table schema)
        then (schema, [])
        else (add_column reports_table column schema, alter_sql reports_table column_sql ∷ []))

unfoldable pub migrate_telegram_sent : Schema → Schema × List String
migrate_telegram_sent = ensure_column "telegram_sent" "telegram_sent BOOLEAN DEFAULT false"

unfoldable pub ensure_article_text_column : Schema → Schema × List String
ensure_article_text_column = ensure_column "article_text" "article_text TEXT"

abbrev pub mirror_function : String
mirror_function =
    "CREATE OR REPLACE FUNCTION mirror_send_history_to_notifications() RETURNS TRIGGER AS $$ BEGIN INSERT INTO tbl_sec_reports_notifications (report_id, article_title, firm_nm, summary_model, message) SELECT NEW.report_id, COALESCE(r.article_title, ''), COALESCE(r.firm_nm, ''), NULL, CASE WHEN NEW.keyword IS NOT NULL AND NEW.keyword != '' THEN '[텔레그램 · ' || NEW.keyword || '] ' || COALESCE(r.article_title, '') ELSE '[텔레그램] ' || COALESCE(r.article_title, '') END FROM tbl_sec_reports r WHERE r.report_id = NEW.report_id; RETURN NEW; END; $$ LANGUAGE plpgsql;"

abbrev pub mirror_trigger : String
mirror_trigger =
    "DO $$ BEGIN CREATE TRIGGER trg_mirror_send_history AFTER INSERT ON tbl_report_send_history FOR EACH ROW EXECUTE FUNCTION mirror_send_history_to_notifications(); EXCEPTION WHEN duplicate_object THEN NULL; END $$;"

-- The statements of `_ensure_send_history_trigger`, with one space for each line break. Another database
-- than PostgreSQL refuses the first one, which ends the `try`.
unfoldable pub send_history_trigger : Bool → List String
send_history_trigger true = mirror_function ∷ mirror_trigger ∷ []
send_history_trigger false = mirror_function ∷ []

unfoldable pub ensure_send_history_trigger : Bool → Schema → List String
ensure_send_history_trigger is_postgres schema =
    if not (has_table "tbl_report_send_history" schema)
    then []
    else (if not (has_table "tbl_sec_reports_notifications" schema)
        then []
        else send_history_trigger is_postgres)

-- The steps of `lifespan` in their order, after `create_all`, which is an argument. The check of the
-- views runs no statement that changes anything and is left out.
unfoldable pub lifespan : (Schema → Schema) → Bool → Schema → Schema × List String
lifespan create_all is_postgres schema =
    let (tagged, run1) = ensure_tags_columns is_postgres (create_all schema) in
    let (sent, run2) = migrate_telegram_sent tagged in
    let (texted, run3) = ensure_article_text_column sent in
    (texted, run1 ++ (ensure_send_history_trigger is_postgres tagged ++ (run2 ++ run3)))

-- `_validate_required_views`: the views that the warning names, sorted.
unfoldable pub missing_views : Bool → Option (List String) → List String
missing_views false views = []
missing_views true none = []
missing_views true (some existing) =
    filter (λ view. not (has_name view existing)) ("v_reports" ∷ "v_reports_api" ∷ [])
