-- ===== src/Startup/Columns.antt =====
-- Which columns the startup leaves in the schema (app/main.py).
use ssh_reports_hub_fast_api.Prelude.{
  ◌≡◌, refl, ◌∙◌, arith, Bool, not, ◌&&◌, ◌||◌, String, List, [], ◌∷◌, any-append, str_eq, eq_iff,
  if◌then◌else◌,
}
use ssh_reports_hub_fast_api.Startup.{
  Schema, has_table, has_name, columns_of, add_column, add_missing, tag_migrations, reports_table,
  tags_table, ensure_tags_columns, ensure_column, migrate_telegram_sent, ensure_article_text_column,
  lifespan,
}

has_table-add_column :
    (t table column : String) (schema : Schema)
    → has_table t (add_column table column schema) ≡ has_table t schema
unfolding has_table add_column
has_table-add_column t table column [] = refl
has_table-add_column t table column ((name, columns) ∷ rest) =
    ground (arith, has_table-add_column t table column rest)

columns-add_column :
    (t c table column : String) (schema : Schema)
    → has_name c (columns_of t (add_column table column schema)) ≡ (
        has_name c (columns_of t schema)
        || str_eq t table && has_table table schema && str_eq column c)
unfolding has_table columns_of add_column
columns-add_column t c table column [] = ground arith
columns-add_column t c table column ((name, columns) ∷ rest) = ground (
  arith,
  columns-add_column t c table column rest,
  eq_iff name table,
  eq_iff name t,
  eq_iff t table,
  any-append (λ other. str_eq other c) columns (column ∷ []),
)

-- The names of the columns in a list of migrations.
abbrev pub names_of : List (String × String) → List String
names_of [] = []
names_of ((column, column_sql) ∷ rest) = column ∷ names_of rest

has_table-add_missing :
    (t table : String) (migrations : List (String × String)) (existing : List String)
    (schema : Schema)
    → has_table t (add_missing table migrations existing schema).0 ≡ has_table t schema
unfolding add_missing
has_table-add_missing t table [] existing schema = refl
has_table-add_missing t table ((column, column_sql) ∷ rest) existing schema =
    has_table-add_missing t table rest existing
      (if has_name column existing then schema else add_column table column schema)
    ∙ ground (arith, has_table-add_column t table column schema)

columns-add_missing :
    (t c table : String) (migrations : List (String × String)) (existing : List String)
    (schema : Schema)
    → has_name c (columns_of t (add_missing table migrations existing schema).0) ≡ (
        has_name c (columns_of t schema)
        || str_eq t table
          && has_table table schema
          && not (has_name c existing)
          && has_name c (names_of migrations))
unfolding add_missing
columns-add_missing t c table [] existing schema = ground arith
columns-add_missing t c table ((column, column_sql) ∷ rest) existing schema =
    let next = if has_name column existing then schema else add_column table column schema in
    columns-add_missing t c table rest existing next
    ∙ ground (
      arith,
      columns-add_column t c table column schema,
      has_table-add_column table table column schema,
      eq_iff column c,
    )

module _ (t c : String) where
  columns-ensure_tags :
      (is_postgres : Bool) (schema : Schema)
      → has_name c (columns_of t (ensure_tags_columns is_postgres schema).0) ≡ (
          has_name c (columns_of t schema)
          || str_eq t (tags_table is_postgres)
            && has_table (tags_table is_postgres) schema
            && has_name c (names_of (tag_migrations is_postgres)))
  unfolding ensure_tags_columns
  columns-ensure_tags is_postgres schema =
      let table = tags_table is_postgres in
      ground (
        arith,
        eq_iff t table,
        columns-add_missing t c table (tag_migrations is_postgres) (columns_of table schema) schema,
      )

  has_table-ensure_tags :
      (is_postgres : Bool) (schema : Schema)
      → has_table t (ensure_tags_columns is_postgres schema).0 ≡ has_table t schema
  unfolding ensure_tags_columns
  has_table-ensure_tags is_postgres schema =
      let table = tags_table is_postgres in
      ground (
        arith,
        has_table-add_missing t table (tag_migrations is_postgres) (columns_of table schema) schema,
      )

  module _ (column column_sql : String) where
    columns-ensure_column :
        (schema : Schema)
        → has_name c (columns_of t (ensure_column column column_sql schema).0) ≡ (
            has_name c (columns_of t schema)
            || str_eq t reports_table && has_table reports_table schema && str_eq column c)
    unfolding ensure_column
    columns-ensure_column schema = ground (
      arith,
      eq_iff t reports_table,
      eq_iff column c,
      columns-add_column t c reports_table column schema,
    )

    has_table-ensure_column :
        (schema : Schema)
        → has_table t (ensure_column column column_sql schema).0 ≡ has_table t schema
    unfolding ensure_column
    has_table-ensure_column schema =
        ground (arith, has_table-add_column t reports_table column schema)

-- The columns that the startup requires of a table, on a schema with that table.
abbrev pub required : Bool → String → Schema → String → Bool
required is_postgres t schema c =
    str_eq t (tags_table is_postgres)
      && has_table (tags_table is_postgres) schema
      && has_name c (names_of (tag_migrations is_postgres))
    || str_eq t reports_table
      && has_table reports_table schema
      && (str_eq "telegram_sent" c || str_eq "article_text" c)

module _ (create_all : Schema → Schema) (is_postgres : Bool) (schema : Schema) where
  -- After the startup a table has the columns that it had after `create_all` and those that are required
  -- of it, and no others.
  pub lifespan-columns :
      (t c : String)
      → has_name c (columns_of t (lifespan create_all is_postgres schema).0) ≡ (
          has_name c (columns_of t (create_all schema))
          || required is_postgres t (create_all schema) c)
  unfolding lifespan migrate_telegram_sent ensure_article_text_column
  lifespan-columns t c =
      let start = create_all schema in
      let tagged = (ensure_tags_columns is_postgres start).0 in
      let sent = (migrate_telegram_sent tagged).0 in
      ground (
        arith,
        columns-ensure_tags t c is_postgres start,
        has_table-ensure_tags reports_table c is_postgres start,
        columns-ensure_column t c "telegram_sent" "telegram_sent BOOLEAN DEFAULT false" tagged,
        has_table-ensure_column reports_table c "telegram_sent"
            "telegram_sent BOOLEAN DEFAULT false" tagged,
        columns-ensure_column t c "article_text" "article_text TEXT" sent,
      )

  -- It makes and loses no table.
  pub lifespan-has_table :
      (t : String)
      → has_table t (lifespan create_all is_postgres schema).0 ≡ has_table t (create_all schema)
  unfolding lifespan migrate_telegram_sent ensure_article_text_column
  lifespan-has_table t =
      let start = create_all schema in
      let tagged = (ensure_tags_columns is_postgres start).0 in
      let sent = (migrate_telegram_sent tagged).0 in
      has_table-ensure_column t t "article_text" "article_text TEXT" sent
      ∙ (has_table-ensure_column t t "telegram_sent" "telegram_sent BOOLEAN DEFAULT false" tagged
          ∙ has_table-ensure_tags t t is_postgres start)
