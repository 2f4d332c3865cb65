-- ===== src/Startup/Versions.antt =====
-- `apply_pending_migrations` of scripts/apply_migrations.py. The tables that the scripts change are of
-- any type; what a script does to them is an argument, `none` for one that fails.
pub mod Pending
use ssh_reports_hub_fast_api.Prelude.{
  ℕ, Bool, true, false, ◌&&◌, ◌||◌, String, Option, none, some, List, [], ◌∷◌, ◌++◌, ltb, ◌==◌,
  if◌then◌else◌,
}
use ssh_reports_hub_fast_api.Text.Codes.{Codes, codes}
use ssh_reports_hub_fast_api.Startup.{has_name}

-- `<` on texts, by code points.
unfoldable pub before : Codes → Codes → Bool
before s [] = false
before [] (d ∷ t) = true
before (c ∷ s) (d ∷ t) = ltb c d || c == d && before s t

abbrev pub File : Type 0
File = String × String

-- `sorted(MIGRATIONS_DIR.glob("*.sql"))`: the files of one folder are compared by their names.
unfoldable pub insert_file : File → List File → List File
insert_file file [] = file ∷ []
insert_file file (other ∷ rest) =
    let after = insert_file file rest in
    if before (codes other.0) (codes file.0) then other ∷ after else file ∷ other ∷ rest

unfoldable pub sorted_files : List File → List File
unfolding insert_file
sorted_files [] = []
sorted_files (file ∷ files) = insert_file file (sorted_files files)

-- The versions in `app_schema_migrations`, and the other tables.
pub record MigrationDb (S : Type 0) : Type 0 where
  pub versions : List String
  pub tables : S

-- What the call gives: the applied versions, or the exception.
pub data Outcome : Type 0 where
  applied : List String → Outcome
  raised : Outcome

-- The insert of a version: the primary key refuses one that is there.
unfoldable pub insert_version : String → List String → Option (List String)
insert_version version versions =
    if has_name version versions then none else some (versions ++ version ∷ [])

abbrev pub bind : {A B : Type 0} → Option A → (A → Option B) → Option B
bind none f = none
bind (some a) f = f a

-- How the transaction ends: an exception leaves the database as it was.
abbrev pub outcome :
    {S : Type 0} → MigrationDb S → Option (List String × MigrationDb S) → Outcome × MigrationDb S
outcome db none = (raised, db)
outcome db (some result) = (applied result.0, result.1)

module _ {S : Type 0} (run : String → S → Option S) where
  -- The loop over the files. `completed` was read before it.
  unfoldable pub apply_loop :
      List String → List File → MigrationDb S → Option (List String × MigrationDb S)
  apply_loop completed [] db = some ([], db)
  apply_loop completed (file ∷ rest) db =
      let skipped = apply_loop completed rest db in
      if has_name file.0 completed
      then skipped
      else (bind (run file.1 db.tables) λ tables.
          bind (insert_version file.0 db.versions) λ versions.
            bind (apply_loop completed rest (record { versions = versions; tables = tables }))
              λ result. some (file.0 ∷ result.0, result.1))

  -- One transaction around the loop.
  unfoldable pub apply_pending_migrations :
      Bool → List File → MigrationDb S → Outcome × MigrationDb S
  apply_pending_migrations false files db = (applied [], db)
  apply_pending_migrations true files db =
      outcome db (apply_loop db.versions (sorted_files files) db)
