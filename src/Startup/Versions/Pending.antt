-- ===== src/Startup/Versions/Pending.antt =====
-- Which migrations scripts/apply_migrations.py applies.
use mathlib.Core.List.{append-nil, append_assoc}
use ssh_reports_hub_fast_api.Prelude.{
  ◌≡◌, refl, sym, ap, ◌∙◌, arith, Bool, true, false, not, ◌&&◌, ◌||◌, String, Option, none, some,
  List, [], ◌∷◌, ◌++◌, map, filter, all, any-append, str_eq, eq_iff, eq_refl, Bool-cases, inl, inr,
  Option-cases,
}
use ssh_reports_hub_fast_api.Startup.{has_name}
use ssh_reports_hub_fast_api.Startup.Versions.{
  File, insert_file, sorted_files, MigrationDb, Outcome, applied, raised, outcome, insert_version,
  bind, apply_loop, apply_pending_migrations,
}

abbrev pub name_of : File → String
name_of file = file.0

abbrev pub names : List File → List String
names = map name_of

-- No two files have one name, as in a folder.
abbrev pub distinct : List File → Bool
distinct [] = true
distinct (file ∷ rest) = not (has_name file.0 (names rest)) && distinct rest

-- The files whose versions the table does not hold.
abbrev pub pending : List String → List File → List File
pending completed = filter (λ file. not (has_name file.0 completed))

has_name-insert :
    (c : String) (file : File) (files : List File)
    → has_name c (names (insert_file file files)) ≡ (str_eq file.0 c || has_name c (names files))
unfolding insert_file
has_name-insert c file [] = refl
has_name-insert c file (other ∷ rest) = ground (arith, has_name-insert c file rest)

distinct-insert :
    (file : File) (files : List File)
    → distinct (insert_file file files) ≡ (not (has_name file.0 (names files)) && distinct files)
unfolding insert_file
distinct-insert file [] = refl
distinct-insert file (other ∷ rest) = ground (
  arith,
  distinct-insert file rest,
  has_name-insert other.0 file rest,
  eq_iff file.0 other.0,
  eq_iff other.0 file.0,
)

has_name-sorted :
    (c : String) (files : List File)
    → has_name c (names (sorted_files files)) ≡ has_name c (names files)
unfolding sorted_files
has_name-sorted c [] = refl
has_name-sorted c (file ∷ files) =
    has_name-insert c file (sorted_files files)
    ∙ ap (λ b. str_eq file.0 c || b) (has_name-sorted c files)

distinct-sorted : (files : List File) → distinct (sorted_files files) ≡ distinct files
unfolding sorted_files
distinct-sorted [] = refl
distinct-sorted (file ∷ files) =
    distinct-insert file (sorted_files files)
    ∙ ground (arith, has_name-sorted file.0 files, distinct-sorted files)

-- No name of the files is among the done ones.
abbrev clear : List String → List File → Bool
clear done = all (λ file. not (has_name file.0 done))

clear-append :
    (name : String) (done : List String) (files : List File)
    → has_name name (names files) ≡ false
    → clear done files ≡ true
    → clear (done ++ name ∷ []) files ≡ true
clear-append name done [] h k = refl
clear-append name done (file ∷ files) h k = ground (
  arith,
  clear-append name done files,
  any-append (λ other. str_eq other file.0) done (name ∷ []),
  eq_iff name file.0,
  eq_iff file.0 name,
)

has_name-pending :
    (c : String) (completed : List String) (files : List File)
    → has_name c (names files) ≡ false
    → has_name c (names (pending completed files)) ≡ false
has_name-pending c completed [] h = refl
has_name-pending c completed (file ∷ files) h = ground (arith, has_name-pending c completed files)

clear-pending :
    (completed : List String) (files : List File) → clear completed (pending completed files) ≡ true
clear-pending completed [] = refl
clear-pending completed (file ∷ files) = ground (arith, clear-pending completed files)

has_name_covered :
    (c : String) (completed : List String) (files : List File)
    → has_name c (names files) ≡ true
    → has_name c (completed ++ names (pending completed files)) ≡ true
has_name_covered c completed [] h = cc
has_name_covered c completed (file ∷ files) h = ground (
  arith,
  any-append (λ other. str_eq other c) completed (names (pending completed (file ∷ files))),
  any-append (λ other. str_eq other c) completed (names (pending completed files)),
  has_name_covered c completed files,
  eq_iff file.0 c,
)

pending_covered :
    (completed : List String) (files : List File)
    → ((c : String) → has_name c (names files) ≡ true → has_name c completed ≡ true)
    → pending completed files ≡ []
pending_covered completed [] h = refl
pending_covered completed (file ∷ files) h = ground (
  arith,
  h file.0,
  eq_refl file.0,
  pending_covered completed files (λ c k. h c (ground (arith, k))),
)

insert_version_new :
    (name : String) (versions : List String)
    → has_name name versions ≡ false
    → insert_version name versions ≡ some (versions ++ name ∷ [])
unfolding insert_version
insert_version_new name versions h = rw h refl

-- What a run does with the files that are to be applied.
abbrev pub applies : {S : Type 0} → List File → MigrationDb S → Option S → Outcome × MigrationDb S
applies todo db none = (raised, db)
applies todo db (some after) =
    (applied (names todo), record { versions = db.versions ++ names todo; tables = after })

module _ {S : Type 0} (run : String → S → Option S) where
  -- The scripts, one after another, each on what the one before left.
  pub run_all : List File → S → Option S
  run_all [] tables = some tables
  run_all (file ∷ rest) tables = bind (run file.1 tables) (run_all rest)

  -- A successful run of these files.
  abbrev done_with : List File → List String → S → List String × MigrationDb S
  done_with files versions tables =
      (names files, record { versions = versions ++ names files; tables = tables })

  abbrev prefixed :
      String → Option (List String × MigrationDb S) → Option (List String × MigrationDb S)
  prefixed name result = bind result (λ r. some (name ∷ r.0, r.1))

  done_with_cons :
      (file : File) (files : List File) (versions : List String) (after : Option S)
      → prefixed file.0 (bind after (λ a. some (done_with files (versions ++ file.0 ∷ []) a)))
        ≡ bind after (λ a. some (done_with (file ∷ files) versions a))
  done_with_cons file files versions none = refl
  done_with_cons file files versions (some a) =
      ap (λ (l : List String). some (file.0 ∷ names files, record { versions = l; tables = a }))
        (append_assoc versions (file.0 ∷ []) (names files))

  -- One file that is not completed, where the rest is applied as its lemma says.
  apply_loop_new :
      (completed versions : List String) (file : File) (rest : List File) (tables : S)
      → has_name file.0 completed ≡ false
      → has_name file.0 versions ≡ false
      → ((t : S)
          → apply_loop run completed rest
              (record { versions = versions ++ file.0 ∷ []; tables = t })
            ≡ bind (run_all (pending completed rest) t) (λ after.
              some (done_with (pending completed rest) (versions ++ file.0 ∷ []) after)))
      → apply_loop run completed (file ∷ rest) (record { versions = versions; tables = tables })
        ≡ bind
            (bind (run file.1 tables) (run_all (pending completed rest)))
            (λ after. some (done_with (file ∷ pending completed rest) versions after))
  unfolding apply_loop
  apply_loop_new completed versions file rest tables h k step =
      elim (Option-cases (run file.1 tables)) [
        | inl e ↦ rw h (rw e refl)
        | inr (t, e) ↦ rw h (
            rw e (
              rw (insert_version_new file.0 versions k) (
                ap (prefixed file.0) (step t)
                ∙ done_with_cons file (pending completed rest) versions
                    (run_all (pending completed rest) t))))
      ]

  apply_loop-run_all :
      (completed versions : List String) (files : List File) (tables : S)
      → distinct files ≡ true
      → clear versions (pending completed files) ≡ true
      → apply_loop run completed files (record { versions = versions; tables = tables })
        ≡ bind
            (run_all (pending completed files) tables)
            (λ after. some (done_with (pending completed files) versions after))
  unfolding apply_loop run_all
  apply_loop-run_all completed versions [] tables h k =
      ap (λ (l : List String). some ([], record { versions = l; tables = tables }))
        (sym (append-nil versions))
  apply_loop-run_all completed versions (file ∷ rest) tables h k =
      elim (Bool-cases (has_name file.0 completed)) [
        | inl e ↦
            rw e (apply_loop-run_all completed versions rest tables (ground arith) (ground arith))
        | inr e ↦
            let absent : has_name file.0 (names rest) ≡ false = ground arith in
            let free : clear versions (pending completed rest) ≡ true = ground arith in
            let unused : has_name file.0 versions ≡ false = ground arith in
            let others : distinct rest ≡ true = ground arith in
            apply_loop_new completed versions file rest tables e unused (λ t.
              apply_loop-run_all completed (versions ++ file.0 ∷ []) rest t others (
                clear-append file.0 versions (pending completed rest)
                  (has_name-pending file.0 completed rest absent) free))
            ∙ rw e refl
      ]

  outcome-applies :
      (todo : List File) (db : MigrationDb S) (after : Option S)
      → outcome db (bind after (λ a. some (done_with todo db.versions a))) ≡ applies todo db after
  outcome-applies todo db none = refl
  outcome-applies todo db (some a) = refl

  -- In a folder whose files have different names, the run applies exactly the files whose versions the
  -- table does not hold, in the order of their names, each on what the one before left, and notes
  -- exactly these; if one fails, it raises and the database is as it was.
  pub apply_pending_migrations_lem :
      (files : List File) (db : MigrationDb S)
      → distinct files ≡ true
      → let todo = pending db.versions (sorted_files files) in
        apply_pending_migrations run true files db ≡ applies todo db (run_all todo db.tables)
  unfolding apply_pending_migrations
  apply_pending_migrations_lem files db h =
      let todo = pending db.versions (sorted_files files) in
      ap (outcome db) (
        apply_loop-run_all db.versions db.versions (sorted_files files) db.tables
          (distinct-sorted files ∙ h) (clear-pending db.versions (sorted_files files)))
      ∙ outcome-applies todo db (run_all todo db.tables)

  applies_nothing :
      (files : List File) (db : MigrationDb S)
      → distinct files ≡ true
      → pending db.versions (sorted_files files) ≡ []
      → apply_pending_migrations run true files db ≡ (applied [], db)
  unfolding run_all
  applies_nothing files db h e =
      apply_pending_migrations_lem files db h
      ∙ (ap (λ (todo : List File). applies todo db (run_all todo db.tables)) e
          ∙ ap (λ (l : List String). (applied [], record { versions = l; tables = db.tables }))
              (append-nil db.versions))

  applies-versions :
      (todo : List File) (db db' : MigrationDb S) (after : Option S) (versions : List String)
      → applies todo db after ≡ (applied versions, db')
      → db'.versions ≡ db.versions ++ names todo
  applies-versions todo db db' none versions e = absurd (ground (arith, e))
  applies-versions todo db db' (some after) versions e = ground (arith, e)

  -- After a run that raised nothing, a second one applies nothing and changes nothing.
  pub apply_pending_migrations-twice :
      (files : List File) (db db' : MigrationDb S) (versions : List String)
      → distinct files ≡ true
      → apply_pending_migrations run true files db ≡ (applied versions, db')
      → apply_pending_migrations run true files db' ≡ (applied [], db')
  apply_pending_migrations-twice files db db' versions h e =
      let sorted = sorted_files files in
      let todo = pending db.versions sorted in
      let held =
        applies-versions todo db db' (run_all todo db.tables) versions
          (sym (apply_pending_migrations_lem files db h) ∙ e) in
      applies_nothing files db' h (
        pending_covered db'.versions sorted
          λ c k. ap (has_name c) held ∙ has_name_covered c db.versions sorted k)
