-- ===== src/Archive/Distinct.antt =====
-- The names in the ZIP file of app/routers/external_api.py are distinct, but for that of the manifest.
use ssh_reports_hub_fast_api.Prelude.{
  ℕ, ◌≡◌, refl, ap, arith, false, not, String, Option, none, some, List, [], ◌∷◌, ◌++◌, map, filter,
  any-append, if◌then◌else◌, Bool-cases, inl, inr, ◌↔◌,
}
use ssh_reports_hub_fast_api.Text.Codes.{Codes, codes, codes_eq}
use ssh_reports_hub_fast_api.Archive.{
  ArchiveRow, Archive, Progress, sorted_ids, row_by_id, is_archived, is_available, is_used,
  free_name, bundle_file_name, bundle_row, bundle_id, bundle_loop, not_archived, gather, or_codes,
  default_name, arcnames,
}
use ssh_reports_hub_fast_api.Archive.Names.{codes_eq_refl, codes_eq_sound, free_name-is_used}

abbrev pub names : List (ℕ × Codes) → List Codes
names [] = []
names (x ∷ xs) = x.1 ∷ names xs

abbrev pub IsDistinct : List Codes → Type 0
IsDistinct [] = Unit
IsDistinct (s ∷ ss) = (is_used s ss ≡ false) × IsDistinct ss

names-append : (xs ys : List (ℕ × Codes)) → names (xs ++ ys) ≡ names xs ++ names ys
names-append [] ys = refl
names-append (x ∷ xs) ys = ap (λ t. x.1 ∷ t) (names-append xs ys)

codes_eq_sym : (s t : Codes) → codes_eq s t ≡ codes_eq t s
codes_eq_sym s t =
    ground (arith, codes_eq_sound s t, codes_eq_sound t s, codes_eq_refl s, codes_eq_refl t)

IsDistinct-append :
    (ss : List Codes) (name : Codes)
    → IsDistinct ss
    → is_used name ss ≡ false
    → IsDistinct (ss ++ name ∷ [])
IsDistinct-append [] name h k = (refl, tt)
IsDistinct-append (s ∷ ss) name h k = (
  ground (arith, any-append (codes_eq s) ss (name ∷ []), h.0, codes_eq_sym s name),
  IsDistinct-append ss name h.1 (ground (arith, k)),
)

-- The names in the file are distinct and all of them are noted as used; no name is noted twice.
record IsConsistent (p : Progress) : Type 0 where
  distinct : IsDistinct (names p.included)
  used_distinct : IsDistinct p.used_names
  noted :
      (name : Codes) → is_used name p.used_names ≡ false → is_used name (names p.included) ≡ false

module _ (archive : Archive) where
  note_name :
      (p : Progress) (candidate : Codes) (missing : List (ℕ × String))
      → IsConsistent p
      → is_used candidate p.used_names ≡ false
      → IsConsistent (record p { missing = missing; used_names = candidate ∷ p.used_names })
  note_name p candidate missing h free = record {
    distinct = h.distinct;
    used_distinct = (free, h.used_distinct);
    noted = λ name k. h.noted name (ground (arith, k));
  }

  include_name :
      (p : Progress) (report_id : ℕ) (candidate : Codes)
      → IsConsistent p
      → is_used candidate p.used_names ≡ false
      → IsConsistent (record {
        included = p.included ++ (report_id, candidate) ∷ [];
        missing = p.missing;
        used_names = candidate ∷ p.used_names;
      })
  include_name p report_id candidate h free = record {
    distinct =
        rw (names-append p.included ((report_id, candidate) ∷ []))
          (IsDistinct-append (names p.included) candidate h.distinct (h.noted candidate free));
    used_distinct = (free, h.used_distinct);
    noted = λ name k. rw (names-append p.included ((report_id, candidate) ∷ [])) (
        ground
          (arith, any-append (codes_eq name) (names p.included) (candidate ∷ []), h.noted name, k));
  }

  bundle_row-IsConsistent :
      (report_id : ℕ) (row : ArchiveRow) (p : Progress)
      → IsConsistent p
      → IsConsistent (bundle_row archive report_id row p)
  unfolding bundle_row
  bundle_row-IsConsistent report_id row p h =
      let name = bundle_file_name row.file_name report_id in
      let candidate = free_name name p.used_names in
      elim (Bool-cases
        (archive.download row.storage_key (or_codes row.file_name (default_name report_id)))) [
          | inr e ↦
              rw e
                (record { distinct = h.distinct; used_distinct = h.used_distinct; noted = h.noted })
          | inl e ↦ elim (Bool-cases (archive.write candidate)) [
            | inl f ↦
                rw (e, f)
                  (include_name p report_id candidate h (free_name-is_used name p.used_names))
            | inr f ↦
                rw (e, f)
                  (note_name p candidate (p.missing ++ (report_id, "archive_unavailable") ∷ []) h
                    (free_name-is_used name p.used_names))
          ]
        ]

  row_step :
      (report_id : ℕ) (found : Option ArchiveRow) (p : Progress)
      → IsConsistent p
      → IsConsistent (elim found [
        | none ↦ p
        | some row ↦ if is_archived row then bundle_row archive report_id row p else p
      ])
  row_step report_id none p h = h
  row_step report_id (some row) p h = elim (Bool-cases (is_archived row)) [
    | inl e ↦ rw e (bundle_row-IsConsistent report_id row p h)
    | inr e ↦ rw e h
  ]

  bundle_loop-IsConsistent :
      (rows : List ArchiveRow) (report_ids : List ℕ) (p : Progress)
      → IsConsistent p
      → IsConsistent (bundle_loop archive rows report_ids p)
  unfolding bundle_loop bundle_id
  bundle_loop-IsConsistent rows [] p h = h
  bundle_loop-IsConsistent rows (report_id ∷ report_ids) p h =
      bundle_loop-IsConsistent rows report_ids (bundle_id archive rows report_id p)
        (row_step report_id (row_by_id report_id rows) p h)

  gather-IsConsistent :
      (requested : List ℕ) (rows : List ArchiveRow) → IsConsistent (gather archive requested rows)
  unfolding gather
  gather-IsConsistent requested rows =
      bundle_loop-IsConsistent rows (sorted_ids requested)
        (record {
          included = [];
          missing =
              map (not_archived archive)
                (filter (λ id. not (is_available rows id)) (sorted_ids requested));
          used_names = [];
        })
        (record { distinct = tt; used_distinct = tt; noted = λ name k. refl })

  -- Whatever names the rows carry and whatever fails, no two PDFs that the manifest lists have one name, and
  -- no two PDFs are handed to the ZIP file under one name. With the manifest itself, the names handed to
  -- the ZIP file are distinct exactly if no PDF is handed to it as `manifest.json`.
  pub gather-IsDistinct :
      (requested : List ℕ) (rows : List ArchiveRow)
      → IsDistinct (names (gather archive requested rows).included)
        × IsDistinct (gather archive requested rows).used_names
        × (IsDistinct (arcnames (gather archive requested rows))
            ↔ (is_used (codes "manifest.json") (gather archive requested rows).used_names ≡ false))
  unfolding arcnames
  gather-IsDistinct requested rows =
      let all = gather-IsConsistent requested rows in
      (all.distinct, all.used_distinct, ((λ d. d.0), (λ free. (free, all.used_distinct))))
