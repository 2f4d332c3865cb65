-- ===== src/Archive/Bundle.antt =====
-- What the archive bundle of app/routers/external_api.py holds.
use ssh_reports_hub_fast_api.Prelude.{
  ℕ, ◌+◌, ◌<◌, ◌≡◌, refl, arith, Bool, true, not, ◌&&◌, List, [], ◌∷◌, ◌++◌, map, filter, any, all,
  ltb, ◌==◌, if◌then◌else◌, Bool-cases, Option-cases, inl, inr,
}
use ssh_reports_hub_fast_api.Archive.{
  ArchiveRow, Archive, Progress, insert_id, sorted_ids, row_by_id, is_available, free_name,
  bundle_file_name, bundle_row, bundle_id, bundle_loop, not_archived, gather,
}

abbrev pub tally : ℕ → List ℕ → ℕ
tally n [] = 0
tally n (m ∷ ms) = if m == n then tally n ms + 1 else tally n ms

-- How often an identifier stands in a list of results.
abbrev pub entries {ℓ} : {A : Type ℓ} → ℕ → List (ℕ × A) → ℕ
entries n [] = 0
entries n (x ∷ xs) = if x.0 == n then entries n xs + 1 else entries n xs

entries-append {ℓ} :
    {A : Type ℓ} (n : ℕ) (xs ys : List (ℕ × A)) → entries n (xs ++ ys) ≡ entries n xs + entries n ys
entries-append n [] ys = omega arith
entries-append n (x ∷ xs) ys = ground (arith, entries-append n xs ys)

abbrev IsAscending : List ℕ → Type 0
IsAscending [] = Unit
IsAscending (n ∷ ns) = (all (ltb n) ns ≡ true) × IsAscending ns

all-insert_id : (k n : ℕ) (ns : List ℕ) → all (ltb k) (insert_id n ns) ≡ (ltb k n && all (ltb k) ns)
unfolding insert_id
all-insert_id k n [] = refl
all-insert_id k n (m ∷ ms) = ground (arith, all-insert_id k n ms)

all_below : (k n : ℕ) (ns : List ℕ) → k < n → all (ltb n) ns ≡ true → all (ltb k) ns ≡ true
all_below k n [] h e = refl
all_below k n (m ∷ ms) h e = ground (arith, all_below k n ms h)

insert_id-IsAscending : (n : ℕ) (ns : List ℕ) → IsAscending ns → IsAscending (insert_id n ns)
unfolding insert_id
insert_id-IsAscending n [] h = (refl, tt)
insert_id-IsAscending n (m ∷ ms) h = elim (Bool-cases (n == m)) [
  | inl e ↦ rw e h
  | inr e ↦ elim (Bool-cases (ltb n m)) [
    | inl f ↦ rw (e, f) (ground (arith, h.0, all_below n m ms), h)
    | inr f ↦ rw (e, f) (ground (arith, h.0, all-insert_id m n ms), insert_id-IsAscending n ms h.1)
  ]
]

sorted_ids-IsAscending : (ns : List ℕ) → IsAscending (sorted_ids ns)
unfolding sorted_ids
sorted_ids-IsAscending [] = tt
sorted_ids-IsAscending (n ∷ ns) =
    insert_id-IsAscending n (sorted_ids ns) (sorted_ids-IsAscending ns)

tally_above : (n : ℕ) (ns : List ℕ) → all (ltb n) ns ≡ true → tally n ns ≡ 0
tally_above n [] h = refl
tally_above n (m ∷ ms) h = ground (arith, tally_above n ms)

tally-insert_id :
    (k n : ℕ) (ns : List ℕ)
    → IsAscending ns
    → tally k (insert_id n ns) ≡ (if n == k then 1 else tally k ns)
unfolding insert_id
tally-insert_id k n [] h = ground arith
tally-insert_id k n (m ∷ ms) h =
    ground
      (arith, tally-insert_id k n ms h.1, h.0, tally_above m ms, all_below n m ms, tally_above n ms)

abbrev pub requests : ℕ → List ℕ → Bool
requests n = any (λ m. m == n)

tally-sorted_ids :
    (k : ℕ) (ns : List ℕ) → tally k (sorted_ids ns) ≡ (if requests k ns then 1 else 0)
unfolding sorted_ids
tally-sorted_ids k [] = refl
tally-sorted_ids k (n ∷ ns) =
    ground (
      arith,
      tally-insert_id k n (sorted_ids ns) (sorted_ids-IsAscending ns),
      tally-sorted_ids k ns,
    )

abbrev pub total : ℕ → Progress → ℕ
total n p = entries n p.included + entries n p.missing

module _ (archive : Archive) where
  total-bundle_row :
      (n report_id : ℕ) (row : ArchiveRow) (p : Progress)
      → total n (bundle_row archive report_id row p) ≡ (if report_id == n then 1 else 0) + total n p
  unfolding bundle_row
  total-bundle_row n report_id row p =
      let candidate = free_name (bundle_file_name row.file_name report_id) p.used_names in
      ground (
        arith,
        entries-append n p.included ((report_id, candidate) ∷ []),
        entries-append n p.missing ((report_id, "archive_unavailable") ∷ []),
      )

  total-bundle_id :
      (rows : List ArchiveRow) (n report_id : ℕ) (p : Progress)
      → total n (bundle_id archive rows report_id p)
        ≡ (if is_available rows report_id && report_id == n then 1 else 0) + total n p
  unfolding bundle_id is_available
  total-bundle_id rows n report_id p = elim (Option-cases (row_by_id report_id rows)) [
    | inl e ↦ ground (arith, e)
    | inr (row, e) ↦ ground (arith, e, total-bundle_row n report_id row p)
  ]

  total-bundle_loop :
      (rows : List ArchiveRow) (n : ℕ) (report_ids : List ℕ) (p : Progress)
      → total n (bundle_loop archive rows report_ids p)
        ≡ tally n (filter (is_available rows) report_ids) + total n p
  unfolding bundle_loop
  total-bundle_loop rows n [] p = omega arith
  total-bundle_loop rows n (report_id ∷ report_ids) p = ground (
    arith,
    total-bundle_loop rows n report_ids (bundle_id archive rows report_id p),
    total-bundle_id rows n report_id p,
  )

  entries_missing :
      (rows : List ArchiveRow) (n : ℕ) (report_ids : List ℕ)
      → entries n
            (map (not_archived archive) (filter (λ id. not (is_available rows id)) report_ids))
          + tally n (filter (is_available rows) report_ids)
        ≡ tally n report_ids
  entries_missing rows n [] = omega arith
  entries_missing rows n (report_id ∷ report_ids) =
      ground (arith, entries_missing rows n report_ids)

  -- Whatever downloads fail, every requested report stands exactly once in the manifest, among the
  -- included or among the missing, and no other report stands there.
  pub gather-total :
      (requested : List ℕ) (rows : List ArchiveRow) (n : ℕ)
      → total n (gather archive requested rows) ≡ (if requests n requested then 1 else 0)
  unfolding gather
  gather-total requested rows n =
      let ids = sorted_ids requested in
      let start = map (not_archived archive) (filter (λ id. not (is_available rows id)) ids) in
      omega (
        arith,
        total-bundle_loop rows n ids (record { included = []; missing = start; used_names = [] }),
        entries_missing rows n ids,
        tally-sorted_ids n requested,
      )
