-- ===== src/Favorites/Laws.antt =====
-- The favorites of app/routers/favorites.py behave as a set of pairs (user, report).
use ssh_reports_hub_fast_api.Prelude.{
  ℕ, ◌+◌, ◌≤◌, true, false, not, ◌&&◌, ◌||◌, ◌≡◌, refl, List, [], ◌∷◌, ◌++◌, filter, any,
  any-append, length, arith, ◌==◌, if◌then◌else◌, Bool-cases, inl, inr,
}
use ssh_reports_hub_fast_api.Favorites.{
  ReportFavorite, Table, already_exists, added, not_found, removed, matches, is_favorite,
  add_favorite, remove_favorite,
}

abbrev drop_matching : ℕ → ℕ → List ReportFavorite → List ReportFavorite
drop_matching u r = filter (λ row. not (matches u r row))

module _ (u r v s : ℕ) where
  any-drop_matching :
      (rows : List ReportFavorite)
      → any (matches v s) (drop_matching u r rows)
        ≡ (not (u == v && r == s) && any (matches v s) rows)
  any-drop_matching [] = ground arith
  any-drop_matching (row ∷ rows) = ground (arith, any-drop_matching rows)

  length-filter :
      (rows : List ReportFavorite)
      → (length (filter (matches u r) rows) == 0) ≡ not (any (matches u r) rows)
  length-filter [] = refl
  length-filter (row ∷ rows) = ground (arith, length-filter rows)

  any-matches_same :
      (rows : List ReportFavorite)
      → any (matches u r) rows ≡ true
      → (u == v && r == s || any (matches v s) rows) ≡ any (matches v s) rows
  any-matches_same [] h = cc
  any-matches_same (row ∷ rows) h = ground (arith, any-matches_same rows)

  -- Adding a favorite makes exactly that pair a favorite and changes no other pair; it answers
  -- `already_exists` exactly if the pair was one.
  pub add_favorite_lem :
      (now : ℕ) (t : Table)
      → (is_favorite v s (add_favorite now u r t).1 ≡ (u == v && r == s || is_favorite v s t))
        × ((add_favorite now u r t).0 ≡ (if is_favorite u r t then already_exists else added))
  unfolding add_favorite
  add_favorite_lem now t = elim (Bool-cases (is_favorite u r t)) [
    | inl e ↦ rw e (ground (arith, any-matches_same t.rows), refl)
    | inr e ↦ rw e (
      ground (
        arith,
        any-append (matches v s) t.rows
            (record { id = t.next_id; user_id = u; report_id = r; created_at = now } ∷ []),
      ),
      refl,
    )
  ]

  -- Removing a favorite makes exactly that pair no favorite and changes no other pair; it answers
  -- `not_found` exactly if the pair was none.
  pub remove_favorite_lem :
      (t : Table)
      → (is_favorite v s (remove_favorite u r t).1 ≡ (not (u == v && r == s) && is_favorite v s t))
        × ((remove_favorite u r t).0 ≡ (if is_favorite u r t then removed else not_found))
  unfolding remove_favorite
  remove_favorite_lem t = elim (Bool-cases (length (filter (matches u r) t.rows) == 0)) [
    | inl e ↦ rw e (any-drop_matching t.rows, ground (arith, length-filter t.rows))
    | inr e ↦ rw e (any-drop_matching t.rows, ground (arith, length-filter t.rows))
  ]

abbrev count : ℕ → ℕ → List ReportFavorite → ℕ
count u r [] = 0
count u r (row ∷ rows) = if matches u r row then count u r rows + 1 else count u r rows

-- No pair has two rows: what the unique constraint of the table demands.
pub record IsUnique (t : Table) : Type 0 where
  pub once : (u r : ℕ) → count u r t.rows ≤ 1

module _ (u r : ℕ) where
  count-append : (xs ys : List ReportFavorite) → count u r (xs ++ ys) ≡ count u r xs + count u r ys
  count-append [] ys = omega arith
  count-append (row ∷ rows) ys = ground (arith, count-append rows ys)

  count_absent : (rows : List ReportFavorite) → any (matches u r) rows ≡ false → count u r rows ≡ 0
  count_absent [] h = refl
  count_absent (row ∷ rows) h = ground (arith, count_absent rows)

  count-drop_matching :
      (v s : ℕ) (rows : List ReportFavorite) → count u r (drop_matching v s rows) ≤ count u r rows
  count-drop_matching v s [] = omega arith
  count-drop_matching v s (row ∷ rows) = ground (arith, count-drop_matching v s rows)

-- `add_favorite` never breaks the unique constraint: it tests before it inserts.
pub add_favorite-IsUnique :
    (now user report_id : ℕ) (t : Table)
    → IsUnique t
    → IsUnique (add_favorite now user report_id t).1
unfolding add_favorite
add_favorite-IsUnique now user report_id t h = elim (Bool-cases (is_favorite user report_id t)) [
  | inl e ↦ rw e h
  | inr e ↦ rw e (record {
    once = λ u r. ground (
      arith,
      h.once u r,
      count-append u r t.rows
          (record { id = t.next_id; user_id = user; report_id = report_id; created_at = now } ∷ []),
      count_absent user report_id t.rows,
    );
  })
]

-- `remove_favorite` never breaks it either.
pub remove_favorite-IsUnique :
    (user report_id : ℕ) (t : Table) → IsUnique t → IsUnique (remove_favorite user report_id t).1
unfolding remove_favorite
remove_favorite-IsUnique user report_id t h = record {
  once = λ u r. ground (arith, h.once u r, count-drop_matching u r user report_id t.rows);
}
