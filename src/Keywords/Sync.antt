-- ===== src/Keywords/Sync.antt =====
-- What `sync_keywords` of app/main.py leaves in the table.
use ssh_reports_hub_fast_api.Prelude.{
  ℕ, ◌+◌, String, Bool, false, not, ◌&&◌, ◌||◌, ◌≡◌, refl, ◌∙◌, List, [], ◌∷◌, ◌++◌, map, filter,
  any, any-append, str_eq, eq_iff, ◌==◌, arith, inl, inr, Bool-cases, if◌then◌else◌,
}
use ssh_reports_hub_fast_api.Keywords.{
  ReportKeyword, Table, matches, present, deactivate, activate_first, insert_rows, sync_keywords,
}
use ssh_reports_hub_fast_api.Keywords.Loop.{
  wanted, mem, occurrences, count, count-deactivate, count-activate_first, present-count, missing,
  activate_all, present-activate_first, sync_loop_lem,
}

-- The rows that hold a keyword of a user and are active.
abbrev pub is_active_for : ℕ → String → List ReportKeyword → Bool
is_active_for user kw = any (λ row. matches user kw row && row.is_active)

module _ (now user : ℕ) where
  count-activate_all :
      (v : ℕ) (kw : String) (rows : List ReportKeyword) (kws : List String)
      → count v kw (activate_all now user rows kws) ≡ count v kw rows
  unfolding activate_all
  count-activate_all v kw rows [] = refl
  count-activate_all v kw rows (k ∷ kws) =
      count-activate_all v kw (activate_first now user k rows) kws
      ∙ count-activate_first now user v kw k rows

  count-append :
      (v : ℕ) (kw : String) (xs ys : List ReportKeyword)
      → count v kw (xs ++ ys) ≡ count v kw xs + count v kw ys
  count-append v kw [] ys = omega arith
  count-append v kw (row ∷ rows) ys = ground (arith, count-append v kw rows ys)

  count-missing :
      (next : ℕ) (kw : String) (rows : List ReportKeyword) (kws : List String)
      → count user kw (insert_rows now next (missing now user rows kws))
        ≡ (if count user kw rows == 0 then occurrences kw kws else 0)
  unfolding missing insert_rows
  count-missing next kw rows [] = ground arith
  count-missing next kw rows (k ∷ kws) = elim (Bool-cases (present user k rows)) [
    | inl p ↦
        rw p
          (ground (arith, count-missing next kw rows kws, present-count user k rows, eq_iff k kw))
    | inr p ↦ rw p (
        ground
          (arith, count-missing (next + 1) kw rows kws, present-count user k rows, eq_iff k kw))
  ]

  active-deactivate :
      (kw : String) (rows : List ReportKeyword)
      → is_active_for user kw (map (deactivate now user) rows) ≡ false
  active-deactivate kw [] = refl
  active-deactivate kw (row ∷ rows) = ground (arith, active-deactivate kw rows)

  pub active-activate_first :
      (kw k : String) (rows : List ReportKeyword)
      → is_active_for user kw (activate_first now user k rows)
        ≡ (is_active_for user kw rows || str_eq k kw && present user k rows)
  unfolding activate_first
  active-activate_first kw k [] = ground arith
  active-activate_first kw k (row ∷ rows) = ground (
    arith,
    active-activate_first kw k rows,
    eq_iff k kw,
    eq_iff row.keyword k,
    eq_iff row.keyword kw,
  )

  active-activate_all :
      (kw : String) (rows : List ReportKeyword) (kws : List String)
      → is_active_for user kw (activate_all now user rows kws)
        ≡ (is_active_for user kw rows || mem kw kws && present user kw rows)
  unfolding activate_all
  active-activate_all kw rows [] = ground arith
  active-activate_all kw rows (k ∷ kws) = ground (
    arith,
    active-activate_all kw (activate_first now user k rows) kws,
    active-activate_first kw k rows,
    present-activate_first now user kw k rows,
    eq_iff k kw,
  )

  active-missing :
      (next : ℕ) (kw : String) (rows : List ReportKeyword) (kws : List String)
      → is_active_for user kw (insert_rows now next (missing now user rows kws))
        ≡ (mem kw kws && not (present user kw rows))
  unfolding missing insert_rows
  active-missing next kw rows [] = refl
  active-missing next kw rows (k ∷ kws) = elim (Bool-cases (present user k rows)) [
    | inl p ↦ rw p (ground (arith, active-missing next kw rows kws, eq_iff k kw))
    | inr p ↦ rw p (ground (arith, active-missing (next + 1) kw rows kws, eq_iff k kw))
  ]

  -- The table that a sync leaves, without the loop.
  synced_rows : List String → Table → List ReportKeyword
  synced_rows texts t =
      activate_all now user (map (deactivate now user) t.rows) (wanted texts)
      ++ insert_rows now t.next_id
          (missing now user (map (deactivate now user) t.rows) (wanted texts))

  rows-sync_keywords :
      (texts : List String) (t : Table)
      → (sync_keywords now user texts t).0.rows ≡ synced_rows texts t
  unfolding sync_keywords synced_rows
  rows-sync_keywords texts t =
      rw (sync_loop_lem now user texts (map (deactivate now user) t.rows) [])

  -- After a sync a keyword of the user is active exactly if the request names it (stripped, and
  -- not empty), whatever the table held.
  pub sync_keywords-active :
      (kw : String) (texts : List String) (t : Table)
      → is_active_for user kw (sync_keywords now user texts t).0.rows ≡ mem kw (wanted texts)
  unfolding synced_rows
  sync_keywords-active kw texts t =
      let base = map (deactivate now user) t.rows in
      let ws = wanted texts in
      ground (
        arith,
        rows-sync_keywords texts t,
        any-append (λ row. matches user kw row && row.is_active) (activate_all now user base ws)
            (insert_rows now t.next_id (missing now user base ws)),
        active-activate_all kw base ws,
        active-deactivate kw t.rows,
        active-missing t.next_id kw base ws,
      )

  -- How many rows hold a keyword of the user after a sync: as many as before, and if there was
  -- none, as many as the request names it, so that a new keyword named twice gets two rows.
  pub sync_keywords-count :
      (kw : String) (texts : List String) (t : Table)
      → count user kw (sync_keywords now user texts t).0.rows ≡ (
          if count user kw t.rows == 0 then occurrences kw (wanted texts) else count user kw t.rows)
  unfolding synced_rows
  sync_keywords-count kw texts t =
      let base = map (deactivate now user) t.rows in
      let ws = wanted texts in
      ground (
        arith,
        rows-sync_keywords texts t,
        count-append user kw (activate_all now user base ws)
            (insert_rows now t.next_id (missing now user base ws)),
        count-activate_all user kw base ws,
        count-deactivate now user user kw t.rows,
        count-missing t.next_id kw base ws,
      )

-- The rows of the other users.
abbrev pub others : ℕ → List ReportKeyword → List ReportKeyword
others user = filter (λ row. not (row.user_id == user))

module _ (now user : ℕ) where
  others-deactivate :
      (rows : List ReportKeyword) → others user (map (deactivate now user) rows) ≡ others user rows
  others-deactivate [] = refl
  others-deactivate (row ∷ rows) = ground (arith, others-deactivate rows)

  others-activate_first :
      (kw : String) (rows : List ReportKeyword)
      → others user (activate_first now user kw rows) ≡ others user rows
  unfolding activate_first
  others-activate_first kw [] = refl
  others-activate_first kw (row ∷ rows) = ground (arith, others-activate_first kw rows)

  others-activate_all :
      (rows : List ReportKeyword) (kws : List String)
      → others user (activate_all now user rows kws) ≡ others user rows
  unfolding activate_all
  others-activate_all rows [] = refl
  others-activate_all rows (kw ∷ kws) =
      others-activate_all (activate_first now user kw rows) kws ∙ others-activate_first kw rows

  others-missing :
      (next : ℕ) (rows xs : List ReportKeyword) (kws : List String)
      → others user (xs ++ insert_rows now next (missing now user rows kws)) ≡ others user xs
  unfolding missing insert_rows
  others-missing next rows [] [] = refl
  others-missing next rows [] (kw ∷ kws) = elim (Bool-cases (present user kw rows)) [
    | inl p ↦ rw p (others-missing next rows [] kws)
    | inr p ↦ rw p (ground (arith, others-missing (next + 1) rows [] kws))
  ]
  others-missing next rows (x ∷ xs) kws = ground (arith, others-missing next rows xs kws)

  -- A sync leaves the rows of every other user as they were, in their order.
  pub sync_keywords-others :
      (texts : List String) (t : Table)
      → others user (sync_keywords now user texts t).0.rows ≡ others user t.rows
  unfolding synced_rows
  sync_keywords-others texts t =
      let base = map (deactivate now user) t.rows in
      rw (rows-sync_keywords now user texts t) (
        others-missing t.next_id base (activate_all now user base (wanted texts)) (wanted texts)
        ∙ others-activate_all base (wanted texts)
        ∙ others-deactivate t.rows)
