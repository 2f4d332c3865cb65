-- ===== src/Keywords/Loop.antt =====
-- The loop of `sync_keywords` (app/main.py) without its state, and how its parts change the rows.
use ssh_reports_hub_fast_api.Prelude.{
  ℕ, ◌+◌, String, Bool, true, false, not, ◌≡◌, refl, List, [], ◌∷◌, ◌++◌, map, any, str_eq, ◌==◌,
  arith, inl, inr, Bool-cases, if◌then◌else◌,
}
use mathlib.Core.List.{append-nil, append_assoc}
use ssh_reports_hub_fast_api.Text.{strip, is_space}
use ssh_reports_hub_fast_api.Keywords.{
  ReportKeyword, NewKeyword, matches, present, deactivate, activate_first, sync_loop,
}

-- The keywords that a request asks for, as an independent description: stripped, the empty ones
-- left out.
abbrev pub wanted : List String → List String
wanted [] = []
wanted (text ∷ texts) =
    let rest = wanted texts in
    if str_eq (strip is_space text) "" then rest else strip is_space text ∷ rest

abbrev pub mem : String → List String → Bool
mem kw = any (λ w. str_eq w kw)

abbrev pub occurrences : String → List String → ℕ
occurrences kw [] = 0
occurrences kw (w ∷ ws) = if str_eq w kw then occurrences kw ws + 1 else occurrences kw ws

-- The number of rows that hold a keyword of a user.
abbrev pub count : ℕ → String → List ReportKeyword → ℕ
count user kw [] = 0
count user kw (row ∷ rows) =
    if matches user kw row then count user kw rows + 1 else count user kw rows

module _ (now user : ℕ) where
  pub count-deactivate :
      (v : ℕ) (kw : String) (rows : List ReportKeyword)
      → count v kw (map (deactivate now user) rows) ≡ count v kw rows
  count-deactivate v kw [] = refl
  count-deactivate v kw (row ∷ rows) = ground (arith, count-deactivate v kw rows)

  pub count-activate_first :
      (v : ℕ) (kw k : String) (rows : List ReportKeyword)
      → count v kw (activate_first now user k rows) ≡ count v kw rows
  unfolding activate_first
  count-activate_first v kw k [] = refl
  count-activate_first v kw k (row ∷ rows) = ground (arith, count-activate_first v kw k rows)

pub present-count :
    (user : ℕ) (kw : String) (rows : List ReportKeyword)
    → present user kw rows ≡ not (count user kw rows == 0)
present-count user kw [] = refl
present-count user kw (row ∷ rows) = ground (arith, present-count user kw rows)

module _ (now user : ℕ) where
  -- Each wanted keyword that has no row becomes one new object, in the order of the request.
  unfoldable pub missing : List ReportKeyword → List String → List NewKeyword
  missing rows [] = []
  missing rows (kw ∷ kws) =
      let rest = missing rows kws in
      if present user kw rows
      then rest
      else record { user_id = user; keyword = kw; is_active = true } ∷ rest

  unfoldable pub activate_all : List ReportKeyword → List String → List ReportKeyword
  activate_all rows [] = rows
  activate_all rows (kw ∷ kws) = activate_all (activate_first now user kw rows) kws

  pub present-activate_first :
      (kw k : String) (rows : List ReportKeyword)
      → present user kw (activate_first now user k rows) ≡ present user kw rows
  present-activate_first kw k rows = rw (present-count, count-activate_first, ← present-count)

  pub missing-activate_first :
      (k : String) (rows : List ReportKeyword) (kws : List String)
      → missing (activate_first now user k rows) kws ≡ missing rows kws
  unfolding missing
  missing-activate_first k rows [] = refl
  missing-activate_first k rows (kw ∷ kws) =
      rw (present-activate_first kw k rows, missing-activate_first k rows kws)

  pub activate_first_absent :
      (k : String) (rows : List ReportKeyword)
      → present user k rows ≡ false
      → activate_first now user k rows ≡ rows
  unfolding activate_first
  activate_first_absent k [] h = refl
  activate_first_absent k (row ∷ rows) h = ground (arith, activate_first_absent k rows)

  -- The loop, without its state.
  pub sync_loop_lem :
      (texts : List String) (rows : List ReportKeyword) (pending : List NewKeyword)
      → sync_loop now user texts (rows, pending)
        ≡ (activate_all rows (wanted texts), pending ++ missing rows (wanted texts))
  unfolding sync_loop missing activate_all
  sync_loop_lem [] rows pending = simp append-nil
  sync_loop_lem (text ∷ texts) rows pending = elim (Bool-cases (str_eq (strip is_space text) "")) [
    | inl e ↦ rw e (sync_loop_lem texts rows pending)
    | inr e ↦ elim (Bool-cases (present user (strip is_space text) rows)) [
      | inl p ↦
          rw (e, p)
            (rw (missing-activate_first (strip is_space text) rows (wanted texts)) at
              (sync_loop_lem texts (activate_first now user (strip is_space text) rows) pending))
      | inr p ↦
          rw (e, p)
            (cc (
              activate_first_absent (strip is_space text) rows p,
              sync_loop_lem texts rows (
                  pending
                  ++ record { user_id = user; keyword = strip is_space text; is_active = true }
                    ∷ []),
              append_assoc pending
                  (record { user_id = user; keyword = strip is_space text; is_active = true } ∷ [])
                  (missing rows (wanted texts)),
            ))
    ]
  ]
