-- ===== src/Admin/Listing/Entries.antt =====
-- The entries of a listing of the log browser: each names a child of the folder by its path below the root.
use ssh_reports_hub_fast_api.Prelude.{
  ◌≡◌, refl, sym, arith, String, Bool, true, false, all, inl, inr, some, List, [], ◌∷◌, ◌++◌,
  eq_iff, Bool-cases, Option-cases, All, All-append,
}
use ssh_reports_hub_fast_api.Text.{has_prefix}
use ssh_reports_hub_fast_api.Text.Pieces.{is_name}
use ssh_reports_hub_fast_api.Exceptions.{Result, ok, >>=-eq-ok}
use ssh_reports_hub_fast_api.Admin.{Parts}
use ssh_reports_hub_fast_api.Admin.Listing.{
  Kind, folder, regular, special, Child, path_text, relative_to, LogEntry, or_failed, relative,
  kind_entries, child_entries, entries_loop,
}

-- A path is the root and then what `relative_to` gives.
relative_to_sound :
    (path root rest : Parts) → relative_to path root ≡ some rest → path ≡ root ++ rest
unfolding relative_to
relative_to_sound path [] rest h = ground (arith, h)
relative_to_sound [] (r ∷ root) rest h = absurd (ground (arith, h))
relative_to_sound (p ∷ path) (r ∷ root) rest h =
    ground (arith, relative_to_sound path root rest, eq_iff p r)

relative-ok :
    (root target path rest : Parts) → relative root target path ≡ ok rest → path ≡ root ++ rest
unfolding relative
relative-ok root target path rest h = elim (Option-cases (relative_to path root)) [
  | inl e ↦ absurd (grind (arith, h, e))
  | inr (found, e) ↦ relative_to_sound path root rest (grind (arith, h, e))
]

-- A child has a name that a folder can hold.
abbrev pub is_named : Child → Bool
is_named child = is_name child.name

-- An entry names a child of the folder by its path below the root, and the child is not hidden.
pub record IsEntry (root target : Parts) (entry : LogEntry) : Type 0 where
  pub below : Parts
  pub text : entry.full_path ≡ path_text below
  pub path : target ++ entry.name ∷ [] ≡ root ++ below
  pub named : is_name entry.name ≡ true
  pub visible : has_prefix "." entry.name ≡ false

All-ok :
    (P : LogEntry → Type 0) (xs ys : List LogEntry)
    → ◌≡◌ {A = Result (List LogEntry)} (ok xs) (ok ys)
    → All P xs
    → All P ys
All-ok P xs ys h all = let e : xs ≡ ys = ground (arith, h) in rw (sym e) all

module _ (root target : Parts) where
  kind_entries-IsEntry :
      (name : String) (kind : Kind) (entries : List LogEntry)
      → is_name name ≡ true
      → has_prefix "." name ≡ false
      → kind_entries root target name kind ≡ ok entries
      → All (IsEntry root target) entries
  unfolding kind_entries or_failed
  kind_entries-IsEntry name (folder stat) entries named visible h =
      let (path, found, h') = >>=-eq-ok (relative root target (target ++ name ∷ [])) _ h in
      let (modified, dated, done) = >>=-eq-ok (or_failed stat) _ h' in
      All-ok (IsEntry root target) _ entries done (
        record {
          below = path;
          text = refl;
          path = relative-ok root target (target ++ name ∷ []) path found;
          named = named;
          visible = visible;
        },
        tt,
      )
  kind_entries-IsEntry name (regular stat) entries named visible h =
      let (sizes, dated, h') = >>=-eq-ok (or_failed stat) _ h in
      let (path, found, done) = >>=-eq-ok (relative root target (target ++ name ∷ [])) _ h' in
      All-ok (IsEntry root target) _ entries done (
        record {
          below = path;
          text = refl;
          path = relative-ok root target (target ++ name ∷ []) path found;
          named = named;
          visible = visible;
        },
        tt,
      )
  kind_entries-IsEntry name special entries named visible h =
      All-ok (IsEntry root target) [] entries h tt

  child_entries-IsEntry :
      (child : Child) (entries : List LogEntry)
      → is_name child.name ≡ true
      → child_entries root target child ≡ ok entries
      → All (IsEntry root target) entries
  unfolding child_entries
  child_entries-IsEntry child entries named h = elim (Bool-cases (has_prefix "." child.name)) [
    | inl e ↦ All-ok (IsEntry root target) [] entries (rw e at h) tt
    | inr e ↦ kind_entries-IsEntry child.name child.kind entries named e (rw e at h)
  ]

  pub entries_loop-IsEntry :
      (children : List Child) (entries : List LogEntry)
      → all is_named children ≡ true
      → entries_loop root target children ≡ ok entries
      → All (IsEntry root target) entries
  unfolding entries_loop
  entries_loop-IsEntry [] entries named h = All-ok (IsEntry root target) [] entries h tt
  entries_loop-IsEntry (child ∷ children) entries named h =
      let (here, first, h') = >>=-eq-ok (child_entries root target child) _ h in
      let (rest, others, done) = >>=-eq-ok (entries_loop root target children) _ h' in
      All-ok (IsEntry root target) (here ++ rest) entries done (
        All-append (IsEntry root target) here rest
          (child_entries-IsEntry child here (ground (arith, named)) first)
          (entries_loop-IsEntry children rest (ground (arith, named)) others))
