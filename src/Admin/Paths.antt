-- ===== src/Admin/Paths.antt =====
-- Which files the log browser of app/routers/admin.py reads, and which of their lines it shows.
use Prim.Native.Nat.{min}
use mathlib.Core.List.{append-nil}
use ssh_reports_hub_fast_api.Prelude.{
  ℕ, zero, suc, ◌-◌, ◌≤◌, ◌≡◌, refl, sym, ap, ◌∙◌, arith, String, Bool, true, false, not, ◌&&◌,
  none, some, List, [], ◌∷◌, ◌++◌, map, any, length, length-take, length-drop, take, drop, str_eq,
  eq_iff, ltb, if◌then◌else◌, Bool-cases, inl, inr,
}
use ssh_reports_hub_fast_api.Text.{join}
use ssh_reports_hub_fast_api.Exceptions.{Result, ok, throw, permission_denied, >>=-eq-ok}
use ssh_reports_hub_fast_api.Admin.{
  Parts, parts_eq, parents, Entry, missing, directory, file, FileSystem, resolve_log_path, LogView,
  content_lines, max_file_size, view_entry, view_log_file,
}

pub parts_eq_sound : (ps qs : Parts) → parts_eq ps qs ≡ true → ps ≡ qs
unfolding parts_eq
parts_eq_sound [] [] h = refl
parts_eq_sound [] (q ∷ qs) h = absurd (ground (arith, h))
parts_eq_sound (p ∷ ps) [] h = absurd (ground (arith, h))
parts_eq_sound (p ∷ ps) (q ∷ qs) h = ground (arith, parts_eq_sound ps qs, eq_iff p q)

-- The path of a folder below another one, or that folder itself.
abbrev pub Below : Parts → Parts → Type 0
Below root path = (rest : Parts) × (path ≡ root ++ rest)

pub any-parts_eq-map :
    (r p : String) (rs : Parts) (pss : List Parts)
    → any (parts_eq (r ∷ rs)) (map (λ ps. p ∷ ps) pss) ≡ (str_eq r p && any (parts_eq rs) pss)
unfolding parts_eq
any-parts_eq-map r p rs [] = ground arith
any-parts_eq-map r p rs (ps ∷ pss) = ground (arith, any-parts_eq-map r p rs pss)

Below-parent : (root path : Parts) → any (parts_eq root) (parents path) ≡ true → Below root path
unfolding parents parts_eq
Below-parent [] path h = (path, refl)
Below-parent (r ∷ rs) [] h = absurd (ground (arith, h))
Below-parent (r ∷ rs) (p ∷ ps) h =
    let both = sym (any-parts_eq-map r p rs (parents ps)) ∙ h in
    let (rest, e) = Below-parent rs ps (ground (arith, both)) in
    let same : r ≡ p = (eq_iff r p).0 (ground (arith, both)) in
    (rest, ap (λ (l : Parts). p ∷ l) e ∙ ap (λ (c : String). c ∷ (rs ++ rest)) (sym same))

same_or_Below :
    (candidate root target : Parts)
    → ◌≡◌ {A = Result Parts}
        (if not (parts_eq candidate root) && not (any (parts_eq root) (parents candidate))
          then throw permission_denied "Access denied: path traversal detected"
          else ok candidate)
        (ok target)
    → Below root target
same_or_Below candidate root target h = elim (Bool-cases (parts_eq candidate root)) [
  | inl e ↦
      let same : candidate ≡ target = ground (arith, h) in
      ([], sym same ∙ (parts_eq_sound candidate root e ∙ sym (append-nil root)))
  | inr e ↦
      let same : candidate ≡ target = ground (arith, h) in
      let (rest, path) = Below-parent root candidate (ground (arith, h)) in (rest, sym same ∙ path)
]

-- What is shown of the lines of a file: all of them, or as many as were asked for, from the end or from
-- the beginning.
pub record ShowsLines (tail : Bool) (lines : ℕ) (all_lines shown : List String) : Type 0 where
  pub rest : List String
  pub split : all_lines ≡ (if tail then rest ++ shown else shown ++ rest)
  pub count : length shown ≡ min lines (length all_lines)

append-take-drop : (n : ℕ) (xs : List String) → xs ≡ take n xs ++ drop n xs
append-take-drop zero xs = refl
append-take-drop (suc n) [] = refl
append-take-drop (suc n) (x ∷ xs) = ap (λ (l : List String). x ∷ l) (append-take-drop n xs)

content_lines-ShowsLines :
    (tail : Bool) (lines : ℕ) (all_lines : List String)
    → ShowsLines tail lines all_lines (content_lines tail lines all_lines)
unfolding content_lines
content_lines-ShowsLines true lines all_lines = elim (Bool-cases (ltb lines (length all_lines))) [
  | inl e ↦ rw e (record {
    rest = take (length all_lines - lines) all_lines;
    split = append-take-drop (length all_lines - lines) all_lines;
    count = ground (arith, length-drop (length all_lines - lines) all_lines, e);
  })
  | inr e ↦ rw e (record { rest = []; split = refl; count = ground arith })
]
content_lines-ShowsLines false lines all_lines = record {
  rest = drop lines all_lines;
  split = append-take-drop lines all_lines;
  count = length-take lines all_lines;
}

module _ (fs : FileSystem) (log_dir : Parts) where
  resolve_log_path-Below :
      (name : String) (target : Parts)
      → str_eq name "" ≡ false
      → resolve_log_path fs (some name) log_dir ≡ ok target
      → Below (fs.resolve log_dir) target
  unfolding resolve_log_path
  resolve_log_path-Below name target given h =
      same_or_Below (fs.resolve (fs.join_path log_dir name)) (fs.resolve log_dir) target
        (rw given at h)

  -- What a successful answer shows, and of which file.
  pub record ShowsFile (name : String) (lines : ℕ) (tail : Bool) (v : LogView) : Type 0 where
    pub below : Parts
    pub size : ℕ
    pub all_lines : List String
    pub shown : List String
    pub found : fs.entry_at (fs.resolve log_dir ++ below) ≡ file size (some all_lines)
    pub small : size ≤ max_file_size
    pub part : ShowsLines tail lines all_lines shown
    pub content : v.content ≡ join "" shown
    pub counted : v.lines_returned ≡ length shown

  view_entry-ShowsFile :
      (name : String) (lines : ℕ) (tail : Bool) (v : LogView) (below : Parts) (e : Entry)
      → fs.entry_at (fs.resolve log_dir ++ below) ≡ e
      → view_entry name lines tail e ≡ ok v
      → ShowsFile name lines tail v
  unfolding view_entry
  view_entry-ShowsFile name lines tail v below missing found h = absurd (ground (arith, h))
  view_entry-ShowsFile name lines tail v below directory found h = absurd (ground (arith, h))
  view_entry-ShowsFile name lines tail v below (file size none) found h = absurd (ground (arith, h))
  view_entry-ShowsFile name lines tail v below (file size (some all_lines)) found h = record {
    below = below;
    size = size;
    all_lines = all_lines;
    shown = content_lines tail lines all_lines;
    found = found;
    small = ground (arith, h);
    part = content_lines-ShowsLines tail lines all_lines;
    content = ground (arith, h);
    counted = ground (arith, h);
  }

  -- Where a file is named and the answer is a success, it shows a file in the log folder or below it, of
  -- at most 100 MB, and of its lines as many as were asked for, or all, from the end or from the beginning.
  pub view_log_file-ShowsFile :
      (name : String) (lines : ℕ) (tail : Bool) (v : LogView)
      → str_eq name "" ≡ false
      → view_log_file fs log_dir name lines tail ≡ ok v
      → ShowsFile name lines tail v
  unfolding view_log_file
  view_log_file-ShowsFile name lines tail v given h =
      let (target, resolved, viewed) =
        >>=-eq-ok (resolve_log_path fs (some name) log_dir)
          (λ t. view_entry name lines tail (fs.entry_at t)) h in
      let (below, path) = resolve_log_path-Below name target given resolved in
      view_entry-ShowsFile name lines tail v below (fs.entry_at (fs.resolve log_dir ++ below)) refl
        (ap (λ t. view_entry name lines tail (fs.entry_at t)) (sym path) ∙ viewed)
