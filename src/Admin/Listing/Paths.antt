-- ===== src/Admin/Listing/Paths.antt =====
-- The paths in the listings of the log browser: they name what is in the folder, and the log view takes them.
use mathlib.Core.List.{append-nil}
use ssh_reports_hub_fast_api.Prelude.{
  ℕ, ◌≡◌, ◌≢◌, refl, sym, ap, ◌∙◌, arith, String, Bool, true, false, not, ◌⊎◌, inl, inr, Option,
  none, some, List, [], ◌∷◌, ◌++◌, any, all, ◌&&◌, str_eq, eq_iff, Bool-cases, All,
}
use ssh_reports_hub_fast_api.Exceptions.{ok, raise_if, >>=-eq-ok}
use ssh_reports_hub_fast_api.Admin.{
  Parts, parts_eq, parents, FileSystem, resolve_log_path, view_entry, view_log_file,
}
use ssh_reports_hub_fast_api.Admin.Paths.{parts_eq_sound, any-parts_eq-map}
use ssh_reports_hub_fast_api.Admin.Listing.{
  Child, relative_to, LogEntry, LogListing, or_failed, insert_child, path_text, sorted_children,
  is_missing, relative, entries_loop, current_path_of, list_folder, list_log_files,
}
use ssh_reports_hub_fast_api.Admin.Listing.Entries.{IsEntry, is_named, entries_loop-IsEntry}
use ssh_reports_hub_fast_api.Text.Pieces.{is_name, join-given}

any-parents :
    (root : Parts) (part : String) (below : Parts)
    → any (parts_eq root) (parents (root ++ part ∷ below)) ≡ true
unfolding parts_eq parents
any-parents [] part below = refl
any-parents (r ∷ root) part below = ground (
  arith,
  any-parts_eq-map r r root (parents (root ++ part ∷ below)),
  any-parents root part below,
  eq_iff r r,
)

parts_eq_same : (path : Parts) → parts_eq path path ≡ true
unfolding parts_eq
parts_eq_same [] = refl
parts_eq_same (p ∷ path) = ground (arith, parts_eq_same path, eq_iff p p)

relative_to_same : (path : Parts) → relative_to path path ≡ some []
unfolding relative_to
relative_to_same [] = refl
relative_to_same (p ∷ path) = ground (arith, relative_to_same path, eq_iff p p)

current_path_of_apart :
    (root target : Parts) (current : Option String)
    → relative_to target root ≡ none
    → current_path_of root target ≢ ok current
unfolding current_path_of relative
current_path_of_apart root target current apart h = elim (Bool-cases (parts_eq target root)) [
  | inl e ↦
      let same =
        ap (λ t. relative_to t root) (parts_eq_sound target root e) ∙ relative_to_same root in
      absurd (grind (arith, same, apart))
  | inr e ↦ absurd (grind (arith, h, e, apart))
]

names_append : (xs ys : Parts) → all is_name (xs ++ ys) ≡ (all is_name xs && all is_name ys)
names_append [] ys = refl
names_append (x ∷ xs) ys = ground (arith, names_append xs ys)

names_below :
    (target : Parts) (name : String) (root below : Parts)
    → all is_name target ≡ true
    → is_name name ≡ true
    → target ++ name ∷ [] ≡ root ++ below
    → all is_name below ≡ true
names_below target name root below h k e =
    let whole = ap (all is_name) e in
    ground (arith, whole, names_append target (name ∷ []), names_append root below, h, k)

path_text-given : (below : Parts) → all is_name below ≡ true → str_eq (path_text below) "" ≡ false
unfolding path_text
path_text-given [] h = refl
path_text-given (p ∷ ps) h = join-given p ps (ground (arith, h))

named_insert :
    (lower : String → String) (child : Child) (children : List Child)
    → all is_named (insert_child lower child children) ≡ (is_named child && all is_named children)
unfolding insert_child
named_insert lower child [] = refl
named_insert lower child (next ∷ rest) = ground (arith, named_insert lower child rest)

named_sorted :
    (lower : String → String) (children : List Child)
    → all is_named (sorted_children lower children) ≡ all is_named children
unfolding sorted_children
named_sorted lower [] = refl
named_sorted lower (child ∷ children) =
    ground (
      arith,
      named_insert lower child (sorted_children lower children),
      named_sorted lower children,
    )

module _ (fs : FileSystem) (log_dir : Parts) where
  resolve_log_path_below :
      (name : String) (below : Parts)
      → str_eq name "" ≡ false
      → fs.resolve (fs.join_path log_dir name) ≡ fs.resolve log_dir ++ below
      → resolve_log_path fs (some name) log_dir ≡ ok (fs.resolve log_dir ++ below)
  unfolding resolve_log_path
  resolve_log_path_below name [] given h = rw given (
      rw h
        (rw (append-nil (fs.resolve log_dir)) (ground (arith, parts_eq_same (fs.resolve log_dir)))))
  resolve_log_path_below name (part ∷ below) given h =
      rw given (rw h (ground (arith, any-parents (fs.resolve log_dir) part below)))

  -- The log view of the path of an entry looks at the entry.
  abbrev pub Opens : Parts → ℕ → Bool → LogEntry → Type 0
  Opens target lines tail entry =
      view_log_file fs log_dir entry.full_path lines tail
      ≡ view_entry entry.full_path lines tail (fs.entry_at (target ++ entry.name ∷ []))

  -- What `/` and `resolve` do with the names below the log folder: the text of the names, joined to a
  -- folder, names the path below it, and no symbolic link leads away from the log folder.
  pub record IsPlain : Type 0 where
    pub joined :
        (below : Parts)
        → all is_name below ≡ true
        → fs.join_path log_dir (path_text below) ≡ log_dir ++ below
    pub linked :
        (below : Parts)
        → all is_name below ≡ true
        → fs.resolve (log_dir ++ below) ≡ fs.resolve log_dir ++ below

  IsEntry-Opens :
      (target : Parts) (lines : ℕ) (tail : Bool) (entry : LogEntry)
      → IsPlain
      → all is_name target ≡ true
      → IsEntry (fs.resolve log_dir) target entry
      → Opens target lines tail entry
  unfolding view_log_file
  IsEntry-Opens target lines tail entry plain names is =
      let below_named =
        names_below target entry.name (fs.resolve log_dir) is.below names is.named is.path in
      let found =
        ap (λ text. fs.resolve (fs.join_path log_dir text)) is.text
        ∙ ap fs.resolve (plain.joined is.below below_named)
        ∙ plain.linked is.below below_named in
      let given = ap (λ text. str_eq text "") is.text ∙ path_text-given is.below below_named in
      let resolved = resolve_log_path_below entry.full_path is.below given found in
      rw resolved (rw (sym is.path) refl)

  All-Opens :
      (target : Parts) (lines : ℕ) (tail : Bool) (entries : List LogEntry)
      → IsPlain
      → all is_name target ≡ true
      → All (IsEntry (fs.resolve log_dir) target) entries
      → All (Opens target lines tail) entries
  All-Opens target lines tail [] plain names is = tt
  All-Opens target lines tail (entry ∷ entries) plain names is = (
    IsEntry-Opens target lines tail entry plain names is.0,
    All-Opens target lines tail entries plain names is.1,
  )

  module _ (lower : String → String) (is_dir : Parts → Bool)
      (iterdir : Parts → String ⊎ List Child) where
    list_folder-IsEntry :
        (target : Parts) (children : List Child) (listing : LogListing)
        → iterdir target ≡ inr children
        → all is_named children ≡ true
        → list_folder lower iterdir (fs.resolve log_dir) target ≡ ok listing
        → All (IsEntry (fs.resolve log_dir) target) listing.entries
    unfolding list_folder or_failed
    list_folder-IsEntry target children listing read named h =
        let root = fs.resolve log_dir in
        let (entries, looped, h2) =
          >>=-eq-ok (entries_loop root target (sorted_children lower children)) _ (rw read at h) in
        let (current, found, done) = >>=-eq-ok (current_path_of root target) _ h2 in
        let same : entries ≡ listing.entries = ground (arith, done) in
        rw (sym same) (
          entries_loop-IsEntry root target (sorted_children lower children) entries
            (named_sorted lower children ∙ named) looped)

    list_log_files-list_folder :
        (path : Option String) (target : Parts) (listing : LogListing)
        → resolve_log_path fs path log_dir ≡ ok target
        → list_log_files lower iterdir fs is_dir path log_dir ≡ ok listing
        → list_folder lower iterdir (fs.resolve log_dir) target ≡ ok listing
    unfolding list_log_files
    list_log_files-list_folder path target listing resolved h =
        let (exists, e, h1) =
          >>=-eq-ok (raise_if (is_missing (fs.entry_at target)) _) _ (rw resolved at h) in
        let (is, k, opened) = >>=-eq-ok (raise_if (not (is_dir target)) _) _ h1 in opened

    -- Each entry of a listing can be opened in the log view by its path: the view then looks at the child of
    -- that name in the folder that was listed, if the names in that folder and on the way to it are names
    -- of files and folders, joining such names to a path and resolving it is plain in the log folder, and
    -- no symbolic link below that folder leads away from it.
    pub list_log_files-view_log_file :
        (path : Option String) (target : Parts) (children : List Child) (listing : LogListing)
        (lines : ℕ) (tail : Bool)
        → IsPlain
        → all is_name target ≡ true
        → iterdir target ≡ inr children
        → all is_named children ≡ true
        → resolve_log_path fs path log_dir ≡ ok target
        → list_log_files lower iterdir fs is_dir path log_dir ≡ ok listing
        → All (Opens target lines tail) listing.entries
    list_log_files-view_log_file path target children listing lines tail plain names read named
          resolved h =
        All-Opens target lines tail listing.entries plain names (
          list_folder-IsEntry target children listing read named
            (list_log_files-list_folder path target listing resolved h))

    -- Where the log folder is not the folder it resolves to, nor below it, no listing without a path succeeds.
    pub list_log_files_unresolved :
        (listing : LogListing)
        → relative_to log_dir (fs.resolve log_dir) ≡ none
        → list_log_files lower iterdir fs is_dir none log_dir ≢ ok listing
    unfolding list_folder current_path_of relative resolve_log_path
    list_log_files_unresolved listing apart h =
        let root = fs.resolve log_dir in
        let (children, listed, h1) =
          >>=-eq-ok (or_failed (iterdir log_dir)) _
            (list_log_files-list_folder none log_dir listing refl h) in
        let (entries, looped, h2) =
          >>=-eq-ok (entries_loop root log_dir (sorted_children lower children)) _ h1 in
        let (current, found, done) = >>=-eq-ok (current_path_of root log_dir) _ h2 in
        current_path_of_apart root log_dir current apart found
