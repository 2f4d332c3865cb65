-- ===== src/Admin/Listing.antt =====
-- `list_log_files` of app/routers/admin.py: the entries of a folder of the log browser. What is in a folder
-- and `str.lower` are arguments.
pub mod Entries
pub mod Paths
mod Tests
use Prim.Native.String.{◌++◌ as append}
use ssh_reports_hub_fast_api.Prelude.{
  ℕ, String, Bool, true, false, not, ◌&&◌, ◌||◌, ◌⊎◌, inl, inr, Option, none, some, List, [], ◌∷◌,
  ◌++◌, str_eq, if◌then◌else◌,
}
use ssh_reports_hub_fast_api.Text.{has_prefix, join}
use ssh_reports_hub_fast_api.Text.Codes.{codes}
use ssh_reports_hub_fast_api.Exceptions.{
  Result, ok, raise, other, throw, raise_if, app, make, no_overrides, not_found, validation,
  service_unavailable, ◌>>=◌, ◌>>◌,
}
use ssh_reports_hub_fast_api.Startup.Versions.{before}
use ssh_reports_hub_fast_api.Admin.{
  Parts, parts_eq, Entry, missing, directory, file, FileSystem, resolve_log_path, format_size,
  get_description, is_archived,
}

-- What `is_dir` and `is_file` say, with the time of the last change as text and the size; the text of the
-- OSError where `stat` raises one.
pub data Kind : Type 0 where
  folder : String ⊎ String → Kind
  regular : String ⊎ ℕ × String → Kind
  special : Kind

pub record Child : Type 0 where
  pub name : String
  pub kind : Kind

unfoldable pub is_folder : Kind → Bool
is_folder (folder stat) = true
is_folder _ = false

-- `str` of a relative path.
unfoldable pub path_text : Parts → String
path_text [] = "."
path_text (p ∷ ps) = join "/" (p ∷ ps)

-- `path.relative_to(root)`, `none` where it raises.
unfoldable pub relative_to : Parts → Parts → Option Parts
relative_to path [] = some path
relative_to [] (r ∷ root) = none
relative_to (p ∷ path) (r ∷ root) =
    let rest = relative_to path root in if str_eq p r then rest else none

-- A dictionary of the answer; `none` for a key that it does not have, and for the description None.
pub record LogEntry : Type 0 where
  pub entry_type : String
  pub name : String
  pub full_path : String
  pub size : Option String
  pub modified : String
  pub description : Option String
  pub archived : Option Bool

pub record LogListing : Type 0 where
  pub entries : List LogEntry
  pub current_path : Option String

-- `except OSError as e: raise ServiceUnavailableException(...)`
unfoldable pub or_failed {ℓ} : {A : Type ℓ} → String ⊎ A → Result A
or_failed (inl e) = throw service_unavailable (append "Failed to list directory: " e)
or_failed (inr x) = ok x

unfoldable pub is_missing : Entry → Bool
is_missing missing = true
is_missing _ = false

module _ (lower : String → String) where
  -- The order of the keys `(not p.is_dir(), p.name.lower())`.
  unfoldable pub child_before : Child → Child → Bool
  child_before a b =
      is_folder a.kind && not (is_folder b.kind)
      || (not (is_folder b.kind) || is_folder a.kind)
        && before (codes (lower a.name)) (codes (lower b.name))

  unfoldable pub insert_child : Child → List Child → List Child
  insert_child child [] = child ∷ []
  insert_child child (next ∷ rest) =
      let after = insert_child child rest in
      if child_before next child then next ∷ after else child ∷ next ∷ rest

  unfoldable pub sorted_children : List Child → List Child
  unfolding insert_child
  sorted_children [] = []
  sorted_children (child ∷ rest) = insert_child child (sorted_children rest)

module _ (root target : Parts) where
  unfoldable pub relative : Parts → Result Parts
  relative path = elim (relative_to path root) [
    | none ↦ raise (other "ValueError")
    | some rest ↦ ok rest
  ]

  unfoldable pub kind_entries : String → Kind → Result (List LogEntry)
  unfolding relative or_failed
  kind_entries name (folder stat) = do
    path ← relative (target ++ name ∷ [])
    modified ← or_failed stat
    ok (
        record {
          entry_type = "directory";
          name = name;
          full_path = path_text path;
          size = none;
          modified = modified;
          description = some "디렉토리";
          archived = none;
        }
        ∷ [])
  kind_entries name (regular stat) = do
    (size, modified) ← or_failed stat
    path ← relative (target ++ name ∷ [])
    ok (
        record {
          entry_type = "file";
          name = name;
          full_path = path_text path;
          size = some (format_size size);
          modified = modified;
          description = get_description name;
          archived = some (is_archived name);
        }
        ∷ [])
  kind_entries name special = ok []

  -- One turn of the loop.
  unfoldable pub child_entries : Child → Result (List LogEntry)
  unfolding kind_entries
  child_entries child =
      if has_prefix "." child.name then ok [] else kind_entries child.name child.kind

  unfoldable pub entries_loop : List Child → Result (List LogEntry)
  unfolding child_entries
  entries_loop [] = ok []
  entries_loop (child ∷ children) = do
    here ← child_entries child
    rest ← entries_loop children
    ok (here ++ rest)

  unfoldable pub current_path_of : Result (Option String)
  unfolding relative
  current_path_of =
      if parts_eq target root
      then ok none
      else (relative target >>= λ path. ok (some (path_text path)))

module _ (lower : String → String) (iterdir : Parts → String ⊎ List Child) where
  -- The listing of a folder that exists.
  unfoldable pub list_folder : Parts → Parts → Result LogListing
  unfolding or_failed
  list_folder root target = do
    children ← or_failed (iterdir target)
    entries ← entries_loop root target (sorted_children lower children)
    current_path ← current_path_of root target
    ok (record { entries = entries; current_path = current_path })

  unfoldable pub list_log_files :
      FileSystem → (Parts → Bool) → Option String → Parts → Result LogListing
  unfolding list_folder
  list_log_files fs is_dir path log_dir = do
    target ← resolve_log_path fs path log_dir
    raise_if (is_missing (fs.entry_at target))
        (app (make not_found "Directory not found" no_overrides))
    raise_if (not (is_dir target)) (app (make validation "Path is not a directory" no_overrides))
    list_folder (fs.resolve log_dir) target
