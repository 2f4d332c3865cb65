-- ===== src/Admin.antt =====
-- The log browser of app/routers/admin.py with app/services/admin_log_utils.py. A path is the list of
-- its parts below the root; the file system is a record of arguments.
pub mod Sizes
pub mod Paths
pub mod Listing
pub mod Firms
pub mod Summarize
pub mod Statistics
mod Tests
use Prim.Native.String.{◌++◌ as append}
use ssh_reports_hub_fast_api.Prelude.{
  ℕ, ◌+◌, ◌-◌, ◌*◌, ◌/◌, ◌%◌, String, Bool, true, false, not, ◌&&◌, ◌||◌, Option, none, some, List,
  [], ◌∷◌, map, any, length, take, drop, str_eq, ltb, ◌==◌, if◌then◌else◌,
}
use ssh_reports_hub_fast_api.Text.{contains, has_suffix, join}
use ssh_reports_hub_fast_api.Text.Number.{str_of}
use ssh_reports_hub_fast_api.Exceptions.{
  Result, ok, raise, throw, raise_if, app, make, no_overrides, not_found, permission_denied,
  validation, file_too_large, service_unavailable, ◌>>=◌, ◌>>◌,
}

abbrev pub Parts : Type 0
Parts = List String

unfoldable pub parts_eq : Parts → Parts → Bool
parts_eq [] [] = true
parts_eq [] (q ∷ qs) = false
parts_eq (p ∷ ps) [] = false
parts_eq (p ∷ ps) (q ∷ qs) = str_eq p q && parts_eq ps qs

-- `path.parents`
unfoldable pub parents : Parts → List Parts
parents [] = []
parents (p ∷ ps) = [] ∷ map (λ qs. p ∷ qs) (parents ps)

-- What is at a path: nothing, a folder, or a file with its size and its lines; `none` where reading it
-- raises OSError.
pub data Entry : Type 0 where
  missing directory : Entry
  file : ℕ → Option (List String) → Entry

-- `path.resolve()`, `path / text`, and what is at a path.
pub record FileSystem : Type 0 where
  pub resolve : Parts → Parts
  pub join_path : Parts → String → Parts
  pub entry_at : Parts → Entry

module _ (fs : FileSystem) where
  unfoldable pub resolve_log_path : Option String → Parts → Result Parts
  unfolding parts_eq parents
  resolve_log_path none log_dir = ok log_dir
  resolve_log_path (some sub_path) log_dir =
      let candidate = fs.resolve (fs.join_path log_dir sub_path) in
      let root = fs.resolve log_dir in
      if str_eq sub_path ""
      then ok log_dir
      else (if not (parts_eq candidate root) && not (any (parts_eq root) (parents candidate))
          then throw permission_denied "Access denied: path traversal detected"
          else ok candidate)

-- `round` to the nearest whole number, ties to the even one: how a float is printed.
unfoldable pub round_half_even : ℕ → ℕ → ℕ
round_half_even a d =
    let q = a / d in
    let r = a % d in if ltb (2 * r) d then q else (if ltb d (2 * r) then q + 1 else q + q % 2)

-- `f'{n / d:.1f}'` and `f'{n / d:.2f}'`. A division of a size below 2^53 by a power of two is exact.
unfoldable pub one_decimal : ℕ → ℕ → String
one_decimal n d =
    let t = round_half_even (10 * n) d in append (str_of (t / 10)) (append "." (str_of (t % 10)))

unfoldable pub two_decimals : ℕ → ℕ → String
two_decimals n d =
    let t = round_half_even (100 * n) d in
    append (str_of (t / 100)) (append "." (append (str_of (t / 10 % 10)) (str_of (t % 10))))

unfoldable pub format_size : ℕ → String
format_size n =
    if ltb n 1024
    then append (str_of n) " B"
    else (if ltb n 1048576
        then append (one_decimal n 1024) " KB"
        else (if ltb n 1073741824
            then append (one_decimal n 1048576) " MB"
            else append (two_decimals n 1073741824) " GB"))

unfoldable pub descriptions : List (String × String)
descriptions =
    ("fix_ls_db", "LS DB Fix 로그")
    ∷ ("fix_dbfi_urls", "DB Fi URL Fix 로그")
    ∷ ("scheduler", "스케줄러 실행 로그")
    ∷ ("scraper_background", "스크래퍼 백그라운드 로그")
    ∷ ("output", "스크래퍼 출력 로그")
    ∷ ("ls_fix_background", "LS Fix 백그라운드 로그")
    ∷ []

-- `next((... if pattern in name), None)`
unfoldable pub first_description : String → List (String × String) → Option String
unfolding contains
first_description name [] = none
first_description name ((pattern, description) ∷ rest) =
    if contains pattern name then some description else first_description name rest

unfoldable pub get_description : String → Option String
unfolding first_description descriptions
get_description name = first_description name descriptions

unfoldable pub is_archived : String → Bool
unfolding has_suffix
is_archived name =
    any (λ suffix. has_suffix suffix name) (".gz" ∷ ".zip" ∷ ".bz2" ∷ ".tar" ∷ ".xz" ∷ [])

pub record LogView : Type 0 where
  pub file : String
  pub content : String
  pub lines_returned : ℕ
  pub tail : Bool

-- The lines that are shown; `lines` is at least 10.
unfoldable pub content_lines : Bool → ℕ → List String → List String
content_lines true lines all_lines =
    if ltb lines (length all_lines) then drop (length all_lines - lines) all_lines else all_lines
content_lines false lines all_lines = take lines all_lines

abbrev pub max_file_size : ℕ
max_file_size = 104857600

unfoldable pub view_entry : String → ℕ → Bool → Entry → Result LogView
view_entry name lines tail missing = throw not_found "File not found"
view_entry name lines tail directory = throw validation "Path is not a file"
view_entry name lines tail (file size content) = do
  raise_if (ltb max_file_size size) (
      app (
        make file_too_large
          (append "File too large (" (append (format_size size) "). Maximum allowed: 100 MB"))
          no_overrides))
  elim content [
    | none ↦ throw service_unavailable "Failed to read file"
    | some all_lines ↦
        let shown = content_lines tail lines all_lines in
        ok (record {
          file = name;
          content = join "" shown;
          lines_returned = length shown;
          tail = tail;
        })
  ]

-- A file that is neither a regular file nor a folder counts as a folder here: both are refused alike.
unfoldable pub view_log_file : FileSystem → Parts → String → ℕ → Bool → Result LogView
unfolding view_entry
view_log_file fs log_dir name lines tail = do
  target ← resolve_log_path fs (some name) log_dir
  view_entry name lines tail (fs.entry_at target)
