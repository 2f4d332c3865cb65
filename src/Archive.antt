-- ===== src/Archive.antt =====
-- The archive downloads and the share links of app/routers/external_api.py with the file names of
-- app/services/archive_files.py. The download by rclone and the writing of the ZIP file are
-- parameters: whether they succeed. Temporary files are left out. File names are lists of code points.
pub mod Names
pub mod Bundle
pub mod Distinct
pub mod Links
pub mod Remote
mod Tests
use ssh_reports_hub_fast_api.Prelude.{
  ℕ, zero, suc, ◌+◌, ◌≡◌, refl, Bool, true, false, not, ◌&&◌, ◌||◌, String, Option, none, some,
  List, [], ◌∷◌, ◌++◌, map, filter, any, length, ltb, ◌==◌, if◌then◌else◌, is_some,
}
use ssh_reports_hub_fast_api.Text.Codes.{Codes, codes, codes_eq, split_on, non_empty}
use ssh_reports_hub_fast_api.Text.Number.{str_of}
use ssh_reports_hub_fast_api.Settings.{Settings}
use ssh_reports_hub_fast_api.Exceptions.{Result, ok, raise, throw_http, ◌>>=◌}
use ssh_reports_hub_fast_api.Security.{Jwt, create_share_token, decode_share_token}

-- A row of the joined query; a missing value is the empty text, which is false as `None` is.
pub record ArchiveRow : Type 0 where
  pub report_id : ℕ
  pub archive_status : Codes
  pub storage_key : Codes
  pub storage_backend : Codes
  pub file_name : Codes

-- `sorted(set(ids))`
unfoldable pub insert_id : ℕ → List ℕ → List ℕ
insert_id n [] = n ∷ []
insert_id n (m ∷ ms) =
    let rest = insert_id n ms in
    if n == m then m ∷ ms else (if ltb n m then n ∷ m ∷ ms else m ∷ rest)

unfoldable pub sorted_ids : List ℕ → List ℕ
sorted_ids [] = []
sorted_ids (n ∷ ns) = insert_id n (sorted_ids ns)

-- `row_by_id.get(report_id)`: of two rows with one key the later stands in the dict.
unfoldable pub row_by_id : ℕ → List ArchiveRow → Option ArchiveRow
row_by_id report_id [] = none
row_by_id report_id (row ∷ rows) = elim (row_by_id report_id rows) [
  | some found ↦ some found
  | none ↦ if row.report_id == report_id then some row else none
]

-- The row is archived on the drive.
unfoldable pub is_archived : ArchiveRow → Bool
is_archived row =
    codes_eq row.archive_status (codes "ARCHIVED")
    && non_empty row.storage_key
    && (not (non_empty row.storage_backend) || codes_eq row.storage_backend (codes "googledrive"))

unfoldable pub is_available : List ArchiveRow → ℕ → Bool
is_available rows report_id = elim (row_by_id report_id rows) [
  | none ↦ false
  | some row ↦ is_archived row
]

-- The last part of a path that is neither empty nor a single dot, as `Path(x).name` gives it.
unfoldable pub last_part : List Codes → Codes
last_part [] = []
last_part (part ∷ parts) =
    let rest = last_part parts in
    if non_empty rest then rest else (if codes_eq part (codes ".") then [] else part)

unfoldable pub path_name : Codes → Codes
path_name path = last_part (split_on (λ c. c == b'/') path)

-- `f"report-{report_id}.pdf"`
unfoldable pub default_name : ℕ → Codes
default_name report_id = codes "report-" ++ (codes (str_of report_id) ++ codes ".pdf")

abbrev pub or_codes : Codes → Codes → Codes
or_codes [] d = d
or_codes (c ∷ s) d = c ∷ s

unfoldable pub bundle_file_name : Codes → ℕ → Codes
bundle_file_name file_name report_id =
    or_codes (path_name (or_codes file_name (default_name report_id))) (default_name report_id)

-- `Path(name).stem` and `.suffix`: the suffix starts at the last dot that is neither the first nor
-- the last character.
unfoldable pub split_name : Codes → Codes × Codes
split_name [] = ([], [])
split_name (c ∷ s) =
    let (stem, suffix) = split_name s in
    if non_empty suffix
    then (c ∷ stem, suffix)
    else (if c == b'.' && non_empty s && not (any (λ d. d == b'.') s)
        then ([], c ∷ s)
        else (c ∷ s, []))

-- A leading dot begins no suffix.
unfoldable pub stem_suffix : Codes → Codes × Codes
stem_suffix [] = ([], [])
stem_suffix (c ∷ s) = let (stem, suffix) = split_name s in (c ∷ stem, suffix)

-- `f"{stem}-{counter}{suffix}"`
unfoldable pub numbered : Codes → Codes → ℕ → Codes
numbered stem suffix counter = stem ++ (b'-' ∷ codes (str_of counter) ++ suffix)

abbrev pub is_used : Codes → List Codes → Bool
is_used name = any (codes_eq name)

-- The `while` loop from a counter on.
unfoldable pub next_name : ℕ → Codes → Codes → ℕ → List Codes → Codes
next_name zero stem suffix counter used_names = numbered stem suffix counter
next_name (suc fuel) stem suffix counter used_names =
    let later = next_name fuel stem suffix (counter + 1) used_names in
    if is_used (numbered stem suffix counter) used_names
    then later
    else numbered stem suffix counter

unfoldable pub free_name : Codes → List Codes → Codes
free_name name used_names =
    let (stem, suffix) = stem_suffix name in
    let later = next_name (length used_names) stem suffix 2 used_names in
    if is_used name used_names then later else name

pub record Archive : Type 0 where
  -- whether `download_archive_file` returns a file, by storage key and file name
  pub download : Codes → Codes → Bool
  -- whether `bundle.write` succeeds, by the name in the ZIP file
  pub write : Codes → Bool

-- What the loop has gathered.
pub record Progress : Type 0 where
  pub included : List (ℕ × Codes)
  pub missing : List (ℕ × String)
  pub used_names : List Codes

-- The names that are handed to the ZIP file: those of the files, which `used_names` holds also where the
-- write then fails, and the name of the manifest, which `used_names` does not hold.
unfoldable pub arcnames : Progress → List Codes
arcnames p = codes "manifest.json" ∷ p.used_names

module _ (archive : Archive) where
  -- One turn of the loop for an available row.
  unfoldable pub bundle_row : ℕ → ArchiveRow → Progress → Progress
  bundle_row report_id row p =
      let candidate = free_name (bundle_file_name row.file_name report_id) p.used_names in
      let failed = p.missing ++ (report_id, "archive_unavailable") ∷ [] in
      if archive.download row.storage_key (or_codes row.file_name (default_name report_id))
      then (if archive.write candidate
          then record {
            included = p.included ++ (report_id, candidate) ∷ [];
            missing = p.missing;
            used_names = candidate ∷ p.used_names;
          }
          else record p { missing = failed; used_names = candidate ∷ p.used_names })
      else record p { missing = failed }

  unfoldable pub bundle_id : List ArchiveRow → ℕ → Progress → Progress
  bundle_id rows report_id p = elim (row_by_id report_id rows) [
    | none ↦ p
    | some row ↦ if is_archived row then bundle_row report_id row p else p
  ]

  unfoldable pub bundle_loop : List ArchiveRow → List ℕ → Progress → Progress
  bundle_loop rows [] p = p
  bundle_loop rows (report_id ∷ report_ids) p =
      bundle_loop rows report_ids (bundle_id rows report_id p)

  abbrev pub not_archived : ℕ → ℕ × String
  not_archived report_id = (report_id, "not_archived")

  unfoldable pub gather : List ℕ → List ArchiveRow → Progress
  gather requested rows =
      let report_ids = sorted_ids requested in
      bundle_loop rows report_ids (record {
        included = [];
        missing =
            map not_archived (filter (λ report_id. not (is_available rows report_id)) report_ids);
        used_names = [];
      })

  -- The manifest of the ZIP file, or the answer that nothing is there.
  unfoldable pub download_archive_bundle : List ℕ → List ArchiveRow → Result Progress
  download_archive_bundle requested rows =
      let p = gather requested rows in
      elim p.included [ [] ↦ throw_http 404 "No archived PDFs available" | x ∷ xs ↦ ok p ]

-- How `download_archive_file` ends.
pub data Download : Type 0 where
  file value_error timed_out : Download
  runtime_error : String → Download

unfoldable pub download_archived_pdf :
    (Codes → Codes → Download) → ℕ → Option ArchiveRow → Result Codes
download_archived_pdf download report_id none = throw_http 404 "Archived PDF not found"
download_archived_pdf download report_id (some row) =
    let name = or_codes row.file_name (default_name report_id) in
    if not (is_archived row)
    then throw_http 404 "Archived PDF not found"
    else elim (download row.storage_key name) [
      | file ↦ ok (path_name name)
      | value_error ↦ throw_http 404 "Archived PDF not found"
      | timed_out ↦ throw_http 504 "Archive download timed out"
      | runtime_error detail ↦ throw_http 503 detail
    ]

abbrev pub has_report : ℕ → List ℕ → Bool
has_report report_id = any (λ id. id == report_id)

module _ (lib : Jwt) where
  open lib use {Token}

  unfoldable pub create_share_link : ℕ → Settings → ℕ → List ℕ → Result (Token × ℕ × ℕ)
  create_share_link report_id s now reports =
      if has_report report_id reports
      then (do made ← create_share_token lib report_id s now; ok (made.0, report_id, made.1))
      else throw_http 404 "Report not found"

  unfoldable pub resolve_share_link : Token → Settings → ℕ → List ℕ → Result (Token × ℕ)
  resolve_share_link token s now reports = decode_share_token lib token s now >>= λ report_id.
      if has_report report_id reports
      then ok (token, report_id)
      else throw_http 404 "Report not found"

name_test :
    free_name (codes "a.b.pdf") (codes "a.b.pdf" ∷ codes "a.b-2.pdf" ∷ []) ≡ codes "a.b-3.pdf"
unfolding free_name next_name numbered stem_suffix split_name str_of
name_test = refl

path_test : bundle_file_name (codes "../x/..pdf") 7 ≡ codes "..pdf"
unfolding bundle_file_name path_name last_part split_on default_name str_of
path_test = refl

ids_test : sorted_ids (3 ∷ 1 ∷ 3 ∷ 2 ∷ []) ≡ 1 ∷ 2 ∷ 3 ∷ []
unfolding sorted_ids insert_id
ids_test = refl
