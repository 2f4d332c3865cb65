-- ===== src/Archive/Tests.antt =====
-- The theorems about the archive bundle and the share links at concrete rows.
use ssh_reports_hub_fast_api.Prelude.{
  ℕ, ◌≡◌, refl, arith, ◌≤◌, ◌↔◌, true, false, none, List, [], ◌∷◌, ◌++◌, if◌then◌else◌,
}
use ssh_reports_hub_fast_api.Text.{space_code, len, strip, lstrip, rstrip, is_space}
use ssh_reports_hub_fast_api.Text.Codes.{Codes, codes, split_on}
use ssh_reports_hub_fast_api.Settings.{share_token_secret}
use ssh_reports_hub_fast_api.Exceptions.{ok, ◌>>=◌}
use ssh_reports_hub_fast_api.Security.Fixtures.{plain_jwt, test_settings}
use ssh_reports_hub_fast_api.Archive.{
  ArchiveRow, Archive, gather, arcnames, bundle_loop, bundle_id, bundle_row, row_by_id, is_archived,
  sorted_ids, insert_id, bundle_file_name, path_name, last_part, is_used, free_name,
  create_share_link, resolve_share_link,
}
use ssh_reports_hub_fast_api.Archive.Remote.{
  archive_remote_path, slashes, path_parts, as_posix, strip_right, is_slash, StaysBelow,
  archive_remote_path-StaysBelow,
}
use ssh_reports_hub_fast_api.Archive.Names.{free_name-is_used}
use ssh_reports_hub_fast_api.Archive.Bundle.{total, requests, gather-total}
use ssh_reports_hub_fast_api.Archive.Distinct.{names, IsDistinct, gather-IsDistinct}
use ssh_reports_hub_fast_api.Archive.Links.{resolve-create_share_link}

abbrev archived : ℕ → ArchiveRow
archived n = record {
  report_id = n;
  archive_status = codes "ARCHIVED";
  storage_key = codes "k";
  storage_backend = [];
  file_name = codes "r.pdf";
}

abbrev rows : List ArchiveRow
rows = archived 1 ∷ archived 2 ∷ record (archived 3) { storage_key = [] } ∷ []

abbrev archive : Archive
archive = record { download = λ key name. true; write = λ name. true }

gather-total_example :
    total 3 (gather archive (3 ∷ 1 ∷ 2 ∷ 3 ∷ []) rows)
    ≡ (if requests 3 (3 ∷ 1 ∷ 2 ∷ 3 ∷ []) then 1 else 0)
gather-total_example = gather-total archive (3 ∷ 1 ∷ 2 ∷ 3 ∷ []) rows 3

gather-IsDistinct_example :
    IsDistinct (names (gather archive (3 ∷ 1 ∷ 2 ∷ 3 ∷ []) rows).included)
    × IsDistinct (gather archive (3 ∷ 1 ∷ 2 ∷ 3 ∷ []) rows).used_names
    × (IsDistinct (arcnames (gather archive (3 ∷ 1 ∷ 2 ∷ 3 ∷ []) rows)) ↔ (
        is_used (codes "manifest.json") (gather archive (3 ∷ 1 ∷ 2 ∷ 3 ∷ []) rows).used_names
        ≡ false))
gather-IsDistinct_example = gather-IsDistinct archive (3 ∷ 1 ∷ 2 ∷ 3 ∷ []) rows

-- A PDF of the name of the manifest.
abbrev clash : List ArchiveRow
clash = record (archived 1) { file_name = codes "manifest.json" } ∷ []

clash-arcnames :
    arcnames (gather archive (1 ∷ []) clash) ≡ codes "manifest.json" ∷ codes "manifest.json" ∷ []
unfolding arcnames gather bundle_loop bundle_id bundle_row row_by_id is_archived sorted_ids
    insert_id free_name bundle_file_name path_name last_part split_on
clash-arcnames = refl

free_name-is_used_example :
    is_used
      (free_name (codes "r.pdf") (codes "r.pdf" ∷ codes "r-2.pdf" ∷ []))
      (codes "r.pdf" ∷ codes "r-2.pdf" ∷ [])
    ≡ false
free_name-is_used_example = free_name-is_used (codes "r.pdf") (codes "r.pdf" ∷ codes "r-2.pdf" ∷ [])

long : 32 ≤ len (share_token_secret test_settings)
unfolding len share_token_secret strip lstrip rstrip is_space
long = omega arith

resolve-create_share_link_example :
    (create_share_link plain_jwt 12 test_settings 1000 (12 ∷ []) >>= λ link.
    resolve_share_link plain_jwt link.0 test_settings 2000 (13 ∷ 12 ∷ []) >>= λ resolved.
    ok resolved.1)
    ≡ ok 12
resolve-create_share_link_example =
    resolve-create_share_link plain_jwt 12 test_settings 1000 2000 (12 ∷ []) (13 ∷ 12 ∷ [])
      (omega arith) (omega arith) (omega arith) long refl refl

archive_remote_path-StaysBelow_example :
    (path : Codes) × (codes "gdrive:archive/pdf/2026/a.pdf"
      ≡ strip_right is_slash (codes "gdrive:archive/pdf/") ++ (b'/' ∷ path))
    × StaysBelow path
unfolding archive_remote_path slashes split_on as_posix path_parts space_code
archive_remote_path-StaysBelow_example =
    archive_remote_path-StaysBelow (codes "gdrive:archive/pdf/") (codes " 2026/.//a.pdf")
      (codes "gdrive:archive/pdf/2026/a.pdf") refl

archive_remote_path_parent : archive_remote_path (codes "r") (codes "2026\\..\\x.pdf") ≡ none
unfolding archive_remote_path slashes split_on as_posix path_parts space_code
archive_remote_path_parent = refl
