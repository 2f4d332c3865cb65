-- ===== src/Admin/Listing/Tests.antt =====
-- The theorems about the listings of the log browser at a folder with a hidden file, a log file and a folder,
-- and at a log folder that is a symbolic link.
use ssh_reports_hub_fast_api.Prelude.{
  ◌≡◌, ◌≢◌, refl, String, Bool, true, false, ◌⊎◌, inr, none, some, List, [], ◌∷◌, ◌++◌, All, all,
  filter, not, ◌&&◌, ap, ◌∙◌, arith, str_eq,
}
use ssh_reports_hub_fast_api.Text.Pieces.{is_name, has_slash, pieces, pieces-join}
use ssh_reports_hub_fast_api.Admin.Listing.Entries.{is_named}
use ssh_reports_hub_fast_api.Text.{has_prefix, join}
use ssh_reports_hub_fast_api.Text.Number.{str_of}
use ssh_reports_hub_fast_api.Startup.Versions.{before}
use ssh_reports_hub_fast_api.Exceptions.{ok}
use ssh_reports_hub_fast_api.Admin.{
  Parts, parts_eq, parents, Entry, directory, FileSystem, resolve_log_path, format_size,
  get_description, first_description, descriptions, is_archived,
}
use ssh_reports_hub_fast_api.Admin.Listing.{
  folder, regular, Child, is_folder, path_text, relative_to, LogListing, or_failed, is_missing,
  child_before, insert_child, sorted_children, relative, kind_entries, child_entries, entries_loop,
  current_path_of, list_folder, list_log_files,
}
use ssh_reports_hub_fast_api.Admin.Listing.Paths.{
  Opens, list_log_files-view_log_file, list_log_files_unresolved,
}

abbrev same_text : String → String
same_text s = s

-- `path / text` of a relative text: empty pieces and "." are dropped.
abbrev is_piece : String → Bool
is_piece s = not (str_eq s "") && not (str_eq s ".")

abbrev join_path : Parts → String → Parts
join_path path text = path ++ filter is_piece (pieces text)

abbrev same : Parts → Parts
same path = path

abbrev entry_at : Parts → Entry
entry_at path = directory

abbrev disk : FileSystem
disk = record { resolve = same; join_path = join_path; entry_at = entry_at }

abbrev is_dir : Parts → Bool
is_dir path = true

abbrev children : List Child
children =
    record { name = "b.log"; kind = regular (inr (12, "2026-01-01 00:00")) }
    ∷ record { name = ".hidden"; kind = regular (inr (1, "2026-01-01 00:00")) }
    ∷ record { name = "old"; kind = folder (inr "2026-01-02 00:00") }
    ∷ []

abbrev iterdir : Parts → String ⊎ List Child
iterdir path = inr children

abbrev listing : LogListing
listing = record {
  entries =
      record {
        entry_type = "directory";
        name = "old";
        full_path = "sub/old";
        size = none;
        modified = "2026-01-02 00:00";
        description = some "디렉토리";
        archived = none;
      }
      ∷ record {
        entry_type = "file";
        name = "b.log";
        full_path = "sub/b.log";
        size = some "12 B";
        modified = "2026-01-01 00:00";
        description = none;
        archived = some false;
      }
      ∷ [];
  current_path = some "sub";
}

list_log_files_run :
    list_log_files same_text iterdir disk is_dir (some "sub") ("logs" ∷ []) ≡ ok listing
unfolding list_log_files resolve_log_path list_folder or_failed sorted_children insert_child
    child_before is_folder entries_loop child_entries kind_entries relative relative_to path_text
    join current_path_of parts_eq is_missing has_prefix before format_size get_description
    first_description descriptions is_archived str_of parents pieces
list_log_files_run = refl

resolve_run : resolve_log_path disk (some "sub") ("logs" ∷ []) ≡ ok ("logs" ∷ "sub" ∷ [])
unfolding resolve_log_path parts_eq parents pieces
resolve_run = refl

pieces_named : (parts : Parts) → all is_name parts ≡ true → filter is_piece parts ≡ parts
unfolding is_name
pieces_named [] h = refl
pieces_named (p ∷ parts) h = ground (arith, h, pieces_named parts)

joined :
    (below : Parts)
    → all is_name below ≡ true
    → join_path ("logs" ∷ []) (path_text below) ≡ "logs" ∷ below
unfolding path_text pieces
joined [] h = refl
joined (p ∷ below) h =
    ap (λ (parts : Parts). "logs" ∷ filter is_piece parts) (pieces-join p below h)
    ∙ ap (λ (parts : Parts). "logs" ∷ parts) (pieces_named (p ∷ below) h)

names_run : all is_name ("logs" ∷ "sub" ∷ []) ≡ true
unfolding is_name has_slash
names_run = refl

children_run : all is_named children ≡ true
unfolding is_name has_slash
children_run = refl

list_log_files-view_log_file_example :
    All (Opens disk ("logs" ∷ []) ("logs" ∷ "sub" ∷ []) 100 true) listing.entries
list_log_files-view_log_file_example =
    list_log_files-view_log_file disk ("logs" ∷ []) same_text is_dir iterdir (some "sub")
      ("logs" ∷ "sub" ∷ []) children listing 100 true
      (record { joined = joined; linked = λ below h. refl }) names_run refl children_run resolve_run
      list_log_files_run

-- The log folder /logs is a link to /var/logs.
abbrev linked : Parts → Parts
linked path = "var" ∷ path

abbrev linked_disk : FileSystem
linked_disk = record { resolve = linked; join_path = join_path; entry_at = entry_at }

apart_run : relative_to ("logs" ∷ []) (linked_disk.resolve ("logs" ∷ [])) ≡ none
unfolding relative_to
apart_run = refl

list_log_files_unresolved_example :
    list_log_files same_text iterdir linked_disk is_dir none ("logs" ∷ []) ≢ ok listing
list_log_files_unresolved_example =
    list_log_files_unresolved linked_disk ("logs" ∷ []) same_text is_dir iterdir listing apart_run
