-- ===== src/Archive/Remote.antt =====
-- `archive_remote_path` of app/services/archive_files.py, on code points, and where its result points. PurePosixPath drops the empty pieces and the pieces ".".
use ssh_reports_hub_fast_api.Prelude.{
  ℕ, ◌≡◌, refl, sym, ap, ◌∙◌, arith, Bool, true, false, not, ◌&&◌, ◌||◌, Option, none, some, List,
  [], ◌∷◌, ◌++◌, map, filter, any, all, ◌==◌, if◌then◌else◌, Bool-cases, ◌⊎◌, inl, inr,
}
use ssh_reports_hub_fast_api.Text.{space_code}
use ssh_reports_hub_fast_api.Text.Codes.{Codes, codes, codes_eq, non_empty, split_on}

unfoldable pub strip_left : (ℕ → Bool) → Codes → Codes
strip_left p [] = []
strip_left p (c ∷ s) = let rest = strip_left p s in if p c then rest else c ∷ s

unfoldable pub strip_right : (ℕ → Bool) → Codes → Codes
strip_right p [] = []
strip_right p (c ∷ s) =
    let rest = strip_right p s in if p c && not (non_empty rest) then [] else c ∷ rest

unfoldable pub strip_both : (ℕ → Bool) → Codes → Codes
unfolding strip_left strip_right
strip_both p s = strip_left p (strip_right p s)

abbrev pub is_slash : ℕ → Bool
is_slash c = c == b'/'

-- `str.replace('\\', '/')`
unfoldable pub slashes : Codes → Codes
slashes = map (λ c. if c == 92 then b'/' else c)

abbrev pub starts_slash : Codes → Bool
starts_slash [] = false
starts_slash (c ∷ s) = is_slash c

abbrev pub is_part : Codes → Bool
is_part p = non_empty p && not (codes_eq p (codes "."))

-- `PurePosixPath(key).parts` of a relative path.
unfoldable pub path_parts : Codes → List Codes
unfolding split_on
path_parts key = filter is_part (split_on is_slash key)

unfoldable pub join_parts : List Codes → Codes
join_parts [] = []
join_parts (p ∷ []) = p
join_parts (p ∷ q ∷ rest) = p ++ b'/' ∷ join_parts (q ∷ rest)

-- `path.as_posix()`
unfoldable pub as_posix : List Codes → Codes
unfolding join_parts
as_posix [] = codes "."
as_posix (p ∷ rest) = join_parts (p ∷ rest)

abbrev pub is_parent : Codes → Bool
is_parent p = codes_eq p (codes "..")

-- `none` stands for the ValueError. `remote` is PDF_ARCHIVE_RCLONE_REMOTE or its default; a key that
-- passed the first test is not absolute after the strip.
unfoldable pub archive_remote_path : Codes → Codes → Option Codes
unfolding slashes strip_both strip_right
archive_remote_path remote storage_key =
    let raw_key = strip_both space_code (slashes storage_key) in
    let key = strip_both is_slash raw_key in
    if starts_slash raw_key || not (non_empty key) || any is_parent (path_parts key)
    then none
    else some (strip_right is_slash remote ++ b'/' ∷ as_posix (path_parts key))

abbrev pub no_slash : Codes → Bool
no_slash p = not (any is_slash p)

split_on_first : (s : Codes) → (w : Codes) × (ws : List Codes) × (split_on is_slash s ≡ w ∷ ws)
unfolding split_on
split_on_first [] = ([], [], refl)
split_on_first (c ∷ s) =
    let (w, ws, e) = split_on_first s in
    elim (Bool-cases (is_slash c)) [
      | inl h ↦ ([], split_on is_slash s, rw h refl)
      | inr h ↦ (c ∷ w, ws, rw h (rw e refl))
    ]

abbrev plain : List Codes → Bool
plain = all no_slash

split_on-plain : (s : Codes) → plain (split_on is_slash s) ≡ true
unfolding split_on
split_on-plain [] = refl
split_on-plain (c ∷ s) =
    let (w, ws, e) = split_on_first s in
    let ih = split_on-plain s in
    elim (Bool-cases (is_slash c)) [
      | inl h ↦ rw h ih
      | inr h ↦ rw h (rw e (ground (arith, ap plain (sym e) ∙ ih, h)))
    ]

all-filter : (p q : Codes → Bool) (ps : List Codes) → all p ps ≡ true → all p (filter q ps) ≡ true
all-filter p q [] h = refl
all-filter p q (x ∷ ps) h = ground (arith, all-filter p q ps)

all_filtered : (q : Codes → Bool) (ps : List Codes) → all q (filter q ps) ≡ true
all_filtered q [] = refl
all_filtered q (x ∷ ps) = ground (arith, all_filtered q ps)

split_on-no_slash : (p : Codes) → no_slash p ≡ true → split_on is_slash p ≡ p ∷ []
unfolding split_on
split_on-no_slash [] h = refl
split_on-no_slash (c ∷ p) h =
    let ih = split_on-no_slash p (ground arith) in
    let other : is_slash c ≡ false = ground arith in rw other (rw ih refl)

split_on-slash :
    (p t : Codes) → no_slash p ≡ true → split_on is_slash (p ++ b'/' ∷ t) ≡ p ∷ split_on is_slash t
unfolding split_on
split_on-slash [] t h = refl
split_on-slash (c ∷ p) t h =
    let ih = split_on-slash p t (ground arith) in
    let other : is_slash c ≡ false = ground arith in rw other (rw ih refl)

split_on-join_parts :
    (p : Codes) (ps : List Codes)
    → plain (p ∷ ps) ≡ true
    → split_on is_slash (join_parts (p ∷ ps)) ≡ p ∷ ps
unfolding join_parts
split_on-join_parts p [] h = split_on-no_slash p (ground arith)
split_on-join_parts p (q ∷ ps) h =
    split_on-slash p (join_parts (q ∷ ps)) (ground arith)
    ∙ ap (λ l. p ∷ l) (split_on-join_parts q ps (ground arith))

-- A piece that names a file or a folder in the folder before it: neither empty nor "." nor "..".
abbrev pub goes_down : Codes → Bool
goes_down p = is_part p && not (is_parent p)

all_down :
    (ps : List Codes) → all is_part ps ≡ true → any is_parent ps ≡ false → all goes_down ps ≡ true
all_down [] h k = refl
all_down (p ∷ ps) h k = ground (arith, all_down ps)

-- The text of a relative path: the folder itself, or a path that goes down in each piece.
abbrev pub StaysBelow : Codes → Type 0
StaysBelow path = (path ≡ codes ".") ⊎ (all goes_down (split_on is_slash path) ≡ true)

StaysBelow-as_posix :
    (ps : List Codes)
    → plain ps ≡ true
    → all is_part ps ≡ true
    → any is_parent ps ≡ false
    → StaysBelow (as_posix ps)
unfolding as_posix
StaysBelow-as_posix [] a b c = inl refl
StaysBelow-as_posix (p ∷ ps) a b c =
    inr (ap (all goes_down) (split_on-join_parts p ps a) ∙ all_down (p ∷ ps) b c)

accepted :
    (a b c : Bool) (u url : Codes)
    → ◌≡◌ {A = Option Codes} (if a || b || c then none else some u) (some url)
    → (url ≡ u) × (c ≡ false)
accepted a b c u url h = ground arith

-- Whatever the storage key is, an accepted one names the remote folder itself, as ".", or a path below it:
-- after the folder and a slash, no piece between two slashes is empty, "." or "..".
pub archive_remote_path-StaysBelow :
    (remote storage_key url : Codes)
    → archive_remote_path remote storage_key ≡ some url
    → (path : Codes) × (url ≡ strip_right is_slash remote ++ b'/' ∷ path) × StaysBelow path
unfolding archive_remote_path path_parts
archive_remote_path-StaysBelow remote storage_key url h =
    let raw_key = strip_both space_code (slashes storage_key) in
    let key = strip_both is_slash raw_key in
    let parts = path_parts key in
    let (e, down) =
      accepted (starts_slash raw_key) (not (non_empty key)) (any is_parent parts)
        (strip_right is_slash remote ++ b'/' ∷ as_posix parts) url h in
    (
      as_posix parts,
      e,
      StaysBelow-as_posix parts
          (all-filter no_slash is_part (split_on is_slash key) (split_on-plain key))
          (all_filtered is_part (split_on is_slash key)) down,
    )
