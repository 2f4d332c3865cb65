-- ===== src/FnGuide.antt =====
-- app/services/fnguide_matcher.py: the texts that it compares. Texts are lists of code points; the
-- functions follow Python on ASCII and Hangul, which are the letters of the reports.
pub mod Dates
pub mod Matcher
pub mod Best
pub mod Batch
mod Tests
use ssh_reports_hub_fast_api.Prelude.{
  ℕ, zero, suc, ◌+◌, ◌-◌, Bool, true, false, not, ◌&&◌, ◌||◌, String, Option, none, some, List, [],
  ◌∷◌, ◌++◌, map, ◌≡◌, refl, filter, any, length, take, leb, ltb, ◌==◌, if◌then◌else◌,
}
use ssh_reports_hub_fast_api.Text.{space_code}
use ssh_reports_hub_fast_api.Text.Codes.{
  Codes, codes, codes_eq, lower, is_prefix, is_infix, split_on,
}

unfoldable pub lstrip_codes : Codes → Codes
lstrip_codes [] = []
lstrip_codes (c ∷ s) = let rest = lstrip_codes s in if space_code c then rest else c ∷ s

unfoldable pub rstrip_codes : Codes → Codes
rstrip_codes [] = []
rstrip_codes (c ∷ s) =
    let rest = rstrip_codes s in if space_code c && codes_eq rest [] then [] else c ∷ rest

-- `s.strip()`
unfoldable pub strip_codes : Codes → Codes
unfolding lstrip_codes rstrip_codes space_code
strip_codes s = lstrip_codes (rstrip_codes s)

-- `s.replace(" ", "")`
abbrev pub remove_spaces : Codes → Codes
remove_spaces = filter (λ c. not (c == b' '))

-- `name[:-len(suffix)]` if the name ends with the suffix and is longer.
unfoldable pub cut_suffix : Codes → Codes → Codes
cut_suffix suffix [] = []
cut_suffix suffix (c ∷ s) =
    let rest = cut_suffix suffix s in if codes_eq s suffix then c ∷ [] else c ∷ rest

unfoldable pub cut_suffixes : List String → Codes → Codes
unfolding cut_suffix
cut_suffixes [] name = name
cut_suffixes (suffix ∷ suffixes) name = cut_suffixes suffixes (cut_suffix (codes suffix) name)

abbrev pub suffixes : List String
suffixes = "투자증권" ∷ "금융투자" ∷ "투자" ∷ "증권" ∷ "금융" ∷ "리서치center" ∷ "리서치센터" ∷ []

abbrev pub synonyms : List (String × String)
synonyms =
    ("이베스트", "ls")
    ∷ ("이베스트투자", "ls")
    ∷ ("하이투자", "im")
    ∷ ("하이", "im")
    ∷ ("한투", "한국투자")
    ∷ ("ds", "디에스")
    ∷ ("유안타코리아", "유안타")
    ∷ ("하나금융", "하나")
    ∷ []

-- `synonyms.get(name, name)`
unfoldable pub synonym : List (String × String) → Codes → Codes
synonym [] name = name
synonym ((key, value) ∷ rest) name =
    if codes_eq (codes key) name then codes value else synonym rest name

-- A missing name is the empty one: both give `""`.
unfoldable pub normalize_firm_name : Codes → Codes
unfolding strip_codes lower cut_suffixes synonym
normalize_firm_name name =
    synonym synonyms (cut_suffixes suffixes (lower (remove_spaces (strip_codes name))))

-- `.`, `/`, `;` and `&` become commas.
abbrev pub to_comma : ℕ → ℕ
to_comma c = if c == b'.' || c == b'/' || c == b';' || c == b'&' then b',' else c

-- `re.sub(r"\([^)]*\)", "", s)`; the flag says that an opened pair is being removed.
unfoldable pub strip_parens : Bool → Codes → Codes
strip_parens inside [] = []
strip_parens true (c ∷ s) = strip_parens (not (c == b')')) s
strip_parens false (c ∷ s) =
    let removed = strip_parens true s in
    let kept = strip_parens false s in
    if c == b'(' && any (λ d. d == b')') s then removed else c ∷ kept

-- `s.replace(word, "")`, where `skip` characters of a found word are left.
unfoldable pub erase : Codes → ℕ → Codes → Codes
unfolding is_prefix
erase word skip [] = []
erase word (suc skip) (c ∷ s) = erase word skip s
erase word zero (c ∷ s) =
    let removed = erase word (length word - 1) s in
    let kept = erase word 0 s in if is_prefix word (c ∷ s) then removed else c ∷ kept

unfoldable pub parse_authors : Codes → List Codes
unfolding strip_parens erase split_on
parse_authors author_str =
    let plain = strip_parens false (map to_comma (remove_spaces author_str)) in
    let bare = erase (codes "애널리스트") 0 (erase (codes "연구원") 0 (erase (codes "외") 0 plain)) in
    filter (λ a. leb 2 (length a)) (split_on (λ c. c == b',') bare)

abbrev pub mem_codes : Codes → List Codes → Bool
mem_codes w = any (codes_eq w)

abbrev pub none_of : List Codes → Bool
none_of [] = true
none_of (w ∷ ws) = false

-- A missing author is the empty text.
unfoldable pub match_authors : Codes → Codes → Bool
match_authors sec_writer fn_author =
    let sec_set = parse_authors sec_writer in
    let fn_set = parse_authors fn_author in
    if codes_eq sec_writer [] || codes_eq fn_author []
    then true
    else (if none_of sec_set || none_of fn_set then true else any (λ a. mem_codes a fn_set) sec_set)

-- `[가-힣a-zA-Z0-9]`
abbrev pub word_code : ℕ → Bool
word_code c =
    (leb 44032 c && leb c 55203)
    || (leb b'a' c && leb c b'z')
    || (leb b'A' c && leb c b'Z')
    || (leb b'0' c && leb c b'9')

abbrev pub stop_words : List String
stop_words = "보고서" ∷ "리포트" ∷ "분석" ∷ "전망" ∷ "주가" ∷ "목표" ∷ "목표주가" ∷ "투자의견" ∷ "buy" ∷ "hold" ∷ []

-- `set(...)`
unfoldable pub dedupe : List Codes → List Codes
dedupe [] = []
dedupe (w ∷ ws) = let rest = dedupe ws in if mem_codes w ws then rest else w ∷ rest

-- The runs of word characters of a length of two or more, without the stop words.
unfoldable pub get_keywords : Codes → List Codes
unfolding lower split_on dedupe
get_keywords title = dedupe (
    filter (λ w. leb 2 (length w) && not (mem_codes w (map codes stop_words)))
      (split_on (λ c. not (word_code c)) (lower title)))

-- `a - b`, `a & b` and `len(a | b)` of sets.
abbrev pub minus : List Codes → List Codes → List Codes
minus a b = filter (λ w. not (mem_codes w b)) a

abbrev pub count_common : List Codes → List Codes → ℕ
count_common a b = length (filter (λ w. mem_codes w b) a)

abbrev pub count_union : List Codes → List Codes → ℕ
count_union a b = length a + length (minus b a)

normalize_test : normalize_firm_name (codes " 신한 투자증권 ") ≡ codes "신한"
unfolding normalize_firm_name
normalize_test = refl

synonym_test : normalize_firm_name (codes "DS투자증권") ≡ codes "디에스"
unfolding normalize_firm_name
synonym_test = refl

authors_test : match_authors (codes "홍길동(연구원), 김철수") (codes "김철수 외") ≡ true
unfolding match_authors parse_authors
authors_test = refl

keywords_test : get_keywords (codes "삼성전자 목표주가 HBM4!") ≡ codes "삼성전자" ∷ codes "hbm4" ∷ []
unfolding get_keywords
keywords_test = refl
