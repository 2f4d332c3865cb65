-- ===== src/Binds.antt =====
-- SQL texts with named parameters, as `sqlalchemy.text` takes them: which names a text binds.
use Prim.Native.String.{[], ◌∷◌}
use Prim.Native.String.{◌++◌ as append}
use mathlib.Core.List.{[], ◌∷◌, append_assoc, append-nil, map-append}
use text.Mathlib.TextLemmas.{nil-append, cons-append}
use ssh_reports_hub_fast_api.Prelude.{
  ℕ, ◌≡◌, refl, sym, ap, ◌∙◌, arith, Bool, true, false, not, ◌&&◌, ◌||◌, code, String, List, ◌++◌,
  map, filter, any, any-append, leb, ◌==◌, Bool-cases, ◌⊎◌, inl, inr,
}
use ssh_reports_hub_fast_api.Text.{join}
use ssh_reports_hub_fast_api.Text.Codes.{Codes, codes, codes_eq, split_on}

-- Neither a letter, a digit, an underscore nor a colon. Beyond ASCII every character counts as a letter.
unfoldable pub is_gap : ℕ → Bool
is_gap c = not (
    leb b'a' c && leb c b'z'
    || leb b'A' c && leb c b'Z'
    || leb b'0' c && leb c b'9'
    || c == b'_'
    || c == b':'
    || leb 128 c)

-- A piece `:name`.
abbrev pub is_bind : Codes → Bool
is_bind (c ∷ (d ∷ s)) = c == b':' && not (d == b':')
is_bind s = false

abbrev tail : Codes → Codes
tail [] = []
tail (c ∷ s) = s

-- The names that a text binds, in their order.
unfoldable pub binds_of : Codes → List Codes
unfolding split_on is_gap
binds_of s = map tail (filter is_bind (split_on is_gap s))

unfoldable pub binds : String → List Codes
unfolding binds_of
binds s = binds_of (codes s)

abbrev pub has_bind : Codes → List Codes → Bool
has_bind name = any (λ other. codes_eq other name)

pub codes-append : (s t : String) → codes (append s t) ≡ codes s ++ codes t
codes-append [] t = ap codes (nil-append t)
codes-append (c ∷ s) t =
    ap codes (cons-append c s t) ∙ ap (λ (l : Codes). code c ∷ l) (codes-append s t)

split_on-first : (s : Codes) → (w : Codes) × (ws : List Codes) × (split_on is_gap s ≡ w ∷ ws)
unfolding split_on
split_on-first [] = ([], [], refl)
split_on-first (c ∷ s) =
    let (w, ws, e) = split_on-first s in
    elim (Bool-cases (is_gap c)) [
      | inl h ↦ ([], split_on is_gap s, rw h refl)
      | inr h ↦ (c ∷ w, ws, rw h (rw e refl))
    ]

split_on-gap :
    (s t : Codes) (c : ℕ)
    → is_gap c ≡ true
    → split_on is_gap (s ++ c ∷ t) ≡ split_on is_gap s ++ split_on is_gap t
unfolding split_on
split_on-gap [] t c h = rw h refl
split_on-gap (d ∷ s) t c h =
    let (w, ws, e) = split_on-first s in
    elim (Bool-cases (is_gap d)) [
      | inl k ↦ rw k (ap (λ (l : List Codes). [] ∷ l) (split_on-gap s t c h))
      | inr k ↦ rw k (rw (split_on-gap s t c h) (rw e refl))
    ]

filter-append :
    (xs ys : List Codes) → filter is_bind (xs ++ ys) ≡ filter is_bind xs ++ filter is_bind ys
filter-append [] ys = refl
filter-append (x ∷ xs) ys = ground (arith, filter-append xs ys)

binds_of-gap :
    (s t : Codes) (c : ℕ) → is_gap c ≡ true → binds_of (s ++ c ∷ t) ≡ binds_of s ++ binds_of t
unfolding binds_of
binds_of-gap s t c h =
    rw (split_on-gap s t c h)
      (rw (filter-append (split_on is_gap s) (split_on is_gap t)) (map-append _ _ _))

binds_of_starts : (t : Codes) (c : ℕ) → is_gap c ≡ true → binds_of (c ∷ t) ≡ binds_of t
unfolding binds_of
binds_of_starts t c h = binds_of-gap [] t c h

abbrev pub starts_gap : Codes → Bool
starts_gap [] = false
starts_gap (c ∷ s) = is_gap c

abbrev pub ends_gap : Codes → Bool
ends_gap [] = false
ends_gap (c ∷ []) = is_gap c
ends_gap (c ∷ (d ∷ s)) = ends_gap (d ∷ s)

ends_gap_last :
    (s : Codes)
    → ends_gap s ≡ true
    → (s0 : Codes) × (c : ℕ) × (s ≡ s0 ++ c ∷ []) × (is_gap c ≡ true)
ends_gap_last [] h = absurd (ground (arith, h))
ends_gap_last (c ∷ []) h = ([], c, refl, h)
ends_gap_last (c ∷ (d ∷ s)) h =
    let (s0, e, p, q) = ends_gap_last (d ∷ s) h in (c ∷ s0, e, ap (λ (l : Codes). c ∷ l) p, q)

binds_of-starts : (s t : Codes) → starts_gap t ≡ true → binds_of (s ++ t) ≡ binds_of s ++ binds_of t
binds_of-starts s [] h = absurd (ground (arith, h))
binds_of-starts s (c ∷ t) h =
    binds_of-gap s t c h ∙ ap (λ l. binds_of s ++ l) (sym (binds_of_starts t c h))

binds_of-ends : (s t : Codes) → ends_gap s ≡ true → binds_of (s ++ t) ≡ binds_of s ++ binds_of t
unfolding binds_of
binds_of-ends s t h =
    let (s0, c, p, q) = ends_gap_last s h in
    let alone = binds_of-gap s0 [] c q ∙ append-nil (binds_of s0) in
    rw p (
      ap binds_of (append_assoc s0 (c ∷ []) t)
      ∙ (binds_of-gap s0 t c q ∙ ap (λ l. l ++ binds_of t) (sym alone)))

-- Two texts with a gap between them bind what each of them binds.
pub binds-append :
    (s t : String)
    → (ends_gap (codes s) || starts_gap (codes t)) ≡ true
    → binds (append s t) ≡ binds s ++ binds t
unfolding binds
binds-append s t h = ap binds_of (codes-append s t) ∙ glue (Bool-cases (ends_gap (codes s)))
  where
    glue :
        (ends_gap (codes s) ≡ true) ⊎ (ends_gap (codes s) ≡ false)
        → binds_of (codes s ++ codes t) ≡ binds_of (codes s) ++ binds_of (codes t)
    glue (inl e) = binds_of-ends (codes s) (codes t) e
    glue (inr e) = binds_of-starts (codes s) (codes t) (ground arith)

-- The names that a list of clauses binds.
abbrev pub binds_all : List String → List Codes
binds_all [] = []
binds_all (clause ∷ rest) = binds clause ++ binds_all rest

pub binds_all-append : (xs ys : List String) → binds_all (xs ++ ys) ≡ binds_all xs ++ binds_all ys
binds_all-append [] ys = refl
binds_all-append (x ∷ xs) ys =
    ap (λ l. binds x ++ l) (binds_all-append xs ys)
    ∙ sym (append_assoc (binds x) (binds_all xs) (binds_all ys))

-- `sep.join(clauses)` binds what the clauses bind, where the separator is " AND " or the like.
pub binds-join :
    (sep : String) (clauses : List String)
    → binds sep ≡ []
    → starts_gap (codes sep) ≡ true
    → ends_gap (codes sep) ≡ true
    → binds (join sep clauses) ≡ binds_all clauses
unfolding binds join
binds-join sep [] h k l = refl
binds-join sep (c ∷ []) h k l = sym (append-nil (binds c))
binds-join sep (c ∷ d ∷ rest) h k l =
    binds-append c (append sep (join sep (d ∷ rest)))
      (ground (arith, codes-append sep (join sep (d ∷ rest))))
    ∙ ap (λ t. binds c ++ t)
        (binds-append sep (join sep (d ∷ rest)) (ground (arith, l))
          ∙ (ap (λ t. t ++ binds (join sep (d ∷ rest))) h ∙ binds-join sep (d ∷ rest) h k l))

-- The clauses and the dictionary of parameters that a query builder collects; none of them sets a name
-- twice.
pub record NamedFilter (V : Type 0) : Type 0 where
  pub where_clauses : List String
  pub params : List (String × V)

module _ {V : Type 0} where
  -- The names of a dictionary of parameters.
  abbrev pub names_of : List (String × V) → List Codes
  names_of [] = []
  names_of ((name, value) ∷ rest) = codes name ∷ names_of rest

  pub names_of-append :
      (xs ys : List (String × V)) → names_of (xs ++ ys) ≡ names_of xs ++ names_of ys
  names_of-append [] ys = refl
  names_of-append ((name, value) ∷ xs) ys = ap (λ l. codes name ∷ l) (names_of-append xs ys)

  infixr 60 ◌<+>◌
  abbrev pub no_filter : NamedFilter V
  no_filter = record { where_clauses = []; params = [] }

  -- A clause with its parameter.
  abbrev pub clause : String → String → V → NamedFilter V
  clause condition name value = record {
    where_clauses = condition ∷ [];
    params = (name, value) ∷ [];
  }

  abbrev pub ◌<+>◌ : NamedFilter V → NamedFilter V → NamedFilter V
  f <+> g = record {
    where_clauses = f.where_clauses ++ g.where_clauses;
    params = f.params ++ g.params;
  }

  -- The names that the clauses bind are the names of the parameters.
  pub record IsBound (f : NamedFilter V) : Type 0 where
    pub bound :
        (c : Codes) → has_bind c (binds_all f.where_clauses) ≡ has_bind c (names_of f.params)

  pub IsBound-none : IsBound no_filter
  IsBound-none = record { bound = λ c. refl }

  pub IsBound-clause :
      (condition name : String) (value : V)
      → ((c : Codes) → has_bind c (binds condition) ≡ codes_eq (codes name) c)
      → IsBound (clause condition name value)
  IsBound-clause condition name value h = record {
    bound = λ c. ap (has_bind c) (append-nil (binds condition)) ∙ ground (arith, h c);
  }

  pub IsBound-extend : (f g : NamedFilter V) → IsBound f → IsBound g → IsBound (f <+> g)
  IsBound-extend f g h k = record {
    bound = λ c. ground (
      arith,
      ap (has_bind c) (binds_all-append f.where_clauses g.where_clauses),
      ap (has_bind c) (names_of-append f.params g.params),
      any-append (λ other. codes_eq other c) (binds_all f.where_clauses)
          (binds_all g.where_clauses),
      any-append (λ other. codes_eq other c) (names_of f.params) (names_of g.params),
      h.bound c,
      k.bound c,
    );
  }
