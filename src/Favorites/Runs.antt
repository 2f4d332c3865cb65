-- ===== src/Favorites/Runs.antt =====
-- Any sequence of requests to app/routers/favorites.py behaves as on a set of pairs (user, report).
use ssh_reports_hub_fast_api.Prelude.{
  ℕ, ◌≡◌, refl, ap, ◌∙◌, fun_ext, Bool, not, ◌&&◌, ◌||◌, List, [], ◌∷◌, ◌==◌, if◌then◌else◌,
}
use ssh_reports_hub_fast_api.Favorites.{
  Table, Status, already_exists, added, not_found, removed, is_favorite, add_favorite,
  remove_favorite,
}
use ssh_reports_hub_fast_api.Favorites.Laws.{
  add_favorite_lem, remove_favorite_lem, IsUnique, add_favorite-IsUnique, remove_favorite-IsUnique,
}

-- A request: the user and the report, and for one that adds the time.
pub data FavoriteRequest : Type 0 where
  add : ℕ → ℕ → ℕ → FavoriteRequest
  remove : ℕ → ℕ → FavoriteRequest

unfoldable pub serve : FavoriteRequest → Table → Status × Table
serve (add now user report_id) t = add_favorite now user report_id t
serve (remove user report_id) t = remove_favorite user report_id t

-- The answers to a sequence of requests, and the table after it.
unfoldable pub serve_all : List FavoriteRequest → Table → List Status × Table
unfolding serve
serve_all [] t = ([], t)
serve_all (request ∷ rest) t =
    let (status, t') = serve request t in
    let (statuses, last) = serve_all rest t' in (status ∷ statuses, last)

-- The specification: a set of pairs.
abbrev pub Pairs : Type 0
Pairs = ℕ → ℕ → Bool

unfoldable pub answer : FavoriteRequest → Pairs → Status × Pairs
answer (add now user report_id) s = (
  if s user report_id then already_exists else added,
  λ v r. user == v && report_id == r || s v r,
)
answer (remove user report_id) s = (
  if s user report_id then removed else not_found,
  λ v r. not (user == v && report_id == r) && s v r,
)

unfoldable pub answer_all : List FavoriteRequest → Pairs → List Status × Pairs
unfolding answer
answer_all [] s = ([], s)
answer_all (request ∷ rest) s =
    let (status, s') = answer request s in
    let (statuses, last) = answer_all rest s' in (status ∷ statuses, last)

-- The set that a table stands for.
abbrev pub pairs_of : Table → Pairs
pairs_of t v r = is_favorite v r t

serve-status :
    (request : FavoriteRequest) (t : Table) → (serve request t).0 ≡ (answer request (pairs_of t)).0
unfolding serve answer
serve-status (add now user report_id) t = (add_favorite_lem user report_id user report_id now t).1
serve-status (remove user report_id) t = (remove_favorite_lem user report_id user report_id t).1

serve-pairs :
    (request : FavoriteRequest) (t : Table)
    → pairs_of (serve request t).1 ≡ (answer request (pairs_of t)).1
unfolding serve answer
serve-pairs (add now user report_id) t =
    fun_ext λ v. fun_ext λ r. (add_favorite_lem user report_id v r now t).0
serve-pairs (remove user report_id) t =
    fun_ext λ v. fun_ext λ r. (remove_favorite_lem user report_id v r t).0

-- Any sequence of requests gets the answers, one for one, that it gets on the set of pairs, and leaves a
-- table that stands for the set that it leaves there.
pub serve_all-answer_all :
    (requests : List FavoriteRequest) (t : Table)
    → ((serve_all requests t).0 ≡ (answer_all requests (pairs_of t)).0)
      × (pairs_of (serve_all requests t).1 ≡ (answer_all requests (pairs_of t)).1)
unfolding serve_all answer_all
serve_all-answer_all [] t = (refl, refl)
serve_all-answer_all (request ∷ rest) t =
    let (statuses, last) = serve_all-answer_all rest (serve request t).1 in
    let pairs = serve-pairs request t in
    (
      rw (serve-status request t) (
          ap (λ (l : List Status). (answer request (pairs_of t)).0 ∷ l)
            (statuses ∙ ap (λ (s : Pairs). (answer_all rest s).0) pairs)),
      last ∙ ap (λ (s : Pairs). (answer_all rest s).1) pairs,
    )

-- No sequence of requests gives a pair two rows, where none had two before.
pub serve_all-IsUnique :
    (requests : List FavoriteRequest) (t : Table) → IsUnique t → IsUnique (serve_all requests t).1
unfolding serve_all serve
serve_all-IsUnique [] t h = h
serve_all-IsUnique (add now user report_id ∷ rest) t h =
    serve_all-IsUnique rest (add_favorite now user report_id t).1
      (add_favorite-IsUnique now user report_id t h)
serve_all-IsUnique (remove user report_id ∷ rest) t h =
    serve_all-IsUnique rest (remove_favorite user report_id t).1
      (remove_favorite-IsUnique user report_id t h)
