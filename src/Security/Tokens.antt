-- ===== src/Security/Tokens.antt =====
-- Round trips and rejections of the access and share tokens of app/security.py.
use ssh_reports_hub_fast_api.Prelude.{
  ℕ, ◌+◌, ◌*◌, ◌≤◌, ◌<◌, ◌≡◌, sym, ap, ◌∙◌, ◌≢◌, true, false, String, some, arith, str_eq, eq_iff,
  Bool-cases, Option-cases, inl, inr,
}
use ssh_reports_hub_fast_api.Prelude.Int.{pos}
use ssh_reports_hub_fast_api.Text.{len}
use ssh_reports_hub_fast_api.Text.Number.{str_of, int_of, int_of-str_of}
use ssh_reports_hub_fast_api.Settings.{Settings, jwt_is_configured, share_token_secret}
use ssh_reports_hub_fast_api.Exceptions.{ok, ◌>>=◌, >>=-eq-ok}
use ssh_reports_hub_fast_api.Security.{
  Payload, get, truthy, is_text, unexpired_at, Jwt, access_payload, share_payload,
  require_jwt_secret, require_share_secret, int_claim, positive, decode_canonical,
  create_access_token, decode_access_token, create_share_token, decode_share_token,
}

str_of-truthy : (n : ℕ) → str_eq (str_of n) "" ≡ false
str_of-truthy n = elim (Bool-cases (str_eq (str_of n) "")) [
  | inl e ↦ absurd (none_int n (sym (int_of-str_of n) ∙ ap int_of ((eq_iff (str_of n) "").0 e)))
  | inr e ↦ e
]
  where
    none_int : (n : ℕ) → some (pos n) ≢ int_of ""
    none_int n h = unfold int_of in cc h

require_share_secret_long :
    (s : Settings) → 32 ≤ len (share_token_secret s) → require_share_secret s ≡ ok tt
unfolding require_share_secret
require_share_secret_long s h = ground arith

module _ (lib : Jwt) where
  open lib use {Token, encode, decode, compare_digest}

  decode_canonical-encode :
      (detail : String) (p : Payload) (key alg : String) (now : ℕ)
      → decode (encode p key alg) key alg now ≡ some p
      → decode_canonical lib detail (encode p key alg) key alg now ≡ ok p
  unfolding decode_canonical
  decode_canonical-encode detail p key alg now h =
      ground (arith, lib.compare_digest_refl (encode p key alg))

  -- What `decode_canonical` accepts is the encoding of what it returns, and has not expired.
  decode_canonical_sound :
      (detail : String) (t : Token) (key alg : String) (now : ℕ) (p : Payload)
      → decode_canonical lib detail t key alg now ≡ ok p
      → (t ≡ encode p key alg)
        × (unexpired_at now (get "exp" p) ≡ true)
        × (decode t key alg now ≡ some p)
  unfolding decode_canonical
  decode_canonical_sound detail t key alg now p h = elim (Option-cases (decode t key alg now)) [
    | inl e ↦ absurd (ground arith)
    | inr (q, e) ↦
        let same : q ≡ p = ground arith in
        let digest : compare_digest t (encode q key alg) ≡ true = ground arith in
        let found : decode t key alg now ≡ some p = e ∙ ap some same in
        (
          lib.compare_digest_sound t (encode q key alg) digest ∙ ap (λ x. encode x key alg) same,
          lib.decode_unexpired t key alg now p found,
          found,
        )
  ]

  module _ (s : Settings) (now later : ℕ) (order : now ≤ later) where
    canonical-access :
        (detail : String) (subject : ℕ)
        → later < now + s.access_token_expire_minutes * 60
        → let p = access_payload subject s now in
          (key alg : String) → decode_canonical lib detail (encode p key alg) key alg later ≡ ok p
    canonical-access detail subject fresh key alg =
        decode_canonical-encode detail (access_payload subject s now) key alg later (
          lib.decode_encode (access_payload subject s now) key alg later (ground arith)
            (ground arith))

    canonical-share :
        (detail : String) (report_id : ℕ)
        → later < now + s.share_link_expire_days * 86400
        → let p = share_payload report_id s now in
          (key alg : String) → decode_canonical lib detail (encode p key alg) key alg later ≡ ok p
    canonical-share detail report_id fresh key alg =
        decode_canonical-encode detail (share_payload report_id s now) key alg later (
          lib.decode_encode (share_payload report_id s now) key alg later (ground arith)
            (ground arith))

    -- An access token that is made while the secret is configured is accepted until it expires,
    -- and gives back its claims.
    pub decode-create_access_token :
        (subject : ℕ)
        → jwt_is_configured s ≡ true
        → later < now + s.access_token_expire_minutes * 60
        → (create_access_token lib subject s now >>= λ t. decode_access_token lib t s later)
          ≡ ok (access_payload subject s now)
    unfolding create_access_token decode_access_token require_jwt_secret
    decode-create_access_token subject configured fresh =
        rw (configured, canonical-access "Invalid or expired token" subject fresh)
          (rw (str_of-truthy subject))

    -- A share token for a positive report number that is made while the secret is long enough resolves
    -- to its report until it expires.
    pub decode-create_share_token :
        (report_id : ℕ)
        → 1 ≤ report_id
        → 32 ≤ len (share_token_secret s)
        → later < now + s.share_link_expire_days * 86400
        → (create_share_token lib report_id s now >>= λ made. decode_share_token lib made.0 s later)
          ≡ ok report_id
    unfolding create_share_token decode_share_token int_claim positive
    decode-create_share_token report_id known secret fresh =
        rw
          (
            require_share_secret_long s secret,
            canonical-share "Invalid or expired share link" report_id fresh,
          )
          (rw (str_of-truthy report_id, int_of-str_of) (ground arith))

  -- Every token that `decode_access_token` accepts is, character for character, the encoding of
  -- the claims that it returns under the configured secret; these are of type `access`, have a
  -- subject, and have not expired.
  pub decode_access_token_sound :
      (t : Token) (s : Settings) (now : ℕ) (p : Payload)
      → decode_access_token lib t s now ≡ ok p
      → (jwt_is_configured s ≡ true)
        × (t ≡ encode p s.jwt_secret_key s.jwt_algorithm)
        × (is_text "access" (get "type" p) ≡ true)
        × (truthy (get "sub" p) ≡ true)
        × (unexpired_at now (get "exp" p) ≡ true)
  unfolding decode_access_token require_jwt_secret
  decode_access_token_sound t s now p h =
      let (_, ready, h') = >>=-eq-ok (require_jwt_secret s) _ h in
      let (q, found, h'') =
        >>=-eq-ok
          (decode_canonical lib "Invalid or expired token" t s.jwt_secret_key s.jwt_algorithm now) _
          h' in
      let same : q ≡ p = ground arith in
      let (e, fresh, _) =
        decode_canonical_sound "Invalid or expired token" t s.jwt_secret_key s.jwt_algorithm now p
          (found ∙ ap ok same) in
      (ground arith, e, ground arith, ground arith, fresh)

  canonical_expired :
      (detail : String) (p q : Payload) (key alg : String) (now : ℕ)
      → unexpired_at now (get "exp" p) ≡ false
      → decode_canonical lib detail (encode p key alg) key alg now ≢ ok q
  canonical_expired detail p q key alg now late h =
      let (_, fresh, found) = decode_canonical_sound detail (encode p key alg) key alg now q h in
      let same : q ≡ p = lib.decode_same p q key alg now found in
      cc (ap (λ x. unexpired_at now (get "exp" x)) same, fresh, late)

  -- From its expiry on, a share token resolves to no report.
  pub share_token_expires :
      (report_id : ℕ) (s : Settings) (now later n : ℕ)
      → now + s.share_link_expire_days * 86400 ≤ later
      → (create_share_token lib report_id s now >>= λ made. decode_share_token lib made.0 s later)
        ≢ ok n
  unfolding create_share_token decode_share_token
  share_token_expires report_id s now later n late h =
      let (_, made, _) = >>=-eq-ok (create_share_token lib report_id s now) _ h in
      let (_, long, _) = >>=-eq-ok (require_share_secret s) _ made in
      let (q, found, _) =
        >>=-eq-ok
          (decode_canonical lib "Invalid or expired share link"
            (encode (share_payload report_id s now) (share_token_secret s) s.jwt_algorithm)
            (share_token_secret s) s.jwt_algorithm later)
          _ (rw long at h) in
      canonical_expired "Invalid or expired share link" (share_payload report_id s now) q
        (share_token_secret s) s.jwt_algorithm later (ground arith) found
