-- ===== src/Archive/Links.antt =====
-- The share links of app/routers/external_api.py.
use ssh_reports_hub_fast_api.Prelude.{ℕ, ◌+◌, ◌*◌, ◌≤◌, ◌<◌, ◌≡◌, arith, true, List}
use ssh_reports_hub_fast_api.Text.{len}
use ssh_reports_hub_fast_api.Settings.{Settings, share_token_secret}
use ssh_reports_hub_fast_api.Exceptions.{Result, ok, raise, ◌>>=◌}
use ssh_reports_hub_fast_api.Security.{Jwt, create_share_token, decode_share_token}
use ssh_reports_hub_fast_api.Security.Tokens.{decode-create_share_token}
use ssh_reports_hub_fast_api.Archive.{has_report, create_share_link, resolve_share_link}

module _ (lib : Jwt) where
  open lib use {Token}

  resolve_made :
      (m : Result (Token × ℕ)) (report_id : ℕ) (s : Settings) (later : ℕ) (reports : List ℕ)
      → has_report report_id reports ≡ true
      → (m >>= λ made. decode_share_token lib made.0 s later) ≡ ok report_id
      → ((m >>= λ made. ok (made.0, report_id, made.1)) >>= λ (link : Token × ℕ × ℕ).
          resolve_share_link lib link.0 s later reports >>= λ resolved. ok resolved.1)
        ≡ ok report_id
  unfolding resolve_share_link
  resolve_made (raise e) report_id s later reports known h = absurd (ground arith)
  resolve_made (ok (token, expires_at)) report_id s later reports known h = ground (arith, h, known)

  -- The link that is made for a report with a positive number, while the share secret is long enough,
  -- leads to that report until it expires, as long as the report is there.
  pub resolve-create_share_link :
      (report_id : ℕ) (s : Settings) (now later : ℕ) (reports reports' : List ℕ)
      → now ≤ later
      → later < now + s.share_link_expire_days * 86400
      → 1 ≤ report_id
      → 32 ≤ len (share_token_secret s)
      → has_report report_id reports ≡ true
      → has_report report_id reports' ≡ true
      → (create_share_link lib report_id s now reports >>= λ (link : Token × ℕ × ℕ).
          resolve_share_link lib link.0 s later reports' >>= λ resolved. ok resolved.1)
        ≡ ok report_id
  unfolding create_share_link
  resolve-create_share_link report_id s now later reports reports' order fresh positive secret known
        known' =
      rw known (
        resolve_made (create_share_token lib report_id s now) report_id s later reports' known'
          (decode-create_share_token lib s now later order report_id positive secret fresh))

  -- A link resolves only to a report that is there.
  pub resolve_share_link_known :
      (token : Token) (s : Settings) (now : ℕ) (reports : List ℕ) {t : Token} {report_id : ℕ}
      → resolve_share_link lib token s now reports ≡ ok (t, report_id)
      → (decode_share_token lib token s now ≡ ok report_id) × (has_report report_id reports ≡ true)
  unfolding resolve_share_link
  resolve_share_link_known token s now reports h = ground arith
