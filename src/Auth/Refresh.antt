-- ===== src/Auth/Refresh.antt =====
-- apps/api/src/auth/auth.service.ts, `refresh`: its reads, its transaction and what follows it.
-- Other requests run between these parts, so each takes the database that it finds.
use kayaka_style_hd.Prelude.{
  ℕ, ◌+◌, Bool, not, ◌&&◌, Option, none, some, [], ◌∷◌, ◌++◌, ltb, leb, ◌==◌, if◌then◌else◌,
  is_none, find?, count_where, update_where, drop_where,
}
use kayaka_style_hd.Auth.Store.{
  Staff, RefreshToken, AuthDb, invalid_refresh_token, refresh_token_not_found,
  refresh_token_expired, staff_not_found_or_disabled, session_invalidated, refresh_token_reuse,
  Result, ok, err, ◌>>=◌, ◌>>◌, require, found,
}
use kayaka_style_hd.Auth.Tokens.{
  Crypto, Random, Issued, build_principal, issue_tokens, refresh_row, staff_by_id, enabled,
}

-- `REFRESH_ROTATION_GRACE_MS`
abbrev pub rotation_grace_ms : ℕ
rotation_grace_ms = 10_000

-- `deleteMany` of one staff member's expired tokens; it runs beside the request.
unfoldable pub cleanup_expired : ℕ → ℕ → AuthDb → AuthDb
cleanup_expired now staff_id db = record db {
  refresh_tokens =
      drop_where (λ r. r.staff_id == staff_id && ltb r.expires_at now) db.refresh_tokens;
}

-- What a request carries from its reads into its transaction.
pub record Prepared : Type 0 where
  pub row : RefreshToken
  pub staff : Staff
  pub tokens : Issued
  pub successor : RefreshToken

abbrev pub token_by_jti : ℕ → AuthDb → Option RefreshToken
token_by_jti jti db = find? (λ r. r.jti == jti) db.refresh_tokens

abbrev successor_of : Crypto → Random → ℕ → RefreshToken → Staff → Issued → RefreshToken
successor_of c rand now row s t =
    refresh_row c rand now s.id t.refresh_token t.refresh_jti row.family_id s.auth_version

unfoldable pub prepare : Crypto → Random → ℕ → AuthDb → ℕ → Result Prepared
unfolding find? build_principal issue_tokens refresh_row
prepare c rand now db raw = do
  payload ← found (c.verify_refresh now raw) invalid_refresh_token
  row ← found (token_by_jti payload.jti db) refresh_token_not_found
  require (c.verify_password row.token_hash raw) invalid_refresh_token
  require (not (ltb row.expires_at now)) refresh_token_expired
  s ← found (enabled (staff_by_id row.staff_id db)) staff_not_found_or_disabled
  require (row.auth_version == s.auth_version) session_invalidated
  let t = issue_tokens c rand now (build_principal s) s.id s.auth_version row.family_id
  ok (record { row = row; staff = s; tokens = t; successor = successor_of c rand now row s t })

abbrev pub revoke : ℕ → RefreshToken → RefreshToken
revoke now r = record r { revoked_at = some now }

-- The rows that the conditional update of the transaction takes.
abbrev pub is_live_jti : ℕ → RefreshToken → Bool
is_live_jti jti r = r.jti == jti && is_none r.revoked_at

-- The transaction: consume the parent and store its successor. The result is the update's count.
unfoldable pub rotate : ℕ → Prepared → AuthDb → AuthDb × ℕ
unfolding count_where update_where
rotate now p db =
    let n = count_where (is_live_jti p.row.jti) db.refresh_tokens in
    let consumed = update_where (is_live_jti p.row.jti) (revoke now) db.refresh_tokens in
    (record db { refresh_tokens = if n == 1 then consumed ++ p.successor ∷ [] else consumed }, n)

abbrev pub is_live_family : ℕ → RefreshToken → Bool
is_live_family f r = r.family_id == f && is_none r.revoked_at

unfoldable pub revoke_family : ℕ → ℕ → AuthDb → AuthDb
unfolding update_where
revoke_family now f db = record db {
  refresh_tokens = update_where (is_live_family f) (revoke now) db.refresh_tokens;
}

pub data RefreshResult : Type 0 where
  rotated : (access_token refresh_token : ℕ) → RefreshResult
  not_rotated : (access_token : ℕ) → RefreshResult

abbrev revoked_at_ms : ℕ → RefreshToken → ℕ
revoked_at_ms now row = elim row.revoked_at [ none ↦ now | some t ↦ t ]

-- `withinGrace`, by the row that was read before the transaction.
unfoldable pub within_grace : ℕ → RefreshToken → Bool
within_grace now row = leb now (revoked_at_ms now row + rotation_grace_ms)

-- What follows a transaction that consumed `n` rows.
unfoldable pub settle : ℕ → Prepared → ℕ → AuthDb → AuthDb × Result RefreshResult
unfolding within_grace revoke_family
settle now p n db =
    if n == 1
    then (db, ok (rotated p.tokens.access_token p.tokens.refresh_token))
    else if within_grace now p.row
    then (db, ok (not_rotated p.tokens.access_token))
    else (revoke_family now p.row.family_id db, err refresh_token_reuse)

abbrev after_prepare : ℕ → AuthDb → Result Prepared → AuthDb × Result RefreshResult
after_prepare now db (err e) = (db, err e)
after_prepare now db (ok p) = let (db', n) = rotate now p db in settle now p n db'

-- `refresh` with no other request between its parts.
unfoldable pub refresh : Crypto → Random → ℕ → AuthDb → ℕ → AuthDb × Result RefreshResult
unfolding prepare rotate settle
refresh c rand now db raw = after_prepare now db (prepare c rand now db raw)
