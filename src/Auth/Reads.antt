-- ===== src/Auth/Reads.antt =====
-- What the reads of `refresh` in apps/api/src/auth/auth.service.ts have established when its
-- transaction begins.
use kayaka_style_hd.Prelude.{
  ℕ, ◌≤◌, ◌≡◌, refl, subst, true, not, Option, none, some, arith, ltb, ◌==◌,
}
use kayaka_style_hd.Auth.Store.{Staff, AuthDb, ok, require-eq-ok, found-eq-ok, ok-injective}
use kayaka_style_hd.Auth.Tokens.{Crypto, Random, RefreshClaims, staff_by_id, enabled}
use kayaka_style_hd.Auth.Refresh.{Prepared, prepare, token_by_jti}

pub record IsPrepared (c : Crypto) (rand : Random) (now : ℕ) (db : AuthDb) (raw : ℕ) (p : Prepared)
    : Type 0 where
  pub claims : RefreshClaims
  pub verified : c.verify_refresh now raw ≡ some claims
  pub stored : token_by_jti claims.jti db ≡ some p.row
  pub bound : c.verify_password p.row.token_hash raw ≡ true
  pub unexpired : now ≤ p.row.expires_at
  pub owner : staff_by_id p.row.staff_id db ≡ some p.staff
  pub owner_enabled : p.staff.is_enabled ≡ true
  pub current : p.row.auth_version ≡ p.staff.auth_version
  pub same_family : p.successor.family_id ≡ p.row.family_id
  pub successor_jti : p.successor.jti ≡ rand.refresh_jti
  pub successor_version : p.successor.auth_version ≡ p.staff.auth_version
  pub successor_live : p.successor.revoked_at ≡ none

pub enabled-eq-some :
    (o : Option Staff) (s : Staff) → enabled o ≡ some s → (o ≡ some s) × (s.is_enabled ≡ true)
enabled-eq-some none s h = absurd (cc)
enabled-eq-some (some t) s h = ground arith

-- A refresh request reaches its transaction only if its token verifies and is the one stored under
-- its jti, is not expired, and belongs to an enabled staff member whose auth version is the token's;
-- the successor is a live token of the same family under that version.
pub prepare-IsPrepared :
    (c : Crypto) (rand : Random) (now raw : ℕ) (db : AuthDb) (p : Prepared)
    → prepare c rand now db raw ≡ ok p
    → IsPrepared c rand now db raw p
unfolding prepare
prepare-IsPrepared c rand now raw db p e =
    let (claims, verified, e₁) = found-eq-ok (c.verify_refresh now raw) _ _ e in
    let (row, stored, e₂) = found-eq-ok (token_by_jti claims.jti db) _ _ e₁ in
    let (bound, e₃) = require-eq-ok (c.verify_password row.token_hash raw) _ _ e₂ in
    let (unexpired, e₄) = require-eq-ok (not (ltb row.expires_at now)) _ _ e₃ in
    let (s, owner, e₅) = found-eq-ok (enabled (staff_by_id row.staff_id db)) _ _ e₄ in
    let (current, e₆) = require-eq-ok (row.auth_version == s.auth_version) _ _ e₅ in
    let (owned, is_on) = enabled-eq-some _ s owner in
    subst (IsPrepared c rand now db raw) (ok-injective e₆) (record {
      claims = claims;
      verified = verified;
      stored = stored;
      bound = bound;
      unexpired = ground arith;
      owner = owned;
      owner_enabled = is_on;
      current = ground arith;
      same_family = refl;
      successor_jti = refl;
      successor_version = refl;
      successor_live = refl;
    })
