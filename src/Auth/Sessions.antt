-- ===== src/Auth/Sessions.antt =====
-- apps/api/src/auth/session-revocation.service.ts, and logout and `revokeStaffSessions` of
-- auth.service.ts.
use kayaka_style_hd.Prelude.{
  ℕ, ◌+◌, ◌-◌, ◌/◌, Bool, ◌&&◌, Option, none, some, List, [], ◌∷◌, ◌==◌, if◌then◌else◌, is_none,
  is_some, elem, find?, update_where, keep,
}
use kayaka_style_hd.Auth.Store.{Staff, RefreshToken, PasswordReset, AuthDb}
use kayaka_style_hd.Auth.Throttle.{Redis, block, revoke_staff_access_before}
use kayaka_style_hd.Auth.Tokens.{World}
use kayaka_style_hd.Auth.Refresh.{revoke}

abbrev pub is_live_of : ℕ → RefreshToken → Bool
is_live_of staff_id r = r.staff_id == staff_id && is_none r.revoked_at

abbrev pub is_pending_of : ℕ → PasswordReset → Bool
is_pending_of staff_id r = r.staff_id == staff_id && is_none r.used_at

abbrev pub use_up : ℕ → PasswordReset → PasswordReset
use_up now r = record r { used_at = some now }

unfoldable pub revoke_refresh_of : ℕ → ℕ → AuthDb → AuthDb
unfolding update_where
revoke_refresh_of now id db = record db {
  refresh_tokens = update_where (is_live_of id) (revoke now) db.refresh_tokens;
}

unfoldable pub burn_resets_of : ℕ → ℕ → AuthDb → AuthDb
unfolding update_where
burn_resets_of now id db = record db {
  password_resets = update_where (is_pending_of id) (use_up now) db.password_resets;
}

-- `access_ttl` is the configured lifetime of an access token, in seconds.
unfoldable pub revoke_all_for_staff : ℕ → ℕ → ℕ → World → World
unfolding revoke_refresh_of burn_resets_of revoke_staff_access_before
revoke_all_for_staff access_ttl now id w = record {
  db = burn_resets_of now id (revoke_refresh_of now id w.db);
  redis = revoke_staff_access_before now w.redis id access_ttl;
}

abbrev pub staff_ids : List Staff → List ℕ
staff_ids [] = []
staff_ids (s ∷ ss) = s.id ∷ staff_ids ss

unfoldable pub revoke_each : ℕ → ℕ → List ℕ → Redis → Redis
revoke_each access_ttl now [] r = r
revoke_each access_ttl now (id ∷ ids) r =
    revoke_each access_ttl now ids (revoke_staff_access_before now r id access_ttl)

-- The tokens of all members in one update, then a cutoff for each member.
unfoldable pub revoke_all_for_group : ℕ → ℕ → ℕ → World → World
unfolding update_where keep revoke_each
revoke_all_for_group access_ttl now group_id w =
    let ids = staff_ids (keep (λ s. s.staff_group.id == group_id) w.db.staff) in
    record {
      db = record (w.db) {
        refresh_tokens =
            update_where (λ r. elem r.staff_id ids && is_none r.revoked_at) (revoke now)
              w.db.refresh_tokens;
      };
      redis = revoke_each access_ttl now ids w.redis;
    }

abbrev pub bump_version : Staff → Staff
bump_version s = record s { auth_version = s.auth_version + 1 }

-- The transaction fails, and nothing changes, where no row has the id.
unfoldable pub revoke_staff_sessions : ℕ → ℕ → ℕ → World → Option World
unfolding update_where revoke_refresh_of revoke_all_for_staff find?
revoke_staff_sessions access_ttl now id w =
    let db = record (w.db) { staff = update_where (λ s. s.id == id) bump_version w.db.staff } in
    let w' = record w { db = revoke_refresh_of now id db } in
    if is_some (find? (λ s. s.id == id) w.db.staff)
    then some (revoke_all_for_staff access_ttl now id w')
    else none

abbrev ttl_of : ℕ → ℕ → Option ℕ → ℕ
ttl_of access_ttl now none = access_ttl
ttl_of access_ttl now (some exp) = if exp == 0 then access_ttl else exp - now / 1000

abbrev block_access : ℕ → ℕ → Option ℕ → Option ℕ → World → World
block_access access_ttl now none exp w = w
block_access access_ttl now (some jti) exp w = record w {
  redis = block now w.redis jti (ttl_of access_ttl now exp);
}

abbrev then_block : ℕ → ℕ → Option ℕ → Option ℕ → Option World → Option World
then_block access_ttl now jti exp none = none
then_block access_ttl now jti exp (some w) = some (block_access access_ttl now jti exp w)

unfoldable pub logout : ℕ → ℕ → ℕ → Option ℕ → Option ℕ → World → Option World
unfolding revoke_staff_sessions block
logout access_ttl now staff_id jti exp w =
    then_block access_ttl now jti exp (revoke_staff_sessions access_ttl now staff_id w)
