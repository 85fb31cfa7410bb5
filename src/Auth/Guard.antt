-- ===== src/Auth/Guard.antt =====
-- apps/api/src/auth/jwt-auth.guard.ts, `canActivate`.
use kayaka_style_hd.Prelude.{ℕ, Bool, false, not, Option, none, some, ◌==◌, if◌then◌else◌, find?}
use kayaka_style_hd.Auth.Store.{
  missing_access_token, invalid_access_token, token_revoked, session_revoked,
  auth_state_unavailable, staff_not_found_or_disabled, session_invalidated, Result, ok, ◌>>=◌, ◌>>◌,
  require, found,
}
use kayaka_style_hd.Auth.Throttle.{is_blocked, is_staff_token_stale}
use kayaka_style_hd.Auth.Tokens.{AuthStaff, Crypto, World, build_principal, enabled, staff_by_id}

-- What the guard reads of a request: whether its route is public, the token of the Authorization
-- header, and that of the access cookie. The empty text is the number 0.
pub record Request : Type 0 where
  pub is_public : Bool
  pub bearer : Option ℕ
  pub cookie : Option ℕ

pub data Admitted : Type 0 where
  public_route : Admitted
  as_staff : AuthStaff → Admitted

abbrev pub or_else : Option ℕ → Option ℕ → Option ℕ
or_else none b = b
or_else (some a) b = some a

abbrev pub token_of : Request → Option ℕ
token_of req = elim (or_else req.bearer req.cookie) [
  | none ↦ none
  | some t ↦ if t == 0 then none else some t
]

-- `staff.authVersion !== payload.av`, where the claim may be absent.
abbrev pub same_version : ℕ → Option ℕ → Bool
same_version v none = false
same_version v (some w) = v == w

-- The access tokens of this service carry `staffId`, so `payload.staffId ?? payload.sub` is it.
-- `store_up` is false where the query throws.
unfoldable pub check_token : Crypto → ℕ → Bool → World → ℕ → Result Admitted
unfolding is_blocked is_staff_token_stale build_principal find?
check_token c now store_up w token = do
  claims ← found (c.verify_access now token) invalid_access_token
  let id = claims.principal.staff_id
  require (not (is_blocked now w.redis claims.jti)) token_revoked
  require (not (is_staff_token_stale now w.redis id claims.issued_at_ms claims.iat)) session_revoked
  require store_up auth_state_unavailable
  s ← found (enabled (staff_by_id id w.db)) staff_not_found_or_disabled
  require (same_version s.auth_version claims.av) session_invalidated
  ok (as_staff (build_principal s))

unfoldable pub can_activate : Crypto → ℕ → Bool → World → Request → Result Admitted
unfolding check_token
can_activate c now store_up w req =
    if req.is_public
    then ok public_route
    else (found (token_of req) missing_access_token >>= check_token c now store_up w)
