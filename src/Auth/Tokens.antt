-- ===== src/Auth/Tokens.antt =====
-- apps/api/src/auth/auth.service.ts: the principal, token issue and login.
use Prim.Native.String
use Prim.Native.String.{String}
use text.Mathlib.Text.{◌==◌ as str_eq}
use kayaka_style_hd.Prelude.{
  ℕ, ◌+◌, ◌*◌, ◌/◌, Bool, Option, none, some, List, [], ◌∷◌, ◌++◌, ◌==◌, if◌then◌else◌, find?,
  update_where,
}
use kayaka_style_hd.Auth.Store.{Staff, RefreshToken, AuthDb, invalid_credentials, Result, ok, err}
use kayaka_style_hd.Auth.Throttle.{Redis, assert_not_throttled, record_failure, clear}

pub record AuthStaff : Type 0 where
  pub staff_id : ℕ
  pub email : String
  pub is_admin : Bool
  pub permissions : List String
  pub first_name : String
  pub last_name : String
  pub full_name : String

-- The claims of an access token and of a refresh token.
pub record AccessClaims : Type 0 where
  pub principal : AuthStaff
  pub sub : ℕ
  pub av : Option ℕ
  pub issued_at_ms : Option ℕ
  pub iat : Option ℕ
  pub jti : Option ℕ

pub record RefreshClaims : Type 0 where
  pub sub : ℕ
  pub jti : ℕ
  pub fid : ℕ

-- The libraries that the service calls: argon2 (hash with a salt), `JwtService` (a token is signed
-- at a time in milliseconds, and verified at one), SHA-256 and HMAC, and the configured lifetimes
-- in seconds.
pub record Crypto : Type 0 where
  pub hash_password : ℕ → ℕ → ℕ
  pub verify_password : ℕ → ℕ → Bool
  pub sign_access : ℕ → AccessClaims → ℕ
  pub verify_access : ℕ → ℕ → Option AccessClaims
  pub sign_refresh : ℕ → RefreshClaims → ℕ
  pub verify_refresh : ℕ → ℕ → Option RefreshClaims
  pub sha256 : ℕ → ℕ
  pub hmac : String → ℕ
  pub access_ttl : ℕ
  pub refresh_ttl : ℕ

-- What one request draws at random: UUIDs and a salt.
pub record Random : Type 0 where
  pub refresh_jti : ℕ
  pub access_jti : ℕ
  pub family_id : ℕ
  pub salt : ℕ

abbrev pub join_words : List String → String
join_words [] = ""
join_words (w ∷ []) = w
join_words (w ∷ ws) = String.◌++◌ w (String.◌++◌ " " (join_words ws))

abbrev non_empty : List String → List String
non_empty [] = []
non_empty (w ∷ ws) = if str_eq w "" then non_empty ws else w ∷ non_empty ws

abbrev pub full_name_of : String → String → String → String
full_name_of first last email =
    let joined = join_words (non_empty (first ∷ last ∷ [])) in
    if str_eq joined "" then email else joined

unfoldable pub build_principal : Staff → AuthStaff
build_principal s = record {
  staff_id = s.id;
  email = s.email;
  is_admin = s.staff_group.is_admin;
  permissions = s.staff_group.permissions;
  first_name = s.first_name;
  last_name = s.last_name;
  full_name = full_name_of s.first_name s.last_name s.email;
}

pub record Issued : Type 0 where
  pub access_token : ℕ
  pub refresh_token : ℕ
  pub refresh_jti : ℕ

-- The row with a given email.
abbrev pub staff_by_email : String → AuthDb → Option Staff
staff_by_email email db = find? (λ s. str_eq s.email email) db.staff

abbrev pub staff_by_id : ℕ → AuthDb → Option Staff
staff_by_id id db = find? (λ s. s.id == id) db.staff

abbrev pub enabled : Option Staff → Option Staff
enabled none = none
enabled (some s) = if s.is_enabled then some s else none

module _ (c : Crypto) (rand : Random) where
  unfoldable pub issue_tokens : ℕ → AuthStaff → ℕ → ℕ → ℕ → Issued
  issue_tokens now p staff_id auth_version family_id = record {
    access_token = c.sign_access now (record {
      principal = p;
      sub = staff_id;
      av = some auth_version;
      issued_at_ms = some now;
      iat = some (now / 1000);
      jti = some rand.access_jti;
    });
    refresh_token =
        c.sign_refresh now (record { sub = staff_id; jti = rand.refresh_jti; fid = family_id });
    refresh_jti = rand.refresh_jti;
  }

  -- The row that stores a refresh token.
  unfoldable pub refresh_row : ℕ → ℕ → ℕ → ℕ → ℕ → ℕ → RefreshToken
  refresh_row now staff_id raw jti family_id auth_version = record {
    staff_id = staff_id;
    jti = jti;
    family_id = family_id;
    auth_version = auth_version;
    token_hash = c.hash_password rand.salt raw;
    expires_at = now + c.refresh_ttl * 1000;
    revoked_at = none;
  }

  unfoldable pub persist_refresh_token : ℕ → AuthDb → ℕ → ℕ → ℕ → ℕ → ℕ → AuthDb
  unfolding refresh_row
  persist_refresh_token now db staff_id raw jti family_id auth_version = record db {
    refresh_tokens =
        db.refresh_tokens ++ refresh_row now staff_id raw jti family_id auth_version ∷ [];
  }

abbrev check_password : Crypto → ℕ → Option Staff → Result Staff
check_password c password none = err invalid_credentials
check_password c password (some s) =
    if c.verify_password s.password_hash password then ok s else err invalid_credentials

-- The decoy hash that a missing account is verified against changes no result.
unfoldable pub validate_staff : Crypto → AuthDb → String → ℕ → Result Staff
unfolding find?
validate_staff c db email password = check_password c password (enabled (staff_by_email email db))

-- The two stores.
pub record World : Type 0 where
  pub db : AuthDb
  pub redis : Redis

pub record LoginResult : Type 0 where
  pub access_token : ℕ
  pub refresh_token : ℕ
  pub staff : AuthStaff

abbrev pub set_last_login : ℕ → ℕ → AuthDb → AuthDb
set_last_login id now db = record db {
  staff = update_where (λ s. s.id == id) (λ s. record s { last_login_at = some now }) db.staff;
}

abbrev pub login_db : Crypto → Random → ℕ → AuthDb → Staff → Issued → AuthDb
login_db c rand now db s t = set_last_login s.id now (
    persist_refresh_token c rand now db s.id t.refresh_token t.refresh_jti rand.family_id
      s.auth_version)

-- `login` behind the throttle's first test.
unfoldable pub login_checked :
    Crypto → Random → ℕ → World → String → Option String → Result Staff → World × Result LoginResult
unfolding clear record_failure persist_refresh_token issue_tokens build_principal
login_checked c rand now w email ip (err e) =
    (record w { redis = record_failure c.hmac now w.redis email ip }, err e)
login_checked c rand now w email ip (ok s) =
    let p = build_principal s in
    let t = issue_tokens c rand now p s.id s.auth_version rand.family_id in
    (
      record { db = login_db c rand now w.db s t; redis = clear c.hmac w.redis email ip },
      ok (record { access_token = t.access_token; refresh_token = t.refresh_token; staff = p }),
    )

abbrev pub throttled :
    World → Result (Unit {0}) → World × Result LoginResult → World × Result LoginResult
throttled w (err e) r = (w, err e)
throttled w (ok _) r = r

unfoldable pub login :
    Crypto → Random → ℕ → World → String → ℕ → Option String → World × Result LoginResult
unfolding assert_not_throttled validate_staff login_checked
login c rand now w email password ip =
    throttled w (assert_not_throttled c.hmac now w.redis email ip)
      (login_checked c rand now w email ip (validate_staff c w.db email password))
