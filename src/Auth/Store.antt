-- ===== src/Auth/Store.antt =====
-- The rows that the auth services of apps/api/src/auth keep in PostgreSQL, and their results.
-- A time is a number of milliseconds since the epoch. A digest, a raw token, a password or a UUID
-- is a number: the code only compares them, or hands them to a library.
use Prim.Native.String.{String}
use kayaka_style_hd.Prelude.{ℕ, Bool, Option, List, ◌≡◌, refl}
pub use kayaka_style_hd.Prelude.{
  Outcome, ok, err, ◌>>=◌, ◌>>◌, require, found, is_ok, bind-eq-ok, require-eq-ok, ok-injective,
}

pub record StaffGroup : Type 0 where
  pub id : ℕ
  pub is_admin : Bool
  pub permissions : List String

pub record Staff : Type 0 where
  pub id : ℕ
  pub email : String
  pub first_name : String
  pub last_name : String
  pub password_hash : ℕ
  pub is_enabled : Bool
  pub auth_version : ℕ
  pub last_login_at : Option ℕ
  pub staff_group : StaffGroup

pub record RefreshToken : Type 0 where
  pub staff_id : ℕ
  pub jti : ℕ
  pub family_id : ℕ
  pub auth_version : ℕ
  pub token_hash : ℕ
  pub expires_at : ℕ
  pub revoked_at : Option ℕ

pub record PasswordReset : Type 0 where
  pub id : ℕ
  pub staff_id : ℕ
  pub auth_version : ℕ
  pub token_hash : ℕ
  pub expires_at : ℕ
  pub used_at : Option ℕ

-- The tables. `next_reset_id` is the sequence behind PasswordReset's autoincrement key.
pub record AuthDb : Type 0 where
  pub staff : List Staff
  pub refresh_tokens : List RefreshToken
  pub password_resets : List PasswordReset
  pub next_reset_id : ℕ

-- The exceptions that the services throw, by their messages.
pub data AuthError : Type 0 where
  invalid_credentials too_many_attempts : AuthError
  invalid_refresh_token refresh_token_not_found refresh_token_expired : AuthError
  staff_not_found_or_disabled session_invalidated refresh_token_reuse : AuthError
  invalid_reset_token : AuthError
  missing_access_token invalid_access_token token_revoked session_revoked : AuthError
  auth_state_unavailable : AuthError

abbrev pub Result {ℓ} : Type ℓ → Type ℓ
Result A = Outcome AuthError A

pub found-eq-ok :
    {A B : Type 0} (o : Option A) (e : AuthError) (f : A → Result B) {b : B}
    → (found o e >>= f) ≡ ok b
    → (a : A) × (o ≡ Option.some a) × (f a ≡ ok b)
found-eq-ok Option.none e f h = absurd (cc)
found-eq-ok (Option.some a) e f h = (a, refl, h)
