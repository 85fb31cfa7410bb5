-- ===== src/Auth/Throttle.antt =====
-- apps/api/src/auth/login-throttle.service.ts and token-blocklist.service.ts: what they keep in
-- Redis, under their own keys. `up` says whether Redis answers; a key is gone at its expiry.
use Prim.Native.String.{String}
use text.Mathlib.Text.{◌==◌ as str_eq}
use kayaka_style_hd.Prelude.{
  ℕ, ◌+◌, ◌*◌, Bool, true, false, not, ◌&&◌, ◌||◌, Option, none, some, List, [], ◌∷◌, ltb, leb,
  ◌==◌, if◌then◌else◌, any, find?, drop_where,
}
use kayaka_style_hd.Auth.Store.{too_many_attempts, Result, ok, err}

-- `th:login:<hmac(email)>:<ip>`
pub record FailureKey : Type 0 where
  pub email_hash : ℕ
  pub ip : String

pub record FailureCount : Type 0 where
  pub key : FailureKey
  pub count : ℕ
  pub expires_at : ℕ

-- `th:revoked:<jti>`
pub record BlockedJti : Type 0 where
  pub jti : ℕ
  pub expires_at : ℕ

-- `th:staffcutoff:<staffId>`
pub record StaffCutoff : Type 0 where
  pub staff_id : ℕ
  pub cutoff_ms : ℕ
  pub expires_at : ℕ

pub record Redis : Type 0 where
  pub up : Bool
  pub failures : List FailureCount
  pub blocked : List BlockedJti
  pub cutoffs : List StaffCutoff

abbrev pub threshold : ℕ
threshold = 10

-- 15 minutes, in seconds.
abbrev pub window_seconds : ℕ
window_seconds = 900

abbrev pub same_key : FailureKey → FailureKey → Bool
same_key a b = a.email_hash == b.email_hash && str_eq a.ip b.ip

-- GET: the count that has not expired.
unfoldable pub failure_count : ℕ → FailureKey → List FailureCount → Option ℕ
failure_count now k [] = none
failure_count now k (f ∷ fs) =
    if same_key f.key k && ltb now f.expires_at then some f.count else failure_count now k fs

abbrev pub drop_key : FailureKey → List FailureCount → List FailureCount
drop_key k = drop_where (λ f. same_key f.key k)

abbrev pub or_zero : Option ℕ → ℕ
or_zero none = 0
or_zero (some n) = n

-- The script INCR_EXPIRE_LUA: increment, and set the window anew.
unfoldable pub incr_expire : ℕ → FailureKey → List FailureCount → List FailureCount
incr_expire now k fs =
    record {
      key = k;
      count = or_zero (failure_count now k fs) + 1;
      expires_at = now + window_seconds * 1000;
    }
    ∷ drop_key k fs

abbrev pub at_threshold : Option ℕ → Bool
at_threshold none = false
at_threshold (some n) = leb threshold n

-- `hmac` is `createHmac` over the trimmed and lower-cased email.
module _ (hmac : String → ℕ) where
  abbrev pub key : String → String → FailureKey
  key email ip = record { email_hash = hmac email; ip = ip }

  -- A request without an IP is never throttled.
  unfoldable pub assert_not_throttled : ℕ → Redis → String → Option String → Result (Unit {0})
  assert_not_throttled now r email none = ok tt
  assert_not_throttled now r email (some ip) =
      if r.up && at_threshold (failure_count now (key email ip) r.failures)
      then err too_many_attempts
      else ok tt

  unfoldable pub record_failure : ℕ → Redis → String → Option String → Redis
  unfolding incr_expire
  record_failure now r email none = r
  record_failure now r email (some ip) =
      if r.up then record r { failures = incr_expire now (key email ip) r.failures } else r

  unfoldable pub clear : Redis → String → Option String → Redis
  clear r email none = r
  clear r email (some ip) =
      if r.up then record r { failures = drop_key (key email ip) r.failures } else r

-- SET … EX: at most one entry for a key.
unfoldable pub block : ℕ → Redis → ℕ → ℕ → Redis
block now r jti ttl_seconds = if ttl_seconds == 0 || not r.up then r else record r {
  blocked =
      record { jti = jti; expires_at = now + ttl_seconds * 1000 }
      ∷ drop_where (λ b. b.jti == jti) r.blocked;
}

unfoldable pub is_blocked : ℕ → Redis → Option ℕ → Bool
is_blocked now r none = false
is_blocked now r (some jti) = r.up && any (λ b. b.jti == jti && ltb now b.expires_at) r.blocked

-- `!staffId` holds of the id 0 too.
unfoldable pub revoke_staff_access_before : ℕ → Redis → ℕ → ℕ → Redis
revoke_staff_access_before now r staff_id ttl_seconds =
    if staff_id == 0 || ttl_seconds == 0 || not r.up then r else record r {
      cutoffs =
          record { staff_id = staff_id; cutoff_ms = now; expires_at = now + ttl_seconds * 1000 }
          ∷ drop_where (λ c. c.staff_id == staff_id) r.cutoffs;
    }

-- A cutoff below 10 ^ 12 was stored in seconds.
abbrev pub cutoff_in_ms : ℕ → ℕ
cutoff_in_ms stored = if ltb stored 1_000_000_000_000 then stored * 1000 else stored

abbrev issued_by : Option ℕ → Option ℕ → Option ℕ
issued_by (some ms) iat = some ms
issued_by none (some iat) = if iat == 0 then none else some (iat * 1000)
issued_by none none = none

-- `!issuedAtMs && !iat`: neither claim is there, or each is 0.
abbrev lacks : Option ℕ → Bool
lacks none = true
lacks (some n) = n == 0

abbrev stale_by : Option ℕ → Option StaffCutoff → Bool
stale_by (some issued) (some c) = leb issued (cutoff_in_ms c.cutoff_ms)
stale_by _ _ = false

unfoldable pub is_staff_token_stale : ℕ → Redis → ℕ → Option ℕ → Option ℕ → Bool
unfolding find?
is_staff_token_stale now r staff_id issued_at_ms iat =
    if staff_id == 0 || lacks issued_at_ms && lacks iat || not r.up
    then false
    else stale_by (issued_by issued_at_ms iat)
        (find? (λ c. c.staff_id == staff_id && ltb now c.expires_at) r.cutoffs)
