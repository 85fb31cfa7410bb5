-- ===== src/Auth/Interleaving.antt =====
-- The auth requests of apps/api/src/auth as steps on shared tables, and the invariant of all runs.
use mathlib.Core.List.{Memᴰ}
use Prim.Native.String.{String}
use kayaka_style_hd.Prelude.{ℕ, ◌≡◌, false, Option, some, [], ◌∷◌, ◌==◌, All, count_where}
use kayaka_style_hd.Auth.Store.{PasswordReset, AuthDb, ok}
use kayaka_style_hd.Auth.Throttle.{Redis}
use kayaka_style_hd.Auth.Tokens.{Crypto, Random, World, login}
use kayaka_style_hd.Auth.Refresh.{Prepared, prepare, rotate, settle, cleanup_expired}
use kayaka_style_hd.Auth.Sessions.{
  revoke_all_for_staff, revoke_all_for_group, revoke_staff_sessions,
}
use kayaka_style_hd.Auth.Reset.{reset_transaction}
use kayaka_style_hd.Auth.OneActive.{has_jti, in_family, System}

-- No stored row and no request holds the jti: the unique index, and UUIDs that do not collide.
pub record IsFresh (j : ℕ) (s : System) : Type 0 where
  pub unstored : count_where (has_jti j) s.db.refresh_tokens ≡ 0
  pub unheld : All (λ p. (j == p.row.jti) ≡ false) s.in_flight

-- A family is started once.
abbrev pub IsNewFamily : ℕ → System → Type 0
IsNewFamily f s = count_where (in_family f) s.db.refresh_tokens ≡ 0

abbrev pub with_db : System → AuthDb → System
with_db s db = record s { db = db }

-- One part of one request. Requests of all kinds run in any order and number.
pub data Step (c : Crypto) : System → System → Type 0 where
  -- A refresh has done its reads.
  read :
      (s : System) (rand : Random) (now raw : ℕ) (p : Prepared)
      → prepare c rand now s.db raw ≡ ok p
      → Step c s (record s { in_flight = p ∷ s.in_flight })
  -- Its transaction.
  commit :
      (s : System) (now : ℕ) (p : Prepared)
      → Memᴰ p s.in_flight
      → IsFresh p.successor.jti s
      → Step c s (with_db s (rotate now p s.db).0)
  -- What follows a transaction that consumed `n` rows.
  finish :
      (s : System) (now n : ℕ) (p : Prepared)
      → Memᴰ p s.in_flight
      → Step c s (with_db s (settle now p n s.db).0)
  log_in :
      (s : System) (rand : Random) (now : ℕ) (redis : Redis) (email : String) (password : ℕ)
      (ip : Option String)
      → IsFresh rand.refresh_jti s
      → IsNewFamily rand.family_id s
      → Step c s (
          with_db s (login c rand now (record { db = s.db; redis = redis }) email password ip).0.db)
  log_out :
      (s : System) (now id : ℕ) (redis : Redis) (w : World)
      → revoke_staff_sessions c.access_ttl now id (record { db = s.db; redis = redis }) ≡ some w
      → Step c s (with_db s w.db)
  revoke_staff :
      (s : System) (now id : ℕ) (redis : Redis)
      → Step c s (
          with_db s
            (revoke_all_for_staff c.access_ttl now id (record { db = s.db; redis = redis })).db)
  revoke_group :
      (s : System) (now id : ℕ) (redis : Redis)
      → Step c s (
          with_db s
            (revoke_all_for_group c.access_ttl now id (record { db = s.db; redis = redis })).db)
  reset_password :
      (s : System) (now token_hash password_hash id : ℕ) (candidate : PasswordReset) (db : AuthDb)
      → reset_transaction now token_hash password_hash candidate s.db ≡ some (id, db)
      → Step c s (with_db s db)
  clean_up : (s : System) (now id : ℕ) → Step c s (with_db s (cleanup_expired now id s.db))

-- The states that the requests reach from a database with no refresh token.
pub data Reach (c : Crypto) : System → Type 0 where
  start : (db : AuthDb) → db.refresh_tokens ≡ [] → Reach c (record { db = db; in_flight = [] })
  step : {s t : System} → Reach c s → Step c s t → Reach c t
