-- ===== src/Auth/Invariant.antt =====
-- Every step of an auth request keeps the invariant of the refresh families.
use kayaka_style_hd.Prelude.{ℕ, ◌≤◌, ◌≡◌, refl, some, arith, count_where}
use kayaka_style_hd.Auth.Store.{PasswordReset, AuthDb}
use kayaka_style_hd.Auth.Throttle.{Redis}
use kayaka_style_hd.Auth.Tokens.{Crypto, World}
use kayaka_style_hd.Auth.Refresh.{is_live_family}
use kayaka_style_hd.Auth.Sessions.{
  is_live_of, revoke_all_for_staff, revoke_all_for_group, revoke_staff_sessions,
}
use kayaka_style_hd.Auth.Reset.{reset_transaction}
use kayaka_style_hd.Auth.OneActive.{System, IsValid}
use kayaka_style_hd.Auth.Interleaving.{with_db, Step, Reach}
use kayaka_style_hd.Auth.Steps.{
  revoke-IsValid, rotate-IsValid, settle-IsValid, login-IsValid, prepare-IsValid, clean_up-IsValid,
  revoke_twice-IsValid,
}

module _ (c : Crypto) where
  log_out-IsValid :
      (s : System) (now id : ℕ) (redis : Redis) (w : World)
      → IsValid s
      → revoke_staff_sessions c.access_ttl now id (record { db = s.db; redis = redis }) ≡ some w
      → IsValid (with_db s w.db)
  unfolding revoke_staff_sessions
  log_out-IsValid s now id redis w v e =
      revoke_twice-IsValid s (is_live_of id) (is_live_of id) now now w.db v (ground arith)

  reset-IsValid :
      (s : System) (now token_hash password_hash id : ℕ) (candidate : PasswordReset) (db : AuthDb)
      → IsValid s
      → reset_transaction now token_hash password_hash candidate s.db ≡ some (id, db)
      → IsValid (with_db s db)
  unfolding reset_transaction
  reset-IsValid s now token_hash password_hash id candidate db v e =
      revoke-IsValid s v (is_live_of id) now db (ground arith)

  -- Each part of each request keeps the invariant.
  Step-IsValid : {s t : System} → Step c s t → IsValid s → IsValid t
  unfolding revoke_all_for_staff revoke_all_for_group
  Step-IsValid (Step.read s rand now raw p e) v = prepare-IsValid s v c rand now raw p e
  Step-IsValid (Step.commit s now p m f) v = rotate-IsValid s v now p m f
  Step-IsValid (Step.finish s now n p m) v = settle-IsValid s v now n p
  Step-IsValid (Step.log_in s rand now redis email password ip f g) v =
      login-IsValid s v c rand now redis email password ip f g
  Step-IsValid (Step.log_out s now id redis w e) v = log_out-IsValid s now id redis w v e
  Step-IsValid (Step.revoke_staff s now id redis) v = revoke-IsValid s v (is_live_of id) now _ refl
  Step-IsValid (Step.revoke_group s now id redis) v = revoke-IsValid s v _ now _ refl
  Step-IsValid (Step.reset_password s now h k id r db e) v = reset-IsValid s now h k id r db v e
  Step-IsValid (Step.clean_up s now id) v = clean_up-IsValid s v now id

  Reach-IsValid : {s : System} → Reach c s → IsValid s
  unfolding count_where
  Reach-IsValid (Reach.start db e) = record {
    one_active = λ f. rw e (omega arith);
    unique_jti = λ j. rw e (omega arith);
    agrees = tt;
    keeps_family = tt;
  }
  Reach-IsValid (Reach.step r st) = Step-IsValid st (Reach-IsValid r)

  -- However logins, refreshes, logouts, revocations, password resets and clean-ups interleave, with
  -- UUIDs that do not collide, a refresh family never has two tokens that are not revoked.
  pub Reach-OneActive :
      (s : System) → Reach c s → (f : ℕ) → count_where (is_live_family f) s.db.refresh_tokens ≤ 1
  Reach-OneActive s r = (Reach-IsValid r).one_active
