-- ===== src/Auth/ResetOnce.antt =====
-- A password-reset link works once and ends every session: `resetPassword` of
-- apps/api/src/auth/auth.service.ts.
use kayaka_style_hd.Prelude.{
  ℕ, ◌+◌, ◌≡◌, refl, Bool, true, false, ◌&&◌, Option, none, some, arith, ◌==◌, if◌then◌else◌,
  is_none, is_some, count_where, update_where,
}
use kayaka_style_hd.Auth.Store.{PasswordReset, AuthDb, AuthError, err}
use kayaka_style_hd.Auth.Tokens.{Crypto, World, staff_by_id}
use kayaka_style_hd.Auth.Sessions.{is_live_of, is_pending_of, use_up}
use kayaka_style_hd.Auth.Refresh.{revoke}
use kayaka_style_hd.Auth.Reset.{
  is_usable, is_stamped, new_password, reset_by_hash, usable_by_hash, apply_reset,
  reset_transaction, reset_password, apply_found, after_check, finish_reset,
}
use kayaka_style_hd.Auth.Revocation.{revoked_of, burnt_of}

-- A transaction that commits has applied a link that was usable.
module _ (now password_hash id : ℕ) (db db' : AuthDb) where
  pub apply_found-inversion :
      (b : Bool) (o : Option PasswordReset)
      → apply_found now password_hash db (if b then o else none) ≡ some (id, db')
      → (r : PasswordReset) × (o ≡ some r)
        × (r.staff_id ≡ id)
        × (apply_reset now password_hash r db ≡ some db')
  apply_found-inversion false o e = absurd (cc)
  apply_found-inversion true none e = absurd (cc)
  apply_found-inversion true (some r) e = (r, refl, ground arith, ground arith)

-- The two counts that a committing transaction has tested.
module _ (now password_hash : ℕ) (r : PasswordReset) (db db' : AuthDb)
    (done : apply_reset now password_hash r db ≡ some db') where
  pub apply_reset-stamped : count_where (is_stamped r) db.staff ≡ 1
  unfolding apply_reset
  apply_reset-stamped = ground arith

  pub apply_reset-staff :
      db'.staff ≡ update_where (is_stamped r) (new_password password_hash) db.staff
  unfolding apply_reset
  apply_reset-staff = ground arith

  apply_reset-tokens :
      db'.refresh_tokens ≡ update_where (is_live_of r.staff_id) (revoke now) db.refresh_tokens
  unfolding apply_reset
  apply_reset-tokens = ground arith

  pub apply_reset-resets :
      db'.password_resets
      ≡ update_where
          (is_pending_of r.staff_id)
          (use_up now)
          (update_where (λ x. x.id == r.id && is_usable now x) (use_up now) db.password_resets)
  unfolding apply_reset
  apply_reset-resets = ground arith

-- The effect of a reset that commits: the link was usable, one enabled staff member has the version
-- that the link is stamped with and gets the new password and the next version, the others stay as
-- they are, and no live refresh token and no pending link of the member is left.
pub reset_transaction_lem :
    (now h password_hash id : ℕ) (candidate : PasswordReset) (db db' : AuthDb)
    → reset_transaction now h password_hash candidate db ≡ some (id, db')
    → (r : PasswordReset) × (usable_by_hash now h db ≡ some r)
      × (r.staff_id ≡ id)
      × (count_where (is_stamped r) db.staff ≡ 1)
      × (db'.staff
          ≡ update_where
              (λ s. s.id == r.staff_id && s.is_enabled && s.auth_version == r.auth_version)
              (λ s. record s { password_hash = password_hash; auth_version = s.auth_version + 1 })
              db.staff)
      × (count_where (is_live_of id) db'.refresh_tokens ≡ 0)
      × (count_where (is_pending_of id) db'.password_resets ≡ 0)
unfolding reset_transaction
reset_transaction_lem now h password_hash id candidate db db' done =
    let (r, usable, mine, applied) =
      apply_found-inversion now password_hash id db db'
        (is_some (staff_by_id candidate.staff_id db)) (usable_by_hash now h db) done in
    (
      r,
      usable,
      mine,
      apply_reset-stamped now password_hash r db db' applied,
      apply_reset-staff now password_hash r db db' applied,
      rw (← mine, apply_reset-tokens now password_hash r db db' applied)
          (revoked_of now r.staff_id db.refresh_tokens),
      rw (← mine, apply_reset-resets now password_hash r db db' applied)
          (burnt_of now r.staff_id _),
    )

pub usable-eq-some :
    (now h : ℕ) (db : AuthDb) (r : PasswordReset)
    → usable_by_hash now h db ≡ some r
    → (reset_by_hash h db ≡ some r) × (is_usable now r ≡ true)
usable-eq-some now h db r e = go (reset_by_hash h db) e
  where
    go :
        (o : Option PasswordReset)
        → (elim o [ none ↦ none | some x ↦ if is_usable now x then some x else none ]) ≡ some r
        → (o ≡ some r) × (is_usable now r ≡ true)
    go none e = absurd (cc)
    go (some x) e = ground arith

pub usable_of_spent :
    (later h : ℕ) (db : AuthDb) (r : PasswordReset)
    → reset_by_hash h db ≡ some r
    → is_none r.used_at ≡ false
    → usable_by_hash later h db ≡ none
usable_of_spent later h db r e used = go (reset_by_hash h db) e
  where
    go :
        (o : Option PasswordReset)
        → o ≡ some r
        → (elim o [ none ↦ none | some x ↦ if is_usable later x then some x else none ]) ≡ none
    go none f = absurd (cc)
    go (some x) f = ground arith

-- A request with a link that is refused changes nothing.
pub reset_password_refused :
    (c : Crypto) (salt now : ℕ) (w : World) (token password : ℕ) (e : AuthError)
    → (reset_password c salt now w token password).1 ≡ err e
    → (reset_password c salt now w token password).0 ≡ w
unfolding reset_password
reset_password_refused c salt now w token password e = go (usable_by_hash now (c.sha256 token) w.db)
  where
    finish :
        (o : Option (ℕ × AuthDb))
        → (finish_reset c now w o).1 ≡ err e
        → (finish_reset c now w o).0 ≡ w
    finish none f = refl
    finish (some (id, db)) f = absurd (cc)

    go :
        (o : Option PasswordReset)
        → (after_check c now (c.sha256 token) (c.hash_password salt password) w o).1 ≡ err e
        → (after_check c now (c.sha256 token) (c.hash_password salt password) w o).0 ≡ w
    go none f = refl
    go (some r) f = finish _ f
